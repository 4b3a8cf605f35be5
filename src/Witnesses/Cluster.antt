-- ===== src/Witnesses/Cluster.antt =====
-- A cluster of two masters that answer, and the catalog of a small universe.
use mathlib.Core.List.{Permᴰ}
use mathlib.Core.List.Perm
use yb_doctor.Base.{
  String, true, false, ◌≡◌, refl, none, some, List, [], ◌∷◌, map, has, pos, get, str_eq,
  if◌then◌else◌, ok, err, is_err, cut_last, trim_space, has_prefix, trim_end, trim_prefix,
  cut_before,
}
use yb_doctor.Float.{Float64, Fraction, frac, fraction_float}
use yb_doctor.Yugabyte.Bodies.{Json}
use yb_doctor.Yugabyte.Prom.{ParsedRuntime, empty_runtime, split_prom}
use yb_doctor.Yugabyte.Prom.Samples.{split_prom-sample}
use yb_doctor.Yugabyte.Snapshots.{Answers, parse_snapshot, empty_performance}
use yb_doctor.Yugabyte.Snapshots.Failures.{parse_snapshot_fails}
use yb_doctor.Yugabyte.Ysql.{Catalog, host_of_addr, YsqlServerRow, YsqlTabletRow, overlay_ysql}
use yb_doctor.Yugabyte.Ysql.Overlay.{roles_of, overlay_roles}
use yb_doctor.Yugabyte.Queries.{query_rows, query_rows_exact}
use yb_doctor.Yugabyte.Client.{
  Client, Http, fetch, checked, join_url, find_leader, last_claim, claims_lead, any_loopback,
  loopback_host, get_entities, first_entities,
}
use yb_doctor.Yugabyte.Client.Leader.{find_leader_ok, find_leader_fails}
use yb_doctor.Yugabyte.Client.Metrics.{write_all}
use yb_doctor.Yugabyte.Client.Order.{write_all_order}
use yb_doctor.Yugabyte.Client.Hosts.{any_loopback_ipv4}
use yb_doctor.Yugabyte.Client.Collect.{Schedule, collect, required}
use yb_doctor.Yugabyte.Client.Failures.{apis, collect_fails}
use yb_doctor.Witnesses.Data.{town}

-- Fractions that are read from two texts.
abbrev reader : Float64 Fraction
reader = record fraction_float {
  parse = λ s.
      if str_eq s "5"
      then some (frac 5 1)
      else if str_eq s "1700"
      then some (frac 1700 1)
      else none;
}

split_prom-sample_example : split_prom ⦃f = reader⦄ "cpu_usage 5" ≡ some ("cpu_usage", frac 5 1)
unfolding cut_last trim_space
split_prom-sample_example =
    (split_prom-sample ⦃f = reader⦄ "cpu_usage" "5" "1700" (frac 5 1) (frac 1700 1) (refl, tt)
      (refl, (refl, (refl, (refl, tt)))) refl refl refl refl (λ before mid h. cc)).0

abbrev pub json : Json Fraction
json = record {
  config = λ _. ok (record { num_replicas = pos 3; placement_blocks = [] });
  masters = λ _. ok [];
  tservers = λ _. ok [];
  tserver = λ _. err "bad";
  entities = λ _. err "bad";
  health = λ _. err "bad";
  replication = λ _. err "bad";
  idle = λ _. err "bad";
  flags = λ _. err "bad";
  is_leader = λ s. if str_eq s "yes" then ok true else ok false;
}

-- The second master claims to lead, and nothing else is answered.
abbrev pub http : Http
http = record {
  new_request = λ url. ok url;
  send = λ url.
      if str_eq url "http://m2/api/v1/is-leader"
      then ok (record { status = pos 200; body = ok "yes" })
      else err "down";
}

find_leader_ok_example : has "m2" ("m1" ∷ "m2" ∷ []) ≡ true
unfolding find_leader last_claim claims_lead fetch checked join_url trim_end has_prefix
find_leader_ok_example =
    (find_leader_ok json http ("m1" ∷ "m2" ∷ []) ("m2" ∷ "m1" ∷ []) (Perm.swap "m1" "m2" []) refl
      "m2" refl).0

find_leader_fails_example :
    is_err (find_leader json http ("m1" ∷ "m2" ∷ []) ("m2" ∷ "m1" ∷ [])) ≡ false
unfolding claims_lead fetch checked join_url trim_end has_prefix
find_leader_fails_example =
    find_leader_fails json http ("m1" ∷ "m2" ∷ []) ("m2" ∷ "m1" ∷ []) (Perm.swap "m1" "m2" []) refl

abbrev texts : Answers
texts = record {
  masters = "";
  tservers = "";
  config = "";
  health = "";
  replication = "";
  entities = "<html>";
}

parse_snapshot_fails_example : is_err (parse_snapshot json (pos 0) texts) ≡ true
unfolding has_prefix
parse_snapshot_fails_example = parse_snapshot_fails json (pos 0) texts

abbrev client : Client Fraction
client = record {
  http_timeout = pos 1;
  tls_skip_verify = false;
  tls_ca = "";
  masters = "m1" ∷ "m2" ∷ [];
  max_conc = pos 8;
  tserver_http_base = pos 9000;
  ysql_addr = "";
  ysql_user = "";
  ysql_password = "";
  ysql_db = "";
  ysql_ssl_mode = "";
  ysql_timeout = pos 1;
  flag_allow = [];
  p99_warn_ms = frac 50 1;
}

abbrev catalog : Catalog Fraction
catalog = record { statements = err "down"; tablets = err "down"; servers = err "down" }

abbrev pub schedule : Schedule Fraction
schedule = record { leaders = λ ms. ms; apis = apis; metrics = λ ws. ws }

collect_fails_example : is_err (collect json http catalog schedule (pos 0) client) ≡ true
unfolding find_leader last_claim claims_lead fetch checked join_url trim_end has_prefix required
    get_entities first_entities
collect_fails_example =
    collect_fails json http catalog schedule (pos 0) client "m2" refl (Perm.refl apis)

abbrev measured : String → ParsedRuntime Fraction
measured flag = record {
  node_runtime = record empty_runtime { flags = (flag, "1") ∷ [] };
  p99_ms = frac 3 1;
}

write_all_order_example :
    get "n1" (write_all (("n1", measured "a") ∷ ("n2", measured "b") ∷ []) empty_performance).nodes
    ≡ get "n1"
        (write_all (("n2", measured "b") ∷ ("n1", measured "a") ∷ []) empty_performance).nodes
write_all_order_example =
    write_all_order (("n1", measured "a") ∷ ("n2", measured "b") ∷ [])
      (("n2", measured "b") ∷ ("n1", measured "a") ∷ []) empty_performance "n1"
      (Permᴰ.swap refl refl) (refl, (refl, tt))

abbrev servers : List YsqlServerRow
servers = record { host = "h"; uuid = "u"; cloud = "aws"; region = "eu"; zone = "a" } ∷ []

-- Two replicas on one host, of which the first leads.
abbrev tablets : List YsqlTabletRow
tablets =
    record {
      tablet_id = "x";
      db_name = "";
      rel_name = "t";
      leader = "h:5433";
      replicas = "h:5433" ∷ "h:5434" ∷ "k:5433" ∷ [];
    }
    ∷ []

-- Both replicas on the leader's host are leaders.
overlay_roles_example :
    map roles_of (overlay_ysql town servers tablets).tablets
    ≡ ("LEADER" ∷ "LEADER" ∷ "FOLLOWER" ∷ []) ∷ []
unfolding host_of_addr cut_before
overlay_roles_example = overlay_roles town servers tablets refl

any_loopback_ipv4_example : any_loopback ("[::1]:7000" ∷ []) ≡ false
unfolding loopback_host trim_prefix cut_before has_prefix
any_loopback_ipv4_example = any_loopback_ipv4 ("[::1]:7000" ∷ [])

query_rows_exact_example :
    query_rows {A = String} "yb_servers"
      (ok (record { scans = ok "a" ∷ ok "b" ∷ []; failed = none }))
    ≡ ok ("a" ∷ "b" ∷ [])
query_rows_exact_example =
    (query_rows_exact {A = String} "yb_servers"
        (record { scans = ok "a" ∷ ok "b" ∷ []; failed = none }) ("a" ∷ "b" ∷ [])).1
      (refl, refl)
