-- ===== src/Yugabyte/Servers.antt =====
-- internal/adapter/outbound/yugabyte/parse.go: the configuration, the masters and the tablet servers.
use yb_doctor.Base.{
  String, Bool, true, ◌&&◌, ◌||◌, not, Option, none, some, List, [], ◌∷◌, ◌++◌, map, foldl, ℤ, pos,
  ◌+ℤ◌, ◌*ℤ◌, wrap_64, ltb_ℤ, Dict, str_eq, show_ℤ, concat, equal_fold, contains, cut_before,
  if◌then◌else◌, Result, ok, and_then, ◌>>=◌,
}
use yb_doctor.Float.{Float64, nought, whole}
use yb_doctor.Domain.Ids.{Placement, role_leader, role_follower, status_alive, status_dead}
use yb_doctor.Domain.Cluster.{Master, TServer}
use yb_doctor.Yugabyte.Bodies.{Address, MasterBody, PathMetric, TServerBody, Json}

-- `if err := json.Unmarshal(raw, &body); err != nil { return …, fmt.Errorf(op + ": %w", err) }`
abbrev pub decoded : {A : Type 0} → String → Result A → Result A
decoded op r = and_then op r (λ body. body)

-- `if v == "" { v = other }`
abbrev pub or_else : String → String → String
or_else v other = if str_eq v "" then other else v

unfoldable pub first_positive : List ℤ → ℤ
first_positive [] = pos 0
first_positive (v ∷ vs) = if ltb_ℤ (pos 0) v then v else first_positive vs

unfoldable pub show_address : Address → String
show_address a = concat (a.host ∷ ":" ∷ show_ℤ a.port ∷ [])

unfoldable pub first_address : List Address → String
unfolding show_address
first_address [] = ""
first_address (a ∷ _) = show_address a

unfoldable pub first_host : List Address → String
first_host [] = ""
first_host (a ∷ _) = a.host

unfoldable pub is_healthy : Option String → Bool
is_healthy none = true
is_healthy (some text) = str_eq text "" || str_eq text "<nil>"

unfoldable pub read_master : MasterBody → Master
unfolding first_address first_host is_healthy
read_master m = record {
  id = m.permanent_uuid;
  host = or_else (first_host m.http) (first_host m.private_rpc);
  http_addr = first_address m.http;
  rpc_addr = first_address m.private_rpc;
  role = if equal_fold m.role "LEADER" then role_leader else role_follower;
  placement = m.placement;
  healthy = is_healthy m.error;
}

-- The sums of the used and of the whole space, in 64 bits.
unfoldable pub add_path : ℤ × ℤ → PathMetric → ℤ × ℤ
unfolding first_positive
add_path (used, total) p = (
  wrap_64 (used +ℤ first_positive (p.used_space ∷ p.space_used ∷ [])),
  wrap_64 (total +ℤ first_positive (p.total_space ∷ p.total_space_size ∷ [])),
)

module _ {F : Type 0} ⦃f : Float64 F⦄ where
  unfoldable pub disk_used : List PathMetric → F
  disk_used paths =
      let (used, total) = foldl add_path (pos 0, pos 0) paths in
      if ltb_ℤ (pos 0) total then f.mul (f.div (f.of_ℤ used) (f.of_ℤ total)) (whole 100) else nought

  unfoldable pub read_tserver : String → TServerBody F → TServer F
  read_tserver addr body =
      let host = cut_before b':' addr in
      record {
        id = or_else (or_else body.uuid body.permanent_uuid) addr;
        name = host;
        host = host;
        http_addr = if contains addr ":" then addr else concat (host ∷ ":9000" ∷ []);
        rpc_addr = "";
        status =
            if not (str_eq body.status "") && not (equal_fold body.status "ALIVE")
            then status_dead
            else status_alive;
        placement = record {
          cloud = or_else body.cloud_info.cloud body.cloud;
          region = or_else body.cloud_info.region body.region;
          zone = or_else body.cloud_info.zone body.zone;
        };
        uptime = wrap_64 (body.uptime_seconds *ℤ pos 1000000000);
        ram_used_bytes = body.ram_used_bytes;
        disk_used_pct = disk_used body.path_metrics;
        read_ops = body.read_ops_per_sec;
        write_ops = body.write_ops_per_sec;
      }

  module _ (json : Json F) where
    unfoldable pub parse_cluster_config : String → Result (ℤ × List Placement)
    parse_cluster_config raw =
        and_then "unmarshal cluster-config" (json.config raw)
          (λ b. (b.num_replicas, b.placement_blocks))

    unfoldable pub parse_masters : String → Result (List Master)
    parse_masters raw = and_then "unmarshal masters" (json.masters raw) (map read_master)

    unfoldable pub parse_one_tserver : String → String → Result (TServer F)
    parse_one_tserver addr raw =
        and_then (concat ("unmarshal tserver " ∷ addr ∷ [])) (json.tserver raw) (read_tserver addr)

    -- The inner and the outer loop, which append to `out`.
    unfoldable pub parse_group : Dict String → List (TServer F) → Result (List (TServer F))
    parse_group [] out = ok out
    parse_group ((addr, item) ∷ group) out =
        parse_one_tserver addr item >>= (λ ts. parse_group group (out ++ (ts ∷ [])))

    unfoldable pub parse_groups : Dict (Dict String) → List (TServer F) → Result (List (TServer F))
    parse_groups [] out = ok out
    parse_groups ((_, group) ∷ groups) out = parse_group group out >>= parse_groups groups

    unfoldable pub parse_tservers : String → Result (List (TServer F))
    parse_tservers raw =
        decoded "unmarshal tablet-servers" (json.tservers raw)
        >>= (λ nested. parse_groups nested [])
