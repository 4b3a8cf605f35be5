-- ===== src/Yugabyte/Client/Collect.antt =====
-- internal/adapter/outbound/yugabyte/client.go: `Collect`.
use yb_doctor.Base.{String, List, [], ◌∷◌, map, ℤ, Result, ok, err, ◌>>=◌}
use yb_doctor.Float.{Float64}
use yb_doctor.Domain.Cluster.{Snapshot}
use yb_doctor.Yugabyte.Bodies.{Json}
use yb_doctor.Yugabyte.Servers.{decoded}
use yb_doctor.Yugabyte.Entities.{parse_load_balancer}
use yb_doctor.Yugabyte.Prom.{ParsedRuntime, apply_load_balancer_prom}
use yb_doctor.Yugabyte.Snapshots.{Answers, parse_snapshot}
use yb_doctor.Yugabyte.Ysql.{Catalog, enrich_ysql}
use yb_doctor.Yugabyte.Client.{Client, Http, fetch, find_leader, get_entities}
use yb_doctor.Yugabyte.Client.Metrics.{asked, write_all}

-- The requests without which the collection fails.
pub data Api : Type 0 where
  masters_api tservers_api config_api entities_api : Api

-- The orders in which the requests of the three groups end.
pub record Schedule (F : Type 0) : Type 0 where
  pub leaders : List String → List String
  pub apis : List Api
  pub metrics : List (String × ParsedRuntime F) → List (String × ParsedRuntime F)

unfoldable pub required : Http → String → Api → Result String
required http leader masters_api = decoded "masters" (fetch http leader "/api/v1/masters")
required http leader tservers_api =
    decoded "tablet-servers" (fetch http leader "/api/v1/tablet-servers")
required http leader config_api =
    decoded "cluster-config" (fetch http leader "/api/v1/cluster-config")
required http leader entities_api = decoded "dump-entities" (get_entities http leader)

-- The answer, or the empty text where there is none.
unfoldable pub optional : Http → String → String → String
optional http leader path = elim (fetch http leader path) [ ok b ↦ b | err _ ↦ "" ]

-- `g.Wait` gives the first error.
unfoldable pub wait : List (Result String) → Result Unit
wait [] = ok tt
wait (ok _ ∷ rs) = wait rs
wait (err e ∷ rs) = err e

unfoldable pub text_or_empty : Result String → String
text_or_empty (ok s) = s
text_or_empty (err _) = ""

unfoldable pub gather : Http → String → Answers
gather http leader = record {
  masters = text_or_empty (required http leader masters_api);
  tservers = text_or_empty (required http leader tservers_api);
  config = text_or_empty (required http leader config_api);
  health = optional http leader "/api/v1/health-check";
  replication = optional http leader "/api/v1/tablet-replication";
  entities = text_or_empty (required http leader entities_api);
}

module _ {F : Type 0} ⦃f : Float64 F⦄ where
  -- What is added to the snapshot that is parsed.
  unfoldable pub enrich :
      Json F → Http → Catalog F → Schedule F → Client F → String → Snapshot F → Snapshot F
  enrich json http catalog schedule c leader s =
      let s = record s {
        performance = write_all (schedule.metrics (asked json http c s.tservers)) s.performance;
        load_balancer =
            apply_load_balancer_prom F
              (parse_load_balancer json (optional http leader "/api/v1/is-load-balancer-idle")
                (optional http leader "/api/v1/varz"))
              (optional http leader "/prometheus-metrics");
      } in
      enrich_ysql c.ysql_addr catalog s

  unfoldable pub collect :
      Json F → Http → Catalog F → Schedule F → ℤ → Client F → Result (Snapshot F)
  collect json http catalog schedule now c = do
    leader ←
        decoded "find master leader" (find_leader json http c.masters (schedule.leaders c.masters))
    _ ← decoded "collect master apis" (wait (map (required http leader) schedule.apis))
    s ← decoded "parse snapshot" (parse_snapshot json now (gather http leader))
    ok (enrich json http catalog schedule c leader s)
