-- ===== src/App/Resilience.antt =====
-- internal/app/resilience.go: the simulated failures. A set of lost servers is the list of their
-- identifiers. `Service.Resilience` itself is in App/Service.
pub mod Quorum
pub mod Cover
use yb_doctor.Base.{
  ℕ, ◌+◌, String, Bool, true, false, ◌&&◌, ◌||◌, not, Option, none, some, List, [], ◌∷◌, ◌++◌, map,
  length, count, any, has, Dict, keys, ltb, leb, ◌==◌, sort_strings, concat, show_ℕ, str_eq,
  if◌then◌else◌,
}
use yb_doctor.Domain.Ids.{
  NodeId, CheckStatus, check_pass, check_fail, check_warn, is_fail, Placement, key, region_key,
}
use yb_doctor.Domain.Cluster.{
  Snapshot, TServer, Tablet, TabletPeer, alive, voting_peers, replica_count, tserver_by_id, regions,
  quorum_size,
}
use yb_doctor.Domain.Report.{FailureSim, RegionBranch, AzBranch, ResilienceReport}
use yb_doctor.App.Groups.{display_name, group_list, group_at, ids_of, names_of}

abbrev pub zone_label : Placement → String
zone_label p = if str_eq p.zone "" then key p else p.zone

-- The loop of `recommendation`: some simulation of the kind failed.
abbrev pub kind_fails : String → List FailureSim → Bool
kind_fails kind sims = any (λ f. is_fail f.status && str_eq f.kind kind) sims

module _ {F : Type 0} where
  -- The body of the inner loop: a peer remains unless its server is lost, or known and not alive.
  unfoldable pub remains : Snapshot F → List NodeId → TabletPeer → Bool
  remains s lost p =
      if has p.tserver_id lost
      then false
      else elim (tserver_by_id s p.tserver_id) [ none ↦ true | some t ↦ alive t ]

  -- The body of the outer loop: `failed++`.
  unfoldable pub loses_quorum : Snapshot F → List NodeId → Tablet F → Bool
  loses_quorum s lost t =
      not (replica_count t == 0) && ltb (count (remains s lost) (voting_peers t)) (quorum_size s)

  unfoldable pub eval_failure :
      Snapshot F → String → String → List String → List NodeId → FailureSim
  eval_failure s name kind lost_names lost =
      let failed = count (loses_quorum s lost) s.tablets in
      let quorum_lost = ltb 0 failed in
      let empty = length s.tablets == 0 in
      record {
        name = name;
        kind = kind;
        lost = lost_names;
        status = if empty then check_warn else if quorum_lost then check_fail else check_pass;
        tablets_failed = failed;
        reason =
            if empty
            then "no tablets to evaluate"
            else if quorum_lost
            then concat ("quorum lost on " ∷ show_ℕ failed ∷ " tablet(s)" ∷ [])
            else "Raft majority retained on every tablet";
      }

  -- `nodes[0].Placement`. On an empty group the code would panic; the group of a key is not empty
  -- (`group_list-filled` of App/Groups).
  abbrev pub first_placement : List (TServer F) → Placement
  first_placement [] = record { cloud = ""; region = ""; zone = "" }
  first_placement (t ∷ ts) = t.placement

  abbrev pub zone_key : TServer F → String
  zone_key t = key t.placement

  abbrev pub region_of : TServer F → String
  region_of t = region_key t.placement

  unfoldable pub node_sim : Snapshot F → TServer F → FailureSim
  node_sim s t =
      eval_failure s (concat ("Lose " ∷ display_name t ∷ [])) "node" (display_name t ∷ [])
        (t.id ∷ [])

  unfoldable pub zone_sim : Snapshot F → String → FailureSim
  zone_sim s z =
      let g = group_at z (group_list s.tservers zone_key) in
      eval_failure s (concat ("Lose " ∷ zone_label (first_placement g) ∷ [])) "az" (names_of g)
        (ids_of g)

  -- Only the first two zones, by name, are lost together.
  unfoldable pub pair_sims : Snapshot F → List String → List FailureSim
  pair_sims s (a ∷ b ∷ rest) =
      let zones = group_list s.tservers zone_key in
      let g = group_at a zones in
      let h = group_at b zones in
      let label =
        concat (zone_label (first_placement g) ∷ " + " ∷ zone_label (first_placement h) ∷ []) in
      eval_failure s (concat ("Lose " ∷ label ∷ [])) "az-pair" (names_of g ++ names_of h)
        (ids_of g ++ ids_of h)
      ∷ []
  pair_sims s _ = []

  abbrev pub region_label : String → List (TServer F) → String
  region_label r g = let name = (first_placement g).region in if str_eq name "" then r else name

  unfoldable pub region_sim : Snapshot F → String → FailureSim
  region_sim s r =
      let g = group_at r (group_list s.tservers region_of) in
      eval_failure s (concat ("Lose " ∷ region_label r g ∷ [])) "region" (names_of g) (ids_of g)

  abbrev pub zone_names : Snapshot F → List String
  zone_names s = sort_strings (keys (group_list s.tservers zone_key))

  abbrev pub region_names : Snapshot F → List String
  region_names s = sort_strings (keys (group_list s.tservers region_of))

  unfoldable pub simulations : Snapshot F → List FailureSim
  simulations s =
      map (node_sim s) s.tservers
      ++ (map (zone_sim s) (zone_names s)
          ++ (pair_sims s (zone_names s) ++ map (region_sim s) (region_names s)))

  unfoldable pub zone_branch : Dict (List (TServer F)) → String → AzBranch
  zone_branch zones z = record {
    name = if str_eq z "" then "unspecified" else z;
    nodes = names_of (group_at z zones);
  }

  unfoldable pub region_branch : Snapshot F → String → RegionBranch
  unfolding zone_branch
  region_branch s r =
      let g = group_at r (group_list s.tservers region_of) in
      let zones = group_list g (λ t. t.placement.zone) in
      record {
        name = region_label r g;
        zones = map (zone_branch zones) (sort_strings (keys zones));
      }

  unfoldable pub build_topology_tree : Snapshot F → List RegionBranch
  build_topology_tree s = map (region_branch s) (region_names s)

  unfoldable pub recommendation : Snapshot F → List FailureSim → String
  recommendation s sims =
      if kind_fails "node" sims
      then "A single node loss already breaks Raft majority. Increase RF or add TServers before production."
      else if kind_fails "az" sims
      then "An availability-zone loss breaks quorum. Place at most one replica per AZ (RF=3 across 3 AZs)."
      else if kind_fails "region" sims && length (regions s) == 1
      then "Add cross-region replica placement if regional failure tolerance is required."
      else if kind_fails "region" sims
      then "A regional outage loses quorum. Add a replica in another region or use a read replica / xCluster pattern for DR."
      else "Current placement tolerates the simulated node and AZ failures."

  unfoldable pub simulate_resilience : Snapshot F → ResilienceReport F
  simulate_resilience s =
      let sims = simulations s in
      record {
        snapshot = s;
        topology_tree = build_topology_tree s;
        simulations = sims;
        rpo = "0 for tolerated failures (Raft synchronous replication)";
        recommendation = recommendation s sims;
      }
