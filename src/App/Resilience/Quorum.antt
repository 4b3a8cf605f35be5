-- ===== src/App/Resilience/Quorum.antt =====
-- `evalFailure`: when it reports lost quorum, and that losing more servers is never better.
use yb_doctor.Base.{
  ◌≤◌, ◌<◌, String, true, ◌≡◌, ◌↔◌, ◌≢◌, List, [], count, count_mono, count-pos_iff, Any, Any-map,
  Any-ne-nil, All-of, length-nil_iff, has, arith,
}
use yb_doctor.Domain.Ids.{NodeId, check_pass, check_fail, check_warn}
use yb_doctor.Domain.Cluster.{
  Snapshot, Tablet, TabletPeer, voting_peers, replica_count, quorum_size,
}
use yb_doctor.App.Resilience.{remains, loses_quorum, eval_failure}

module _ {F : Type 0} (s : Snapshot F) where
  -- A tablet with replicas of which fewer than a quorum remain.
  abbrev pub LosesQuorum : List NodeId → Tablet F → Type 0
  LosesQuorum lost t =
      (0 < replica_count t) × (count (remains s lost) (voting_peers t) < quorum_size s)

  loses_quorum_lem :
      (lost : List NodeId) (t : Tablet F) → (loses_quorum s lost t ≡ true) ↔ LosesQuorum lost t
  unfolding loses_quorum
  loses_quorum_lem lost t = ground arith

  failed_iff :
      (lost : List NodeId)
      → (0 < count (loses_quorum s lost) s.tablets) ↔ Any (LosesQuorum lost) s.tablets
  failed_iff lost =
      let some_fail = count-pos_iff (loses_quorum s lost) s.tablets in
      (
        λ h. Any-map (λ t. (loses_quorum_lem lost t).0) s.tablets (some_fail.0 h),
        λ a. some_fail.1 (Any-map (λ t. (loses_quorum_lem lost t).1) s.tablets a),
      )

  -- The simulation fails exactly if some tablet with replicas keeps fewer than a quorum of them,
  -- it warns exactly if there are no tablets, and it passes otherwise.
  pub eval_failure_status :
      (name kind : String) (names : List String) (lost : List NodeId)
      → let sim = eval_failure s name kind names lost in
        ((sim.status ≡ check_fail) ↔ Any (LosesQuorum lost) s.tablets)
        × ((sim.status ≡ check_warn) ↔ (s.tablets ≡ []))
        × ((sim.status ≡ check_pass) ↔ ((s.tablets ≢ []) × (¬ Any (LosesQuorum lost) s.tablets)))
  unfolding eval_failure
  eval_failure_status name kind names lost =
      let none_left = length-nil_iff s.tablets in
      let failed = failed_iff lost in
      (ground (arith, Any-ne-nil (LosesQuorum lost) s.tablets), ground arith, ground arith)

  remains_mono :
      (lost more : List NodeId) (p : TabletPeer)
      → ((i : NodeId) → has i lost ≡ true → has i more ≡ true)
      → remains s more p ≡ true
      → remains s lost p ≡ true
  unfolding remains
  remains_mono lost more p sub h = ground (arith, sub p.tserver_id)

  loses_quorum_mono :
      (lost more : List NodeId) (t : Tablet F)
      → ((i : NodeId) → has i lost ≡ true → has i more ≡ true)
      → loses_quorum s lost t ≡ true
      → loses_quorum s more t ≡ true
  loses_quorum_mono lost more t sub h =
      let fewer =
        count_mono (remains s more) (remains s lost) (voting_peers t)
          (All-of _ (voting_peers t) (λ p r. remains_mono lost more p sub r)) in
      let before = (loses_quorum_lem lost t).0 h in
      (loses_quorum_lem more t).1 (before.0, omega arith)

  -- Losing more servers fails at least as many tablets, and a failed simulation still fails.
  pub eval_failure_mono :
      (name kind name' kind' : String) (names names' : List String) (lost more : List NodeId)
      → ((i : NodeId) → has i lost ≡ true → has i more ≡ true)
      → let sim = eval_failure s name kind names lost in
        let worse = eval_failure s name' kind' names' more in
        (sim.tablets_failed ≤ worse.tablets_failed)
        × (sim.status ≡ check_fail → worse.status ≡ check_fail)
  unfolding eval_failure
  eval_failure_mono name kind name' kind' names names' lost more sub =
      let more_fail =
        count_mono (loses_quorum s lost) (loses_quorum s more) s.tablets
          (All-of _ s.tablets (λ t h. loses_quorum_mono lost more t sub h)) in
      (more_fail, ground arith)
