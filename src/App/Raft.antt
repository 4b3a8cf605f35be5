-- ===== src/App/Raft.antt =====
-- internal/app/raft.go, with `countIDsOr` of tablets.go.
use yb_doctor.Base.{
  ℕ, String, Bool, ◌&&◌, ◌||◌, not, List, [], ◌∷◌, length, count, sum_by, ℤ, pos, ltb, ltb_ℤ, leb_ℤ,
  str_eq,
}
use yb_doctor.Domain.Ids.{role_follower}
use yb_doctor.Domain.Cluster.{Snapshot, Tablet, TabletPeer, replica_count, has_leader}
use yb_doctor.Domain.Report.{RaftSummary}
use yb_doctor.Config.{Thresholds}

abbrev pub is_failed_peer : TabletPeer → Bool
is_failed_peer p = str_eq p.state "FAILED" || str_eq p.state "TOMBSTONED"

abbrev pub is_slow_peer : ℤ → TabletPeer → Bool
is_slow_peer lag p = str_eq p.role role_follower && ltb_ℤ (pos 0) lag && leb_ℤ lag p.lag

module _ {F : Type 0} where
  unfoldable pub count_ids_or : List String → List (Tablet F) → (Tablet F → Bool) → ℕ
  count_ids_or [] tablets pred = count pred tablets
  count_ids_or (i ∷ ids) tablets pred = length (i ∷ ids)

  -- The tests that `analyzeRaft` and `analyzeTablets` hand to `countIDsOr`.
  unfoldable pub is_under_replicated : Snapshot F → Tablet F → Bool
  is_under_replicated s t =
      ltb 0 (replica_count t)
      && ltb_ℤ (pos (replica_count t)) s.replication_factor
      && ltb_ℤ (pos 0) s.replication_factor

  unfoldable pub is_leaderless : Tablet F → Bool
  is_leaderless t = ltb 0 (replica_count t) && not (has_leader t)

  unfoldable pub analyze_raft : Snapshot F → Thresholds F → RaftSummary
  unfolding count_ids_or is_under_replicated is_leaderless
  analyze_raft s th = record {
    leaderless = count_ids_or s.leaderless_ids s.tablets is_leaderless;
    under_replicated = count_ids_or s.under_replicated_ids s.tablets (is_under_replicated s);
    slow_followers = sum_by (λ t. count (is_slow_peer th.slow_follower_lag) t.peers) s.tablets;
    failed_peers = sum_by (λ t. count is_failed_peer t.peers) s.tablets;
  }
