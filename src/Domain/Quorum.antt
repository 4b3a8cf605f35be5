-- ===== src/Domain/Quorum.antt =====
-- `Snapshot.QuorumSize` and `Tablet.HasLeader`.
use yb_doctor.Base.{
  ℕ, ◌+◌, ◌≤◌, ◌<◌, true, ◌≡◌, ◌≢◌, ◌↔◌, ◌⊎◌, Any, any-str_eq, ℤ, pos, negsuc, pos_part, arith,
  eq_iff,
}
use yb_doctor.Domain.Ids.{role_leader}
use yb_doctor.Domain.Cluster.{
  Tablet, TabletPeer, Snapshot, has_leader, voting_peers, quorum_size, quorum_of,
}

-- Two quorums of a replication factor have a replica in common, and no smaller number of replicas
-- has that property; a quorum has at least one replica, and with a positive factor a quorum is no
-- larger than the factor.
pub quorum_size_majority :
    {F : Type 0} (s : Snapshot F)
    → let rf = pos_part s.replication_factor in
      (1 ≤ quorum_size s)
      × (rf < quorum_size s + quorum_size s)
      × ((q : ℕ) → rf < q + q → quorum_size s ≤ q)
      × (1 ≤ rf → quorum_size s ≤ rf)
unfolding quorum_size quorum_of
quorum_size_majority s = go s.replication_factor
  where
    go :
        (rf : ℤ)
        → (1 ≤ quorum_of rf)
          × (pos_part rf < quorum_of rf + quorum_of rf)
          × ((q : ℕ) → pos_part rf < q + q → quorum_of rf ≤ q)
          × (1 ≤ pos_part rf → quorum_of rf ≤ pos_part rf)
    go (pos n) = (ground arith, ground arith, λ q h. ground arith, λ h. ground arith)
    go (negsuc n) = (ground arith, ground arith, λ q h. ground arith, λ h. ground arith)

-- A tablet has a leader exactly if it names one, or one of its voting peers has the leader's role.
pub has_leader_iff :
    {F : Type 0} (t : Tablet F)
    → (has_leader t ≡ true)
      ↔ ((t.leader_id ≢ "") ⊎ Any (λ p. p.role ≡ role_leader) (voting_peers t))
unfolding has_leader
has_leader_iff t = ground (
  arith,
  eq_iff t.leader_id "",
  any-str_eq (λ (p : TabletPeer). p.role) role_leader (voting_peers t),
)
