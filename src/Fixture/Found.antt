-- ===== src/Fixture/Found.antt =====
-- internal/adapter/outbound/fixture/collector.go with internal/app/raft.go: the Raft analysis finds the faults
-- that a plan asks for.
use mathlib.Core.Path.{subst}
use Prim.Native.Nat.{min}
use yb_doctor.Base.{
  ℕ, zero, suc, ◌+◌, ◌≤◌, true, ◌≡◌, refl, sym, ap, inl, inr, List, [], ◌∷◌, map, count, length,
  ltb, ltb→lt, neg_part, any, ◌⊎◌, length-map, All, All-map, ℤ, pos, negsuc, pos_part, arith,
  Bool-cases, if◌then◌else◌,
}
use yb_doctor.Float.{Float64}
use yb_doctor.Domain.Ids.{NodeId, role_follower}
use yb_doctor.Domain.Cluster.{Snapshot, Tablet, TabletPeer, voting_peers, replica_count}
use yb_doctor.Config.{Thresholds}
use yb_doctor.App.Raft.{analyze_raft, count_ids_or, is_under_replicated}
use yb_doctor.Fixture.Tablets.{peer_of, expand_tablets}
use yb_doctor.Fixture.Faults.{
  map_first, is_follower, slow_first, demote, drop_last_peer, slow_tablets, without_leader,
  under_replicate, heat, apply_faults,
}
use yb_doctor.Fixture.Plans.{Plan, planned_counts, factor_of, expanded}
use yb_doctor.Fixture.Shape.{IsDealt, expand_tablets-IsDealt}
use yb_doctor.Fixture.Lost.{
  IsVoting, HasHead, IsLed, slow_first-IsVoting, slow_first-HasHead, drop_last_peer-All,
  length-drop_last_peer, length-slow_first, filter-IsVoting, without_leader-FirstLost,
  under_replicate-FirstLost, FirstLost-count, length-map_first, map_first-All, slow_tablets-All,
}

followers-IsVoting : (ids : List NodeId) → All IsVoting (map (peer_of role_follower) ids)
unfolding peer_of
followers-IsVoting [] = tt
followers-IsVoting (id ∷ ids) = (refl, followers-IsVoting ids)

IsVoting-demote : (ps : List TabletPeer) → All IsVoting ps → All IsVoting (map demote ps)
IsVoting-demote [] h = tt
IsVoting-demote (p ∷ ps) (h, hs) = (h, IsVoting-demote ps hs)

length-slow_tablets :
    {F : Type 0} (n : ℕ) (ts : List (Tablet F)) → length (slow_tablets n ts) ≡ length ts
unfolding slow_tablets
length-slow_tablets zero ts = refl
length-slow_tablets (suc n) [] = refl
length-slow_tablets (suc n) (t ∷ ts) =
    ap suc (length-slow_tablets (if any is_follower t.peers then n else suc n) ts)

one_fewer : (ps : List TabletPeer) → 1 ≤ length ps → length (drop_last_peer ps) + 1 ≡ length ps
one_fewer [] h = absurd (omega arith)
one_fewer (p ∷ ps) h = omega (arith, length-drop_last_peer p ps)

-- A number is not negative, or has no positive part.
pub one_part : (n : ℤ) → (neg_part n ≡ 0) ⊎ (pos_part n ≡ 0)
one_part (pos n) = inl refl
one_part (negsuc n) = inr refl

module _ {F : Type 0} where
  -- A tablet with voting peers, from one up to as many as the factor asks for.
  pub record Fits (rf : ℕ) (t : Tablet F) : Type 0 where
    pub voting : All IsVoting t.peers
    pub placed : 1 ≤ length t.peers
    pub within : length t.peers ≤ rf

  IsDealt-HasHead : (rf : ℤ) (t : Tablet F) → IsDealt rf t → HasHead t.peers
  unfolding peer_of
  IsDealt-HasHead rf t d = subst HasHead (sym d.peers) (refl, (refl, followers-IsVoting d.others))

  pub IsDealt-Fits : (rf : ℤ) (t : Tablet F) → 2 ≤ pos_part rf → IsDealt rf t → Fits (pos_part rf) t
  unfolding peer_of
  IsDealt-Fits rf t h d = record {
    voting = subst (All IsVoting) (sym d.peers) (refl, followers-IsVoting d.others);
    placed = omega (arith, ap length d.peers);
    within =
        omega (arith, ap length d.peers, length-map (peer_of role_follower) d.others, d.within);
  }

  pub slow_first-Fits :
      (rf : ℕ) (t : Tablet F) → Fits rf t → Fits rf (record t { peers = slow_first t.peers })
  slow_first-Fits rf t h = record {
    voting = slow_first-IsVoting t.peers h.voting;
    placed = omega (arith, length-slow_first t.peers, h.placed);
    within = omega (arith, length-slow_first t.peers, h.within);
  }

  pub without_leader-Fits : (rf : ℕ) (t : Tablet F) → Fits rf t → Fits rf (without_leader t)
  unfolding without_leader
  without_leader-Fits rf t h = record {
    voting = IsVoting-demote t.peers h.voting;
    placed = omega (arith, length-map demote t.peers, h.placed);
    within = omega (arith, length-map demote t.peers, h.within);
  }

  pub replica_count-IsVoting :
      (t : Tablet F) → All IsVoting t.peers → replica_count t ≡ length t.peers
  unfolding replica_count voting_peers
  replica_count-IsVoting t h = ap length (filter-IsVoting t.peers h)

  few-is_under_replicated :
      (s : Snapshot F) (t : Tablet F)
      → All IsVoting t.peers
      → 1 ≤ length t.peers
      → length t.peers + 1 ≤ pos_part s.replication_factor
      → is_under_replicated s t ≡ true
  unfolding is_under_replicated
  few-is_under_replicated s t v a b =
      rw (replica_count-IsVoting t v) (ground (arith, one_part s.replication_factor))

  pub under_replicate-found :
      (s : Snapshot F) (t : Tablet F)
      → 2 ≤ pos_part s.replication_factor
      → Fits (pos_part s.replication_factor) t
      → is_under_replicated s (under_replicate t) ≡ true
  unfolding under_replicate
  under_replicate-found s t h fits = elim (Bool-cases (ltb 1 (length t.peers))) [
    | inl e ↦
        let fewer : length (drop_last_peer t.peers) + 1 ≡ length t.peers =
          one_fewer t.peers fits.placed in
        let many = ltb→lt 1 (length t.peers) e in
        rw e (
          few-is_under_replicated s (record t { peers = drop_last_peer t.peers })
            (drop_last_peer-All IsVoting t.peers fits.voting) (omega (arith, many, fewer))
            (omega (arith, fewer, fits.within)))
    | inr e ↦
        let few : length t.peers ≤ 1 = ground arith in
        rw e (few-is_under_replicated s t fits.voting fits.placed (omega (arith, few)))
  ]

  under_replicate-count :
      (s : Snapshot F) (n : ℕ) (ts : List (Tablet F))
      → 2 ≤ pos_part s.replication_factor
      → All (Fits (pos_part s.replication_factor)) ts
      → min n (length ts) ≤ count (is_under_replicated s) (map_first n under_replicate ts)
  under_replicate-count s zero ts h fits = omega arith
  under_replicate-count s (suc n) [] h fits = omega arith
  under_replicate-count s (suc n) (t ∷ ts) h (fit, fits) =
      rw (under_replicate-found s t h fit) (omega (arith, under_replicate-count s n ts h fits))

module _ {F : Type 0} ⦃f : Float64 F⦄ where
  -- The tablets of a plan before those two faults: slow followers, and hot tablets.
  abbrev pub before_loss : Plan F → List (Tablet F)
  before_loss plan =
      let counts = planned_counts plan (factor_of plan) in
      map_first (pos_part plan.hot_tablets) heat (
        slow_tablets (pos_part plan.slow_followers)
          (expand_tablets counts.0 counts.1 (factor_of plan)))

  before_loss-All :
      (P : Tablet F → Type 0) (plan : Plan F)
      → ((t : Tablet F) → IsDealt (factor_of plan) t → P t)
      → ((t : Tablet F) → P t → P (record t { peers = slow_first t.peers }))
      → ((t : Tablet F) → P t → P (heat t))
      → All P (before_loss plan)
  before_loss-All P plan dealt slow hot =
      let counts = planned_counts plan (factor_of plan) in
      map_first-All P heat (pos_part plan.hot_tablets) _ hot (
        slow_tablets-All P (pos_part plan.slow_followers) _ slow
          (All-map dealt _ (expand_tablets-IsDealt F counts.0 counts.1 (factor_of plan))))

  -- Those before the fault of too few peers.
  abbrev pub lost : Plan F → List (Tablet F)
  lost plan = map_first (pos_part plan.leaderless) without_leader (before_loss plan)

  -- The Raft analysis of an expanded plan counts exactly the leaderless tablets that the plan asks for, or all
  -- if it asks for more than there are.
  pub expanded-leaderless :
      (plan : Plan F) (th : Thresholds F)
      → (analyze_raft (expanded plan) th).leaderless
        ≡ min (pos_part plan.leaderless) (length (expanded plan).tablets)
  unfolding expanded analyze_raft count_ids_or apply_faults heat
  expanded-leaderless plan th = FirstLost-count (pos_part plan.leaderless) _ (
      under_replicate-FirstLost (pos_part plan.leaderless) (pos_part plan.under_replicated)
        (lost plan)
        (without_leader-FirstLost (pos_part plan.leaderless) (before_loss plan) (
          before_loss-All IsLed plan (λ t d. IsDealt-HasHead (factor_of plan) t d)
            (λ t h. slow_first-HasHead t.peers h) (λ t h. h))))

  -- Where a tablet is to have at least two replicas, the Raft analysis of an expanded plan counts at least the
  -- under-replicated tablets that the plan asks for, or all if it asks for more than there are.
  pub expanded-under_replicated :
      (plan : Plan F) (th : Thresholds F)
      → 2 ≤ pos_part (factor_of plan)
      → min (pos_part plan.under_replicated) (length (expanded plan).tablets)
        ≤ (analyze_raft (expanded plan) th).under_replicated
  unfolding expanded analyze_raft count_ids_or apply_faults heat
  expanded-under_replicated plan th two =
      let rf = pos_part (factor_of plan) in
      omega (
        arith,
        length-map_first under_replicate (pos_part plan.under_replicated) (lost plan),
        under_replicate-count (expanded plan) (pos_part plan.under_replicated) (lost plan) two (
            map_first-All (Fits rf) without_leader (pos_part plan.leaderless) (before_loss plan)
              (without_leader-Fits rf)
              (before_loss-All (Fits rf) plan (λ t d. IsDealt-Fits (factor_of plan) t two d)
                (slow_first-Fits rf)
                (λ t h. record { voting = h.voting; placed = h.placed; within = h.within }))),
      )
