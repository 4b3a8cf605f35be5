-- ===== src/Fixture/Lost.antt =====
-- internal/adapter/outbound/fixture/collector.go with internal/app/raft.go: which tablets have no leader after
-- the loops of `applyFaults`.
use Prim.Native.Nat.{min}
use yb_doctor.Base.{
  ℕ, zero, suc, true, false, ◌≡◌, refl, ap, not, ◌&&◌, inl, inr, List, [], ◌∷◌, map, filter, any,
  count, length, ltb, All, str_eq, arith, Bool-cases, if◌then◌else◌,
}
use yb_doctor.Domain.Ids.{role_leader, role_follower}
use yb_doctor.Domain.Cluster.{
  Tablet, TabletPeer, is_voting, voting_peers, has_leader, replica_count,
}
use yb_doctor.App.Raft.{is_leaderless}
use yb_doctor.Fixture.Faults.{
  map_first, is_follower, slow_first, demote, drop_last_peer, slow_tablets, without_leader,
  under_replicate,
}

abbrev pub IsVoting : TabletPeer → Type 0
IsVoting p = is_voting p ≡ true

abbrev pub IsFollowing : TabletPeer → Type 0
IsFollowing p = p.role ≡ role_follower

-- The first peer leads and all vote.
abbrev pub HasHead : List TabletPeer → Type 0
HasHead [] = ⊥
HasHead (p ∷ ps) = (p.role ≡ role_leader) × All IsVoting (p ∷ ps)

-- There is a peer, and all follow and vote.
abbrev pub HasNoHead : List TabletPeer → Type 0
HasNoHead [] = ⊥
HasNoHead (p ∷ ps) = All IsFollowing (p ∷ ps) × All IsVoting (p ∷ ps)

pub filter-IsVoting : (ps : List TabletPeer) → All IsVoting ps → filter is_voting ps ≡ ps
filter-IsVoting [] h = refl
filter-IsVoting (p ∷ ps) (h, hs) = rw (h, filter-IsVoting ps hs) refl

pub slow_first-IsVoting : (ps : List TabletPeer) → All IsVoting ps → All IsVoting (slow_first ps)
unfolding slow_first
slow_first-IsVoting [] h = tt
slow_first-IsVoting (p ∷ ps) (h, hs) = ground (arith, slow_first-IsVoting ps hs)

pub slow_first-HasHead : (ps : List TabletPeer) → HasHead ps → HasHead (slow_first ps)
unfolding slow_first
slow_first-HasHead [] h = h
slow_first-HasHead (p ∷ ps) (l, (h, hs)) =
    let leads : is_follower p ≡ false = rw l refl in rw leads (l, (h, slow_first-IsVoting ps hs))

pub drop_last_peer-All :
    (P : TabletPeer → Type 0) (ps : List TabletPeer) → All P ps → All P (drop_last_peer ps)
unfolding drop_last_peer
drop_last_peer-All P [] h = h
drop_last_peer-All P (p ∷ []) h = tt
drop_last_peer-All P (p ∷ q ∷ ps) (h, hs) = (h, drop_last_peer-All P (q ∷ ps) hs)

pub length-drop_last_peer :
    (p : TabletPeer) (ps : List TabletPeer) → length (drop_last_peer (p ∷ ps)) ≡ length ps
unfolding drop_last_peer
length-drop_last_peer p [] = refl
length-drop_last_peer p (q ∷ ps) = omega (arith, length-drop_last_peer q ps)

pub length-slow_first : (ps : List TabletPeer) → length (slow_first ps) ≡ length ps
unfolding slow_first
length-slow_first [] = refl
length-slow_first (p ∷ ps) = ground (arith, length-slow_first ps)

pub map-demote :
    (ps : List TabletPeer)
    → All IsVoting ps
    → All IsFollowing (map demote ps) × All IsVoting (map demote ps)
map-demote [] h = (tt, tt)
map-demote (p ∷ ps) (h, hs) = let (a, b) = map-demote ps hs in ((refl, a), (h, b))

module _ {F : Type 0} where
  -- A tablet that is led, and one that lost its leader.
  abbrev pub IsLed : Tablet F → Type 0
  IsLed t = HasHead t.peers

  abbrev pub IsLost : Tablet F → Type 0
  IsLost t = (t.leader_id ≡ "") × HasNoHead t.peers

  IsLed-is_leaderless : (t : Tablet F) → IsLed t → is_leaderless t ≡ false
  unfolding is_leaderless has_leader replica_count voting_peers
  IsLed-is_leaderless t h = by_peers t.peers h
    where
      by_peers :
          (ps : List TabletPeer)
          → HasHead ps
          → (ltb 0 (length (filter is_voting ps))
              && not (
                  if not (str_eq t.leader_id "")
                  then true
                  else any (λ p. str_eq p.role role_leader) (filter is_voting ps)))
            ≡ false
      by_peers [] h = absurd h
      by_peers (p ∷ ps) (l, (v, vs)) = rw (v, l) (ground arith)

  IsLost-is_leaderless : (t : Tablet F) → IsLost t → is_leaderless t ≡ true
  unfolding is_leaderless has_leader replica_count voting_peers
  IsLost-is_leaderless t (n, h) = rw n (by_peers t.peers h)
    where
      nobody :
          (ps : List TabletPeer)
          → All IsFollowing ps
          → any (λ p. str_eq p.role role_leader) ps ≡ false
      nobody [] h = refl
      nobody (p ∷ ps) (h, hs) = rw h (nobody ps hs)

      by_peers :
          (ps : List TabletPeer)
          → HasNoHead ps
          → (ltb 0 (length (filter is_voting ps))
              && not (any (λ p. str_eq p.role role_leader) (filter is_voting ps)))
            ≡ true
      by_peers [] h = absurd h
      by_peers (p ∷ ps) (f, vs) = rw (filter-IsVoting (p ∷ ps) vs, nobody (p ∷ ps) f) (ground arith)

  under_replicate-IsLed : (t : Tablet F) → IsLed t → IsLed (under_replicate t)
  unfolding under_replicate drop_last_peer
  under_replicate-IsLed t h = elim (Bool-cases (ltb 1 (length t.peers))) [
    | inl e ↦ rw e (by_peers t.peers h e)
    | inr e ↦ rw e h
  ]
    where
      by_peers :
          (ps : List TabletPeer)
          → HasHead ps
          → ltb 1 (length ps) ≡ true
          → HasHead (drop_last_peer ps)
      by_peers [] h e = absurd h
      by_peers (p ∷ []) h e = cc
      by_peers (p ∷ q ∷ ps) (l, (v, vs)) e = (l, (v, drop_last_peer-All IsVoting (q ∷ ps) vs))

  under_replicate-IsLost : (t : Tablet F) → IsLost t → IsLost (under_replicate t)
  unfolding under_replicate drop_last_peer
  under_replicate-IsLost t (n, h) = elim (Bool-cases (ltb 1 (length t.peers))) [
    | inl e ↦ rw e (n, by_peers t.peers h e)
    | inr e ↦ rw e (n, h)
  ]
    where
      by_peers :
          (ps : List TabletPeer)
          → HasNoHead ps
          → ltb 1 (length ps) ≡ true
          → HasNoHead (drop_last_peer ps)
      by_peers [] h e = absurd h
      by_peers (p ∷ []) h e = cc
      by_peers (p ∷ q ∷ ps) ((f, fs), (v, vs)) e = (
        (f, drop_last_peer-All IsFollowing (q ∷ ps) fs),
        (v, drop_last_peer-All IsVoting (q ∷ ps) vs),
      )

  without_leader-IsLost : (t : Tablet F) → IsLed t → IsLost (without_leader t)
  unfolding without_leader
  without_leader-IsLost t h = (refl, by_peers t.peers h)
    where
      by_peers : (ps : List TabletPeer) → HasHead ps → HasNoHead (map demote ps)
      by_peers [] h = absurd h
      by_peers (p ∷ ps) (l, vs) = map-demote (p ∷ ps) vs

  -- The first tablets of a list lost their leader, and the others are led.
  abbrev pub FirstLost : ℕ → List (Tablet F) → Type 0
  FirstLost n [] = Unit
  FirstLost zero (t ∷ ts) = IsLed t × FirstLost zero ts
  FirstLost (suc n) (t ∷ ts) = IsLost t × FirstLost n ts

  pub without_leader-FirstLost :
      (n : ℕ) (ts : List (Tablet F)) → All IsLed ts → FirstLost n (map_first n without_leader ts)
  without_leader-FirstLost zero [] h = tt
  without_leader-FirstLost zero (t ∷ ts) (h, hs) = (h, without_leader-FirstLost zero ts hs)
  without_leader-FirstLost (suc n) [] h = tt
  without_leader-FirstLost (suc n) (t ∷ ts) (h, hs) =
      (without_leader-IsLost t h, without_leader-FirstLost n ts hs)

  pub under_replicate-FirstLost :
      (n m : ℕ) (ts : List (Tablet F))
      → FirstLost n ts
      → FirstLost n (map_first m under_replicate ts)
  under_replicate-FirstLost n zero ts h = h
  under_replicate-FirstLost n (suc m) [] h = tt
  under_replicate-FirstLost zero (suc m) (t ∷ ts) (h, hs) =
      (under_replicate-IsLed t h, under_replicate-FirstLost zero m ts hs)
  under_replicate-FirstLost (suc n) (suc m) (t ∷ ts) (h, hs) =
      (under_replicate-IsLost t h, under_replicate-FirstLost n m ts hs)

  pub FirstLost-count :
      (n : ℕ) (ts : List (Tablet F)) → FirstLost n ts → count is_leaderless ts ≡ min n (length ts)
  FirstLost-count n [] h = omega arith
  FirstLost-count zero (t ∷ ts) (h, hs) =
      rw (IsLed-is_leaderless t h) (omega (arith, FirstLost-count zero ts hs))
  FirstLost-count (suc n) (t ∷ ts) (h, hs) =
      rw (IsLost-is_leaderless t h) (omega (arith, FirstLost-count n ts hs))

  module _ (P : Tablet F → Type 0) where
    pub map_first-All :
        (g : Tablet F → Tablet F) (n : ℕ) (ts : List (Tablet F))
        → ((t : Tablet F) → P t → P (g t))
        → All P ts
        → All P (map_first n g ts)
    map_first-All g zero ts k h = h
    map_first-All g (suc n) [] k h = h
    map_first-All g (suc n) (t ∷ ts) k (h, hs) = (k t h, map_first-All g n ts k hs)

    pub slow_tablets-All :
        (n : ℕ) (ts : List (Tablet F))
        → ((t : Tablet F) → P t → P (record t { peers = slow_first t.peers }))
        → All P ts
        → All P (slow_tablets n ts)
    unfolding slow_tablets
    slow_tablets-All zero ts k h = h
    slow_tablets-All (suc n) [] k h = h
    slow_tablets-All (suc n) (t ∷ ts) k (h, hs) =
        (k t h, slow_tablets-All (if any is_follower t.peers then n else suc n) ts k hs)

  pub length-map_first :
      (g : Tablet F → Tablet F) (n : ℕ) (ts : List (Tablet F))
      → length (map_first n g ts) ≡ length ts
  length-map_first g zero ts = refl
  length-map_first g (suc n) [] = refl
  length-map_first g (suc n) (t ∷ ts) = ap suc (length-map_first g n ts)
