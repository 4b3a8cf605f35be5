-- ===== src/Fixture/Full.antt =====
-- internal/adapter/outbound/fixture/collector.go: the loop that picks the peers of a tablet ends with as many as
-- the factor asks for, where there are servers enough.
use mathlib.Core.Path.{subst}
use yb_doctor.Base.{
  ℕ, zero, suc, ◌+◌, ◌-◌, ◌≤◌, true, false, ◌≡◌, refl, ◌∙◌, ap, List, [], ◌∷◌, ◌++◌, length,
  length-append, length-map, All, Dict, keys, has, has-sort_strings, IsDistinct, ℤ, pos_part,
  sort_strings, str_eq, eq_iff, arith, Bool-cases, inl, inr, if◌then◌else◌,
}
use yb_doctor.Float.{Float64}
use yb_doctor.Domain.Ids.{NodeId, role_follower}
use yb_doctor.Domain.Cluster.{Tablet}
use yb_doctor.Fixture.Tablets.{
  first_other, next_peer, take_one, pick_peers, peer_of, peers_of, synthetic_tablet, deal_tablets,
  leader_queue, expand_tablets,
}

-- The list without the first `k`.
abbrev without : NodeId → List NodeId → List NodeId
without k [] = []
without k (j ∷ js) = if str_eq j k then js else j ∷ without k js

length-without :
    (k : NodeId) (js : List NodeId) → has k js ≡ true → length (without k js) + 1 ≡ length js
length-without k [] h = cc
length-without k (j ∷ js) h = ground (arith, length-without k js)

has-without :
    (i k : NodeId) (js : List NodeId)
    → str_eq k i ≡ false
    → has i js ≡ true
    → has i (without k js) ≡ true
has-without i k [] n h = cc
has-without i k (j ∷ js) n h =
    ground (arith, has-without i k js, eq_iff j i, eq_iff j k, eq_iff k i)

apart :
    (i k : NodeId) (ids : List NodeId) → has i ids ≡ false → has k ids ≡ true → str_eq i k ≡ false
apart i k ids n m = elim (Bool-cases (str_eq i k)) [
  | inl e ↦ ground (arith, ap (λ j. has j ids) ((eq_iff i k).0 e))
  | inr e ↦ e
]

-- Different ids that are all picked are at most those that are.
pigeonhole :
    (ids picked : List NodeId)
    → IsDistinct ids
    → ((k : NodeId) → has k ids ≡ true → has k picked ≡ true)
    → length ids ≤ length picked
pigeonhole [] picked d h = omega arith
pigeonhole (i ∷ ids) picked (n, d) h =
    let held : has i picked ≡ true = h i (ground (arith, eq_iff i i)) in
    let ih =
      pigeonhole ids (without i picked) d
        (λ k m. has-without k i picked (apart i k ids n m) (h k (ground arith))) in
    omega (arith, ih, length-without i picked held)

first_other_none :
    (picked ids : List NodeId) (k : NodeId)
    → has "" ids ≡ false
    → str_eq (first_other picked ids) "" ≡ true
    → has k ids ≡ true
    → has k picked ≡ true
unfolding first_other
first_other_none picked [] k n h m = cc
first_other_none picked (id ∷ ids) k n h m = elim (Bool-cases (str_eq id k)) [
  | inl e ↦ ground (arith, ap (λ j. has j picked) ((eq_iff id k).0 e))
  | inr e ↦ ground (arith, first_other_none picked ids k)
]

next_peer_none :
    (ids : List NodeId) (remain : Dict ℤ) (picked : List NodeId)
    → str_eq (next_peer ids remain picked) "" ≡ true
    → str_eq (first_other picked ids) "" ≡ true
unfolding next_peer
next_peer_none ids remain picked h = ground arith

-- The loop ends with all its peers, if there are at least as many ids.
module _ (leaders : Dict ℤ) (named : has "" (keys leaders) ≡ false)
    (d : IsDistinct (keys leaders)) where
  abbrev sorted_ids : List NodeId
  sorted_ids = sort_strings (keys leaders)

  next_peer_all :
      (remain : Dict ℤ) (picked : List NodeId)
      → str_eq (next_peer sorted_ids remain picked) "" ≡ true
      → length leaders ≤ length picked
  next_peer_all remain picked h = omega (
    arith,
    length-map (λ e. e.0) leaders,
    pigeonhole (keys leaders) picked d (λ k m.
        first_other_none picked sorted_ids k (has-sort_strings "" (keys leaders) ∙ named)
          (next_peer_none sorted_ids remain picked h) (has-sort_strings k (keys leaders) ∙ m)),
  )

  pick_peers_full :
      (rounds : ℕ) (remain : Dict ℤ) (picked : List NodeId)
      → length picked + rounds ≤ length leaders
      → length (pick_peers sorted_ids rounds remain picked).0 ≡ length picked + rounds
  unfolding pick_peers
  pick_peers_full zero remain picked h = omega arith
  pick_peers_full (suc rounds) remain picked h =
      let best = next_peer sorted_ids remain picked in
      elim (Bool-cases (str_eq best "")) [
        | inl e ↦ absurd (omega (arith, next_peer_all remain picked e))
        | inr e ↦ rw e (
            omega (
              arith,
              length-append picked (best ∷ []),
              pick_peers_full rounds (take_one best remain) (picked ++ (best ∷ [])),
            ))
      ]

length-peers_of : (picked : List NodeId) → length (peers_of picked) ≡ length picked
unfolding peers_of
length-peers_of [] = refl
length-peers_of (id ∷ ids) = ap suc (length-map (peer_of role_follower) ids)

-- The tablet has as many peers as the factor asks for.
abbrev pub IsFull : {F : Type 0} → ℕ → Tablet F → Type 0
IsFull rf t = length t.peers ≡ rf

module _ (F : Type 0) ⦃f : Float64 F⦄ (leaders : Dict ℤ) (named : has "" (keys leaders) ≡ false)
    (d : IsDistinct (keys leaders)) where
  deal_tablets-IsFull :
      (rounds i : ℕ) (remain : Dict ℤ) (queue : List NodeId)
      → 1 + rounds ≤ length leaders
      → All
          (IsFull (1 + rounds))
          (deal_tablets {F = F} (sort_strings (keys leaders)) rounds i remain queue)
  unfolding deal_tablets synthetic_tablet
  deal_tablets-IsFull rounds i remain [] h = tt
  deal_tablets-IsFull rounds i remain (leader ∷ queue) h = (
    length-peers_of _ ∙ pick_peers_full leaders named d rounds remain (leader ∷ []) h,
    deal_tablets-IsFull rounds (i + 1) _ queue h,
  )

  pub expand_tablets-IsFull :
      (followers : Dict ℤ) (rf : ℤ)
      → 1 ≤ pos_part rf
      → pos_part rf ≤ length leaders
      → All (IsFull (pos_part rf)) (expand_tablets {F = F} leaders followers rf)
  unfolding expand_tablets
  expand_tablets-IsFull followers rf one h =
      subst
        (λ n. All (IsFull n) (
          deal_tablets {F = F} (sort_strings (keys leaders)) (pos_part rf - 1) 0 followers
            (leader_queue leaders (sort_strings (keys leaders)))))
        (omega (arith, one))
        (deal_tablets-IsFull (pos_part rf - 1) 0 followers
          (leader_queue leaders (sort_strings (keys leaders))) (omega (arith, one, h)))
