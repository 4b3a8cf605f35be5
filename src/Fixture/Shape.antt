-- ===== src/Fixture/Shape.antt =====
-- internal/adapter/outbound/fixture/collector.go: the peers of a tablet that `expandTablets` deals.
use mathlib.Core.Path.{subst}
use yb_doctor.Base.{
  ℕ, zero, suc, ◌+◌, ◌-◌, ◌≤◌, Bool, true, ◌≡◌, refl, sym, not, ◌||◌, inl, inr, List, [], ◌∷◌, ◌++◌,
  map, length, length-append, All, Dict, keys, has, IsDistinct, IsDistinct-snoc, ℤ, negsuc,
  pos_part, sort_strings, str_eq, arith, Bool-cases,
}
use yb_doctor.Float.{Float64}
use yb_doctor.Domain.Ids.{NodeId, role_leader, role_follower}
use yb_doctor.Domain.Cluster.{Tablet}
use yb_doctor.Fixture.Tablets.{
  best_follower, first_other, next_peer, take_one, pick_peers, peer_of, peers_of, synthetic_tablet,
  deal_tablets, leader_queue, expand_tablets,
}

-- The id names no server, or one that is not picked.
abbrev is_free : List NodeId → NodeId → Bool
is_free picked id = str_eq id "" || not (has id picked)

best_follower_free :
    (picked : List NodeId) (remain : Dict ℤ) (best : NodeId) (n : ℤ)
    → is_free picked best ≡ true
    → is_free picked (best_follower picked remain best n) ≡ true
unfolding best_follower
best_follower_free picked [] best n h = h
best_follower_free picked ((id, m) ∷ remain) best n h =
    best_follower_free picked remain _ _ (ground arith)

first_other_free : (picked ids : List NodeId) → is_free picked (first_other picked ids) ≡ true
unfolding first_other
first_other_free picked [] = refl
first_other_free picked (id ∷ ids) = ground (arith, first_other_free picked ids)

next_peer_free :
    (ids : List NodeId) (remain : Dict ℤ) (picked : List NodeId)
    → is_free picked (next_peer ids remain picked) ≡ true
unfolding next_peer
next_peer_free ids remain picked =
    ground (arith, best_follower_free picked remain "" (negsuc 0), first_other_free picked ids)

-- The leader comes first, nobody comes twice, and there are no more than the rounds allow.
pick_peers_shape :
    (ids : List NodeId) (rounds : ℕ) (remain : Dict ℤ) (leader : NodeId) (more : List NodeId)
    → IsDistinct (leader ∷ more)
    → (rest : List NodeId) × ((pick_peers ids rounds remain (leader ∷ more)).0 ≡ leader ∷ rest)
      × IsDistinct (leader ∷ rest)
      × (length rest ≤ length more + rounds)
unfolding pick_peers
pick_peers_shape ids zero remain leader more d = (more, refl, d, omega arith)
pick_peers_shape ids (suc rounds) remain leader more d =
    let best = next_peer ids remain (leader ∷ more) in
    elim (Bool-cases (str_eq best "")) [
      | inl e ↦ (more, rw e refl, d, omega arith)
      | inr e ↦
          let (rest, picked, distinct, bound) =
            pick_peers_shape ids rounds (take_one best remain) leader (more ++ (best ∷ [])) (
              IsDistinct-snoc (leader ∷ more) best d
                (ground (arith, next_peer_free ids remain (leader ∷ more), e))) in
          (rest, rw e picked, distinct, omega (arith, bound, length-append more (best ∷ [])))
    ]

-- A tablet of a replication factor: its peers are the server that it names as its leader, in that role, and then
-- other servers as followers, no server twice, and no more than the factor asks for.
pub record IsDealt {F : Type 0} (rf : ℤ) (t : Tablet F) : Type 0 where
  pub others : List NodeId
  pub peers : t.peers ≡ peer_of role_leader t.leader_id ∷ map (peer_of role_follower) others
  pub distinct : IsDistinct (t.leader_id ∷ others)
  pub within : length others ≤ pos_part rf - 1

module _ (F : Type 0) ⦃f : Float64 F⦄ where
  synthetic_tablet-IsDealt :
      (rf : ℤ) (i : ℕ) (leader : NodeId) (rest : List NodeId)
      → IsDistinct (leader ∷ rest)
      → length rest ≤ pos_part rf - 1
      → IsDealt rf (synthetic_tablet {F = F} i leader (leader ∷ rest))
  unfolding synthetic_tablet peers_of
  synthetic_tablet-IsDealt rf i leader rest d h = record {
    others = rest;
    peers = refl;
    distinct = d;
    within = h;
  }

  deal_tablets-IsDealt :
      (ids : List NodeId) (rf : ℤ) (i : ℕ) (remain : Dict ℤ) (queue : List NodeId)
      → All (IsDealt rf) (deal_tablets {F = F} ids (pos_part rf - 1) i remain queue)
  unfolding deal_tablets
  deal_tablets-IsDealt ids rf i remain [] = tt
  deal_tablets-IsDealt ids rf i remain (leader ∷ queue) =
      let (rest, picked, distinct, bound) =
        pick_peers_shape ids (pos_part rf - 1) remain leader [] (refl, tt) in
      (
        subst (λ ps. IsDealt rf (synthetic_tablet {F = F} i leader ps)) (sym picked)
            (synthetic_tablet-IsDealt rf i leader rest distinct (omega (arith, bound))),
        deal_tablets-IsDealt ids rf (i + 1)
            (pick_peers ids (pos_part rf - 1) remain (leader ∷ [])).1 queue,
      )

  -- Every tablet of an expanded plan, before its faults, has as its peers the server that it names as its
  -- leader, in that role, and then other servers as followers, none of them twice, and no more than the
  -- replication factor asks for.
  pub expand_tablets-IsDealt :
      (leaders followers : Dict ℤ) (rf : ℤ)
      → All (IsDealt rf) (expand_tablets {F = F} leaders followers rf)
  unfolding expand_tablets
  expand_tablets-IsDealt leaders followers rf =
      deal_tablets-IsDealt (sort_strings (keys leaders)) rf 0 followers
        (leader_queue leaders (sort_strings (keys leaders)))
