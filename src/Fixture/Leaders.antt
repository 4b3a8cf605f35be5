-- ===== src/Fixture/Leaders.antt =====
-- internal/adapter/outbound/fixture/collector.go: how many tablets of an expanded plan each server leads.
use yb_doctor.Base.{
  ℕ, zero, suc, ◌+◌, ◌-◌, ◌*◌, String, false, ◌≡◌, refl, ◌∙◌, sym, ap, inl, inr, List, [], ◌∷◌,
  count, count-append, count-perm, any, length, ◌==◌, Dict, get, put, keys, keys-put, has,
  has-count, IsDistinct, IsDistinct-snoc, ℤ, pos_part, sort_strings, sort_by-perm, str_ltb, str_eq,
  eq_iff, arith, Bool-cases, Bool, if◌then◌else◌,
}
use yb_doctor.Float.{Float64}
use yb_doctor.Domain.Ids.{NodeId}
use yb_doctor.Domain.Cluster.{Tablet, TServer}
use yb_doctor.Fixture.Tablets.{
  number_of, repeat_id, leader_queue, pick_peers, synthetic_tablet, deal_tablets, expand_tablets,
}
use yb_doctor.Fixture.Faults.{
  map_first, is_follower, slow_tablets, under_replicate, heat, apply_faults,
}
use yb_doctor.Fixture.Plans.{
  Plan, ids_by_name, remap_counts, add_one, count_followers, nth_id, balanced_from, balanced_counts,
  planned_counts, factor_of, expanded,
}

IsDistinct-put :
    {V : Type 0} (k : String) (v : V) (m : Dict V)
    → IsDistinct (keys m)
    → IsDistinct (keys (put k v m))
IsDistinct-put k v m d = rw (keys-put k v m) (elim (Bool-cases (has k (keys m))) [
  | inl e ↦ rw e d
  | inr e ↦ rw e (IsDistinct-snoc (keys m) k d e)
])

remap_counts-IsDistinct :
    (counts : Dict ℤ) (by_name : Dict NodeId) (out : Dict ℤ)
    → IsDistinct (keys out)
    → IsDistinct (keys (remap_counts counts by_name out))
unfolding remap_counts
remap_counts-IsDistinct [] by_name out d = d
remap_counts-IsDistinct ((k, v) ∷ rest) by_name out d =
    remap_counts-IsDistinct rest by_name _ (IsDistinct-put _ v out d)

module _ {F : Type 0} where
  balanced_from-IsDistinct :
      (nodes : List (TServer F)) (rounds left i : ℕ) (leaders followers : Dict ℤ)
      → IsDistinct (keys leaders)
      → IsDistinct (keys (balanced_from nodes rounds left i leaders followers).0)
  unfolding balanced_from add_one
  balanced_from-IsDistinct nodes rounds zero i leaders followers d = d
  balanced_from-IsDistinct nodes rounds (suc left) i leaders followers d =
      balanced_from-IsDistinct nodes rounds left (i + 1) (add_one (nth_id nodes i) leaders)
        (count_followers nodes rounds (i + 1) followers)
        (IsDistinct-put (nth_id nodes i) _ leaders d)

  pub planned_counts-IsDistinct :
      (plan : Plan F) (rf : ℤ) → IsDistinct (keys (planned_counts plan rf).0)
  unfolding planned_counts balanced_counts
  planned_counts-IsDistinct plan rf =
      let named = remap_counts plan.leaders (ids_by_name plan.tservers []) [] in
      elim (Bool-cases (length named == 0)) [
        | inl e ↦ rw e (balanced_from-IsDistinct plan.tservers (pos_part rf - 1) 9 0 [] [] tt)
        | inr e ↦ rw e (remap_counts-IsDistinct plan.leaders (ids_by_name plan.tservers []) [] tt)
      ]

number_of-cons :
    (k j : NodeId) (v : ℤ) (m : Dict ℤ)
    → number_of k ((j, v) ∷ m) ≡ (if str_eq j k then v else number_of k m)
unfolding number_of get
number_of-cons k j v m = ground arith

count-absent : (k : String) (js : List String) → has k js ≡ false → count (λ j. str_eq j k) js ≡ 0
count-absent k js h = ground (arith, has-count k js)

-- A key occurs once, or has no number.
count-number_of :
    (k : NodeId) (m : Dict ℤ)
    → IsDistinct (keys m)
    → count (λ j. str_eq j k) (keys m) * pos_part (number_of k m) ≡ pos_part (number_of k m)
count-number_of k [] d = unfold number_of get in omega arith
count-number_of k ((j, v) ∷ m) (n, d) =
    rw (number_of-cons k j v m) (elim (Bool-cases (str_eq j k)) [
      | inl e ↦
          let once : count (λ j. str_eq j k) (keys m) ≡ 0 =
            count-absent k (keys m) (sym (ap (λ x. has x (keys m)) ((eq_iff j k).0 e)) ∙ n) in
          rw (e, once) (omega arith)
      | inr e ↦ rw e (omega (arith, count-number_of k m d))
    ])

repeat_id-count :
    (n : ℕ) (id k : NodeId)
    → count (λ j. str_eq j k) (repeat_id n id) ≡ (if str_eq id k then n else 0)
unfolding repeat_id
repeat_id-count zero id k = ground arith
repeat_id-count (suc n) id k = ground (arith, repeat_id-count n id k)

leader_queue-count :
    (leaders : Dict ℤ) (k : NodeId) (ids : List NodeId)
    → count (λ j. str_eq j k) (leader_queue leaders ids)
      ≡ count (λ j. str_eq j k) ids * pos_part (number_of k leaders)
unfolding leader_queue
leader_queue-count leaders k [] = omega arith
leader_queue-count leaders k (id ∷ ids) =
    count-append (λ j. str_eq j k) (repeat_id (pos_part (number_of id leaders)) id)
      (leader_queue leaders ids)
    ∙ elim (Bool-cases (str_eq id k)) [
      | inl e ↦
          rw
            (
              repeat_id-count (pos_part (number_of id leaders)) id k,
              leader_queue-count leaders k ids,
              e,
              (eq_iff id k).0 e,
            )
            (omega arith)
      | inr e ↦
          rw
            (
              repeat_id-count (pos_part (number_of id leaders)) id k,
              leader_queue-count leaders k ids,
              e,
            )
            (omega arith)
    ]

-- The tablet names the server as its leader.
abbrev led_by : {F : Type 0} → NodeId → Tablet F → Bool
led_by k t = str_eq t.leader_id k

module _ (F : Type 0) ⦃f : Float64 F⦄ where
  deal_tablets-count :
      (ids : List NodeId) (rounds i : ℕ) (remain : Dict ℤ) (k : NodeId) (queue : List NodeId)
      → count (led_by {F = F} k) (deal_tablets ids rounds i remain queue)
        ≡ count (λ j. str_eq j k) queue
  unfolding deal_tablets synthetic_tablet
  deal_tablets-count ids rounds i remain k [] = refl
  deal_tablets-count ids rounds i remain k (leader ∷ queue) =
      ap (λ n. (if str_eq leader k then 1 else 0) + n)
        (deal_tablets-count ids rounds (i + 1) (pick_peers ids rounds remain (leader ∷ [])).1 k
          queue)

  expand_tablets-count :
      (leaders followers : Dict ℤ) (rf : ℤ) (k : NodeId)
      → IsDistinct (keys leaders)
      → count (led_by {F = F} k) (expand_tablets leaders followers rf)
        ≡ pos_part (number_of k leaders)
  unfolding expand_tablets
  expand_tablets-count leaders followers rf k d =
      let ids = sort_strings (keys leaders) in
      deal_tablets-count ids (pos_part rf - 1) 0 followers k (leader_queue leaders ids)
      ∙ leader_queue-count leaders k ids
      ∙ ap (λ n. n * pos_part (number_of k leaders))
          (count-perm (λ (j : String). str_eq j k) (sort_by-perm str_ltb (keys leaders)))
      ∙ count-number_of k leaders d

module _ {F : Type 0} ⦃f : Float64 F⦄ where
  map_first-count :
      (p : Tablet F → Bool) (g : Tablet F → Tablet F) (n : ℕ) (ts : List (Tablet F))
      → ((t : Tablet F) → p (g t) ≡ p t)
      → count p (map_first n g ts) ≡ count p ts
  map_first-count p g zero ts h = refl
  map_first-count p g (suc n) [] h = refl
  map_first-count p g (suc n) (t ∷ ts) h = rw (h t, map_first-count p g n ts h) refl

  slow_tablets-count :
      (k : NodeId) (n : ℕ) (ts : List (Tablet F))
      → count (led_by k) (slow_tablets n ts) ≡ count (led_by k) ts
  unfolding slow_tablets
  slow_tablets-count k zero ts = refl
  slow_tablets-count k (suc n) [] = refl
  slow_tablets-count k (suc n) (t ∷ ts) =
      ap (λ m. (if led_by k t then 1 else 0) + m)
        (slow_tablets-count k (if any is_follower t.peers then n else suc n) ts)

  under_replicate-led_by : (k : NodeId) (t : Tablet F) → led_by k (under_replicate t) ≡ led_by k t
  unfolding under_replicate
  under_replicate-led_by k t = ground arith

  -- Of a plan without leaderless tablets, each server leads as many tablets as the plan gives it, or
  -- as the balanced numbers do where the plan names none; slow, hot and under-replicated tablets
  -- change nothing in that.
  pub expanded-leaders :
      (plan : Plan F) (k : NodeId)
      → pos_part plan.leaderless ≡ 0
      → count (λ t. str_eq t.leader_id k) (expanded plan).tablets
        ≡ pos_part (number_of k (planned_counts plan (factor_of plan)).0)
  unfolding expanded apply_faults heat
  expanded-leaders plan k h =
      let (leaders, followers) = planned_counts plan (factor_of plan) in
      let dealt = expand_tablets leaders followers (factor_of plan) in
      rw h (
        map_first-count (led_by k) under_replicate (pos_part plan.under_replicated) _
          (under_replicate-led_by k)
        ∙ map_first-count (led_by k) heat (pos_part plan.hot_tablets)
            (slow_tablets (pos_part plan.slow_followers) dealt) (λ t. refl)
        ∙ slow_tablets-count k (pos_part plan.slow_followers) dealt
        ∙ expand_tablets-count F leaders followers (factor_of plan) k
            (planned_counts-IsDistinct plan (factor_of plan)))
