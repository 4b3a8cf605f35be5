-- ===== src/Fixture/Exact.antt =====
-- internal/adapter/outbound/fixture/collector.go with internal/app/raft.go: how many tablets of an expanded plan the
-- Raft analysis finds under-replicated, where there are servers enough.
use Prim.Native.Nat.{min}
use yb_doctor.Base.{
  ℕ, zero, suc, ◌≤◌, false, ◌≡◌, refl, sym, ◌∙◌, All-map, List, [], ◌∷◌, count, length, length-map,
  All, keys, has, pos_part, arith, ap,
}
use yb_doctor.Float.{Float64}
use yb_doctor.Domain.Cluster.{Snapshot, Tablet}
use yb_doctor.Config.{Thresholds}
use yb_doctor.App.Raft.{analyze_raft, count_ids_or, is_under_replicated}
use yb_doctor.Fixture.Tablets.{expand_tablets}
use yb_doctor.Fixture.Faults.{
  map_first, slow_first, demote, without_leader, under_replicate, heat, apply_faults,
}
use yb_doctor.Fixture.Plans.{Plan, planned_counts, factor_of, expanded}
use yb_doctor.Fixture.Leaders.{planned_counts-IsDistinct}
use yb_doctor.Fixture.Shape.{expand_tablets-IsDealt}
use yb_doctor.Fixture.Full.{IsFull, expand_tablets-IsFull}
use yb_doctor.Fixture.Lost.{length-slow_first, length-map_first, map_first-All, slow_tablets-All}
use yb_doctor.Fixture.Found.{
  one_part, Fits, IsDealt-Fits, slow_first-Fits, without_leader-Fits, under_replicate-found,
  replica_count-IsVoting, lost,
}

module _ {F : Type 0} where
  -- A tablet with as many voting peers as the factor asks for.
  abbrev IsWhole : ℕ → Tablet F → Type 0
  IsWhole rf t = Fits rf t × IsFull rf t

  All-IsWhole :
      (rf : ℕ) (ts : List (Tablet F)) → All (Fits rf) ts → All (IsFull rf) ts → All (IsWhole rf) ts
  All-IsWhole rf [] h k = tt
  All-IsWhole rf (t ∷ ts) (h, hs) (k, ks) = ((h, k), All-IsWhole rf ts hs ks)

  full-is_under_replicated :
      (s : Snapshot F) (t : Tablet F)
      → 2 ≤ pos_part s.replication_factor
      → IsWhole (pos_part s.replication_factor) t
      → is_under_replicated s t ≡ false
  unfolding is_under_replicated
  full-is_under_replicated s t two (fits, full) =
      rw (replica_count-IsVoting t fits.voting) (ground (arith, one_part s.replication_factor))

  whole-count :
      (s : Snapshot F) (ts : List (Tablet F))
      → 2 ≤ pos_part s.replication_factor
      → All (IsWhole (pos_part s.replication_factor)) ts
      → count (is_under_replicated s) ts ≡ 0
  whole-count s [] two h = refl
  whole-count s (t ∷ ts) two (h, hs) =
      rw (full-is_under_replicated s t two h) (omega (arith, whole-count s ts two hs))

  -- Each of the first n, and no other, is found.
  under_replicate-exact :
      (s : Snapshot F) (n : ℕ) (ts : List (Tablet F))
      → 2 ≤ pos_part s.replication_factor
      → All (IsWhole (pos_part s.replication_factor)) ts
      → count (is_under_replicated s) (map_first n under_replicate ts) ≡ min n (length ts)
  under_replicate-exact s zero ts two h = whole-count s ts two h ∙ omega arith
  under_replicate-exact s (suc n) [] two h = omega arith
  under_replicate-exact s (suc n) (t ∷ ts) two (h, hs) =
      rw (under_replicate-found s t two h.0) (omega (arith, under_replicate-exact s n ts two hs))

  slow_first-IsWhole :
      (rf : ℕ) (t : Tablet F) → IsWhole rf t → IsWhole rf (record t { peers = slow_first t.peers })
  slow_first-IsWhole rf t (fits, full) =
      (slow_first-Fits rf t fits, length-slow_first t.peers ∙ full)

  without_leader-IsWhole : (rf : ℕ) (t : Tablet F) → IsWhole rf t → IsWhole rf (without_leader t)
  unfolding without_leader
  without_leader-IsWhole rf t (fits, full) =
      (without_leader-Fits rf t fits, length-map demote t.peers ∙ full)

module _ {F : Type 0} ⦃f : Float64 F⦄ where
  heat-IsWhole : (rf : ℕ) (t : Tablet F) → IsWhole rf t → IsWhole rf (heat t)
  unfolding heat
  heat-IsWhole rf t (fits, full) =
      (record { voting = fits.voting; placed = fits.placed; within = fits.within }, full)

  expanded-IsWhole :
      (plan : Plan F)
      → 2 ≤ pos_part (factor_of plan)
      → pos_part (factor_of plan) ≤ length (planned_counts plan (factor_of plan)).0
      → has "" (keys (planned_counts plan (factor_of plan)).0) ≡ false
      → All (IsWhole (pos_part (factor_of plan))) (lost plan)
  expanded-IsWhole plan two enough named =
      let rf = pos_part (factor_of plan) in
      let (leaders, followers) = planned_counts plan (factor_of plan) in
      let dealt = expand_tablets {F = F} leaders followers (factor_of plan) in
      map_first-All (IsWhole rf) without_leader (pos_part plan.leaderless) _
        (without_leader-IsWhole rf)
        (map_first-All (IsWhole rf) heat (pos_part plan.hot_tablets) _ (heat-IsWhole rf) (
          slow_tablets-All (IsWhole rf) (pos_part plan.slow_followers) dealt (slow_first-IsWhole rf)
            (All-IsWhole rf dealt
              (All-map (λ t d. IsDealt-Fits (factor_of plan) t two d) dealt
                (expand_tablets-IsDealt F leaders followers (factor_of plan)))
              (expand_tablets-IsFull F leaders named
                (planned_counts-IsDistinct plan (factor_of plan)) followers (factor_of plan)
                (omega (arith, two)) enough))))

  -- Where a tablet is to have at least two replicas, and at least as many servers have planned leaders, each
  -- with an id, the Raft analysis of an expanded plan counts exactly the under-replicated tablets that the plan
  -- asks for, or all if it asks for more than there are.
  pub expanded-under_replicated_exact :
      (plan : Plan F) (th : Thresholds F)
      → 2 ≤ pos_part (factor_of plan)
      → pos_part (factor_of plan) ≤ length (planned_counts plan (factor_of plan)).0
      → has "" (keys (planned_counts plan (factor_of plan)).0) ≡ false
      → (analyze_raft (expanded plan) th).under_replicated
        ≡ min (pos_part plan.under_replicated) (length (expanded plan).tablets)
  unfolding expanded analyze_raft count_ids_or apply_faults heat
  expanded-under_replicated_exact plan th two enough named =
      under_replicate-exact (expanded plan) (pos_part plan.under_replicated) (lost plan) two
        (expanded-IsWhole plan two enough named)
      ∙ ap (min (pos_part plan.under_replicated))
          (sym (length-map_first under_replicate (pos_part plan.under_replicated) (lost plan)))
