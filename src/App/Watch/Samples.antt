-- ===== src/App/Watch/Samples.antt =====
-- What a watch returns over its samples.
use mathlib.Core.Path.{subst}
use yb_doctor.Base.{
  String, true, false, ◌≡◌, refl, ◌∙◌, ap, sym, if◌then◌else◌, Option-cases, Bool-cases, Option,
  none, some, List, [], ◌∷◌, ◌++◌, map, All, inl, inr, ℤ, pos, leb_ℤ,
}
use mathlib.Core.List.{append_assoc, append-nil}
use yb_doctor.Domain.Report.{HealthReport}
use yb_doctor.App.Watch.{
  Reason, sampled, stopped, failed, Event, tick, done, analyze_failed, emit_failed, watch_failed,
  Watching, running, returned, close, emit_error, emitted, watch_from, start_watch, watch_analyze,
  is_expected,
}

module _ {F : Type 0} where
  abbrev pub last_of : HealthReport F → List (HealthReport F) → HealthReport F
  last_of r [] = r
  last_of r (x ∷ xs) = last_of x xs

  abbrev pub ticks : List (HealthReport F) → List (Event F)
  ticks = map (λ r. tick (sampled r))

  abbrev pub Accepts : (HealthReport F → Option String) → HealthReport F → Type 0
  Accepts emit r = emit r ≡ none

  -- Over samples that are all emitted, a watch goes on from the last of them.
  watch_from-ticks :
      (emit : HealthReport F → Option String) (first last : HealthReport F)
      (log rs : List (HealthReport F)) (es : List (Event F))
      → All (Accepts emit) rs
      → watch_from (some emit) first last log (ticks rs ++ es)
        ≡ watch_from (some emit) first (last_of last rs) (log ++ rs) es
  unfolding watch_from
  watch_from-ticks emit first last log [] es h =
      ap (λ seen. watch_from (some emit) first last seen es) (sym (append-nil log))
  watch_from-ticks emit first last log (r ∷ rs) es (h, hs) =
      rw (h, watch_from)
        (watch_from-ticks emit first r (log ++ (r ∷ [])) rs es hs
          ∙ ap (λ seen. watch_from (some emit) first (last_of r rs) seen es)
              (append_assoc log (r ∷ []) rs))

  watch_analyze-ticks :
      (interval : ℤ) (emit : HealthReport F → Option String) (first : HealthReport F)
      (rs : List (HealthReport F)) (es : List (Event F))
      → leb_ℤ interval (pos 0) ≡ false
      → All (Accepts emit) (first ∷ rs)
      → watch_analyze interval (some emit) (sampled first) (ticks rs ++ es)
        ≡ watch_from (some emit) first (last_of first rs) (first ∷ rs) es
  unfolding watch_analyze start_watch
  watch_analyze-ticks interval emit first rs es i (h, hs) =
      rw i (rw (h, start_watch) (watch_from-ticks emit first first (first ∷ []) rs es hs))

  pub watch_analyze_samples :
      (interval : ℤ) (emit : HealthReport F → Option String) (first : HealthReport F)
      (rs : List (HealthReport F)) (reason : Reason) (after : List (Event F))
      → leb_ℤ interval (pos 0) ≡ false
      → All (Accepts emit) (first ∷ rs)
      → is_expected reason ≡ true
      → watch_analyze interval (some emit) (sampled first) (ticks rs ++ done reason ∷ after)
        ≡ returned (some (close first (last_of first rs))) none (first ∷ rs)
  unfolding watch_from
  watch_analyze_samples interval emit first rs reason after i h k =
      watch_analyze-ticks interval emit first rs (done reason ∷ after) i h ∙ rw k refl

  -- What a watch returns without an error has the difference from the first sample.
  abbrev pub Closed : HealthReport F → Watching F → Type 0
  Closed first (running last log) = Unit
  Closed first (returned r (some e) log) = Unit
  Closed first (returned r none log) = (last : HealthReport F) × (r ≡ some (close first last))

  watch_from-Closed :
      (emit : Option (HealthReport F → Option String)) (first last : HealthReport F)
      (log : List (HealthReport F)) (es : List (Event F))
      → Closed first (watch_from emit first last log es)
  unfolding watch_from
  watch_from-Closed emit first last log [] = tt
  watch_from-Closed emit first last log (done reason ∷ es) =
      elim (Bool-cases (is_expected reason)) [ inl e ↦ rw e (last, refl) | inr e ↦ rw e tt ]
  watch_from-Closed emit first last log (tick (stopped e) ∷ es) = (last, refl)
  watch_from-Closed emit first last log (tick (failed e) ∷ es) = tt
  watch_from-Closed emit first last log (tick (sampled r) ∷ es) =
      let ih = watch_from-Closed emit first r (log ++ emitted emit r) es in
      elim (Option-cases (emit_error emit r)) [
        | inl e ↦ rw (e, watch_from) ih
        | inr (x, e) ↦ rw (e, watch_from) tt
      ]

  pub watch_analyze-Closed :
      (interval : ℤ) (emit : Option (HealthReport F → Option String)) (first : HealthReport F)
      (es : List (Event F))
      → Closed first (watch_analyze interval emit (sampled first) es)
  unfolding watch_analyze start_watch
  watch_analyze-Closed interval emit first es = elim (Bool-cases (leb_ℤ interval (pos 0))) [
    | inl bad ↦ rw bad tt
    | inr good ↦ rw good (elim (Option-cases (emit_error emit first)) [
      | inl n ↦ rw (n, start_watch) (watch_from-Closed emit first first (emitted emit first) es)
      | inr (x, n) ↦ rw (n, start_watch) tt
    ])
  ]

  -- What a watch gives that has emitted the samples `seen`, of which `last` is the last, and takes an event next; for a
  -- sample that is emitted, nothing is asked here.
  abbrev pub GivesOn :
      (HealthReport F → Option String)
      → HealthReport F
      → HealthReport F
      → List (HealthReport F)
      → Event F
      → Watching F
      → Type 0
  GivesOn emit first last seen (done reason) w =
      w
      ≡ returned (some (close first last)) (if is_expected reason then none else some watch_failed)
          seen
  GivesOn emit first last seen (tick (stopped e)) w =
      w ≡ returned (some (close first last)) none seen
  GivesOn emit first last seen (tick (failed e)) w =
      w ≡ returned (some last) (some (analyze_failed e)) seen
  GivesOn emit first last seen (tick (sampled r)) w = elim (emit r) [
    | none ↦ Unit
    | some e ↦ w ≡ returned (some r) (some (emit_failed e)) (seen ++ (r ∷ []))
  ]

  watch_from_refused :
      (emit : HealthReport F → Option String) (first last : HealthReport F)
      (seen : List (HealthReport F)) (r : HealthReport F) (x : String) (after : List (Event F))
      → emit r ≡ some x
      → watch_from (some emit) first last seen (tick (sampled r) ∷ after)
        ≡ returned (some r) (some (emit_failed x)) (seen ++ (r ∷ []))
  unfolding watch_from
  watch_from_refused emit first last seen r x after n = rw (n, watch_from) refl

  watch_from-GivesOn :
      (emit : HealthReport F → Option String) (first last : HealthReport F)
      (seen : List (HealthReport F)) (event : Event F) (after : List (Event F))
      → GivesOn emit first last seen event (watch_from (some emit) first last seen (event ∷ after))
  unfolding watch_from
  watch_from-GivesOn emit first last seen (done reason) after = refl
  watch_from-GivesOn emit first last seen (tick (stopped e)) after = refl
  watch_from-GivesOn emit first last seen (tick (failed e)) after = refl
  watch_from-GivesOn emit first last seen (tick (sampled r)) after = elim (Option-cases (emit r)) [
    | inl n ↦ rw (n, GivesOn) tt
    | inr (x, n) ↦ rw (n, GivesOn) (watch_from_refused emit first last seen r x after n)
  ]

  -- A watch over a positive interval that has emitted its samples `first ∷ rs` goes on with the last of them. At its next
  -- event it ends: at the end of the context, with the last sample and its difference from the first, and an error
  -- unless the end was expected; at a stopped attempt, with the same and no error; at a failed attempt, with the last
  -- sample and the error; at a sample that is not emitted, with that sample and the error. If the first attempt gives
  -- no sample, it ends with its error, no report, and nothing emitted.
  pub watch_analyze_outcome :
      (interval : ℤ) (emit : HealthReport F → Option String) (first : HealthReport F)
      (rs : List (HealthReport F)) (event : Event F) (after : List (Event F)) (e : String)
      → leb_ℤ interval (pos 0) ≡ false
      → All (Accepts emit) (first ∷ rs)
      → (watch_analyze interval (some emit) (sampled first) (ticks rs)
          ≡ running (last_of first rs) (first ∷ rs))
        × GivesOn emit first
            (last_of first rs)
            (first ∷ rs)
            event
            (watch_analyze interval (some emit) (sampled first) (ticks rs ++ event ∷ after))
        × (watch_analyze interval (some emit) (stopped e) after
            ≡ returned none (some (analyze_failed e)) [])
        × (watch_analyze interval (some emit) (failed e) after
            ≡ returned none (some (analyze_failed e)) [])
  unfolding watch_analyze watch_from
  watch_analyze_outcome interval emit first rs event after e i h = (
    ap (watch_analyze interval (some emit) (sampled first)) (sym (append-nil (ticks rs)))
        ∙ watch_analyze-ticks interval emit first rs [] i h,
    subst (GivesOn emit first (last_of first rs) (first ∷ rs) event)
        (sym (watch_analyze-ticks interval emit first rs (event ∷ after) i h))
        (watch_from-GivesOn emit first (last_of first rs) (first ∷ rs) event after),
    rw i refl,
    rw i refl,
  )
