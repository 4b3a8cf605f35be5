-- ===== src/App/Skew/Extremes.antt =====
-- internal/app/tablets.go: the places that `maxMinRatio` returns.
use yb_doctor.Base.{
  ℕ, suc, ◌+◌, ◌≤◌, ◌≡◌, refl, ◌∙◌, ap, some, List, [], ◌∷◌, All, get_elem?, ltb, pos, Bool-cases,
  inl, inr, arith,
}
use yb_doctor.Float.{Float64}
use yb_doctor.App.Skew.{Extreme, widen_to, scan_extremes, ratio_of, max_min_ratio}

-- Both places hold their values.
abbrev At : List ℕ → Extreme → Type 0
At all e = (get_elem? all e.max_i ≡ some e.max_v) × (get_elem? all e.min_i ≡ some e.min_v)

-- The extremes lie around every value.
abbrev Bounds : List ℕ → Extreme → Type 0
Bounds vs e = All (λ v. (e.min_v ≤ v) × (v ≤ e.max_v)) vs

widen_to-At :
    (all : List ℕ) (i v : ℕ) (e : Extreme)
    → get_elem? all i ≡ some v
    → At all e
    → At all (widen_to i v e)
unfolding widen_to
widen_to-At all i v e h p = elim (Bool-cases (ltb e.max_v v)) [
  | inl q ↦ rw q (elim (Bool-cases (ltb v e.min_v)) [ inl r ↦ rw r (h, h) | inr r ↦ rw r (h, p.1) ])
  | inr q ↦ rw q (elim (Bool-cases (ltb v e.min_v)) [ inl r ↦ rw r (p.0, h) | inr r ↦ rw r p ])
]

widen_to-le :
    (i v : ℕ) (e : Extreme)
    → ((widen_to i v e).min_v ≤ v)
      × (v ≤ (widen_to i v e).max_v)
      × ((widen_to i v e).min_v ≤ e.min_v)
      × (e.max_v ≤ (widen_to i v e).max_v)
unfolding widen_to
widen_to-le i v e = elim (Bool-cases (ltb e.max_v v)) [
  | inl q ↦ rw q (elim (Bool-cases (ltb v e.min_v)) [
    | inl r ↦ rw r (ground arith)
    | inr r ↦ rw r (ground arith)
  ])
  | inr q ↦ rw q (elim (Bool-cases (ltb v e.min_v)) [
    | inl r ↦ rw r (ground arith)
    | inr r ↦ rw r (ground arith)
  ])
]

scan_extremes-At :
    (all : List ℕ) (i : ℕ) (vs : List ℕ) (e : Extreme)
    → ((j : ℕ) → get_elem? all (i + j) ≡ get_elem? vs j)
    → At all e
    → At all (scan_extremes i vs e)
unfolding scan_extremes
scan_extremes-At all i [] e h p = p
scan_extremes-At all i (v ∷ vs) e h p =
    scan_extremes-At all (suc i) vs (widen_to i v e)
      (λ j. ap (get_elem? all) (omega arith) ∙ h (suc j))
      (widen_to-At all i v e (ap (get_elem? all) (omega arith) ∙ h 0) p)

scan_extremes-le :
    (i : ℕ) (vs : List ℕ) (e : Extreme)
    → ((scan_extremes i vs e).min_v ≤ e.min_v) × (e.max_v ≤ (scan_extremes i vs e).max_v)
unfolding scan_extremes
scan_extremes-le i [] e = (omega arith, omega arith)
scan_extremes-le i (v ∷ vs) e =
    omega (arith, scan_extremes-le (suc i) vs (widen_to i v e), widen_to-le i v e)

scan_extremes-Bounds : (i : ℕ) (vs : List ℕ) (e : Extreme) → Bounds vs (scan_extremes i vs e)
unfolding scan_extremes
scan_extremes-Bounds i [] e = tt
scan_extremes-Bounds i (v ∷ vs) e = (
  omega (arith, scan_extremes-le (suc i) vs (widen_to i v e), widen_to-le i v e),
  scan_extremes-Bounds (suc i) vs (widen_to i v e),
)

-- Of a list that is not empty, the two places returned hold its greatest and its least value, and the
-- ratio returned is that of these two.
pub max_min_ratio_exact :
    {F : Type 0} ⦃f : Float64 F⦄ (v : ℕ) (vs : List ℕ)
    → (hi : ℕ) × (lo : ℕ) × (x : ℕ) × (y : ℕ) × (max_min_ratio {F = F} (v ∷ vs)
        ≡ (ratio_of x y, pos hi, pos lo))
      × (get_elem? (v ∷ vs) hi ≡ some x)
      × (get_elem? (v ∷ vs) lo ≡ some y)
      × All (λ w. (y ≤ w) × (w ≤ x)) (v ∷ vs)
unfolding max_min_ratio
max_min_ratio_exact v vs =
    let e = scan_extremes 0 (v ∷ vs) (record { max_v = v; min_v = v; max_i = 0; min_i = 0 }) in
    let p =
      scan_extremes-At (v ∷ vs) 0 (v ∷ vs) (record { max_v = v; min_v = v; max_i = 0; min_i = 0 })
        (λ j. ap (get_elem? (v ∷ vs)) (omega arith)) (refl, refl) in
    (
      e.max_i,
      e.min_i,
      e.max_v,
      e.min_v,
      refl,
      p.0,
      p.1,
      scan_extremes-Bounds 0 (v ∷ vs) (record { max_v = v; min_v = v; max_i = 0; min_i = 0 }),
    )
