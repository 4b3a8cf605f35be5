-- ===== src/Yugabyte/Flags.antt =====
-- internal/adapter/outbound/yugabyte/parse.go: which flags `pickAllowlistFlags` keeps.
use yb_doctor.Base.{
  String, Bool, true, false, ◌≡◌, refl, ◌∙◌, sym, ap, ◌||◌, inl, inr, Option, none, some, List, [],
  ◌∷◌, length, ◌==◌, Dict, get, put, get-put, has, str_eq, eq_iff, arith, Bool-cases, Option-cases,
  if◌then◌else◌,
}
use yb_doctor.Yugabyte.Entities.{pick_names, pick_allowlist_flags}

-- The value of a flag that is among the names and is set, or what it was.
abbrev picked : Option String → Bool → Option String → Option String
picked (some v) true old = some v
picked (some v) false old = old
picked none b old = old

get-pick_names :
    (all : Dict String) (ns : List String) (out : Dict String) (k : String)
    → get k (pick_names all ns out) ≡ picked (get k all) (has k ns) (get k out)
unfolding pick_names
get-pick_names all [] out k = elim (Option-cases (get k all)) [
  | inl e ↦ rw e refl
  | inr (v, e) ↦ rw e refl
]
get-pick_names all (n ∷ ns) out k = elim (Option-cases (get n all)) [
  | inl e ↦ rw e (
      get-pick_names all ns out k ∙ elim (Bool-cases (str_eq n k)) [
        | inl q ↦ rw (sym (ap (λ j. get j all) ((eq_iff n k).0 q)) ∙ e) refl
        | inr q ↦ rw q refl
      ])
  | inr (v, e) ↦ rw e (
      get-pick_names all ns (put n v out) k
      ∙ ap (picked (get k all) (has k ns)) (get-put n k v out)
      ∙ elim (Bool-cases (str_eq n k)) [
        | inl q ↦
            rw (q, sym (ap (λ j. get j all) ((eq_iff n k).0 q)) ∙ e) (kept v (has k ns) (get k out))
        | inr q ↦ rw q refl
      ])
]
  where
    kept :
        (v : String) (b : Bool) (old : Option String)
        → picked (some v) b (some v) ≡ picked (some v) true old
    kept v true old = refl
    kept v false old = refl

picked-none : (o : Option String) (b : Bool) → picked o b none ≡ (if b then o else none)
picked-none none true = refl
picked-none none false = refl
picked-none (some v) true = refl
picked-none (some v) false = refl

-- A flag is kept with its value exactly if it is among the names of the allowlist and is set.
pub get-pick_allowlist_flags :
    (all : Dict String) (names : List String) (k : String)
    → get k (pick_allowlist_flags all names) ≡ (if has k names then get k all else none)
unfolding pick_allowlist_flags get pick_names
get-pick_allowlist_flags [] names k = elim (Bool-cases (has k names)) [
  | inl e ↦ rw e refl
  | inr e ↦ rw e refl
]
get-pick_allowlist_flags (a ∷ all) [] k =
    elim (Bool-cases (length (a ∷ all) == 0 || length {A = String} [] == 0)) [
      | inl e ↦ rw e refl
      | inr e ↦ rw e refl
    ]
get-pick_allowlist_flags (a ∷ all) (n ∷ names) k =
    let some_of_each : (length (a ∷ all) == 0 || length (n ∷ names) == 0) ≡ false = ground arith in
    rw some_of_each (
      get-pick_names (a ∷ all) (n ∷ names) [] k ∙ picked-none (get k (a ∷ all)) (has k (n ∷ names)))
