-- ===== src/Base/Sort.antt =====
-- `sort.SliceStable`, `sort.Slice` and `sort.Strings`: a stable sort by a test "comes before".
use Prim.Native.String.{String}
use mathlib.Core.Path.{◌≡◌, refl, ◌∙◌}
use mathlib.Core.Bool.{Bool, true, false}
use mathlib.Core.List.{List, [], ◌∷◌, Perm, Permᴰ}
use mathlib.Core.List.Perm
use native.Mathlib.Omega.{arith}
use mathlib.Core.Logic.{inl, inr, ∥∥₁_elim}
use native.Mathlib.Nat.{ℕ_set}
use yb_doctor.Base.Tests.{if◌then◌else◌, Bool-cases}
use yb_doctor.Base.Text.{str_ltb, str_eq}
use yb_doctor.Base.Dicts.{has, has-count}
use yb_doctor.Base.Lists.{filter, count}

module _ {A : Type 0} (before : A → A → Bool) where
  unfoldable pub insert_by : A → List A → List A
  insert_by x [] = x ∷ []
  insert_by x (y ∷ ys) = if before y x then y ∷ insert_by x ys else x ∷ y ∷ ys

  unfoldable pub sort_by : List A → List A
  sort_by [] = []
  sort_by (x ∷ xs) = insert_by x (sort_by xs)

  -- Each element stands before its successor, or the test does not tell them apart.
  abbrev pub IsSorted : List A → Type 0
  IsSorted [] = Unit
  IsSorted (x ∷ []) = Unit
  IsSorted (x ∷ y ∷ r) = (before y x ≡ false) × IsSorted (y ∷ r)

  insert_by-perm : (x : A) (xs : List A) → Perm (insert_by x xs) (x ∷ xs)
  unfolding insert_by
  insert_by-perm x [] = Perm.refl _
  insert_by-perm x (y ∷ ys) = elim (Bool-cases (before y x)) [
    | inl e ↦ rw e (Perm.trans (Perm.cons y (insert_by-perm x ys)) (Perm.swap x y ys))
    | inr e ↦ rw e (Perm.refl _)
  ]

  pub sort_by-perm : (xs : List A) → Perm (sort_by xs) xs
  unfolding sort_by
  sort_by-perm [] = Perm.refl _
  sort_by-perm (x ∷ xs) = Perm.trans (insert_by-perm x (sort_by xs)) (Perm.cons x (sort_by-perm xs))

  -- Elements of one class, which the test does not tell apart, keep their order.
  insert_by_stable :
      (p : A → Bool) (x : A) (ys : List A)
      → ((y : A) → p x ≡ true → p y ≡ true → before y x ≡ false)
      → filter p (insert_by x ys) ≡ filter p (x ∷ ys)
  unfolding insert_by
  insert_by_stable p x [] h = refl
  insert_by_stable p x (y ∷ ys) h = ground (arith, insert_by_stable p x ys h, h y)

  pub sort_by_stable :
      (p : A → Bool) (xs : List A)
      → ((x y : A) → p x ≡ true → p y ≡ true → before y x ≡ false)
      → filter p (sort_by xs) ≡ filter p xs
  unfolding sort_by
  sort_by_stable p [] h = refl
  sort_by_stable p (x ∷ xs) h =
      insert_by_stable p x (sort_by xs) (h x) ∙ ground (arith, sort_by_stable p xs h)

  module _ (asym : (x y : A) → before x y ≡ true → before y x ≡ false) where
    insert_by-IsSorted : (x : A) (ys : List A) → IsSorted ys → IsSorted (insert_by x ys)
    unfolding insert_by
    insert_by-IsSorted x [] s = tt
    insert_by-IsSorted x (y ∷ []) s = ground (arith, asym y x)
    insert_by-IsSorted x (y ∷ z ∷ r) (h, s) =
        ground (arith, asym y x, insert_by-IsSorted x (z ∷ r) s)

    pub sort_by-IsSorted : (xs : List A) → IsSorted (sort_by xs)
    unfolding sort_by
    sort_by-IsSorted [] = tt
    sort_by-IsSorted (x ∷ xs) = insert_by-IsSorted x (sort_by xs) (sort_by-IsSorted xs)

abbrev pub sort_strings : List String → List String
sort_strings = sort_by str_ltb

-- What a permutation keeps.
count_derived-perm :
    {A : Type 0} (p : A → Bool) {xs ys : List A} → Permᴰ xs ys → count p xs ≡ count p ys
count_derived-perm p Permᴰ.nil = refl
count_derived-perm p (Permᴰ.cons {a = a} {b = b} e h) = rw e (omega (arith, count_derived-perm p h))
count_derived-perm p (Permᴰ.swap e f) = rw e (rw f (omega arith))
count_derived-perm p (Permᴰ.trans h k) = count_derived-perm p h ∙ count_derived-perm p k

pub count-perm : {A : Type 0} (p : A → Bool) {xs ys : List A} → Perm xs ys → count p xs ≡ count p ys
count-perm p h = ∥∥₁_elim h (ℕ_set _ _) (λ d. count_derived-perm p d)

-- Sorting keeps the strings.
pub has-sort_strings : (k : String) (js : List String) → has k (sort_strings js) ≡ has k js
has-sort_strings k js = cc (
  has-count k js,
  has-count k (sort_strings js),
  count-perm (λ (j : String). str_eq j k) (sort_by-perm str_ltb js),
)
