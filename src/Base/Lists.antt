-- ===== src/Base/Lists.antt =====
-- Lists measured by native numbers, filtered and counted by Boolean tests.
use Prim.Native.Nat.{ℕ, zero, suc, ◌+◌, ◌≤◌}
use mathlib.Core.Path.{◌≡◌, refl}
use mathlib.Core.Logic.{◌≢◌, ◌↔◌, ◌⊎◌, inl, inr}
use mathlib.Core.Bool.{Bool, true, false, ◌||◌}
use mathlib.Core.Option.{Option, none, some}
use mathlib.Core.List.{List, [], ◌∷◌, ◌++◌, map}
use native.Mathlib.Omega.{arith}
use yb_doctor.Base.Tests.{ltb, if◌then◌else◌}

module _ {ℓ} {A : Type ℓ} where
  abbrev pub length : List A → ℕ
  length [] = 0
  length (x ∷ xs) = suc (length xs)

  abbrev pub get_elem? : List A → ℕ → Option A
  get_elem? [] i = none
  get_elem? (x ∷ xs) zero = some x
  get_elem? (x ∷ xs) (suc i) = get_elem? xs i

  pub length-append : (xs ys : List A) → length (xs ++ ys) ≡ length xs + length ys
  length-append [] ys = omega arith
  length-append (x ∷ xs) ys = omega (arith, length-append xs ys)

  -- A predicate on every element, and on one: both compute to what the tactics read.
  abbrev pub All : (A → Type 0) → List A → Type 0
  All P [] = Unit
  All P (x ∷ xs) = P x × All P xs

  abbrev pub Any : (A → Type 0) → List A → Type 0
  Any P [] = ⊥
  Any P (x ∷ xs) = P x ⊎ Any P xs

  pub All-append : (P : A → Type 0) (xs ys : List A) → All P xs → All P ys → All P (xs ++ ys)
  All-append P [] ys p q = q
  All-append P (x ∷ xs) ys (p, ps) q = (p, All-append P xs ys ps q)

  pub All-map :
      {P : A → Type 0} {Q : A → Type 0} (f : (x : A) → P x → Q x) (xs : List A)
      → All P xs
      → All Q xs
  All-map f [] h = tt
  All-map f (x ∷ xs) (p, ps) = (f x p, All-map f xs ps)

  pub Any-append_left : (P : A → Type 0) (xs ys : List A) → Any P xs → Any P (xs ++ ys)
  Any-append_left P [] ys h = absurd h
  Any-append_left P (x ∷ xs) ys (inl p) = inl p
  Any-append_left P (x ∷ xs) ys (inr h) = inr (Any-append_left P xs ys h)

  pub Any-append_right : (P : A → Type 0) (xs ys : List A) → Any P ys → Any P (xs ++ ys)
  Any-append_right P [] ys h = h
  Any-append_right P (x ∷ xs) ys h = inr (Any-append_right P xs ys h)

  pub Any-append_cases : (P : A → Type 0) (xs ys : List A) → Any P (xs ++ ys) → Any P xs ⊎ Any P ys
  Any-append_cases P [] ys h = inr h
  Any-append_cases P (x ∷ xs) ys (inl p) = inl (inl p)
  Any-append_cases P (x ∷ xs) ys (inr h) = elim (Any-append_cases P xs ys h) [
    | inl a ↦ inl (inr a)
    | inr b ↦ inr b
  ]

  pub All-Any :
      {P : A → Type 0} {Q : A → Type 0} {R : Type 0} (f : (x : A) → P x → Q x → R) (xs : List A)
      → All P xs
      → Any Q xs
      → R
  All-Any f (x ∷ xs) (p, ps) (inl q) = f x p q
  All-Any f (x ∷ xs) (p, ps) (inr qs) = All-Any f xs ps qs
  All-Any f [] ps h = absurd h

  pub Any-map :
      {P : A → Type 0} {Q : A → Type 0} (f : (x : A) → P x → Q x) (xs : List A)
      → Any P xs
      → Any Q xs
  Any-map f [] h = h
  Any-map f (x ∷ xs) (inl p) = inl (f x p)
  Any-map f (x ∷ xs) (inr h) = inr (Any-map f xs h)

  -- A `for` loop with `if !p { continue }; append`, and one that counts.
  abbrev pub filter : (A → Bool) → List A → List A
  filter p [] = []
  filter p (x ∷ xs) = if p x then x ∷ filter p xs else filter p xs

  abbrev pub count : (A → Bool) → List A → ℕ
  count p [] = 0
  count p (x ∷ xs) = (if p x then 1 else 0) + count p xs

  abbrev pub any : (A → Bool) → List A → Bool
  any p [] = false
  any p (x ∷ xs) = p x || any p xs

  pub length-filter : (p : A → Bool) (xs : List A) → length (filter p xs) ≡ count p xs
  length-filter p [] = refl
  length-filter p (x ∷ xs) = ground (arith, length-filter p xs)

  pub count-le-length : (p : A → Bool) (xs : List A) → count p xs ≤ length xs
  count-le-length p [] = omega arith
  count-le-length p (x ∷ xs) = ground (arith, count-le-length p xs)

  pub count-append : (p : A → Bool) (xs ys : List A) → count p (xs ++ ys) ≡ count p xs + count p ys
  count-append p [] ys = omega arith
  count-append p (x ∷ xs) ys = omega (arith, count-append p xs ys)

  -- A test that holds more often counts more.
  pub count_mono :
      (p q : A → Bool) (xs : List A)
      → All (λ x. p x ≡ true → q x ≡ true) xs
      → count p xs ≤ count q xs
  count_mono p q [] h = omega arith
  count_mono p q (x ∷ xs) (h, hs) = ground (arith, count_mono p q xs hs)

  pub count-pos_iff : (p : A → Bool) (xs : List A) → (suc 0 ≤ count p xs) ↔ Any (λ x. p x ≡ true) xs
  count-pos_iff p [] = (λ h. absurd (omega arith), λ h. absurd h)
  count-pos_iff p (x ∷ xs) = ground (arith, count-pos_iff p xs)

  pub any_iff : (p : A → Bool) (xs : List A) → (any p xs ≡ true) ↔ Any (λ x. p x ≡ true) xs
  any_iff p [] = (λ h. cc, λ h. absurd h)
  any_iff p (x ∷ xs) = ground (arith, any_iff p xs)

  pub Any-filter :
      (P : A → Type 0) (p : A → Bool) (xs : List A)
      → Any P (filter p xs) ↔ Any (λ x. (p x ≡ true) × P x) xs
  Any-filter P p [] = (λ h. h, λ h. h)
  Any-filter P p (x ∷ xs) = ground (arith, Any-filter P p xs)

pub length-map {ℓ κ} :
    {A : Type ℓ} {B : Type κ} (f : A → B) (xs : List A) → length (map f xs) ≡ length xs
length-map f [] = refl
length-map f (x ∷ xs) = omega (arith, length-map f xs)

-- The sum of a measure over a list.
abbrev pub sum_by {ℓ} : {A : Type ℓ} → (A → ℕ) → List A → ℕ
sum_by f [] = 0
sum_by f (x ∷ xs) = f x + sum_by f xs

module _ {ℓ} {A : Type ℓ} (f g : A → ℕ) where
  pub sum_by_congr : (xs : List A) → ((x : A) → f x ≡ g x) → sum_by f xs ≡ sum_by g xs
  sum_by_congr [] h = refl
  sum_by_congr (x ∷ xs) h = omega (arith, h x, sum_by_congr xs h)

  pub sum_by_mono : (xs : List A) → ((x : A) → f x ≤ g x) → sum_by f xs ≤ sum_by g xs
  sum_by_mono [] h = omega arith
  sum_by_mono (x ∷ xs) h = omega (arith, h x, sum_by_mono xs h)

module _ {ℓ} {A : Type ℓ} where
  pub length-nil_iff : (xs : List A) → (length xs ≡ 0) ↔ (xs ≡ [])
  length-nil_iff [] = (λ _. refl, λ _. refl)
  length-nil_iff (x ∷ xs) = (λ h. absurd (omega arith), λ h. cc)

  pub Any-ne-nil : (P : A → Type 0) (xs : List A) → Any P xs → xs ≢ []
  Any-ne-nil P [] h e = h
  Any-ne-nil P (x ∷ xs) h e = cc

  -- A predicate that holds of everything holds of every element.
  pub All-of : (P : A → Type 0) (xs : List A) → ((x : A) → P x) → All P xs
  All-of P [] h = tt
  All-of P (x ∷ xs) h = (h x, All-of P xs h)

  pub any-append : (p : A → Bool) (xs ys : List A) → any p (xs ++ ys) ≡ (any p xs || any p ys)
  any-append p [] ys = refl
  any-append p (x ∷ xs) ys = ground (arith, any-append p xs ys)

-- An element of a list: `t` is one of `xs`.
abbrev pub IsIn : {A : Type 0} → A → List A → Type 0
IsIn t xs = Any (λ u. u ≡ t) xs

pub Any-witness : {A : Type 0} (P : A → Type 0) (xs : List A) → Any P xs → (x : A) × IsIn x xs × P x
Any-witness P [] h = absurd h
Any-witness P (x ∷ xs) (inl p) = (x, inl refl, p)
Any-witness P (x ∷ xs) (inr h) = let (y, m, p) = Any-witness P xs h in (y, inr m, p)

pub Any-of_IsIn : {A : Type 0} (P : A → Type 0) (x : A) (xs : List A) → IsIn x xs → P x → Any P xs
Any-of_IsIn P x [] h p = absurd h
Any-of_IsIn P x (y ∷ xs) (inl e) p = inl (rw e p)
Any-of_IsIn P x (y ∷ xs) (inr h) p = inr (Any-of_IsIn P x xs h p)

pub any-count : {A : Type 0} (p : A → Bool) (xs : List A) → ltb 0 (count p xs) ≡ any p xs
any-count p [] = refl
any-count p (x ∷ xs) = ground (arith, any-count p xs)
