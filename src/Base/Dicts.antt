-- ===== src/Base/Dicts.antt =====
-- Go's `map[string]V`: an association list, whose order is the order in which `range` visits it.
-- Reading a missing key gives `none`; a write changes the entry in place, or adds one at the end.
use Prim.Native.String.{String}
use mathlib.Core.Path.{◌≡◌, refl}
use mathlib.Core.Bool.{Bool, true, false, ◌||◌}
use mathlib.Core.Logic.{◌↔◌}
use mathlib.Core.Option.{Option, none, some}
use mathlib.Core.List.{List, [], ◌∷◌, ◌++◌}
use native.Mathlib.Omega.{arith}
use yb_doctor.Base.Tests.{ltb, if◌then◌else◌}
use yb_doctor.Base.Text.{str_eq, eq_iff}
use yb_doctor.Base.Lists.{Any, any, count}

abbrev pub Dict : Type 0 → Type 0
Dict V = List (String × V)

abbrev pub has : String → List String → Bool
has k [] = false
has k (j ∷ js) = str_eq j k || has k js

module _ {V : Type 0} where
  unfoldable pub get : String → Dict V → Option V
  get k [] = none
  get k ((j, v) ∷ m) = if str_eq j k then some v else get k m

  unfoldable pub put : String → V → Dict V → Dict V
  put k v [] = (k, v) ∷ []
  put k v ((j, w) ∷ m) = if str_eq j k then (j, v) ∷ m else (j, w) ∷ put k v m

  abbrev pub keys : Dict V → List String
  keys [] = []
  keys ((k, v) ∷ m) = k ∷ keys m

  pub get-put :
      (k j : String) (v : V) (m : Dict V)
      → get j (put k v m) ≡ (if str_eq k j then some v else get j m)
  unfolding get put
  get-put k j v [] = refl
  get-put k j v ((i, w) ∷ m) = ground (arith, eq_iff k j, eq_iff i k, eq_iff i j, get-put k j v m)

  pub keys-put :
      (k : String) (v : V) (m : Dict V)
      → keys (put k v m) ≡ (if has k (keys m) then keys m else keys m ++ (k ∷ []))
  unfolding put
  keys-put k v [] = refl
  keys-put k v ((j, w) ∷ m) = ground (arith, keys-put k v m)

-- A set of strings, and what it says of membership.
pub has_iff : (k : String) (js : List String) → (has k js ≡ true) ↔ Any (λ j. j ≡ k) js
has_iff k [] = (λ h. cc, λ h. absurd h)
has_iff k (j ∷ js) = ground (arith, has_iff k js, eq_iff j k)

pub has-append : (k : String) (xs ys : List String) → has k (xs ++ ys) ≡ (has k xs || has k ys)
has-append k [] ys = refl
has-append k (x ∷ xs) ys = ground (arith, has-append k xs ys)

-- No string occurs twice.
abbrev pub IsDistinct : List String → Type 0
IsDistinct [] = Unit
IsDistinct (k ∷ ks) = (has k ks ≡ false) × IsDistinct ks

pub IsDistinct-snoc :
    (ks : List String) (k : String) → IsDistinct ks → has k ks ≡ false → IsDistinct (ks ++ (k ∷ []))
IsDistinct-snoc [] k d h = (refl, tt)
IsDistinct-snoc (j ∷ ks) k (d, ds) h =
    ground (arith, IsDistinct-snoc ks k ds, has-append j ks (k ∷ []), eq_iff j k, eq_iff k j)

-- Some element's text is `k`.
pub any-str_eq :
    {A : Type 0} (f : A → String) (k : String) (xs : List A)
    → (any (λ x. str_eq (f x) k) xs ≡ true) ↔ Any (λ x. f x ≡ k) xs
any-str_eq f k [] = (λ h. cc, λ h. absurd h)
any-str_eq f k (x ∷ xs) = ground (arith, any-str_eq f k xs, eq_iff (f x) k)

-- Two decisions that agree as propositions are one.
pub Bool-ext : (a b : Bool) → (a ≡ true → b ≡ true) → (b ≡ true → a ≡ true) → a ≡ b
Bool-ext a b f g = ground arith

pub has-count : (k : String) (js : List String) → has k js ≡ ltb 0 (count (λ j. str_eq j k) js)
has-count k [] = refl
has-count k (j ∷ js) = ground (arith, has-count k js)

pub any-of_has :
    (f : String → Bool) (k : String) (js : List String)
    → has k js ≡ true
    → f k ≡ true
    → any f js ≡ true
any-of_has f k [] h p = cc
any-of_has f k (j ∷ js) h p = ground (arith, eq_iff j k, any-of_has f k js)
