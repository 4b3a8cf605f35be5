-- ===== src/Base/Outcome.antt =====
-- A pair of a value and an error, of which one is there, and the wrapping of an error on the way out.
use Prim.Native.String.{String}
use mathlib.Core.Bool.{Bool, true, false}
use mathlib.Core.Path.{◌≡◌, refl}
use mathlib.Core.List.{[], ◌∷◌}
use yb_doctor.Base.Text.{concat}

pub data Result (A : Type 0) : Type 0 where
  ok : A → Result A
  err : String → Result A

-- `fmt.Errorf(op + ": %w", err)` on the error path of a call.
abbrev pub and_then : {A B : Type 0} → String → Result A → (A → B) → Result B
and_then op (ok a) f = ok (f a)
and_then op (err e) f = err (concat (op ∷ ": " ∷ e ∷ []))

abbrev pub is_err : {A : Type 0} → Result A → Bool
is_err (ok a) = false
is_err (err e) = true

-- An error ends the function that calls.
infixl 5 ◌>>=◌
abbrev pub ◌>>=◌ : {A B : Type 0} → Result A → (A → Result B) → Result B
err e >>= next = err e
ok a >>= next = next a

-- A call that goes on and succeeds has been handed a value, and goes on from it.
module _ {A B : Type 0} where
  abbrev pub WentOn : Result A → (A → Result B) → B → Type 0
  WentOn call next b = (a : A) × (call ≡ ok a) × (next a ≡ ok b)

  pub >>=-eq-ok :
      (call : Result A) (next : A → Result B) {b : B} → call >>= next ≡ ok b → WentOn call next b
  >>=-eq-ok (err e) next h = cc
  >>=-eq-ok (ok a) next h = (a, refl, h)

pub ok_inj : {A : Type 0} {a b : A} → ok a ≡ ok b → a ≡ b
ok_inj h = cc
