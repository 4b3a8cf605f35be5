-- ===== src/Base/Text.antt =====
-- Go's strings: equality, the bytewise order (the order of code points), decimal numbers, and the
-- pieces of a formatted message.
use Prim.Native.Nat.{ℕ, zero, suc, ◌/◌, ◌%◌, ◌<◌, Ordering, compare as compare_ℕ}
use Prim.Native.Char.{code}
use Prim.Native.String.compare
use Prim.Native.String.{String, ◌++◌, compare, then as lexical}
use mathlib.Core.Path.{◌≡◌, refl, sym, subst}
use mathlib.Core.Logic.{inl, inr}
use mathlib.Core.Bool.{Bool, true, false}
use mathlib.Core.List.{List, [], ◌∷◌}
use native.Mathlib.Omega.{arith}
use yb_doctor.Base.Tests.{Bool-cases, ltb, ◌==◌ as nat_eq, if◌then◌else◌}
pub use text.Mathlib.Text.{◌==◌ as str_eq}
pub use text.Mathlib.TextEquality.{eq_iff}
pub use text.Mathlib.TextPositions.{eq_refl}

abbrev pub str_ltb : String → String → Bool
str_ltb s t = elim (compare s t) [ Ordering.lt ↦ true | _ ↦ false ]

-- `fmt.Sprintf`, as the list of its pieces.
abbrev pub concat : List String → String
concat [] = ""
concat (s ∷ ss) = s ++ concat ss

digit : ℕ → String
digit d =
    if nat_eq d 0
    then "0"
    else if nat_eq d 1
    then "1"
    else if nat_eq d 2
    then "2"
    else if nat_eq d 3
    then "3"
    else if nat_eq d 4
    then "4"
    else if nat_eq d 5
    then "5"
    else if nat_eq d 6
    then "6"
    else if nat_eq d 7
    then "7"
    else if nat_eq d 8
    then "8"
    else "9"

-- The decimal digits of a number, most significant first.
show_from : ℕ → ℕ → String
show_from zero n = ""
show_from (suc fuel) n =
    let front = show_from fuel (n / 10) in if ltb n 10 then digit n else front ++ digit (n % 10)

-- `%d` of a number that is not negative.
unfoldable pub show_ℕ : ℕ → String
unfolding show_from digit
show_ℕ n = show_from (suc n) n

-- More fuel than the number changes nothing, so `show_ℕ` has enough.
show_from_enough : (f g n : ℕ) → n < f → n < g → show_from f n ≡ show_from g n
unfolding show_from
show_from_enough zero g n h k = absurd (omega arith)
show_from_enough (suc f) zero n h k = absurd (omega arith)
show_from_enough (suc f) (suc g) n h k = ground (arith, show_from_enough f g (n / 10))

show_ℕ_runs : show_ℕ 1284 ≡ "1284"
unfolding show_ℕ
show_ℕ_runs = refl

flip : Ordering → Ordering
flip Ordering.lt = Ordering.gt
flip Ordering.eq = Ordering.eq
flip Ordering.gt = Ordering.lt

compare_ℕ-flip : (a b : ℕ) → compare_ℕ b a ≡ flip (compare_ℕ a b)
unfolding flip
compare_ℕ-flip a b = ground arith

lexical-flip : (o r : Ordering) → lexical (flip o) (flip r) ≡ flip (lexical o r)
unfolding flip
lexical-flip Ordering.lt r = refl
lexical-flip Ordering.eq r = refl
lexical-flip Ordering.gt r = refl

compare-flip : (s t : String) → compare t s ≡ flip (compare s t)
unfolding flip
compare-flip String.[] String.[] = refl
compare-flip String.[] (String.◌∷◌ d t) = cc (compare.cons-nil d t, compare.nil-cons d t)
compare-flip (String.◌∷◌ c s) String.[] = cc (compare.cons-nil c s, compare.nil-cons c s)
compare-flip (String.◌∷◌ c s) (String.◌∷◌ d t) = cc (
  compare.cons-cons d c t s,
  compare.cons-cons c d s t,
  compare_ℕ-flip (code c) (code d),
  compare-flip s t,
  lexical-flip (compare_ℕ (code c) (code d)) (compare s t),
)

-- The order of strings is strict.
pub str_ltb_asym : (s t : String) → str_ltb s t ≡ true → str_ltb t s ≡ false
unfolding flip
str_ltb_asym s t h = ground (arith, compare-flip s t)

pub str_eq_comm : (s t : String) → str_eq s t ≡ str_eq t s
str_eq_comm s t = ground (arith, eq_iff s t, eq_iff t s)

-- To look at a text, is to look at whether it is a given one.
pub on_text :
    (P : String → Type 0) (k : String) → P k → (c : String) → (str_eq c k ≡ false → P c) → P c
on_text P k at c other = elim (Bool-cases (str_eq c k)) [
  | inl e ↦ subst P (sym ((eq_iff c k).0 e)) at
  | inr e ↦ other e
]
