-- ===== src/Float.antt =====
-- float64, as the code uses it: a type with its operations, given as an instance argument. The
-- arithmetic of IEEE 754 and the texts of `strconv` and `fmt` are not under this repository.
use yb_doctor.Base.{
  ℕ, ◌+◌, ◌*◌, Bool, true, false, ◌&&◌, Option, none, String, leb, ltb, ℤ, pos, negsuc, show_ℕ,
}

pub record Float64 (F : Type 0) : Type 0 where
  pub of_ℤ : ℤ → F
  pub to_ℤ : F → ℤ
  pub add : F → F → F
  pub sub : F → F → F
  pub mul : F → F → F
  pub div : F → F → F
  pub abs : F → F
  pub le : F → F → Bool
  pub lt : F → F → Bool
  pub eq : F → F → Bool
  pub inf : F
  pub is_inf : F → Bool
  -- `fmt.Sprintf("%.nf", f)`, `strconv.FormatFloat(f, 'g', 4, 64)` and `strconv.ParseFloat`
  pub fixed : ℕ → F → String
  pub general : F → String
  pub parse : String → Option F

-- The constant 0, and the two orders in which the code compares.
module _ {F : Type 0} ⦃f : Float64 F⦄ where
  abbrev pub nought : F
  nought = f.of_ℤ (pos 0)

  abbrev pub whole : ℕ → F
  whole n = f.of_ℤ (pos n)

  abbrev pub ge : F → F → Bool
  ge a b = f.le b a

  abbrev pub gt : F → F → Bool
  gt a b = f.lt b a

-- Exact fractions that are not negative, with infinity. They stand for float64 in the tests and
-- the witnesses: the values there are small, and the texts are those of the whole part.
pub data Fraction : Type 0 where
  frac : ℕ → ℕ → Fraction
  infinite : Fraction

abbrev pub frac_le : Fraction → Fraction → Bool
frac_le (frac a b) (frac c d) = leb (a * d) (c * b)
frac_le infinite (frac c d) = false
frac_le _ infinite = true

abbrev pub frac_lt : Fraction → Fraction → Bool
frac_lt (frac a b) (frac c d) = ltb (a * d) (c * b)
frac_lt (frac a b) infinite = true
frac_lt infinite _ = false

abbrev pub frac_add : Fraction → Fraction → Fraction
frac_add (frac a b) (frac c d) = frac (a * d + c * b) (b * d)
frac_add _ _ = infinite

abbrev pub frac_mul : Fraction → Fraction → Fraction
frac_mul (frac a b) (frac c d) = frac (a * c) (b * d)
frac_mul _ _ = infinite

abbrev pub frac_div : Fraction → Fraction → Fraction
frac_div (frac a b) (frac c d) = frac (a * d) (b * c)
frac_div (frac a b) infinite = frac 0 1
frac_div infinite _ = infinite

abbrev pub frac_is_inf : Fraction → Bool
frac_is_inf infinite = true
frac_is_inf _ = false

abbrev pub frac_of_ℤ : ℤ → Fraction
frac_of_ℤ (pos n) = frac n 1
frac_of_ℤ (negsuc n) = frac 0 1

abbrev pub frac_text : Fraction → String
frac_text (frac a b) = show_ℕ a
frac_text infinite = "+Inf"

instance abbrev pub fraction_float : Float64 Fraction
fraction_float = record {
  of_ℤ = frac_of_ℤ;
  to_ℤ = λ _. pos 0;
  add = frac_add;
  sub = λ a b. a;
  mul = frac_mul;
  div = frac_div;
  abs = λ a. a;
  le = frac_le;
  lt = frac_lt;
  eq = λ a b. frac_le a b && frac_le b a;
  inf = infinite;
  is_inf = frac_is_inf;
  fixed = λ _ a. frac_text a;
  general = frac_text;
  parse = λ _. none;
}
