-- ===== src/Base/GoText.antt =====
-- The functions of Go's `strings` that the code calls on configuration values and flags.
use Prim.Native.Nat.{ℕ, ◌+◌}
use Prim.Native.Char.{Char, code}
use Prim.Native.String.{String, ◌++◌}
use mathlib.Core.Path.{◌≡◌, refl}
use mathlib.Core.Bool.{Bool, true, false, ◌&&◌, ◌||◌}
use mathlib.Core.Option.{none, some}
use text.Mathlib.Text.{find?}
use yb_doctor.Base.Tests.{leb, ◌==◌, if◌then◌else◌}
use yb_doctor.Base.Text.{str_eq, show_ℕ}
use yb_doctor.Base.Int.{ℤ, pos, negsuc}

-- `unicode.IsSpace`.
abbrev pub is_space : ℕ → Bool
is_space c =
    (leb 9 c && leb c 13)
    || c == 32
    || c == 0x85
    || c == 0xA0
    || c == 0x1680
    || (leb 0x2000 c && leb c 0x200A)
    || c == 0x2028
    || c == 0x2029
    || c == 0x202F
    || c == 0x205F
    || c == 0x3000

trim_left : String → String
trim_left String.[] = ""
trim_left (String.◌∷◌ c s) = if is_space (code c) then trim_left s else String.◌∷◌ c s

trim_right : String → String
trim_right String.[] = ""
trim_right (String.◌∷◌ c s) =
    let rest = trim_right s in if is_space (code c) && str_eq rest "" then "" else String.◌∷◌ c rest

-- `strings.TrimSpace`.
unfoldable pub trim_space : String → String
unfolding trim_left trim_right
trim_space s = trim_right (trim_left s)

abbrev pub fold_case : ℕ → ℕ
fold_case c = if leb b'A' c && leb c b'Z' then c + 32 else c

-- `strings.EqualFold`, for texts whose letters are ASCII: other letters are compared as they are.
unfoldable pub equal_fold : String → String → Bool
equal_fold String.[] String.[] = true
equal_fold (String.◌∷◌ c s) (String.◌∷◌ d t) =
    fold_case (code c) == fold_case (code d) && equal_fold s t
equal_fold _ _ = false

-- The letter of the second text that stands where the character stands in the first, or the character.
lower_in : String → String → Char → Char
lower_in (String.◌∷◌ x xs) (String.◌∷◌ y ys) c = if code c == code x then y else lower_in xs ys c
lower_in _ _ c = c

-- `strings.ToLower`, on ASCII.
unfoldable pub to_lower : String → String
unfolding lower_in
to_lower String.[] = ""
to_lower (String.◌∷◌ c s) =
    String.◌∷◌ (lower_in "ABCDEFGHIJKLMNOPQRSTUVWXYZ" "abcdefghijklmnopqrstuvwxyz" c) (to_lower s)

-- `strings.ToUpper`, on ASCII.
unfoldable pub to_upper : String → String
unfolding lower_in
to_upper String.[] = ""
to_upper (String.◌∷◌ c s) =
    String.◌∷◌ (lower_in "abcdefghijklmnopqrstuvwxyz" "ABCDEFGHIJKLMNOPQRSTUVWXYZ" c) (to_upper s)

lowers : to_lower "JSon" ≡ "json"
unfolding to_lower
lowers = refl

-- `strings.Contains`.
unfoldable pub contains : String → String → Bool
contains s t = elim (find? s t) [ none ↦ false | some _ ↦ true ]

-- `%d` of an integer.
unfoldable pub show_ℤ : ℤ → String
show_ℤ (pos n) = show_ℕ n
show_ℤ (negsuc n) = "-" ++ show_ℕ (n + 1)

trims : trim_space "  a b " ≡ "a b"
unfolding trim_space
trims = refl

folds : equal_fold "True" "tRUE" ≡ true
unfolding equal_fold
folds = refl

finds : (contains "0.85" ".") ≡ true
unfolding contains
finds = refl
