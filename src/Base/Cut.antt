-- ===== src/Base/Cut.antt =====
-- The functions of Go's `strings` that cut texts: `Cut`, `LastIndex`, `Split`, `HasPrefix`, `TrimPrefix`
-- and `TrimRight`, each by the characters of the text.
use Prim.Native.Nat.{ℕ}
use Prim.Native.Char.{Char, code}
use Prim.Native.String.{String}
use mathlib.Core.Path.{◌≡◌, refl}
use mathlib.Core.Bool.{Bool, true, false, ◌&&◌}
use mathlib.Core.Option.{Option, none, some}
use mathlib.Core.List.{List, [], ◌∷◌}
use yb_doctor.Base.Tests.{◌==◌, if◌then◌else◌}
use yb_doctor.Base.Text.{str_eq}

-- The first result of `strings.Cut`, for a separator of one character.
unfoldable pub cut_before : ℕ → String → String
cut_before sep String.[] = ""
cut_before sep (String.◌∷◌ c s) =
    let rest = cut_before sep s in if code c == sep then "" else String.◌∷◌ c rest

-- What stands before the last place where the character is, and after it: none if it is nowhere.
unfoldable pub cut_last : ℕ → String → Option (String × String)
cut_last sep String.[] = none
cut_last sep (String.◌∷◌ c s) = elim (cut_last sep s) [
  | some (before, after) ↦ some (String.◌∷◌ c before, after)
  | none ↦ if code c == sep then some ("", s) else none
]

before_first : Char → List String → List String
before_first c [] = String.◌∷◌ c "" ∷ []
before_first c (p ∷ ps) = String.◌∷◌ c p ∷ ps

-- `strings.Split`, for a separator of one character.
unfoldable pub split_on : ℕ → String → List String
unfolding before_first
split_on sep String.[] = "" ∷ []
split_on sep (String.◌∷◌ c s) =
    let rest = split_on sep s in if code c == sep then "" ∷ rest else before_first c rest

unfoldable pub has_prefix : String → String → Bool
has_prefix s String.[] = true
has_prefix String.[] (String.◌∷◌ d t) = false
has_prefix (String.◌∷◌ c s) (String.◌∷◌ d t) = code c == code d && has_prefix s t

rest_after : String → String → String
rest_after s String.[] = s
rest_after String.[] (String.◌∷◌ d t) = ""
rest_after (String.◌∷◌ c s) (String.◌∷◌ d t) = rest_after s t

unfoldable pub trim_prefix : String → String → String
unfolding has_prefix rest_after
trim_prefix s t = if has_prefix s t then rest_after s t else s

-- `strings.TrimRight`, for a cutset of one character.
unfoldable pub trim_end : ℕ → String → String
trim_end c String.[] = ""
trim_end c (String.◌∷◌ d s) =
    let rest = trim_end c s in if code d == c && str_eq rest "" then "" else String.◌∷◌ d rest

cuts : cut_last 32 "a b c" ≡ some ("a b", "c")
unfolding cut_last
cuts = refl

splits : split_on 10 "a\n\nb" ≡ "a" ∷ "" ∷ "b" ∷ []
unfolding split_on
splits = refl

trims_end : trim_end 47 "http://a//" ≡ "http://a"
unfolding trim_end
trims_end = refl

trims_prefix : trim_prefix "http://a" "http://" ≡ "a"
unfolding trim_prefix
trims_prefix = refl
