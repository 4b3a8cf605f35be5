-- ===== src/Cli/Render/Numbers.antt =====
-- internal/adapter/inbound/cli/render/text.go: numbers as text.
use Prim.Native.Nat.{ℕ, zero, suc, ◌-◌, ◌^◌}
use Prim.Native.String.{String, ◌++◌}
use mathlib.Core.Path.{◌≡◌, refl}
use mathlib.Core.Bool.{◌&&◌, not}
use mathlib.Core.List.{List, [], ◌∷◌}
use yb_doctor.Base.{
  ltb, leb, ℤ, pos, wrap_64, ◌-ℤ◌, ltb_ℤ, leb_ℤ, str_eq, concat, show_ℤ, if◌then◌else◌,
}
use yb_doctor.Float.{Float64, nought, whole, ge, gt}
use yb_doctor.Domain.Report.{PerformanceSummary}

-- The length of a text of one byte a character, its first characters, and the others.
abbrev pub size : String → ℕ
size String.[] = 0
size (String.◌∷◌ c s) = suc (size s)

abbrev pub take_text : ℕ → String → String
take_text zero s = ""
take_text (suc n) String.[] = ""
take_text (suc n) (String.◌∷◌ c s) = String.◌∷◌ c (take_text n s)

abbrev pub drop_text : ℕ → String → String
drop_text zero s = s
drop_text (suc n) String.[] = ""
drop_text (suc n) (String.◌∷◌ c s) = drop_text n s

-- `strings.Join`
join_rest : String → List String → String
join_rest sep [] = ""
join_rest sep (p ∷ ps) = concat (sep ∷ p ∷ join_rest sep ps ∷ [])

unfoldable pub join : String → List String → String
unfolding join_rest
join sep [] = ""
join sep (p ∷ ps) = p ++ join_rest sep ps

-- `for len(s) > 3`, by fuel: each round takes three characters off the end.
unfoldable pub group_loop : ℕ → String → List String → List String
group_loop zero s parts = s ∷ parts
group_loop (suc fuel) s parts =
    let cut = size s - 3 in
    let rest = group_loop fuel (take_text cut s) (drop_text cut s ∷ parts) in
    if ltb 3 (size s) then rest else s ∷ parts

-- The groups of the digits: the text is longer than the number of rounds.
unfoldable pub digit_groups : String → List String
unfolding group_loop
digit_groups s = group_loop (size s) s []

unfoldable pub commas_64 : ℤ → String
commas_64 n =
    let sign = if ltb_ℤ n (pos 0) then "-" else "" in
    let s = show_ℤ (if ltb_ℤ n (pos 0) then wrap_64 (pos 0 -ℤ n) else n) in
    if leb (size s) 3 then sign ++ s else sign ++ join "," (digit_groups s)

unfoldable pub commas : ℕ → String
commas n = commas_64 (wrap_64 (pos n))

module _ {F : Type 0} ⦃f : Float64 F⦄ where
  unfoldable pub ms : F → String
  ms v = if f.eq v nought then "n/a" else concat (f.fixed 0 v ∷ "ms" ∷ [])

  unfoldable pub p99_line : PerformanceSummary F → String
  unfolding ms
  p99_line p =
      let s = ms p.p99_ysql_ms in
      if not (str_eq p.p99_source "") && gt p.p99_ysql_ms nought
      then concat (s ∷ " (" ∷ p.p99_source ∷ ")" ∷ [])
      else s

module _ (F : Type 0) ⦃f : Float64 F⦄ where
  -- `bytesShort`
  unfoldable pub bytes_short : ℤ → String
  bytes_short n =
      let gi = pos (2 ^ 30) in
      let mi = pos (2 ^ 20) in
      let v = f.div (f.of_ℤ n) (f.of_ℤ gi) in
      if leb_ℤ n (pos 0)
      then "n/a"
      else if leb_ℤ gi n
      then (if ge v (whole 10)
          then concat (f.fixed 0 v ∷ "G" ∷ [])
          else concat (f.fixed 1 v ∷ "G" ∷ []))
      else if leb_ℤ mi n
      then concat (f.fixed 0 (f.div (f.of_ℤ n) (f.of_ℤ mi)) ∷ "M" ∷ [])
      else if leb_ℤ (pos 10240) n
      then concat (f.fixed 0 (f.div (f.of_ℤ n) (whole 1024)) ∷ "K" ∷ [])
      else concat (show_ℤ n ∷ "B" ∷ [])

  unfoldable pub debt_pct : ℤ → ℤ → String
  debt_pct pending sst =
      if leb_ℤ sst (pos 0)
      then "n/a"
      else concat (f.fixed 0 (f.mul (f.div (f.of_ℤ pending) (f.of_ℤ sst)) (whole 100)) ∷ "%" ∷ [])

  unfoldable pub bytes_human : ℤ → String
  bytes_human n =
      let tb = pos 1_000_000_000_000 in
      let gb = pos 1_000_000_000 in
      if leb_ℤ n (pos 0)
      then "n/a"
      else if leb_ℤ tb n
      then concat (f.fixed 1 (f.div (f.of_ℤ n) (f.of_ℤ tb)) ∷ " TB" ∷ [])
      else concat (f.fixed 1 (f.div (f.of_ℤ n) (f.of_ℤ gb)) ∷ " GB" ∷ [])

groups_of_seven : join "," (digit_groups "1234567") ≡ "1,234,567"
unfolding join digit_groups
groups_of_seven = refl
