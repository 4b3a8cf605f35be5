-- ===== src/Cli/Render/Groups.antt =====
-- internal/adapter/inbound/cli/render/text.go: the groups into which `commas64` cuts the digits of a number.
use Prim.Native.String.{String, ◌++◌}
use text.Mathlib.TextLemmas.{nil-append, cons-append, append-nil, append_assoc}
use yb_doctor.Base.{
  ℕ, zero, suc, ◌-◌, ◌≤◌, ◌≡◌, refl, ◌∙◌, sym, ap, inl, inr, List, [], ◌∷◌, All, ltb, ltb→lt,
  concat, arith, Bool-cases,
}
use yb_doctor.Cli.Render.Numbers.{size, take_text, drop_text, group_loop, digit_groups}

take_text-drop_text : (n : ℕ) (s : String) → take_text n s ++ drop_text n s ≡ s
take_text-drop_text zero s = nil-append s
take_text-drop_text (suc n) String.[] = nil-append ""
take_text-drop_text (suc n) (String.◌∷◌ c s) =
    cons-append c (take_text n s) (drop_text n s) ∙ ap (String.◌∷◌ c) (take_text-drop_text n s)

size-take_text : (n : ℕ) (s : String) → n ≤ size s → size (take_text n s) ≡ n
size-take_text zero s h = refl
size-take_text (suc n) String.[] h = absurd (omega arith)
size-take_text (suc n) (String.◌∷◌ c s) h = omega (arith, size-take_text n s (omega arith))

size-drop_text : (n : ℕ) (s : String) → size (drop_text n s) ≡ size s - n
size-drop_text zero s = omega arith
size-drop_text (suc n) String.[] = omega arith
size-drop_text (suc n) (String.◌∷◌ c s) = omega (arith, size-drop_text n s)

abbrev IsTriple : String → Type 0
IsTriple s = size s ≡ 3

-- The first group has one to three digits, and each other has three.
abbrev pub IsGrouped : List String → Type 0
IsGrouped [] = ⊥
IsGrouped (g ∷ gs) = (1 ≤ size g) × (size g ≤ 3) × All (λ s. size s ≡ 3) gs

group_loop-concat :
    (fuel : ℕ) (s : String) (parts : List String)
    → concat (group_loop fuel s parts) ≡ s ++ concat parts
unfolding group_loop
group_loop-concat zero s parts = refl
group_loop-concat (suc fuel) s parts = elim (Bool-cases (ltb 3 (size s))) [
  | inl e ↦ rw e (
      group_loop-concat fuel (take_text (size s - 3) s) (drop_text (size s - 3) s ∷ parts)
      ∙ sym (append_assoc (take_text (size s - 3) s) (drop_text (size s - 3) s) (concat parts))
      ∙ ap (λ t. t ++ concat parts) (take_text-drop_text (size s - 3) s))
  | inr e ↦ rw e refl
]

group_loop-IsGrouped :
    (fuel : ℕ) (s : String) (parts : List String)
    → 1 ≤ size s
    → size s ≤ fuel
    → All IsTriple parts
    → IsGrouped (group_loop fuel s parts)
unfolding group_loop
group_loop-IsGrouped zero s parts a b h = absurd (omega arith)
group_loop-IsGrouped (suc fuel) s parts a b h = elim (Bool-cases (ltb 3 (size s))) [
  | inl e ↦
      let more = ltb→lt 3 (size s) e in
      let shorter = size-take_text (size s - 3) s (omega arith) in
      rw e (
        group_loop-IsGrouped fuel (take_text (size s - 3) s) (drop_text (size s - 3) s ∷ parts)
          (omega (arith, more, shorter)) (omega (arith, more, shorter))
          (omega (arith, more, size-drop_text (size s - 3) s), h))
  | inr e ↦ rw e (a, (let few : size s ≤ 3 = ground arith in few), h)
]

-- The groups of a number's digits, put together again, are the digits; the first has one to three of them, and
-- each other has three.
pub digit_groups_exact :
    (digits : String)
    → 1 ≤ size digits
    → (concat (digit_groups digits) ≡ digits) × IsGrouped (digit_groups digits)
unfolding digit_groups
digit_groups_exact digits h = (
  group_loop-concat (size digits) digits [] ∙ append-nil digits,
  group_loop-IsGrouped (size digits) digits [] h (omega arith) tt,
)
