-- ===== src/Yugabyte/Prom/Samples.antt =====
-- internal/adapter/outbound/yugabyte/parse.go: `splitProm` reads back a sample that is printed in the
-- exposition format, with and without its time.
use Prim.Native.Char.{Char, char, code}
use Prim.Native.String.{◌++◌}
use text.Mathlib.TextLemmas.{nil-append, cons-append, append-nil}
use yb_doctor.Base.{
  String, false, ◌≡◌, refl, ◌∙◌, ap, none, some, [], ◌∷◌, ◌==◌, cut_last, trim_space, concat,
  Option-cases, inl, inr,
}
use yb_doctor.Float.{Float64}
use yb_doctor.Yugabyte.Prom.{split_rest, split_prom}

-- No character of the text is a blank.
abbrev pub HasNoBlank : String → Type 0
HasNoBlank String.[] = Unit
HasNoBlank (String.◌∷◌ c s) = ((code c == 32) ≡ false) × HasNoBlank s

abbrev blank : Char
blank = char 32 tt

-- A metric and its value in the exposition format, and the same with its time.
abbrev pub sample : String → String → String
sample name value = concat (name ∷ " " ∷ value ∷ [])

sample-joins : (name value : String) → sample name value ≡ name ++ String.◌∷◌ blank value
sample-joins name value = rw (append-nil, cons-append blank "" value, nil-append) refl

cut_last-HasNoBlank : (v : String) → HasNoBlank v → cut_last 32 v ≡ none
unfolding cut_last
cut_last-HasNoBlank String.[] h = refl
cut_last-HasNoBlank (String.◌∷◌ c s) (h, hs) = rw (cut_last-HasNoBlank s hs, h) refl

cut_last-join :
    (name v : String) → HasNoBlank v → cut_last 32 (name ++ String.◌∷◌ blank v) ≡ some (name, v)
unfolding cut_last
cut_last-join String.[] v h = rw (nil-append, cut_last-HasNoBlank v h) refl
cut_last-join (String.◌∷◌ c s) v h =
    rw (cons-append c s (String.◌∷◌ blank v), cut_last-join s v h, cut_last) refl

cut_last-sample : (name v : String) → HasNoBlank v → cut_last 32 (sample name v) ≡ some (name, v)
cut_last-sample name v h = rw (sample-joins name v) (cut_last-join name v h)

-- What follows the last blank of the text is no number.
abbrev pub EndsInWord : (F : Type 0) ⦃f : Float64 F⦄ → String → Type 0
EndsInWord F ⦃f⦄ name =
    (before mid : String) → cut_last 32 name ≡ some (before, mid) → f.parse mid ≡ none

module _ {F : Type 0} ⦃f : Float64 F⦄ where
  split_prom-at :
      (line before after : String) (last : F)
      → cut_last 32 line ≡ some (before, after)
      → f.parse after ≡ some last
      → split_prom line ≡ some (split_rest (trim_space before) last)
  unfolding split_prom split_rest
  split_prom-at line before after last h p = rw (split_prom, h, p) refl

  split_rest-value :
      (rest name mid : String) (last value : F)
      → cut_last 32 rest ≡ some (name, mid)
      → f.parse mid ≡ some value
      → split_rest rest last ≡ (name, value)
  unfolding split_rest
  split_rest-value rest name mid last value h p = rw (split_rest, h, p) refl

  split_rest-word :
      (name : String) (last : F) → EndsInWord F name → split_rest name last ≡ (name, last)
  unfolding split_rest
  split_rest-word name last w = elim (Option-cases (cut_last 32 name)) [
    | inl e ↦ rw (e, split_rest) refl
    | inr ((before, mid), e) ↦ rw (e, w before mid e, split_rest) refl
  ]

  -- A metric that is printed with its value, and possibly its time, is split into the metric and the value,
  -- where neither number has a blank, the texts have no white space at their ends, and the metric does not
  -- end in a blank and a number.
  pub split_prom-sample :
      (name value time : String) (x t : F)
      → HasNoBlank value
      → HasNoBlank time
      → f.parse value ≡ some x
      → f.parse time ≡ some t
      → trim_space name ≡ name
      → trim_space (sample name value) ≡ sample name value
      → EndsInWord F name
      → (split_prom (sample name value) ≡ some (name, x))
        × (split_prom (sample (sample name value) time) ≡ some (name, x))
  split_prom-sample name value time x t v b p q n s w = (
    split_prom-at (sample name value) name value x (cut_last-sample name value v) p
        ∙ ap some (ap (λ r. split_rest r x) n ∙ split_rest-word name x w),
    split_prom-at (sample (sample name value) time) (sample name value) time t
          (cut_last-sample (sample name value) time b) q
        ∙ ap some (
            ap (λ r. split_rest r t) s
            ∙ split_rest-value (sample name value) name value t x (cut_last-sample name value v) p),
  )
