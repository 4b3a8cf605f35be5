-- ===== src/Config/Env/Fields.antt =====
-- internal/config/config.go: a field that one variable sets, after the environment is read.
use yb_doctor.Base.{
  String, true, false, ◌≡◌, refl, ◌∙◌, sym, ap, List, [], ◌∷◌, ◌++◌, All, ℤ, str_eq, arith,
  Bool-cases, inl, inr, Result, ok, err, ◌>>=◌, >>=-eq-ok, and_then,
}
use yb_doctor.Config.{Config}
use yb_doctor.Config.Env.{Effect, text, switch, duration, number, apply_effect, read_rows}
use yb_doctor.Config.File.{override}

module _ {F : Type 0} (get : Config F → String) where
  -- The variable leaves the field alone.
  abbrev pub Keeps : String × Effect F → Type 0
  Keeps (name, text put) = (v : String) (c : Config F) → get (put v c) ≡ get c
  Keeps (name, switch on) = (c : Config F) → get (on c) ≡ get c
  Keeps (name, duration put) = (d : ℤ) (c : Config F) → get (put d c) ≡ get c
  Keeps (name, number put) = (n : ℤ) (c : Config F) → get (put n c) ≡ get c

  module _ (parse_duration parse_number : String → Result ℤ) (getenv : String → String) where
    and_then-keeps :
        (name : String) (r : Result ℤ) (put : ℤ → Config F → Config F) (c c' : Config F)
        → ((d : ℤ) (c : Config F) → get (put d c) ≡ get c)
        → and_then name r (λ d. put d c) ≡ ok c'
        → get c' ≡ get c
    and_then-keeps name (ok d) put c c' k h = cc (k d c)
    and_then-keeps name (err e) put c c' k h = cc

    apply_effect-Keeps :
        (name v : String) (e : Effect F) (c c' : Config F)
        → Keeps (name, e)
        → apply_effect parse_duration parse_number getenv name v e c ≡ ok c'
        → get c' ≡ get c
    unfolding apply_effect
    apply_effect-Keeps name v (text put) c c' k h = cc (k v c)
    apply_effect-Keeps name v (switch on) c c' k h = ground (arith, k c)
    apply_effect-Keeps name v (duration put) c c' k h =
        and_then-keeps name (parse_duration v) put c c' k h
    apply_effect-Keeps name v (number put) c c' k h =
        and_then-keeps name (parse_number v) put c c' k h

    read_rows-unset :
        (name : String) (e : Effect F) (rows : List (String × Effect F)) (c : Config F)
        → str_eq (getenv name) "" ≡ true
        → read_rows parse_duration parse_number getenv ((name, e) ∷ rows) c
          ≡ read_rows parse_duration parse_number getenv rows c
    unfolding read_rows
    read_rows-unset name e rows c h = rw h refl

    read_rows-set :
        (name : String) (e : Effect F) (rows : List (String × Effect F)) (c : Config F)
        → str_eq (getenv name) "" ≡ false
        → read_rows parse_duration parse_number getenv ((name, e) ∷ rows) c ≡ (
            apply_effect parse_duration parse_number getenv name (getenv name) e c
            >>= read_rows parse_duration parse_number getenv rows)
    unfolding read_rows
    read_rows-set name e rows c h =
        rw h (as_bind (apply_effect parse_duration parse_number getenv name (getenv name) e c))
      where
        as_bind :
            (r : Result (Config F))
            → elim r [
              | ok c' ↦ read_rows parse_duration parse_number getenv rows c'
              | err x ↦ err x
            ]
              ≡ (r >>= read_rows parse_duration parse_number getenv rows)
        as_bind (ok c') = refl
        as_bind (err x) = refl

    read_rows-Keeps :
        (rows : List (String × Effect F)) (c c' : Config F)
        → All Keeps rows
        → read_rows parse_duration parse_number getenv rows c ≡ ok c'
        → get c' ≡ get c
    read_rows-Keeps [] c c' k h = unfold read_rows in cc
    read_rows-Keeps ((name, e) ∷ rows) c c' (k, ks) h =
        elim (Bool-cases (str_eq (getenv name) "")) [
          | inl q ↦ read_rows-Keeps rows c c' ks (sym (read_rows-unset name e rows c q) ∙ h)
          | inr q ↦
              let (c₁, applied, rest) =
                >>=-eq-ok (apply_effect parse_duration parse_number getenv name (getenv name) e c)
                  (read_rows parse_duration parse_number getenv rows)
                  (sym (read_rows-set name e rows c q) ∙ h) in
              read_rows-Keeps rows c₁ c' ks rest
              ∙ apply_effect-Keeps name (getenv name) e c c₁ k applied
        ]

    -- A field that one text variable sets, and no other: it is the variable, if that is set.
    pub read_rows-field :
        (before after : List (String × Effect F)) (name : String)
        (put : String → Config F → Config F) (c c' : Config F)
        → All Keeps before
        → All Keeps after
        → ((v : String) (c : Config F) → get (put v c) ≡ v)
        → read_rows parse_duration parse_number getenv (before ++ (name, text put) ∷ after) c
          ≡ ok c'
        → get c' ≡ override (getenv name) (get c)
    read_rows-field [] after name put c c' k ks sets h =
        elim (Bool-cases (str_eq (getenv name) "")) [
          | inl q ↦
              rw q (
                read_rows-Keeps after c c' ks (sym (read_rows-unset name (text put) after c q) ∙ h))
          | inr q ↦ rw q (
              read_rows-Keeps after (put (getenv name) c) c' ks
                (sym (read_rows-set name (text put) after c q ∙ unfold apply_effect in refl) ∙ h)
              ∙ sets (getenv name) c)
        ]
    read_rows-field ((n, e) ∷ before) after name put c c' (k, ks) kept sets h =
        elim (Bool-cases (str_eq (getenv n) "")) [
          | inl q ↦
              read_rows-field before after name put c c' ks kept sets
                (sym (read_rows-unset n e _ c q) ∙ h)
          | inr q ↦
              let (c₁, applied, rest) =
                >>=-eq-ok (apply_effect parse_duration parse_number getenv n (getenv n) e c)
                  (read_rows parse_duration parse_number getenv
                    (before ++ (name, text put) ∷ after))
                  (sym (read_rows-set n e (before ++ (name, text put) ∷ after) c q) ∙ h) in
              read_rows-field before after name put c₁ c' ks kept sets rest
              ∙ ap (override (getenv name)) (apply_effect-Keeps n (getenv n) e c c₁ k applied)
        ]
