-- ===== src/Config/Env/Reading.antt =====
-- internal/config/config.go: when `WithEnv` fails, and what it leaves alone.
use yb_doctor.Base.{
  String, Bool, false, ◌≡◌, refl, sym, and_then, ◌∙◌, ap, ◌&&◌, ◌||◌, not, List, [], ◌∷◌, any, ℤ,
  str_eq, arith, Bool-cases, inl, inr, Result, ok, err, is_err,
}
use yb_doctor.Config.{Config}
use yb_doctor.Config.Env.{
  Effect, text, switch, duration, number, env_rows, apply_effect, read_rows, with_env,
}

-- The variable is set, and the parser refuses its value.
abbrev pub is_refused : (String → String) → String × (String → Result ℤ) → Bool
is_refused getenv (name, parse) = not (str_eq (getenv name) "") && is_err (parse (getenv name))

is_err-and_then :
    {A B : Type 0} (op : String) (r : Result A) (f : A → B) → is_err (and_then op r f) ≡ is_err r
is_err-and_then op (ok a) f = refl
is_err-and_then op (err e) f = refl

module _ {F : Type 0} (parse_duration parse_number : String → Result ℤ)
    (getenv : String → String) where
  abbrev row_fails : String × Effect F → Bool
  row_fails (name, text put) = false
  row_fails (name, switch on) = false
  row_fails (name, duration put) = is_refused getenv (name, parse_duration)
  row_fails (name, number put) = is_refused getenv (name, parse_number)

  is_err-next :
      (o : Result (Config F)) (rows : List (String × Effect F)) (b : Bool)
      → ((c : Config F) → is_err (read_rows parse_duration parse_number getenv rows c) ≡ b)
      → is_err
          (elim o [ ok c' ↦ read_rows parse_duration parse_number getenv rows c' | err x ↦ err x ])
        ≡ (is_err o || b)
  is_err-next (ok c) rows b h = h c
  is_err-next (err e) rows b h = refl

  row_fails_lem :
      (name : String) (e : Effect F) (c : Config F)
      → row_fails (name, e) ≡ (
          not (str_eq (getenv name) "")
          && is_err (apply_effect parse_duration parse_number getenv name (getenv name) e c))
  unfolding apply_effect
  row_fails_lem name (text put) c = ground arith
  row_fails_lem name (switch on) c = ground arith
  row_fails_lem name (duration put) c =
      ap (λ b. not (str_eq (getenv name) "") && b)
        (sym (is_err-and_then name (parse_duration (getenv name)) (λ d. put d c)))
  row_fails_lem name (number put) c =
      ap (λ b. not (str_eq (getenv name) "") && b)
        (sym (is_err-and_then name (parse_number (getenv name)) (λ n. put n c)))

  is_err-read_rows :
      (rows : List (String × Effect F)) (c : Config F)
      → is_err (read_rows parse_duration parse_number getenv rows c) ≡ any row_fails rows
  unfolding read_rows
  is_err-read_rows [] c = refl
  is_err-read_rows ((name, e) ∷ rows) c = elim (Bool-cases (str_eq (getenv name) "")) [
    | inl h ↦ rw h (ground (arith, is_err-read_rows rows c, row_fails_lem name e c))
    | inr h ↦ rw h (
        is_err-next (apply_effect parse_duration parse_number getenv name (getenv name) e c) rows
          (any row_fails rows) (is_err-read_rows rows)
        ∙ ground (arith, row_fails_lem name e c))
  ]

  read_rows-unset :
      (rows : List (String × Effect F)) (c : Config F)
      → ((name : String) → getenv name ≡ "")
      → read_rows parse_duration parse_number getenv rows c ≡ ok c
  unfolding read_rows
  read_rows-unset [] c h = refl
  read_rows-unset ((name, e) ∷ rows) c h = rw (h name) (read_rows-unset rows c h)

-- Reading the environment fails exactly if one of the five durations and two numbers is set to a text
-- that its parser refuses.
pub with_env_fails :
    {F : Type 0} (parse_duration parse_number : String → Result ℤ) (getenv : String → String)
    (c : Config F)
    → is_err (with_env parse_duration parse_number getenv c)
      ≡ any (is_refused getenv) (
          ("YB_DOCTOR_HTTP_TIMEOUT", parse_duration)
          ∷ ("YB_DOCTOR_COLLECT_TIMEOUT", parse_duration)
          ∷ ("YB_DOCTOR_MAX_CONCURRENCY", parse_number)
          ∷ ("YB_DOCTOR_TSERVER_HTTP_BASE", parse_number)
          ∷ ("YB_DOCTOR_YSQL_TIMEOUT", parse_duration)
          ∷ ("YB_DOCTOR_WATCH", parse_duration)
          ∷ ("YB_DOCTOR_WATCH_INTERVAL", parse_duration)
          ∷ [])
unfolding with_env env_rows
with_env_fails parse_duration parse_number getenv c =
    is_err-read_rows parse_duration parse_number getenv env_rows c

-- With no variable set, reading the environment succeeds and leaves the configuration as it is.
pub with_env_unset :
    {F : Type 0} (parse_duration parse_number : String → Result ℤ) (getenv : String → String)
    (c : Config F)
    → ((name : String) → getenv name ≡ "")
    → with_env parse_duration parse_number getenv c ≡ ok c
unfolding with_env
with_env_unset parse_duration parse_number getenv c h =
    read_rows-unset parse_duration parse_number getenv env_rows c h
