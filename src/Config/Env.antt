-- ===== src/Config/Env.antt =====
-- internal/config/config.go: `Load`, `WithEnv` and `splitCSV`. The environment is a function from names to
-- texts, where a variable that is not set reads as the empty text. `time.ParseDuration` and `strconv.Atoi`
-- are parameters, each with the error that the code wraps.
pub mod Reading
pub mod Fields
use Prim.Native.Char.{code}
use Prim.Native.String.{String}
use yb_doctor.Base.{
  ℕ, Bool, true, false, ◌≡◌, refl, ◌∙◌, ap, ◌↔◌, ◌&&◌, ◌||◌, not, Option, none, some, List, [], ◌∷◌,
  ◌++◌, map, filter, any, ◌==◌, ℤ, pos, str_eq, concat, trim_space, arith, if◌then◌else◌,
  Bool-cases, inl, inr, Result, ok, err, and_then, is_err, to_lower,
}
use yb_doctor.Float.{Float64}
use yb_doctor.Config.{Config, defaults}

-- `strings.Split(v, ",")`
put_first : String → List String → List String
put_first c [] = c ∷ []
put_first c (p ∷ ps) = concat (c ∷ p ∷ []) ∷ ps

unfoldable pub split_comma : String → List String
unfolding put_first
split_comma String.[] = "" ∷ []
split_comma (String.◌∷◌ c s) =
    let rest = split_comma s in if code c == 44 then "" ∷ rest else put_first (String.◌∷◌ c "") rest

unfoldable pub split_csv : String → List String
split_csv v = filter (λ p. not (str_eq p "")) (map trim_space (split_comma v))

-- What a variable's value does to a configuration.
pub data Effect (F : Type 0) : Type 0 where
  text : (String → Config F → Config F) → Effect F
  switch : (Config F → Config F) → Effect F
  duration : (ℤ → Config F → Config F) → Effect F
  number : (ℤ → Config F → Config F) → Effect F

module _ {F : Type 0} where
  -- The variables, in the order in which they are read.
  unfoldable pub env_rows : List (String × Effect F)
  env_rows =
      ("YB_DOCTOR_MASTERS", text (λ v c. record c { masters = split_csv v }))
      ∷ ("YB_DOCTOR_SCENARIO", text (λ v c. record c { scenario = v }))
      ∷ ("YB_DOCTOR_FORMAT", text (λ v c. record c { format = to_lower v }))
      ∷ ("YB_DOCTOR_LOG_LEVEL", text (λ v c. record c { log_level = to_lower v }))
      ∷ ("NO_COLOR", switch (λ c. record c { no_color = true }))
      ∷ ("YB_DOCTOR_HTTP_TIMEOUT", duration (λ d c. record c { http_timeout = d }))
      ∷ ("YB_DOCTOR_COLLECT_TIMEOUT", duration (λ d c. record c { collect_timeout = d }))
      ∷ ("YB_DOCTOR_MAX_CONCURRENCY", number (λ n c. record c { max_concurrency = n }))
      ∷ ("YB_DOCTOR_TLS_CA", text (λ v c. record c { tls_ca_file = v }))
      ∷ ("YB_DOCTOR_TLS_SKIP_VERIFY", switch (λ c. record c { tls_skip_verify = true }))
      ∷ ("YB_DOCTOR_CRITERIA", text (λ v c. record c { criteria_file = v }))
      ∷ ("YB_DOCTOR_TSERVER_HTTP_BASE", number (λ n c. record c { loopback_tserver_port_base = n }))
      ∷ ("YB_DOCTOR_YSQL", text (λ v c. record c { ysql_addr = v }))
      ∷ ("YB_DOCTOR_YSQL_USER", text (λ v c. record c { ysql_user = v }))
      ∷ ("YB_DOCTOR_YSQL_PASSWORD", text (λ v c. record c { ysql_password = v }))
      ∷ ("YB_DOCTOR_YSQL_DB", text (λ v c. record c { ysql_database = v }))
      ∷ ("YB_DOCTOR_YSQL_SSLMODE", text (λ v c. record c { ysql_ssl_mode = v }))
      ∷ ("YB_DOCTOR_YSQL_TIMEOUT", duration (λ d c. record c { ysql_timeout = d }))
      ∷ ("YB_DOCTOR_WATCH", duration (λ d c. record c { watch_duration = d }))
      ∷ ("YB_DOCTOR_WATCH_INTERVAL", duration (λ d c. record c { watch_interval = d }))
      ∷ ("YB_DOCTOR_DIFF", text (λ v c. record c { diff_file = v }))
      ∷ ("YB_DOCTOR_OUT", text (λ v c. record c { out_file = v }))
      ∷ []

  -- `Load`: the sources change the defaults in turn, up to the first error.
  unfoldable pub load_from : List (Config F → Result (Config F)) → Config F → Result (Config F)
  load_from [] c = ok c
  load_from (src ∷ srcs) c = elim (src c) [
    | ok c' ↦ load_from srcs c'
    | err e ↦ err (concat ("load config source: " ∷ e ∷ []))
  ]

  unfoldable pub load : ⦃f : Float64 F⦄ → List (Config F → Result (Config F)) → Result (Config F)
  load srcs = load_from srcs defaults

  module _ (parse_duration parse_number : String → Result ℤ) (getenv : String → String) where
    -- One variable that is set.
    unfoldable pub apply_effect : String → String → Effect F → Config F → Result (Config F)
    apply_effect name v (text put) c = ok (put v c)
    apply_effect name v (switch on) c = ok (if str_eq v "0" then c else on c)
    apply_effect name v (duration put) c = and_then name (parse_duration v) (λ d. put d c)
    apply_effect name v (number put) c = and_then name (parse_number v) (λ n. put n c)

    unfoldable pub read_rows : List (String × Effect F) → Config F → Result (Config F)
    read_rows [] c = ok c
    read_rows ((name, e) ∷ rows) c =
        let v = getenv name in
        if str_eq v ""
        then read_rows rows c
        else elim (apply_effect name v e c) [ ok c' ↦ read_rows rows c' | err x ↦ err x ]

    unfoldable pub with_env : Config F → Result (Config F)
    with_env = read_rows env_rows
