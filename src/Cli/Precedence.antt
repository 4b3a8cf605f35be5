-- ===== src/Cli/Precedence.antt =====
-- internal/adapter/inbound/cli/root.go with internal/config: which source of the configuration wins.
use yb_doctor.Base.{
  ℕ, zero, suc, concat, String, false, ◌≡◌, refl, ◌∙◌, sym, ap, List, [], ◌∷◌, ℤ, str_eq, arith,
  Result, ok, err, ◌>>=◌,
}
use yb_doctor.Float.{Float64}
use yb_doctor.Config.{Config, defaults}
use yb_doctor.Config.Env.{env_rows, with_env, load_from, load}
use yb_doctor.Config.Env.Fields.{read_rows-field}
use yb_doctor.Config.File.{
  FileConfig, override, override_duration, plain_fields, apply_file, with_file, resolve_file,
}
use yb_doctor.Cli.Flags.{RuntimeFlags, System, with_flags, load_config}

load_from-ok :
    {F : Type 0} (src : Config F → Result (Config F)) (srcs : List (Config F → Result (Config F)))
    (c c' : Config F)
    → load_from (src ∷ srcs) c ≡ ok c'
    → (c₁ : Config F) × (src c ≡ ok c₁) × (load_from srcs c₁ ≡ ok c')
unfolding load_from
load_from-ok {F} src srcs c c' h = by_result (src c) refl h
  where
    by_result :
        (r : Result (Config F))
        → src c ≡ r
        → elim r [
          | ok c₁ ↦ load_from srcs c₁
          | err e ↦ err (concat ("load config source: " ∷ e ∷ []))
        ]
          ≡ ok c'
        → (c₁ : Config F) × (src c ≡ ok c₁) × (load_from srcs c₁ ≡ ok c')
    by_result (ok c₁) e k = (c₁, e, k)
    by_result (err x) e k = cc

abbrev take : {A : Type 0} → ℕ → List A → List A
take zero xs = []
take (suc n) [] = []
take (suc n) (x ∷ xs) = x ∷ take n xs

abbrev drop : {A : Type 0} → ℕ → List A → List A
drop zero xs = xs
drop (suc n) [] = []
drop (suc n) (x ∷ xs) = drop n xs

module _ {F : Type 0} (sys : System) (c c' : Config F)
    (h : with_env sys.parse_duration sys.parse_number sys.getenv c ≡ ok c') where
  env_scenario : c'.scenario ≡ override (sys.getenv "YB_DOCTOR_SCENARIO") c.scenario
  unfolding with_env env_rows
  env_scenario =
      read_rows-field (λ c. c.scenario) sys.parse_duration sys.parse_number sys.getenv
        (take 1 env_rows) (drop 2 env_rows) "YB_DOCTOR_SCENARIO" (λ v c. record c { scenario = v })
        c c' (grind arith) (grind arith) (λ v c. refl) h

  env_criteria_file : c'.criteria_file ≡ override (sys.getenv "YB_DOCTOR_CRITERIA") c.criteria_file
  unfolding with_env env_rows
  env_criteria_file =
      read_rows-field (λ c. c.criteria_file) sys.parse_duration sys.parse_number sys.getenv
        (take 10 env_rows) (drop 11 env_rows) "YB_DOCTOR_CRITERIA"
        (λ v c. record c { criteria_file = v }) c c' (grind arith) (grind arith) (λ v c. refl) h

  env_ysql_addr : c'.ysql_addr ≡ override (sys.getenv "YB_DOCTOR_YSQL") c.ysql_addr
  unfolding with_env env_rows
  env_ysql_addr =
      read_rows-field (λ c. c.ysql_addr) sys.parse_duration sys.parse_number sys.getenv
        (take 12 env_rows) (drop 13 env_rows) "YB_DOCTOR_YSQL" (λ v c. record c { ysql_addr = v }) c
        c' (grind arith) (grind arith) (λ v c. refl) h

  env_ysql_user : c'.ysql_user ≡ override (sys.getenv "YB_DOCTOR_YSQL_USER") c.ysql_user
  unfolding with_env env_rows
  env_ysql_user =
      read_rows-field (λ c. c.ysql_user) sys.parse_duration sys.parse_number sys.getenv
        (take 13 env_rows) (drop 14 env_rows) "YB_DOCTOR_YSQL_USER"
        (λ v c. record c { ysql_user = v }) c c' (grind arith) (grind arith) (λ v c. refl) h

-- Four results in a row that succeed.
ok-chain :
    {A B : Type 0} (p q r s : Result A) (k : A → A → A → A → B) (b : B)
    → (do x ← p; y ← q; z ← r; w ← s; ok (k x y z w)) ≡ ok b
    → (x : A) × (y : A) × (z : A) × (w : A) × (k x y z w ≡ b)
ok-chain (err e) q r s k b h = cc
ok-chain (ok x) (err e) r s k b h = cc
ok-chain (ok x) (ok y) (err e) s k b h = cc
ok-chain (ok x) (ok y) (ok z) (err e) k b h = cc
ok-chain (ok x) (ok y) (ok z) (ok w) k b h = (x, y, z, w, cc)

-- A file that is applied writes its durations into the configuration that `plain_fields` gives.
apply_file-ok :
    {F : Type 0} (parse_duration : String → Result ℤ) (fc : FileConfig) (c c' : Config F)
    → apply_file parse_duration fc c ≡ ok c'
    → (http : ℤ) × (ysql : ℤ) × (watch : ℤ) × (interval : ℤ) × (record (plain_fields fc c) {
      http_timeout = http;
      ysql_timeout = ysql;
      watch_duration = watch;
      watch_interval = interval;
    }
        ≡ c')
unfolding apply_file
apply_file-ok parse_duration fc c c' h =
    ok-chain
      (override_duration parse_duration "config file http_timeout" fc.http_timeout c.http_timeout)
      (override_duration parse_duration "config file ysql.timeout" fc.ysql.timeout c.ysql_timeout)
      (override_duration parse_duration "config file watch.duration" fc.watch.duration
        c.watch_duration)
      (override_duration parse_duration "config file watch.interval" fc.watch.interval
        c.watch_interval)
      (λ http ysql watch interval. record (plain_fields fc c) {
        http_timeout = http;
        ysql_timeout = ysql;
        watch_duration = watch;
        watch_interval = interval;
      })
      c' h

-- A file that is read and decoded is applied.
with_file-read :
    {F : Type 0} (sys : System) (path raw : String) (fc : FileConfig) (c : Config F)
    → str_eq path "" ≡ false
    → sys.read_file path ≡ ok raw
    → sys.decode_toml raw ≡ ok fc
    → with_file sys.parse_duration sys.read_file sys.decode_toml path c
      ≡ apply_file sys.parse_duration fc c
unfolding with_file
with_file-read sys path raw fc c p r d = rw (p, r, d) refl

module _ {F : Type 0} ⦃f : Float64 F⦄ (sys : System) (flags : RuntimeFlags) where
  -- The three sources, each on what the one before it gave.
  load_config-ok :
      (raw : String) (fc : FileConfig) (cfg : Config F)
      → str_eq (resolve_file flags.config_file sys.getenv sys.exists) "" ≡ false
      → sys.read_file (resolve_file flags.config_file sys.getenv sys.exists) ≡ ok raw
      → sys.decode_toml raw ≡ ok fc
      → load_config sys flags ≡ ok cfg
      → (c₁ : Config F) × (c₂ : Config F) × (apply_file sys.parse_duration fc defaults ≡ ok c₁)
        × (with_env sys.parse_duration sys.parse_number sys.getenv c₁ ≡ ok c₂)
        × (with_flags flags c₂ ≡ ok cfg)
  unfolding load_config load load_from
  load_config-ok raw fc cfg p r d h =
      let file =
        with_file sys.parse_duration sys.read_file sys.decode_toml
          (resolve_file flags.config_file sys.getenv sys.exists) in
      let env = with_env sys.parse_duration sys.parse_number sys.getenv in
      let (c₁, e₁, h₁) = load_from-ok file (env ∷ with_flags flags ∷ []) defaults cfg h in
      let (c₂, e₂, h₂) = load_from-ok env (with_flags flags ∷ []) c₁ cfg h₁ in
      let (c₃, e₃, h₃) = load_from-ok (with_flags flags) [] c₂ cfg h₂ in
      (c₁, c₂, sym (with_file-read sys _ raw fc defaults p r d) ∙ e₁, e₂, e₃ ∙ h₃)

-- A value comes from the flag if that is given, else from the variable, else from the file, else it is
-- the default.
abbrev pub layered : String → String → String → String → String
layered flag variable file default = override flag (override variable (override file default))

-- If the configuration loads, with a file that is read and decoded, then the scenario, the criteria's file,
-- and the SQL address and user come from the flag if it is given, else from the environment's variable,
-- else from the file, else from the defaults.
pub load_config_precedence :
    {F : Type 0} ⦃f : Float64 F⦄ (sys : System) (flags : RuntimeFlags) (raw : String)
    (fc : FileConfig) (cfg : Config F)
    → str_eq (resolve_file flags.config_file sys.getenv sys.exists) "" ≡ false
    → sys.read_file (resolve_file flags.config_file sys.getenv sys.exists) ≡ ok raw
    → sys.decode_toml raw ≡ ok fc
    → load_config sys flags ≡ ok cfg
    → (cfg.scenario ≡ layered flags.scenario (sys.getenv "YB_DOCTOR_SCENARIO") fc.scenario "")
      × (cfg.criteria_file
          ≡ layered flags.criteria (sys.getenv "YB_DOCTOR_CRITERIA") fc.criteria "")
      × (cfg.ysql_addr ≡ layered flags.ysql (sys.getenv "YB_DOCTOR_YSQL") fc.ysql.addr "")
      × (cfg.ysql_user
          ≡ layered flags.ysql_user (sys.getenv "YB_DOCTOR_YSQL_USER") fc.ysql.user "yugabyte")
unfolding with_flags plain_fields defaults
load_config_precedence sys flags raw fc cfg p r d h =
    let (c₁, c₂, by_file, by_env, by_flags) = load_config-ok sys flags raw fc cfg p r d h in
    let (http, ysql, watch, interval, fields) =
      apply_file-ok sys.parse_duration fc defaults c₁ by_file in
    (
      cc (env_scenario sys c₁ c₂ by_env, ap (λ c. c.scenario) fields),
      cc (env_criteria_file sys c₁ c₂ by_env, ap (λ c. c.criteria_file) fields),
      cc (env_ysql_addr sys c₁ c₂ by_env, ap (λ c. c.ysql_addr) fields),
      cc (env_ysql_user sys c₁ c₂ by_env, ap (λ c. c.ysql_user) fields),
    )
