-- ===== src/Config/File/Overlay.antt =====
-- internal/config/file.go: when a configuration file is refused.
use yb_doctor.Base.{
  String, Bool, false, ◌≡◌, refl, ◌∙◌, ◌&&◌, ◌||◌, not, [], ◌∷◌, any, ℤ, pos, str_eq, Bool-cases,
  inl, inr, Result, ok, err, is_err, and_then, ◌>>=◌,
}
use yb_doctor.Config.{Config}
use yb_doctor.Config.File.{FileConfig, override_duration, plain_fields, apply_file}

module _ (parse_duration : String → Result ℤ) where
  -- The text is there, and the parser refuses it.
  abbrev pub bad_duration : String → Bool
  bad_duration v = not (str_eq v "") && is_err (parse_duration v)

  is_err-override_duration :
      (name v : String) (old : ℤ)
      → is_err (override_duration parse_duration name v old) ≡ bad_duration v
  unfolding override_duration
  is_err-override_duration name v old = elim (Bool-cases (str_eq v "")) [
    | inl e ↦ rw e refl
    | inr e ↦ rw e (wrapped (parse_duration v))
  ]
    where
      wrapped : (r : Result ℤ) → is_err (and_then name r (λ d. d)) ≡ is_err r
      wrapped (ok d) = refl
      wrapped (err x) = refl

-- Four results in a row: the first error ends the chain.
is_err-chain :
    {A B : Type 0} (p q r s : Result A) (k : A → A → A → A → B)
    → is_err (do a ← p; b ← q; c ← r; d ← s; ok (k a b c d))
      ≡ (is_err p || (is_err q || (is_err r || (is_err s || false))))
is_err-chain (err e) q r s k = refl
is_err-chain (ok a) (err e) r s k = refl
is_err-chain (ok a) (ok b) (err e) s k = refl
is_err-chain (ok a) (ok b) (ok c) (err e) k = refl
is_err-chain (ok a) (ok b) (ok c) (ok d) k = refl

-- A decoded file is refused exactly if one of its four durations is there and does not parse.
pub apply_file_fails :
    {F : Type 0} (parse_duration : String → Result ℤ) (fc : FileConfig) (c : Config F)
    → is_err (apply_file parse_duration fc c)
      ≡ any
          (bad_duration parse_duration)
          (fc.http_timeout ∷ fc.ysql.timeout ∷ fc.watch.duration ∷ fc.watch.interval ∷ [])
unfolding apply_file
apply_file_fails parse_duration fc c =
    is_err-chain
      (override_duration parse_duration "config file http_timeout" fc.http_timeout c.http_timeout)
      (override_duration parse_duration "config file ysql.timeout" fc.ysql.timeout c.ysql_timeout)
      (override_duration parse_duration "config file watch.duration" fc.watch.duration
        c.watch_duration)
      (override_duration parse_duration "config file watch.interval" fc.watch.interval
        c.watch_interval)
      (λ http ysql watch interval. record (plain_fields fc c) {
        http_timeout = http;
        ysql_timeout = ysql;
        watch_duration = watch;
        watch_interval = interval;
      })
    ∙ cc (
      is_err-override_duration parse_duration "config file http_timeout" fc.http_timeout
          c.http_timeout,
      is_err-override_duration parse_duration "config file ysql.timeout" fc.ysql.timeout
          c.ysql_timeout,
      is_err-override_duration parse_duration "config file watch.duration" fc.watch.duration
          c.watch_duration,
      is_err-override_duration parse_duration "config file watch.interval" fc.watch.interval
          c.watch_interval,
    )

abbrev pub empty_file : FileConfig
empty_file = record {
  masters = [];
  scenario = "";
  format = "";
  log_level = "";
  no_color = false;
  http_timeout = "";
  tls_ca_file = "";
  tls_skip = false;
  criteria = "";
  tserver_base = pos 0;
  ysql = record { addr = ""; user = ""; password = ""; database = ""; ssl_mode = ""; timeout = "" };
  watch = record { duration = ""; interval = "" };
}
