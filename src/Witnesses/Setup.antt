-- ===== src/Witnesses/Setup.antt =====
-- The configuration, on the defaults and on small environments.
use yb_doctor.Base.{
  String, true, ◌≡◌, refl, ◌≤ℤ◌, [], ℤ, pos, str_eq, if◌then◌else◌, Result, err, is_err, trim_space,
  to_lower,
}
use yb_doctor.Float.{Fraction, fraction_float}
use yb_doctor.Config.{Config, defaults}
use yb_doctor.Config.Env.{with_env}
use yb_doctor.Config.Env.Reading.{with_env_fails}
use yb_doctor.Config.Validate.{validate, faults}
use yb_doctor.Config.Validate.Accepted.{validate_accepts}

-- The defaults, for one scenario.
abbrev chosen : Config Fraction
chosen = record defaults { scenario = "healthy" }

abbrev only_timeout : String → String
only_timeout name = if str_eq name "YB_DOCTOR_HTTP_TIMEOUT" then "soon" else ""

abbrev refuses : String → Result ℤ
refuses v = err "invalid"

with_env_fails_example : is_err (with_env refuses refuses only_timeout chosen) ≡ true
with_env_fails_example = with_env_fails refuses refuses only_timeout chosen

chosen_accepted : validate chosen ≡ []
unfolding validate faults defaults trim_space to_lower
chosen_accepted = refl

validate_accepts_example : pos 1 ≤ℤ chosen.scoring.start
validate_accepts_example = ((validate_accepts chosen).0 chosen_accepted).16
