-- ===== src/App/Watch/Interval.antt =====
-- internal/app/watch.go with internal/config/config.go: the interval of an accepted configuration.
use yb_doctor.Base.{String, false, ◌≡◌, refl, Option, List, [], ℤ, pos, ◌≤ℤ◌, leb_ℤ, arith}
use yb_doctor.Float.{Float64}
use yb_doctor.Config.{Config}
use yb_doctor.Config.Validate.{validate}
use yb_doctor.Config.Validate.Accepted.{validate_accepts}
use yb_doctor.Domain.Report.{HealthReport}
use yb_doctor.App.Watch.{Event, sampled, start_watch, watch_analyze}

not_low : (x : ℤ) → pos 1 ≤ℤ x → leb_ℤ x (pos 0) ≡ false
not_low x h = ground arith

pub validate-positive :
    {F : Type 0} ⦃f : Float64 F⦄ (c : Config F)
    → validate c ≡ []
    → leb_ℤ c.watch_interval (pos 0) ≡ false
validate-positive c h = not_low c.watch_interval ((validate_accepts c).0 h).11

-- Under a configuration that `Validate` accepts, a watch at its interval starts from its first sample, and
-- is not refused for its interval.
pub validate-watch_analyze :
    {F : Type 0} ⦃f : Float64 F⦄ (c : Config F) (emit : Option (HealthReport F → Option String))
    (first : HealthReport F) (es : List (Event F))
    → validate c ≡ []
    → watch_analyze c.watch_interval emit (sampled first) es ≡ start_watch emit first es
unfolding watch_analyze
validate-watch_analyze c emit first es h = rw (validate-positive c h) refl
