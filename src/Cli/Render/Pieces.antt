-- ===== src/Cli/Render/Pieces.antt =====
-- internal/adapter/inbound/cli/render/text.go: the options, the colors, and the parts that the reports share.
use Prim.Native.Char.{char}
use Prim.Native.String.{String}
use yb_doctor.Base.{
  Bool, ◌&&◌, not, List, [], ◌∷◌, ◌++◌, length, ltb, ℤ, pos, leb_ℤ, str_eq, concat, ◌==◌,
  if◌then◌else◌, Option, none, some, show_ℕ, show_ℤ, Result, ok, err, and_then,
}
use yb_doctor.Float.{Float64}
use yb_doctor.Domain.Ids.{
  Severity, severity_high, severity_medium, severity_low, CheckStatus, check_pass, check_fail,
  check_warn, check_text,
}
use yb_doctor.Domain.Cluster.{LoadBalancer}
use yb_doctor.Domain.Report.{HealthDiff, NodeCountDelta}
use yb_doctor.App.Explain.{pad_after}
use yb_doctor.Cli.Render.Numbers.{join, ms}

pub record Options : Type 0 where
  pub format : String
  pub no_color : Bool

-- The escape character, `\033`, before the text.
abbrev pub escape : String → String
escape s = String.◌∷◌ (char 27 tt) s

pub record Palette : Type 0 where
  pub reset : String
  pub bold : String
  pub dim : String
  pub red : String
  pub yellow : String
  pub green : String

unfoldable pub colors : Bool → Palette
colors off =
    if off
    then record { reset = ""; bold = ""; dim = ""; red = ""; yellow = ""; green = "" }
    else record {
      reset = escape "[0m";
      bold = escape "[1m";
      dim = escape "[2m";
      red = escape "[31m";
      yellow = escape "[33m";
      green = escape "[32m";
    }

abbrev pub rule : String
rule = "─────────────────────────────────────────────"

-- The 21 dashes under a section.
abbrev pub short_rule : String
short_rule = "─────────────────────"

-- A line: what `printf` writes with a format that ends in a line break.
abbrev pub line : List String → String
line ps = concat (ps ++ ("\n" ∷ []))

unfoldable pub heading : Palette → String → String
heading c title = concat ("\n" ∷ c.bold ∷ title ∷ c.reset ∷ "\n" ∷ rule ∷ "\n" ∷ [])

unfoldable pub section : Palette → String → String
section c title = concat ("\n" ∷ c.bold ∷ title ∷ c.reset ∷ "\n" ∷ short_rule ∷ "\n" ∷ [])

unfoldable pub status_color : Palette → CheckStatus → String
status_color c check_pass = c.green
status_color c check_fail = c.red
status_color c check_warn = c.yellow

-- `status`
unfoldable pub colored_status : Palette → CheckStatus → String
unfolding status_color
colored_status c s = concat (status_color c s ∷ check_text s ∷ c.reset ∷ [])

abbrev pub health_label : CheckStatus → String
health_label check_pass = "OK"
health_label check_warn = "WARNING"
health_label check_fail = "FAIL"

unfoldable pub health_status : Palette → CheckStatus → String
unfolding status_color
health_status c s = concat (status_color c s ∷ health_label s ∷ c.reset ∷ [])

unfoldable pub severity_color : Palette → Severity → String
severity_color c severity_high = c.red
severity_color c severity_medium = c.yellow
severity_color c severity_low = c.dim

abbrev pub severity_text : Severity → String
severity_text severity_high = "HIGH"
severity_text severity_medium = "MEDIUM"
severity_text severity_low = "LOW"

unfoldable pub score_color : Palette → ℤ → String
score_color c score =
    if leb_ℤ (pos 90) score then c.green else if leb_ℤ (pos 70) score then c.yellow else c.red

unfoldable pub load_balancer_line : LoadBalancer → String
load_balancer_line lb =
    if not lb.known && not lb.has_idle
    then ""
    else join ", " (
        (if lb.known then (if lb.enabled then "enabled" else "disabled") ∷ [] else [])
        ++ (if lb.has_idle && lb.idle
            then "idle" ∷ []
            else if lb.has_idle && not lb.idle
            then "still running" ∷ []
            else if lb.known && lb.enabled
            then "idle unknown" ∷ []
            else []))

-- The lines of a list, one for each element.
abbrev pub each : {A : Type 0} → (A → String) → List A → String
each g [] = ""
each g (x ∷ xs) = concat (g x ∷ each g xs ∷ [])

abbrev pub when : Bool → String → String
when test s = if test then s else ""

-- `encodeJSON` and `writeReport`: the text that is written, with the error of the encoder, and the error of the
-- writer, which depends on the text alone.
unfoldable pub page : Options → Result String → String → Result String
page opt encoded text =
    if str_eq opt.format "json" then and_then "encode json" encoded (λ s. s) else ok text

unfoldable pub write_page :
    (String → Option String) → Options → Result String → String → Option String
unfolding page
write_page write opt encoded text =
    let op = if str_eq opt.format "json" then "encode json" else "write report" in
    elim (page opt encoded text) [
      | err e ↦ some e
      | ok s ↦ elim (write s) [ none ↦ none | some e ↦ some (concat (op ∷ ": " ∷ e ∷ [])) ]
    ]

unfoldable pub leader_change : NodeCountDelta → String
leader_change n =
    line (pad_after 22 n.name ∷ " " ∷ show_ℕ n.from ∷ " → " ∷ show_ℕ n.to ∷ " leaders" ∷ [])

module _ {F : Type 0} ⦃f : Float64 F⦄ where
  -- `writeDiff`
  unfoldable pub diff_text : Palette → HealthDiff F → String
  diff_text c d = concat (
      heading c (concat ("Changes since " ∷ d.baseline ∷ []))
      ∷ line ("Score                   " ∷ show_ℤ d.score_from ∷ " → " ∷ show_ℤ d.score_to ∷ [])
      ∷ when (not (str_eq d.masters_from d.masters_to))
          (line ("Masters                 " ∷ d.masters_from ∷ " → " ∷ d.masters_to ∷ []))
      ∷ when (not (str_eq d.tservers_from d.tservers_to))
          (line ("TServers                " ∷ d.tservers_from ∷ " → " ∷ d.tservers_to ∷ []))
      ∷ when (not (d.under_replicated_from == d.under_replicated_to)) (
          line (
            "Under-replicated        "
            ∷ show_ℕ d.under_replicated_from
            ∷ " → "
            ∷ show_ℕ d.under_replicated_to
            ∷ []))
      ∷ when (not (d.leaderless_from == d.leaderless_to)) (
          line (
            "Leaderless              "
            ∷ show_ℕ d.leaderless_from
            ∷ " → "
            ∷ show_ℕ d.leaderless_to
            ∷ []))
      ∷ when (not (f.eq d.p99_from d.p99_to))
          (line ("P99                     " ∷ ms d.p99_from ∷ " → " ∷ ms d.p99_to ∷ []))
      ∷ each leader_change d.leaders
      ∷ when (ltb 0 (length d.findings_added))
          (line ("Findings added          " ∷ join ", " d.findings_added ∷ []))
      ∷ when (ltb 0 (length d.findings_removed))
          (line ("Findings gone           " ∷ join ", " d.findings_removed ∷ []))
      ∷ [])
