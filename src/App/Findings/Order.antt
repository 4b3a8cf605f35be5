-- ===== src/App/Findings/Order.antt =====
-- internal/app/service.go: the order that `sortFindings` gives the findings.
use yb_doctor.Base.{
  any, sort_by, [], ◌∷◌, refl, String, true, false, ◌≡◌, Perm, List, filter, str_ltb, sort_by-perm,
  sort_by_stable, sort_by-IsSorted, IsSorted, str_ltb_asym, str_eq, eq_iff, arith, ◌==◌, ◌&&◌, not,
  ltb, Bool, if◌then◌else◌,
}
use yb_doctor.Domain.Ids.{Severity, severity_high, severity_medium, severity_low}
use yb_doctor.Domain.Report.{Finding}
use yb_doctor.App.Service.{rank, before_finding, sort_findings}

before_finding_asym : (x y : Finding) → before_finding x y ≡ true → before_finding y x ≡ false
unfolding before_finding
before_finding_asym x y h = ground (arith, str_ltb_asym x.code y.code)

str_ltb_irrefl : (s : String) → str_ltb s s ≡ false
str_ltb_irrefl s = ground (arith, str_ltb_asym s s)

-- The first severity is worse than the second.
abbrev pub is_worse : Severity → Severity → Bool
is_worse severity_high severity_high = false
is_worse severity_high _ = true
is_worse severity_medium severity_low = true
is_worse _ _ = false

abbrev pub same_severity : Severity → Severity → Bool
same_severity s t = not (is_worse s t) && not (is_worse t s)

-- The finding may stand before the other: it is no milder, and under one severity its code comes no later.
abbrev pub may_precede : Finding → Finding → Bool
may_precede x y =
    not (is_worse y.severity x.severity)
    && not (same_severity x.severity y.severity && str_ltb y.code x.code)

is_worse_trans :
    (s t u : Severity) → is_worse s t ≡ false → is_worse t u ≡ false → is_worse s u ≡ false
is_worse_trans s t u h k = ground arith

same_rank : (s t : Severity) → same_severity s t ≡ true → rank s ≡ rank t
same_rank s t h = ground arith

same_not_before :
    (x y z : Finding)
    → (same_severity y.severity x.severity && str_eq y.code x.code) ≡ true
    → (same_severity z.severity x.severity && str_eq z.code x.code) ≡ true
    → before_finding z y ≡ false
unfolding before_finding
same_not_before x y z h k = ground (
  arith,
  same_rank y.severity x.severity,
  same_rank z.severity x.severity,
  str_ltb_irrefl x.code,
  eq_iff y.code x.code,
  eq_iff z.code x.code,
)

severity_or_code :
    (s t : Severity) (b : Bool)
    → (if rank t == rank s then b else ltb (rank t) (rank s)) ≡ false
    → (not (is_worse t s) && not (same_severity s t && b)) ≡ true
severity_or_code s t b h = ground arith

-- Each finding may stand before its successor.
abbrev pub IsOrdered : List Finding → Type 0
IsOrdered [] = Unit
IsOrdered (x ∷ []) = Unit
IsOrdered (x ∷ y ∷ r) = (may_precede x y ≡ true) × IsOrdered (y ∷ r)

-- No finding is worse than the given severity.
abbrev pub is_no_worse : Severity → List Finding → Bool
is_no_worse s fs = not (any (λ f. is_worse f.severity s) fs)

IsSorted-IsOrdered : (fs : List Finding) → IsSorted before_finding fs → IsOrdered fs
unfolding before_finding
IsSorted-IsOrdered [] h = tt
IsSorted-IsOrdered (x ∷ []) h = tt
IsSorted-IsOrdered (x ∷ y ∷ r) (h, hs) = (
  severity_or_code x.severity y.severity (str_ltb y.code x.code) h,
  IsSorted-IsOrdered (y ∷ r) hs,
)

-- Neighbours are enough for the severities: nothing later is worse.
abbrev pub IsGraded : List Finding → Type 0
IsGraded [] = Unit
IsGraded (x ∷ r) = (is_no_worse x.severity r ≡ true) × IsGraded r

is_no_worse_mono :
    (s t : Severity) (fs : List Finding)
    → is_worse t s ≡ false
    → is_no_worse t fs ≡ true
    → is_no_worse s fs ≡ true
is_no_worse_mono s t [] h k = refl
is_no_worse_mono s t (f ∷ fs) h k =
    ground (arith, is_no_worse_mono s t fs h, is_worse_trans f.severity t s)

IsOrdered-IsGraded : (fs : List Finding) → IsOrdered fs → IsGraded fs
IsOrdered-IsGraded [] h = tt
IsOrdered-IsGraded (x ∷ []) h = (refl, tt)
IsOrdered-IsGraded (x ∷ y ∷ r) (h, hs) =
    let (first, rest) = IsOrdered-IsGraded (y ∷ r) hs in
    let near : is_worse y.severity x.severity ≡ false = ground (arith, h) in
    (ground (arith, near, is_no_worse_mono x.severity y.severity r near first), (first, rest))

-- Sorting the findings loses none and adds none; no finding comes after a milder one; of two neighbours of one
-- severity, the second has no smaller code; and the findings of one severity and one code keep their order.
pub sort_findings_lem :
    (fs : List Finding)
    → Perm (sort_findings fs) fs
      × IsGraded (sort_findings fs)
      × IsOrdered (sort_findings fs)
      × ((x : Finding)
          → filter
              (λ y. same_severity y.severity x.severity && str_eq y.code x.code)
              (sort_findings fs)
            ≡ filter (λ y. same_severity y.severity x.severity && str_eq y.code x.code) fs)
unfolding sort_findings
sort_findings_lem fs =
    let ordered =
      IsSorted-IsOrdered (sort_by before_finding fs)
        (sort_by-IsSorted before_finding before_finding_asym fs) in
    (
      sort_by-perm before_finding fs,
      IsOrdered-IsGraded (sort_by before_finding fs) ordered,
      ordered,
      λ x.
          sort_by_stable before_finding
            (λ y. same_severity y.severity x.severity && str_eq y.code x.code) fs
            (λ y z. same_not_before x y z),
    )
