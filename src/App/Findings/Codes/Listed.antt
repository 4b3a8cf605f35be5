-- ===== src/App/Findings/Codes/Listed.antt =====
-- The codes of a list of findings, and the tests by which blocks of findings list them.
use yb_doctor.Base.{
  Bool, true, false, ◌≡◌, refl, ◌&&◌, ◌||◌, List, [], ◌∷◌, ◌++◌, map, any, has, ltb, str_eq, arith,
}
use yb_doctor.Domain.Ids.{FindingCode, code_leaderless, code_slow_followers}
use yb_doctor.Domain.Report.{Finding, RaftSummary}
use yb_doctor.App.Pressure.{emit_if}
use yb_doctor.App.Findings.{leaderless_finding, slow_finding, blocks}

abbrev pub codes : List Finding → List FindingCode
codes = map (λ f. f.code)

-- A finding with the code is among the findings.
abbrev pub reports : FindingCode → List Finding → Bool
reports c fs = has c (codes fs)

pub reports-append :
    (c : FindingCode) (xs ys : List Finding) → reports c (xs ++ ys) ≡ (reports c xs || reports c ys)
reports-append c [] ys = refl
reports-append c (x ∷ xs) ys = ground (arith, reports-append c xs ys)

pub reports-blocks :
    (c : FindingCode) (bs : List (List Finding)) → reports c (blocks bs) ≡ any (reports c) bs
reports-blocks c [] = refl
reports-blocks c (b ∷ bs) = ground (arith, reports-append c b (blocks bs), reports-blocks c bs)

pub reports-emit_if :
    (c : FindingCode) (test : Bool) (x : Finding)
    → reports c (emit_if test x) ≡ (test && str_eq x.code c)
reports-emit_if c true x = ground arith
reports-emit_if c false x = refl

pub leaderless_block :
    (c : FindingCode) (raft : RaftSummary)
    → reports c (leaderless_finding raft) ≡ (ltb 0 raft.leaderless && str_eq code_leaderless c)
unfolding leaderless_finding
leaderless_block c raft = reports-emit_if c _ _

pub slow_block :
    (c : FindingCode) (raft : RaftSummary)
    → reports c (slow_finding raft) ≡ (ltb 0 raft.slow_followers && str_eq code_slow_followers c)
unfolding slow_finding
slow_block c raft = reports-emit_if c _ _

-- A code with its test is due.
abbrev pub is_due : FindingCode → FindingCode × Bool → Bool
is_due c d = d.1 && str_eq d.0 c

-- Each block reports `c` by the tests of its codes.
pub data ReportsBy (c : FindingCode)
    : List (List Finding) → List (FindingCode × Bool) → Type 0 where
  no_block : ReportsBy c [] []
  one_code :
      {b : List Finding} {bs : List (List Finding)} {k : FindingCode} {test : Bool}
      {ds : List (FindingCode × Bool)}
      → reports c b ≡ (test && str_eq k c)
      → ReportsBy c bs ds
      → ReportsBy c (b ∷ bs) ((k, test) ∷ ds)
  two_codes :
      {b : List Finding} {bs : List (List Finding)} {k l : FindingCode} {s t : Bool}
      {ds : List (FindingCode × Bool)}
      → reports c b ≡ (s && str_eq k c || t && str_eq l c)
      → ReportsBy c bs ds
      → ReportsBy c (b ∷ bs) ((k, s) ∷ (l, t) ∷ ds)

pub any-ReportsBy :
    {c : FindingCode} {bs : List (List Finding)} {ds : List (FindingCode × Bool)}
    → ReportsBy c bs ds
    → any (reports c) bs ≡ any (is_due c) ds
any-ReportsBy no_block = refl
any-ReportsBy (one_code h r) = cc (h, any-ReportsBy r)
any-ReportsBy (two_codes h r) = ground (arith, h, any-ReportsBy r)

pub merge_tests :
    (a b s t s' t' : Bool)
    → ((s && a || t && b) || (s' && a || t' && b)) ≡ ((s || s') && a || (t || t') && b)
merge_tests a b s t s' t' = ground arith
