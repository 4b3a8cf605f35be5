-- ===== src/App/Diff/Delta.antt =====
-- internal/app/diff.go: what `findingDelta` returns.
use yb_doctor.Base.{
  ℕ, String, Bool, ◌≡◌, ◌∙◌, ◌&&◌, ◌||◌, not, List, [], ◌∷◌, ◌++◌, map, filter, count, count-append,
  count-perm, sort_by-perm, has-count, has, has-append, str_eq, eq_iff, sort_by-IsSorted, IsSorted,
  str_ltb, str_ltb_asym, Bool-cases, inl, inr, arith, if◌then◌else◌,
}
use yb_doctor.Domain.Ids.{FindingCode}
use yb_doctor.Domain.Report.{Finding}
use yb_doctor.App.Diff.{keys_into, codes_only_in, finding_delta}

abbrev pub codes : List Finding → List FindingCode
codes = map (λ f. f.code)

-- How often a text occurs.
abbrev pub times : String → List String → ℕ
times k = count (λ j. str_eq j k)

times-keys_into :
    (k : String) (ks out : List String)
    → times k (keys_into ks out) ≡ (if has k out then times k out else if has k ks then 1 else 0)
unfolding keys_into
times-keys_into k [] out = ground (arith, has-count k out)
times-keys_into k (j ∷ ks) out = elim (Bool-cases (has j out)) [
  | inl e ↦ rw e (ground (arith, times-keys_into k ks out, eq_iff j k))
  | inr e ↦ rw e (
      ground (
        arith,
        times-keys_into k ks (out ++ (j ∷ [])),
        has-append k out (j ∷ []),
        count-append (λ i. str_eq i k) out (j ∷ []),
        has-count k out,
        eq_iff j k,
      ))
]

pub has-keys_into :
    (k : String) (ks out : List String) → has k (keys_into ks out) ≡ (has k ks || has k out)
has-keys_into k ks out =
    ground (arith, has-count k (keys_into ks out), times-keys_into k ks out, has-count k out)

times-filter :
    (k : String) (keep : String → Bool) (js : List String)
    → times k (filter keep js) ≡ (if keep k then times k js else 0)
times-filter k keep [] = ground arith
times-filter k keep (j ∷ js) = ground (arith, times-filter k keep js, eq_iff j k)

times-codes_only_in :
    (k : FindingCode) (xs ys : List Finding)
    → times k (codes_only_in xs ys) ≡ (if has k (codes xs) && not (has k (codes ys)) then 1 else 0)
unfolding codes_only_in
times-codes_only_in k xs ys =
    count-perm (λ j. str_eq j k)
      (sort_by-perm str_ltb
        (filter (λ c. not (has c (keys_into (codes ys) []))) (keys_into (codes xs) [])))
    ∙ times-filter k (λ c. not (has c (keys_into (codes ys) []))) (keys_into (codes xs) [])
    ∙ ground (arith, has-keys_into k (codes ys) [], times-keys_into k (codes xs) [])

-- A code is listed as added once if the new report has it and the old one does not, and else not at
-- all; it is listed as removed once if only the old report has it; and both lists are sorted.
pub finding_delta_exact :
    (prev curr : List Finding)
    → ((k : FindingCode)
        → times k (finding_delta prev curr).0
          ≡ (if has k (codes curr) && not (has k (codes prev)) then 1 else 0))
      × ((k : FindingCode)
          → times k (finding_delta prev curr).1
            ≡ (if has k (codes prev) && not (has k (codes curr)) then 1 else 0))
      × IsSorted str_ltb (finding_delta prev curr).0
      × IsSorted str_ltb (finding_delta prev curr).1
unfolding finding_delta codes_only_in
finding_delta_exact prev curr = (
  λ k. times-codes_only_in k curr prev,
  λ k. times-codes_only_in k prev curr,
  sort_by-IsSorted str_ltb str_ltb_asym _,
  sort_by-IsSorted str_ltb str_ltb_asym _,
)
