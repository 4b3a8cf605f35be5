-- ===== src/App/Explain/Covered.antt =====
-- internal/app/explain.go: which codes are explained, and what an explanation says.
use yb_doctor.Base.{
  String, Bool, true, false, ◌≡◌, refl, ◌∙◌, sym, ap, not, Option, none, some, List, [], ◌∷◌,
  length, ltb, any, Dict, get, keys, has, str_eq, eq_iff, arith, has-sort_strings, trim_space,
  to_lower, if◌then◌else◌, Bool-cases, inl, inr, Result, ok, err, is_err, Option-cases, All,
}
use yb_doctor.Float.{Float64}
use yb_doctor.Domain.Ids.{FindingCode}
use yb_doctor.Domain.Cluster.{Snapshot}
use yb_doctor.Domain.Report.{Explanation, TabletSummary, RaftSummary}
use yb_doctor.Config.{Config}
use yb_doctor.App.Findings.{collect_findings}
use yb_doctor.App.Findings.Codes.{reports, due, is_due, collect_findings_exact}
use yb_doctor.App.Service.{analyze_snapshot}
use yb_doctor.App.Explain.{
  catalog, known_finding_codes, current_cluster_lines, cluster_now, explain,
}

abbrev is_some : {A : Type 0} → Option A → Bool
is_some none = false
is_some (some a) = true

is_some-get : {V : Type 0} (k : String) (m : Dict V) → is_some (get k m) ≡ has k (keys m)
unfolding get
is_some-get k [] = refl
is_some-get k ((j, v) ∷ m) = elim (Bool-cases (str_eq j k)) [
  | inl e ↦ rw e refl
  | inr e ↦ rw e (is_some-get k m)
]

any-due :
    (c : FindingCode) (ds : List (FindingCode × Bool)) (P : FindingCode → Type 0)
    → All (λ d. P d.0) ds
    → any (is_due c) ds ≡ true
    → P c
any-due c [] P ps h = cc
any-due c ((k, b) ∷ ds) P (p, ps) h = elim (Bool-cases (str_eq k c)) [
  | inl e ↦ rw (sym ((eq_iff k c).0 e)) p
  | inr e ↦ any-due c ds P ps (ground (arith))
]

get-code :
    (m : Dict Explanation) (k : String) (a : Explanation)
    → All (λ e. e.1.code ≡ e.0) m
    → get k m ≡ some a
    → a.code ≡ k
unfolding get
get-code [] k a ps h = cc
get-code ((j, v) ∷ m) k a (p, ps) h = elim (Bool-cases (str_eq j k)) [
  | inl e ↦ cc (first e, h, p, (eq_iff j k).0 e)
  | inr e ↦ get-code m k a ps (sym (rw (e, get) refl) ∙ h)
]
  where
    first : str_eq j k ≡ true → get k ((j, v) ∷ m) ≡ some v
    first e = rw (e, get) refl

module _ {F : Type 0} ⦃f : Float64 F⦄ (quote : String → String) (cfg : Config F)
    (collected : Result (Snapshot F)) where
  is_err-explain :
      (code : String)
      → is_err (explain quote cfg collected code)
        ≡ not (is_some (get (to_lower (trim_space code)) catalog))
  unfolding explain
  is_err-explain code = elim (Option-cases (get (to_lower (trim_space code)) catalog)) [
    | inl e ↦ rw (e, explain) refl
    | inr (a, e) ↦ rw (e, explain) refl
  ]

  -- The explanation of a code fails exactly if the code, trimmed and in lower case, is none of those that
  -- `explain --list` shows, whether or not the cluster can be read.
  pub explain_fails :
      (code : String)
      → is_err (explain quote cfg collected code)
        ≡ not (has (to_lower (trim_space code)) known_finding_codes)
  unfolding known_finding_codes
  explain_fails code =
      is_err-explain code
      ∙ ap not (
          is_some-get (to_lower (trim_space code)) catalog
          ∙ sym (has-sort_strings (to_lower (trim_space code)) (keys catalog)))

  -- Every code that a report has is explained.
  pub reported_explained :
      (code : FindingCode) (s : Snapshot F) (sum : TabletSummary F) (raft : RaftSummary)
      → reports code (collect_findings s sum raft cfg) ≡ true
      → is_err (explain quote cfg collected code) ≡ false
  unfolding due explain catalog get to_lower trim_space
  reported_explained code s sum raft h =
      any-due code (due s sum raft cfg.thresholds)
        (λ c. is_err (explain quote cfg collected c) ≡ false)
        (
          refl,
          (
            refl,
            (
              refl,
              (refl, (refl, (refl, (refl, (refl, (refl, (refl, (refl, (refl, (refl, tt)))))))))),
            ),
          ),
        )
        (sym (collect_findings_exact code s sum raft cfg) ∙ h)

  fails :
      (code : String)
      → get (to_lower (trim_space code)) catalog ≡ none
      → is_err (explain quote cfg collected code) ≡ true
  fails code n = is_err-explain code ∙ cc n

  explained :
      (code : String) (a : Explanation)
      → get (to_lower (trim_space code)) catalog ≡ some a
      → explain quote cfg collected code
        ≡ ok (record a { current_cluster = cluster_now cfg collected (to_lower (trim_space code)) })
  unfolding explain
  explained code a g = rw (g, explain) refl

  cluster_now-says : (code : String) → ltb 0 (length (cluster_now cfg collected code)) ≡ true
  unfolding cluster_now
  cluster_now-says code = said collected
    where
      nonempty :
          (xs : List String) (x : String)
          → ltb 0 (length (if ltb 0 (length xs) then xs else x ∷ [])) ≡ true
      nonempty [] x = refl
      nonempty (y ∷ ys) x = ground arith

      said : (r : Result (Snapshot F)) → ltb 0 (length (cluster_now cfg r code)) ≡ true
      said (err e) = refl
      said (ok s) =
          nonempty (current_cluster_lines code (analyze_snapshot cfg s))
            "no matching evidence in the current cluster"

  -- An explanation is the one of the code, and it says something of the current cluster.
  pub explain_ok :
      (code : String) (e : Explanation)
      → explain quote cfg collected code ≡ ok e
      → (e.code ≡ to_lower (trim_space code)) × (ltb 0 (length e.current_cluster) ≡ true)
  unfolding catalog
  explain_ok code e h = elim (Option-cases (get (to_lower (trim_space code)) catalog)) [
    | inl n ↦ cc (fails code n, h)
    | inr (a, g) ↦ (
      cc (
        explained code a g,
        h,
        get-code catalog _ a
            (
              refl,
              (
                refl,
                (
                  refl,
                  (
                    refl,
                    (refl, (refl, (refl, (refl, (refl, (refl, (refl, (refl, (refl, tt))))))))),
                  ),
                ),
              ),
            )
            g,
      ),
      cc (explained code a g, h, cluster_now-says (to_lower (trim_space code))),
    )
  ]
