-- ===== src/App/Flags/Evidence.antt =====
-- internal/app/flags.go: what `attachFlagEvidence` adds to each finding.
use yb_doctor.Base.{
  ℕ, suc, String, Bool, false, ◌≡◌, refl, sym, ◌∙◌, ap, ◌&&◌, not, Option, none, some, List, [],
  ◌∷◌, ◌++◌, map, filter, length, Dict, get, has, ◌==◌, Bool-cases, inl, inr, arith, if◌then◌else◌,
}
use yb_doctor.Float.{Float64}
use yb_doctor.Domain.Cluster.{Snapshot, NodeRuntime}
use yb_doctor.Domain.Report.{Finding}
use yb_doctor.Config.{FlagSpec}
use yb_doctor.App.Flags.{
  flag_topics_for, flag_differs, flag_line, spec_lines, lines_of, flag_evidence, attach_one,
  attach_flag_evidence,
}

++-nil : {A : Type 0} (xs : List A) → xs ++ [] ≡ xs
++-nil [] = refl
++-nil (x ∷ xs) = ap (λ ys. x ∷ ys) (++-nil xs)

if_suc : {A : Type 0} (n : ℕ) (x y : A) → (if suc n == 0 then x else y) ≡ y
if_suc n x y = ground arith

module _ {F : Type 0} (f : Float64 F) where
  -- An entry of the allowlist is shown: it is on a topic, set on the node, and not at its default.
  abbrev pub is_shown : Dict String → List String → FlagSpec → Bool
  is_shown flags topics spec =
      has spec.topic topics
      && elim (get spec.name flags) [ none ↦ false | some got ↦ flag_differs f got spec.default ]

  abbrev pub shown_line : Dict String → FlagSpec → String
  shown_line flags spec =
      flag_line f spec (elim (get spec.name flags) [ none ↦ "" | some got ↦ got ])

  abbrev pub shown_lines : Dict String → List String → List FlagSpec → List String
  shown_lines flags topics specs = map (shown_line flags) (filter (is_shown flags topics) specs)

  spec_lines_lem :
      (flags : Dict String) (topics : List String) (spec : FlagSpec)
      → spec_lines f flags topics spec
        ≡ (if is_shown flags topics spec then shown_line flags spec ∷ [] else [])
  unfolding spec_lines
  spec_lines_lem flags topics spec = elim (Bool-cases (has spec.topic topics)) [
    | inr e ↦ rw e refl
    | inl e ↦ rw e (by_value (get spec.name flags))
  ]
    where
      by_value :
          (o : Option String)
          → elim o [
            | none ↦ []
            | some got ↦
                if not (flag_differs f got spec.default) then [] else flag_line f spec got ∷ []
          ]
            ≡ (if elim o [ none ↦ false | some got ↦ flag_differs f got spec.default ]
                then flag_line f spec (elim o [ none ↦ "" | some got ↦ got ]) ∷ []
                else [])
      by_value none = refl
      by_value (some got) = ground arith

  lines_of_lem :
      (flags : Dict String) (topics : List String) (specs : List FlagSpec)
      → lines_of f flags topics specs ≡ shown_lines flags topics specs
  unfolding lines_of
  lines_of_lem flags topics [] = refl
  lines_of_lem flags topics (spec ∷ specs) =
      ap (λ ls. ls ++ lines_of f flags topics specs) (spec_lines_lem flags topics spec)
      ∙ elim (Bool-cases (is_shown flags topics spec)) [
        | inl e ↦ rw e (ap (λ ls. shown_line flags spec ∷ ls) (lines_of_lem flags topics specs))
        | inr e ↦ rw e (lines_of_lem flags topics specs)
      ]

  shown_lines-no_topics :
      (flags : Dict String) (specs : List FlagSpec) → shown_lines flags [] specs ≡ []
  shown_lines-no_topics flags [] = refl
  shown_lines-no_topics flags (spec ∷ specs) = shown_lines-no_topics flags specs

  shown_lines-no_flags :
      (topics : List String) (specs : List FlagSpec) → shown_lines [] topics specs ≡ []
  unfolding get
  shown_lines-no_flags topics [] = refl
  shown_lines-no_flags topics (spec ∷ specs) = ground (arith, shown_lines-no_flags topics specs)

module _ {F : Type 0} ⦃f : Float64 F⦄ where
  -- The flags of a node; a node that was not sampled has none.
  abbrev pub flags_at : Snapshot F → String → Dict String
  flags_at s node = elim (get node s.performance.nodes) [ none ↦ [] | some rt ↦ rt.flags ]

  flag_evidence_lem :
      (s : Snapshot F) (node : String) (allow : List FlagSpec) (topics : List String)
      → flag_evidence s node allow topics ≡ shown_lines f (flags_at s node) topics allow
  unfolding flag_evidence
  flag_evidence_lem s node allow topics = by_node (get node s.performance.nodes)
    where
      by_flags :
          (fl : Dict String)
          → (if length fl == 0 then [] else lines_of f fl topics allow)
            ≡ shown_lines f fl topics allow
      by_flags [] = sym (shown_lines-no_flags f topics allow)
      by_flags (e ∷ fl) = if_suc (length fl) _ _ ∙ lines_of_lem f (e ∷ fl) topics allow

      by_node :
          (o : Option (NodeRuntime F))
          → elim o [
            | none ↦ []
            | some rt ↦ if length rt.flags == 0 then [] else lines_of f rt.flags topics allow
          ]
            ≡ shown_lines f (elim o [ none ↦ [] | some rt ↦ rt.flags ]) topics allow
      by_node none = sym (shown_lines-no_flags f topics allow)
      by_node (some rt) = by_flags rt.flags

  abbrev pub with_flags : Snapshot F → List FlagSpec → Finding → Finding
  with_flags s allow x = record x {
    evidence = x.evidence ++ shown_lines f (flags_at s x.node) (flag_topics_for x.code) allow;
  }

  attach_one_lem :
      (s : Snapshot F) (allow : List FlagSpec) (x : Finding)
      → attach_one s allow x ≡ with_flags s allow x
  unfolding attach_one
  attach_one_lem s allow x =
      by_lines (flag_topics_for x.code) (flag_evidence s x.node allow (flag_topics_for x.code))
        (flag_evidence_lem s x.node allow (flag_topics_for x.code))
    where
      unchanged : x ≡ record x { evidence = x.evidence ++ [] }
      unchanged = ap (λ es. record x { evidence = es }) (sym (++-nil x.evidence))

      by_lines :
          (topics lines : List String)
          → lines ≡ shown_lines f (flags_at s x.node) topics allow
          → (if length topics == 0
              then x
              else if length lines == 0
              then x
              else record x { evidence = x.evidence ++ lines })
            ≡ record x { evidence = x.evidence ++ shown_lines f (flags_at s x.node) topics allow }
      by_lines [] lines h =
          unchanged
          ∙ ap (λ ls. record x { evidence = x.evidence ++ ls })
              (sym (shown_lines-no_topics f (flags_at s x.node) allow))
      by_lines (t ∷ ts) [] h =
          if_suc (length ts) _ _ ∙ unchanged ∙ ap (λ ls. record x { evidence = x.evidence ++ ls }) h
      by_lines (t ∷ ts) (l ∷ ls) h =
          if_suc (length ts) _ _
          ∙ if_suc (length ls) _ _
          ∙ ap (λ ls. record x { evidence = x.evidence ++ ls }) h

  -- Each finding keeps its place and everything but its evidence, and its evidence goes on with one line
  -- for each entry of the allowlist that is on a topic of the finding's code, set on the finding's node,
  -- and not at its default, in the order of the allowlist.
  pub attach_flag_evidence_exact :
      (fs : List Finding) (s : Snapshot F) (allow : List FlagSpec)
      → attach_flag_evidence fs s allow ≡ map (with_flags s allow) fs
  unfolding attach_flag_evidence
  attach_flag_evidence_exact fs s allow = by_allow allow
    where
      map_congr :
          (allow : List FlagSpec) (fs : List Finding)
          → map (attach_one s allow) fs ≡ map (with_flags s allow) fs
      map_congr allow [] = refl
      map_congr allow (x ∷ fs) = cc (attach_one_lem s allow x, map_congr allow fs)

      same : (fs : List Finding) → fs ≡ map (with_flags s []) fs
      same [] = refl
      same (x ∷ fs) = cc (++-nil x.evidence, same fs)

      by_allow :
          (allow : List FlagSpec)
          → (if length allow == 0 then fs else map (attach_one s allow) fs)
            ≡ map (with_flags s allow) fs
      by_allow [] = same fs
      by_allow (a ∷ more) = if_suc (length more) _ _ ∙ map_congr (a ∷ more) fs
