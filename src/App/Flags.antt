-- ===== src/App/Flags.antt =====
-- internal/app/flags.go: which TServer flags are attached to a finding as evidence.
pub mod Evidence
use yb_doctor.Base.{
  ℕ, ◌^◌, String, Bool, true, false, ◌&&◌, not, Option, none, some, List, [], ◌∷◌, ◌++◌, map,
  length, Dict, get, has, ◌==◌, ℤ, pos, ltb_ℤ, str_eq, concat, trim_space, equal_fold, contains,
  show_ℤ, if◌then◌else◌,
}
use yb_doctor.Float.{Float64, whole, gt}
use yb_doctor.Domain.Ids.{
  FindingCode, code_compaction_pressure, code_disk_pressure, code_sst_imbalance,
  code_tablet_imbalance, code_leader_imbalance, code_hot_tablets,
}
use yb_doctor.Domain.Cluster.{Snapshot, NodeRuntime}
use yb_doctor.Domain.Report.{Finding}
use yb_doctor.Config.{
  FlagSpec, flag_topic_compaction, flag_topic_memory, flag_topic_splitting, flag_topic_storage,
}

unfoldable pub flag_topics_for : FindingCode → List String
flag_topics_for code =
    if str_eq code code_compaction_pressure
    then flag_topic_compaction ∷ flag_topic_memory ∷ []
    else if str_eq code code_disk_pressure
    then flag_topic_compaction ∷ flag_topic_memory ∷ []
    else if str_eq code code_sst_imbalance
    then flag_topic_splitting ∷ flag_topic_storage ∷ flag_topic_memory ∷ []
    else if str_eq code code_tablet_imbalance
    then flag_topic_splitting ∷ flag_topic_storage ∷ []
    else if str_eq code code_leader_imbalance
    then flag_topic_splitting ∷ flag_topic_storage ∷ []
    else if str_eq code code_hot_tablets
    then flag_topic_splitting ∷ flag_topic_storage ∷ []
    else []

module _ {F : Type 0} (f : Float64 F) where
  numbers_differ : Option F → Option F → Bool
  numbers_differ (some a) (some b) =
      f.lt (f.div (f.of_ℤ (pos 1)) (f.of_ℤ (pos 1000))) (f.abs (f.sub a b))
  numbers_differ _ _ = true

  unfoldable pub flag_differs : String → String → Bool
  unfolding numbers_differ
  flag_differs got def =
      let g = trim_space got in
      let d = trim_space def in
      if equal_fold g d then false else numbers_differ (f.parse g) (f.parse d)

  unfoldable pub pretty_flag_value : String → String
  pretty_flag_value v = elim (f.parse (trim_space v)) [
    | none ↦ v
    | some x ↦ if f.eq x (f.of_ℤ (f.to_ℤ x)) && not (contains v ".") then v else f.general x
  ]

  unfoldable pub format_bytes_iec : ℤ → String
  format_bytes_iec n =
      if ltb_ℤ n (pos (2 ^ 20))
      then concat (show_ℤ n ∷ " B" ∷ [])
      else if ltb_ℤ n (pos (2 ^ 30))
      then concat (f.fixed 0 (f.div (f.of_ℤ n) (f.of_ℤ (pos (2 ^ 20)))) ∷ " MiB" ∷ [])
      else concat (f.fixed 1 (f.div (f.of_ℤ n) (f.of_ℤ (pos (2 ^ 30)))) ∷ " GiB" ∷ [])

  unfoldable pub flag_line : FlagSpec → String → String
  flag_line spec got = concat (
      spec.name
      ∷ "="
      ∷ pretty_flag_value got
      ∷ " (default "
      ∷ pretty_flag_value spec.default
      ∷ ")"
      ∷ [])

  -- One entry of the allowlist: a line, or none.
  unfoldable pub spec_lines : Dict String → List String → FlagSpec → List String
  spec_lines flags topics spec =
      if not (has spec.topic topics) then [] else elim (get spec.name flags) [
        | none ↦ []
        | some got ↦ if not (flag_differs got spec.default) then [] else flag_line spec got ∷ []
      ]

  unfoldable pub lines_of : Dict String → List String → List FlagSpec → List String
  lines_of flags topics [] = []
  lines_of flags topics (spec ∷ specs) = spec_lines flags topics spec ++ lines_of flags topics specs

module _ {F : Type 0} ⦃f : Float64 F⦄ where
  unfoldable pub flag_evidence : Snapshot F → String → List FlagSpec → List String → List String
  flag_evidence s node allow topics = elim (get node s.performance.nodes) [
    | none ↦ []
    | some rt ↦ if length rt.flags == 0 then [] else lines_of f rt.flags topics allow
  ]

  unfoldable pub attach_one : Snapshot F → List FlagSpec → Finding → Finding
  attach_one s allow x =
      let topics = flag_topics_for x.code in
      let lines = flag_evidence s x.node allow topics in
      if length topics == 0
      then x
      else if length lines == 0
      then x
      else record x { evidence = x.evidence ++ lines }

  unfoldable pub attach_flag_evidence : List Finding → Snapshot F → List FlagSpec → List Finding
  attach_flag_evidence findings s allow =
      if length allow == 0 then findings else map (attach_one s allow) findings
