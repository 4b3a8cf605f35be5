-- ===== src/Yugabyte/Prom.antt =====
-- internal/adapter/outbound/yugabyte/parse.go: the readers of Prometheus metrics, `parsePrometheus` and
-- `applyLoadBalancerProm`. `strconv.ParseFloat` and the conversions are operations of `Float64`.
pub mod Samples
use yb_doctor.Base.{
  String, Bool, true, false, ◌&&◌, ◌||◌, not, Option, none, some, List, [], ◌∷◌, ℤ, pos, ◌+ℤ◌,
  wrap_64, ltb_ℤ, str_eq, trim_space, to_lower, contains, cut_before, cut_last, split_on,
  has_prefix, if◌then◌else◌,
}
use yb_doctor.Float.{Float64, nought, whole, gt}
use yb_doctor.Domain.Cluster.{NodeRuntime, LoadBalancer}

-- `parsedRuntime`: the runtime of a server, and its P99.
pub record ParsedRuntime (F : Type 0) : Type 0 where
  pub node_runtime : NodeRuntime F
  pub p99_ms : F

-- The variables of the loop of `parsePrometheus`.
pub record Scan (F : Type 0) : Type 0 where
  pub rt : ParsedRuntime F
  pub sst_sum : ℤ
  pub sst_fallback : ℤ

abbrev set_runtime : {F : Type 0} → ParsedRuntime F → NodeRuntime F → ParsedRuntime F
set_runtime rt node = record rt { node_runtime = node }

unfoldable pub prom_metric_name : String → String
prom_metric_name s = cut_before b'{' s

unfoldable pub is_p99_quantile : String → Bool
is_p99_quantile name =
    contains name "quantile=\"0.99\""
    || contains name "quantile=\"p99\""
    || contains name "quantile=\"99\""

unfoldable pub is_ysql_p99_metric : String → Bool
is_ysql_p99_metric name =
    if not (is_p99_quantile name)
    then false
    else let n = to_lower name in
      contains n "sqlprocessor"
      || contains n "ysqlserver"
      || contains n "ysql_"
      || contains n "handler_latency_yb_ysql"

-- The lines that `splitProm` is called on: trimmed, and neither empty nor a comment.
unfoldable pub is_sample : String → Bool
is_sample line = not (str_eq line "" || has_prefix line "#")

module _ {F : Type 0} ⦃f : Float64 F⦄ where
  unfoldable pub latency_to_ms : String → F → F
  latency_to_ms name val =
      if contains name "handler_latency" || contains name "_us" then f.div val (whole 1000) else val

  -- What is left of the line when its last number, `last`, is cut off: a number at its end is the value,
  -- and the last one was the time.
  unfoldable pub split_rest : String → F → String × F
  split_rest rest last = elim (cut_last 32 rest) [
    | none ↦ (rest, last)
    | some (name, mid) ↦ elim (f.parse mid) [ none ↦ (rest, last) | some value ↦ (name, value) ]
  ]

  unfoldable pub split_prom : String → Option (String × F)
  split_prom line = elim (cut_last 32 line) [
    | none ↦ none
    | some (before, after) ↦ elim (f.parse after) [
      | none ↦ none
      | some last ↦ some (split_rest (trim_space before) last)
    ]
  ]

  unfoldable pub scan_sample : Scan F → String → F → Scan F
  scan_sample acc name val =
      if contains name "pending_compaction" && not (contains name "bucket")
      then record acc {
        rt = set_runtime acc.rt (record acc.rt.node_runtime {
          pending_compaction_bytes =
              wrap_64 (acc.rt.node_runtime.pending_compaction_bytes +ℤ f.to_ℤ val);
        });
      }
      else if contains name "rocksdb_current_version_sst_files_size"
      then record acc { sst_sum = wrap_64 (acc.sst_sum +ℤ f.to_ℤ val) }
      else if contains name "sst_files_size" && not (contains name "total")
      then record acc { sst_fallback = f.to_ℤ val }
      else if is_ysql_p99_metric name
      then (if gt (latency_to_ms name val) acc.rt.p99_ms
          then record acc { rt = record acc.rt { p99_ms = latency_to_ms name val } }
          else acc)
      else if contains name "cpu_usage"
      then record acc { rt = set_runtime acc.rt (record acc.rt.node_runtime { cpu_percent = val }) }
      else acc

  unfoldable pub scan_line : Scan F → String → Scan F
  scan_line acc raw =
      let line = trim_space raw in
      if is_sample line
      then elim (split_prom line) [ none ↦ acc | some (name, val) ↦ scan_sample acc name val ]
      else acc

  unfoldable pub scan_lines : List String → Scan F → Scan F
  scan_lines [] acc = acc
  scan_lines (line ∷ lines) acc = scan_lines lines (scan_line acc line)

  unfoldable pub empty_runtime : NodeRuntime F
  empty_runtime = record {
    cpu_percent = nought;
    memory_percent = nought;
    disk_percent = nought;
    pending_compaction_bytes = pos 0;
    sst_file_bytes = pos 0;
    write_latency_delta_pct = nought;
    flags = [];
  }

  unfoldable pub parse_prometheus : String → ParsedRuntime F
  parse_prometheus text =
      let end = scan_lines (split_on 10 text) (record {
        rt = record { node_runtime = empty_runtime; p99_ms = nought };
        sst_sum = pos 0;
        sst_fallback = pos 0;
      }) in
      set_runtime end.rt (record end.rt.node_runtime {
        sst_file_bytes = if ltb_ℤ (pos 0) end.sst_sum then end.sst_sum else end.sst_fallback;
      })

  unfoldable pub lb_sample : LoadBalancer → String → F → LoadBalancer
  lb_sample lb name val =
      if not (str_eq (prom_metric_name name) "is_load_balancing_enabled")
      then lb
      else let enabled = not (f.eq val nought) in
        if not lb.known
        then record lb { known = true; enabled = enabled }
        else if enabled
        then record lb { enabled = true }
        else lb

-- The numbers are of the type `F`, which the load balancer's state does not show.
module _ (F : Type 0) ⦃f : Float64 F⦄ where
  unfoldable pub lb_line : LoadBalancer → String → LoadBalancer
  lb_line lb raw =
      let line = trim_space raw in
      if is_sample line
      then elim (split_prom {F = F} line) [ none ↦ lb | some (name, val) ↦ lb_sample lb name val ]
      else lb

  unfoldable pub lb_lines : List String → LoadBalancer → LoadBalancer
  lb_lines [] lb = lb
  lb_lines (line ∷ lines) lb = lb_lines lines (lb_line lb line)

  unfoldable pub apply_load_balancer_prom : LoadBalancer → String → LoadBalancer
  apply_load_balancer_prom lb text = if str_eq text "" then lb else lb_lines (split_on 10 text) lb
