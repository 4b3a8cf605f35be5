-- ===== src/Yugabyte/Client/Metrics.antt =====
-- internal/adapter/outbound/yugabyte/client.go: `enrichMetrics`. The requests run at once, and each takes
-- the lock to write its result; the order in which they do is an argument. Two servers of one name are in
-- an order of the sort's choice; here it is that of the snapshot. The semaphore bounds how many requests
-- run at once, which no result shows.
use yb_doctor.Base.{
  String, ◌&&◌, ◌||◌, not, Option, none, some, List, [], ◌∷◌, length, ltb, ◌==◌, ℕ, ◌+◌, pos, ◌+ℤ◌,
  get, put, str_eq, str_ltb, sort_by, show_ℤ, concat, if◌then◌else◌, ok, err,
}
use yb_doctor.Float.{Float64, nought, gt}
use yb_doctor.Domain.Cluster.{NodeRuntime, Performance, TServer, alive}
use yb_doctor.App.Groups.{display_name}
use yb_doctor.Yugabyte.Bodies.{Json}
use yb_doctor.Yugabyte.Prom.{ParsedRuntime, parse_prometheus}
use yb_doctor.Yugabyte.Entities.{parse_varz_flags, pick_allowlist_flags}
use yb_doctor.Yugabyte.Client.{Client, Http, fetch, any_loopback}

-- The metrics and the flags of the first address that gives either.
unfoldable pub probe : Http → List String → Option (Option String × Option String)
probe http [] = none
probe http (addr ∷ addrs) =
    let rest = probe http addrs in
    elim (fetch http addr "/prometheus-metrics") [
      | ok b ↦ elim (fetch http addr "/api/v1/varz") [
        | ok v ↦ some (some b, some v)
        | err _ ↦ some (some b, none)
      ]
      | err _ ↦ elim (fetch http addr "/api/v1/varz") [ ok v ↦ some (none, some v) | err _ ↦ rest ]
    ]

unfoldable pub text_of : Option String → String
text_of none = ""
text_of (some s) = s

-- The servers by name, each with its place in that order.
unfoldable pub number_from : {A : Type 0} → ℕ → List A → List (ℕ × A)
number_from n [] = []
number_from n (x ∷ xs) = (n, x) ∷ number_from (n + 1) xs

module _ {F : Type 0} where
  unfoldable pub by_name : List (TServer F) → List (TServer F)
  by_name = sort_by (λ a b. str_ltb a.name b.name)

  unfoldable pub addresses : Client F → ℕ → TServer F → List String
  addresses c index t =
      t.http_addr
      ∷ (if any_loopback c.masters
          then concat ("127.0.0.1:" ∷ show_ℤ (c.tserver_http_base +ℤ pos index) ∷ []) ∷ []
          else [])

  -- The servers that are asked.
  unfoldable pub targets : List (ℕ × TServer F) → List (ℕ × TServer F)
  targets [] = []
  targets ((i, t) ∷ ts) =
      let rest = targets ts in
      if str_eq t.http_addr "" || not (alive t) then rest else (i, t) ∷ rest

module _ {F : Type 0} ⦃f : Float64 F⦄ where
  unfoldable pub read_metrics :
      Json F → List String → TServer F → Option String × Option String → ParsedRuntime F
  read_metrics json allow t (body, varz) =
      let rt = parse_prometheus (text_of body) in
      let flags = pick_allowlist_flags (parse_varz_flags json (text_of varz)) allow in
      record rt {
        node_runtime = record rt.node_runtime {
          disk_percent =
              if gt t.disk_used_pct nought && f.eq rt.node_runtime.disk_percent nought
              then t.disk_used_pct
              else rt.node_runtime.disk_percent;
          flags = flags;
        };
      }

  -- One request's work before it takes the lock: the name under which it writes, and what.
  unfoldable pub ask : Json F → Http → Client F → ℕ × TServer F → Option (String × ParsedRuntime F)
  ask json http c (index, t) = elim (probe http (addresses c index t)) [
    | none ↦ none
    | some texts ↦ some (display_name t, read_metrics json c.flag_allow t texts)
  ]

  -- The entry of a node: the flags that were there are kept if there are no new ones.
  unfoldable pub entry : Option (NodeRuntime F) → NodeRuntime F → NodeRuntime F
  entry none rt = rt
  entry (some prev) rt =
      if ltb 0 (length prev.flags) && length rt.flags == 0
      then record rt { flags = prev.flags }
      else rt

  -- The work under the lock.
  unfoldable pub write_metrics : Performance F → String × ParsedRuntime F → Performance F
  write_metrics p (name, rt) =
      let p = record p { nodes = put name (entry (get name p.nodes) rt.node_runtime) p.nodes } in
      if gt rt.p99_ms p.p99_ysql_ms
      then record p { p99_ysql_ms = rt.p99_ms; p99_source = "prometheus" }
      else p

  unfoldable pub write_all : List (String × ParsedRuntime F) → Performance F → Performance F
  write_all [] p = p
  write_all (w ∷ ws) p = write_all ws (write_metrics p w)

  unfoldable pub ask_all :
      Json F → Http → Client F → List (ℕ × TServer F) → List (String × ParsedRuntime F)
  ask_all json http c [] = []
  ask_all json http c (t ∷ ts) =
      let rest = ask_all json http c ts in
      elim (ask json http c t) [ none ↦ rest | some w ↦ w ∷ rest ]

  unfoldable pub asked :
      Json F → Http → Client F → List (TServer F) → List (String × ParsedRuntime F)
  asked json http c ts = ask_all json http c (targets (number_from 0 (by_name ts)))
