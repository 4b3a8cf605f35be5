-- ===== src/Yugabyte/Queries.antt =====
-- internal/adapter/outbound/yugabyte/ysql.go: `withYSQL` and the three queries. The driver is a parameter: a
-- connection for each query, or an error, and on it the rows that are scanned, each of them or an error, with the
-- error at the end of the iteration. The time limits are not modelled.
use mathlib.Core.List.{append_assoc, append-nil}
use yb_doctor.Base.{
  String, Option, none, some, List, [], ◌∷◌, ℤ, Result, ok, err, ok_inj, concat, ◌≡◌, ◌∙◌, ap, sym,
  ◌↔◌, refl, map, ◌++◌,
}
use yb_doctor.Yugabyte.Ysql.{Dsn, ysql_dsn, YsqlServerRow, YsqlTabletRow, Catalog}
use yb_doctor.Yugabyte.Client.{Client}

-- `pgx.Rows`
pub record Rows (A : Type 0) : Type 0 where
  pub scans : List (Result A)
  pub failed : Option String

-- `ysqlConn`, by its queries; that of the statements takes the limit of a slow one.
pub record Conn (F : Type 0) : Type 0 where
  pub statements : F → Result (F × ℤ)
  pub tablets : Result (Rows YsqlTabletRow)
  pub servers : Result (Rows YsqlServerRow)

pub data Query : Type 0 where
  statements_query tablets_query servers_query : Query

-- `pgx.Connect`, which each query calls for itself.
abbrev pub Driver : Type 0 → Type 0
Driver F = Query → Dsn → Result (Conn F)

-- An error with what was done before it.
abbrev pub failing : {A : Type 0} → String → String → String → Result A
failing op name e = err (concat (op ∷ " " ∷ name ∷ ": " ∷ e ∷ []))

module _ {A : Type 0} where
  -- The loop over `rows.Next`, after which comes `rows.Err`.
  unfoldable pub scan_rows : String → List (Result A) → Option String → List A → Result (List A)
  scan_rows name [] none out = ok out
  scan_rows name [] (some e) out = failing "iterate" name e
  scan_rows name (err e ∷ rs) failed out = failing "scan" name e
  scan_rows name (ok a ∷ rs) failed out = scan_rows name rs failed (out ++ (a ∷ []))

  -- `queryYBServers` and `queryTabletMetadata`, by the name of the table.
  unfoldable pub query_rows : String → Result (Rows A) → Result (List A)
  unfolding scan_rows
  query_rows name (err e) = failing "query" name e
  query_rows name (ok rows) = scan_rows name rows.scans rows.failed []

module _ {F : Type 0} where
  unfoldable pub query_statements : F → Conn F → Result (F × ℤ)
  query_statements slow_ms conn = elim (conn.statements slow_ms) [
    | err e ↦ failing "query" "pg_stat_statements" e
    | ok answer ↦ ok answer
  ]

  unfoldable pub with_ysql :
      {A : Type 0} → Driver F → Query → Client F → (Conn F → Result A) → Result A
  with_ysql driver query c fn =
      let dsn = ysql_dsn c.ysql_addr c.ysql_user c.ysql_password c.ysql_db c.ysql_ssl_mode in
      elim (driver query dsn) [
        | err e ↦ err (concat ("ysql connect: " ∷ e ∷ []))
        | ok conn ↦ fn conn
      ]

  -- What the three queries of a client give.
  unfoldable pub catalog_of : Driver F → Client F → Catalog F
  unfolding with_ysql query_rows query_statements
  catalog_of driver c = record {
    statements = with_ysql driver statements_query c (query_statements c.p99_warn_ms);
    tablets =
        with_ysql driver tablets_query c (λ conn. query_rows "yb_tablet_metadata" conn.tablets);
    servers = with_ysql driver servers_query c (λ conn. query_rows "yb_servers" conn.servers);
  }

-- The rows that a query has given so far are those that were scanned, and all of them.
module _ {A : Type 0} where
  scan_rows_ok :
      (name : String) (scans : List (Result A)) (failed : Option String) (out xs : List A)
      → scan_rows name scans failed out ≡ ok xs
      → (rest : List A) × (scans ≡ map ok rest) × (failed ≡ none) × (xs ≡ out ++ rest)
  unfolding scan_rows
  scan_rows_ok name [] none out xs h = ([], refl, refl, sym (append-nil out ∙ ok_inj h))
  scan_rows_ok name [] (some e) out xs h = cc
  scan_rows_ok name (err e ∷ rs) failed out xs h = cc
  scan_rows_ok name (ok a ∷ rs) failed out xs h =
      let (rest, scanned, ended, all) = scan_rows_ok name rs failed (out ++ (a ∷ [])) xs h in
      (a ∷ rest, ap (◌∷◌ (ok a)) scanned, ended, all ∙ append_assoc out (a ∷ []) rest)

  scan_rows-map :
      (name : String) (xs out : List A) → scan_rows name (map ok xs) none out ≡ ok (out ++ xs)
  unfolding scan_rows
  scan_rows-map name [] out = ap ok (sym (append-nil out))
  scan_rows-map name (x ∷ xs) out =
      scan_rows-map name xs (out ++ (x ∷ [])) ∙ ap ok (append_assoc out (x ∷ []) xs)

  -- A query that was sent gives a list of rows exactly if it is that of the rows that were scanned, in order, each was
  -- scanned without an error, and the iteration ended without one. A part of a table is never given.
  pub query_rows_exact :
      (name : String) (rows : Rows A) (xs : List A)
      → (query_rows name (ok rows) ≡ ok xs) ↔ ((rows.scans ≡ map ok xs) × (rows.failed ≡ none))
  unfolding query_rows
  query_rows_exact name rows xs = (
    (λ h.
        let (rest, scanned, ended, all) = scan_rows_ok name rows.scans rows.failed [] xs h in
        (scanned ∙ ap (map ok) (sym all), ended)),
    (λ (scanned, ended). rw (scanned, ended) (scan_rows-map name xs [])),
  )
