-- ===== src/Yugabyte/Ysql.antt =====
-- internal/adapter/outbound/yugabyte/ysql.go: what the SQL catalog adds to a snapshot. The queries, with
-- the connection, are parameters: rows, or an error.
pub mod Overlay
use yb_doctor.Base.{
  String, Bool, true, false, ◌&&◌, ◌||◌, not, Option, none, some, List, [], ◌∷◌, ◌++◌, map, any,
  length, ltb, ◌==◌, foldl, ℤ, pos, eqb_ℤ, Dict, get, put, str_eq, cut_before, concat,
  if◌then◌else◌, Result, ok, err,
}
use yb_doctor.Float.{Float64, nought, gt}
use yb_doctor.Domain.Ids.{NodeId, ReplicaRole, Placement, role_leader, role_follower}
use yb_doctor.Domain.Cluster.{Snapshot, Performance, TServer, Tablet, TabletPeer}
use yb_doctor.Yugabyte.Servers.{or_else}
use yb_doctor.Yugabyte.Entities.{lookup}

pub record YsqlServerRow : Type 0 where
  pub host : String
  pub uuid : String
  pub cloud : String
  pub region : String
  pub zone : String

pub record YsqlTabletRow : Type 0 where
  pub tablet_id : String
  pub db_name : String
  pub rel_name : String
  pub leader : String
  pub replicas : List String

-- The parts of the URL by which `pgx` connects: the user, the password if there is one, the host, the path
-- and the `sslmode` of the query. `net/url` puts them together.
pub record Dsn : Type 0 where
  pub scheme : String
  pub user : String
  pub password : Option String
  pub host : String
  pub path : String
  pub ssl_mode : String

unfoldable pub ysql_dsn : String → String → String → String → String → Dsn
ysql_dsn addr user password database ssl_mode = record {
  scheme = "postgres";
  user = or_else user "yugabyte";
  password = if str_eq password "" then none else some password;
  host = addr;
  path = concat ("/" ∷ or_else database "yugabyte" ∷ []);
  ssl_mode = or_else ssl_mode "disable";
}

unfoldable pub host_of_addr : String → String
host_of_addr addr = cut_before b':' addr

-- The role of a replica, beside the leader that the row names.
unfoldable pub replica_role : String → String → ReplicaRole
unfolding host_of_addr
replica_role leader r =
    if str_eq (host_of_addr r) (host_of_addr leader) || str_eq r leader
    then role_leader
    else role_follower

unfoldable pub replica_id : Dict NodeId → String → NodeId
unfolding host_of_addr
replica_id ids r =
    let id = lookup (host_of_addr r) ids in if str_eq id "" then host_of_addr r else id

unfoldable pub row_peers : Dict NodeId → String → List String → List TabletPeer
row_peers ids leader [] = []
row_peers ids leader (r ∷ rs) =
    record { tserver_id = replica_id ids r; role = replica_role leader r; state = ""; lag = pos 0 }
    ∷ row_peers ids leader rs

-- The variable `leaderID` after the loop: the id of the last replica that leads, or what it was.
unfoldable pub row_leader : Dict NodeId → String → List String → NodeId → NodeId
row_leader ids leader [] id = id
row_leader ids leader (r ∷ rs) id =
    row_leader ids leader rs
      (if str_eq (replica_role leader r) role_leader then replica_id ids r else id)

module _ {F : Type 0} ⦃f : Float64 F⦄ where
  unfoldable pub row_tablet : Dict NodeId → YsqlTabletRow → Tablet F
  row_tablet ids t = record {
    id = t.tablet_id;
    table_id = "";
    table_name = t.rel_name;
    state = "RUNNING";
    leader_id = row_leader ids t.leader t.replicas (lookup (host_of_addr t.leader) ids);
    peers = row_peers ids t.leader t.replicas;
    size_bytes = pos 0;
    read_ops = nought;
    write_ops = nought;
  }

  unfoldable pub row_tablets : Dict NodeId → List YsqlTabletRow → List (Tablet F)
  row_tablets ids [] = []
  row_tablets ids (t ∷ ts) =
      let rest = row_tablets ids ts in
      if length t.replicas == 0 then rest else row_tablet ids t ∷ rest

module _ {F : Type 0} where
  unfoldable pub server_ids : List (TServer F) → Dict NodeId → Dict NodeId
  server_ids [] ids = ids
  server_ids (t ∷ ts) ids = server_ids ts (put t.name t.id (put t.host t.id ids))

  unfoldable pub update_server : YsqlServerRow → TServer F → TServer F
  update_server s t =
      if not (str_eq t.host s.host) && not (str_eq t.name s.host) then t else record t {
        id = if str_eq s.uuid "" then t.id else s.uuid;
        placement =
            if str_eq t.placement.region "" && not (str_eq s.region "")
            then record { cloud = s.cloud; region = s.region; zone = s.zone }
            else t.placement;
      }

  unfoldable pub update_servers : List YsqlServerRow → List (TServer F) → List (TServer F)
  update_servers [] ts = ts
  update_servers (s ∷ rows) ts = update_servers rows (map (update_server s) ts)

unfoldable pub row_ids : List YsqlServerRow → Dict NodeId → Dict NodeId
row_ids [] ids = ids
row_ids (s ∷ rows) ids = row_ids rows (if str_eq s.uuid "" then ids else put s.host s.uuid ids)

-- What the three queries give: the P99 with the number of slow statements, the tablets, and the servers.
pub record Catalog (F : Type 0) : Type 0 where
  pub statements : Result (F × ℤ)
  pub tablets : Result (List YsqlTabletRow)
  pub servers : Result (List YsqlServerRow)

unfoldable pub rows_or_none : {A : Type 0} → Result (List A) → List A
rows_or_none (ok rows) = rows
rows_or_none (err _) = []

module _ {F : Type 0} ⦃f : Float64 F⦄ where
  unfoldable pub overlay_ysql : Snapshot F → List YsqlServerRow → List YsqlTabletRow → Snapshot F
  overlay_ysql s servers tablets =
      let ids = row_ids servers (server_ids s.tservers []) in
      let out : List (Tablet F) = row_tablets ids tablets in
      record s {
        tservers = update_servers servers s.tservers;
        tablets = if ltb 0 (length out) then out else s.tablets;
      }

  unfoldable pub needs_yb_servers : Snapshot F → Bool
  needs_yb_servers s = length s.tservers == 0 || any (λ t. str_eq t.placement.region "") s.tservers

  unfoldable pub add_statements : Result (F × ℤ) → Performance F → Performance F
  add_statements (err _) p = p
  add_statements (ok (p99, slow)) p =
      let p = record p {
        slow_queries = if eqb_ℤ p.slow_queries (pos 0) then slow else p.slow_queries;
      } in
      if gt p99 nought && f.eq p.p99_ysql_ms nought
      then record p { p99_ysql_ms = p99; p99_source = "pg_stat_statements" }
      else p

  unfoldable pub enrich_ysql : String → Catalog F → Snapshot F → Snapshot F
  enrich_ysql addr catalog s =
      if str_eq addr ""
      then s
      else let s = record s { performance = add_statements catalog.statements s.performance } in
        let tablets = rows_or_none catalog.tablets in
        let servers = if needs_yb_servers s then rows_or_none catalog.servers else [] in
        if ltb 0 (length servers) || ltb 0 (length tablets)
        then overlay_ysql s servers tablets
        else s
