-- ===== src/Yugabyte/Ysql/Overlay.antt =====
-- internal/adapter/outbound/yugabyte/ysql.go: what `overlayYSQL` changes, and which replicas it takes for leaders.
use yb_doctor.Base.{
  String, Bool, true, ◌≡◌, refl, ◌∙◌, sym, ap, not, ◌&&◌, inl, inr, List, [], ◌∷◌, map, filter,
  length, ltb, ◌==◌, length-map, str_eq, eq_iff, arith, Bool-cases, if◌then◌else◌,
}
use yb_doctor.Float.{Float64}
use yb_doctor.Domain.Ids.{NodeId, ReplicaRole, role_leader, role_follower}
use yb_doctor.Domain.Cluster.{Snapshot, TServer, Tablet}
use yb_doctor.Yugabyte.Ysql.{
  YsqlServerRow, YsqlTabletRow, host_of_addr, replica_role, row_peers, row_tablet, row_tablets,
  row_ids, server_ids, update_server, update_servers, overlay_ysql,
}

-- The role that the host alone gives.
abbrev pub role_by_host : String → String → ReplicaRole
role_by_host leader r =
    if str_eq (host_of_addr r) (host_of_addr leader) then role_leader else role_follower

replica_role-by_host : (leader r : String) → replica_role leader r ≡ role_by_host leader r
unfolding replica_role
replica_role-by_host leader r =
    ground (arith, eq_iff r leader, eq_iff (host_of_addr r) (host_of_addr leader))

-- A server without the id and the placement.
abbrev pub rest_of : {F : Type 0} → TServer F → TServer F
rest_of t = record t { id = ""; placement = record { cloud = ""; region = ""; zone = "" } }

module _ {F : Type 0} where
  rest_of-update_server :
      (s : YsqlServerRow) (t : TServer F) → rest_of (update_server s t) ≡ rest_of t
  unfolding update_server
  rest_of-update_server s t =
      elim (Bool-cases (not (str_eq t.host s.host) && not (str_eq t.name s.host))) [
        | inl e ↦ rw e refl
        | inr e ↦ rw e refl
      ]

  rest_of-row :
      (s : YsqlServerRow) (ts : List (TServer F))
      → map rest_of (map (update_server s) ts) ≡ map rest_of ts
  rest_of-row s [] = refl
  rest_of-row s (t ∷ ts) = rw (rest_of-update_server s t, rest_of-row s ts) refl

  rest_of-update_servers :
      (rows : List YsqlServerRow) (ts : List (TServer F))
      → map rest_of (update_servers rows ts) ≡ map rest_of ts
  unfolding update_servers
  rest_of-update_servers [] ts = refl
  rest_of-update_servers (s ∷ rows) ts =
      rest_of-update_servers rows (map (update_server s) ts) ∙ rest_of-row s ts

row_peers-roles :
    (ids : List (String × NodeId)) (leader : String) (rs : List String)
    → map (λ p. p.role) (row_peers ids leader rs) ≡ map (role_by_host leader) rs
unfolding row_peers
row_peers-roles ids leader [] = refl
row_peers-roles ids leader (r ∷ rs) =
    rw (replica_role-by_host leader r, row_peers-roles ids leader rs) refl

-- The roles of the peers of a tablet, and those that the hosts of a row give.
abbrev pub roles_of : {F : Type 0} → Tablet F → List ReplicaRole
roles_of t = map (λ p. p.role) t.peers

abbrev pub expected_roles : YsqlTabletRow → List ReplicaRole
expected_roles t = map (role_by_host t.leader) t.replicas

abbrev pub with_replicas : YsqlTabletRow → Bool
with_replicas t = not (length t.replicas == 0)

row_tablets-roles :
    (F : Type 0) ⦃f : Float64 F⦄ (ids : List (String × NodeId)) (rows : List YsqlTabletRow)
    → map (roles_of {F = F}) (row_tablets ids rows) ≡ map expected_roles (filter with_replicas rows)
unfolding row_tablets row_tablet
row_tablets-roles F ids [] = refl
row_tablets-roles F ids (t ∷ ts) = elim (Bool-cases (length t.replicas == 0)) [
  | inl e ↦ rw e (row_tablets-roles F ids ts)
  | inr e ↦ rw (e, row_peers-roles ids t.leader t.replicas, row_tablets-roles F ids ts) refl
]

module _ {F : Type 0} ⦃f : Float64 F⦄ where
  -- The catalog changes at most the ids and the placements of the servers: it adds none, drops none and leaves
  -- their order.
  pub overlay-keeps_servers :
      (s : Snapshot F) (servers : List YsqlServerRow) (tablets : List YsqlTabletRow)
      → map rest_of (overlay_ysql s servers tablets).tservers ≡ map rest_of s.tservers
  unfolding overlay_ysql
  overlay-keeps_servers s servers tablets = rest_of-update_servers servers s.tservers

  -- If some row of the catalog has replicas, the tablets are those of the rows that have, and a replica leads
  -- exactly if it is on the host of the row's leader: the test of the whole address adds nothing.
  pub overlay_roles :
      (s : Snapshot F) (servers : List YsqlServerRow) (tablets : List YsqlTabletRow)
      → ltb 0 (length (filter with_replicas tablets)) ≡ true
      → map roles_of (overlay_ysql s servers tablets).tablets
        ≡ map expected_roles (filter with_replicas tablets)
  unfolding overlay_ysql
  overlay_roles s servers tablets h =
      let ids = row_ids servers (server_ids s.tservers []) in
      let some_row : ltb 0 (length (row_tablets {F = F} ids tablets)) ≡ true =
        ap (ltb 0) (
          sym (length-map roles_of (row_tablets {F = F} ids tablets))
          ∙ ap length (row_tablets-roles F ids tablets)
          ∙ length-map expected_roles (filter with_replicas tablets))
        ∙ h in
      rw some_row (row_tablets-roles F ids tablets)
