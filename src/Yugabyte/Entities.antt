-- ===== src/Yugabyte/Entities.antt =====
-- internal/adapter/outbound/yugabyte/parse.go: the tables and tablets, the tablets in trouble, the load
-- balancer and the flags.
use yb_doctor.Base.{
  String, Bool, true, false, ◌&&◌, ◌||◌, not, Option, none, some, List, [], ◌∷◌, ◌++◌, map, foldl,
  length, ◌==◌, pos, Dict, get, put, str_eq, equal_fold, to_lower, trim_space, cut_before,
  has_prefix, if◌then◌else◌, Result, ok, err, ◌>>=◌,
}
use yb_doctor.Float.{Float64, nought}
use yb_doctor.Domain.Ids.{NodeId, TabletId, role_leader, role_follower}
use yb_doctor.Domain.Cluster.{LoadBalancer, Table, Tablet, TabletPeer, TServer}
use yb_doctor.Yugabyte.Bodies.{
  KeyspaceBody, TableBody, ReplicaBody, TabletBody, EntitiesBody, TabletsBody, IdleBody, FlagBody,
  Json,
}
use yb_doctor.Yugabyte.Servers.{decoded, or_else}

-- `m[k]`, where a missing key reads as the empty text.
unfoldable pub lookup : String → Dict String → String
lookup k m = elim (get k m) [ none ↦ "" | some v ↦ v ]

unfoldable pub keyspace_names : List KeyspaceBody → Dict String
keyspace_names = foldl (λ ks k. put k.id k.name ks) []

unfoldable pub table_names : List TableBody → Dict String
table_names = foldl (λ names tb. put tb.id tb.name names) []

unfoldable pub read_table : Dict String → TableBody → Table
unfolding lookup
read_table ks tb = record {
  id = tb.id;
  keyspace = lookup tb.keyspace_id ks;
  name = tb.name;
  table_type = tb.table_type;
  state = tb.state;
}

-- What the loop over the replicas of a tablet keeps: the leader, the servers by host, and the peers.
pub record Peers : Type 0 where
  pub leader : NodeId
  pub hosts : Dict NodeId
  pub peers : List TabletPeer

unfoldable pub leads : String → ReplicaBody → Bool
leads leader r =
    equal_fold r.role "LEADER" || (not (str_eq leader "") && str_eq r.server_uuid leader)

unfoldable pub read_replica : String → Peers → ReplicaBody → Peers
unfolding leads
read_replica leader acc r = record {
  leader = if leads leader r then r.server_uuid else acc.leader;
  hosts =
      if not (str_eq r.server_uuid "") && not (str_eq r.addr "")
      then put (cut_before b':' r.addr) r.server_uuid acc.hosts
      else acc.hosts;
  peers =
      acc.peers
      ++ (record {
        tserver_id = or_else r.server_uuid r.addr;
        role = if leads leader r then role_leader else role_follower;
        state = "";
        lag = pos 0;
      }
          ∷ []);
}

unfoldable pub read_replicas : TabletBody → Dict NodeId → Peers
unfolding read_replica
read_replicas t hosts =
    foldl (read_replica t.leader) (record { leader = t.leader; hosts = hosts; peers = [] })
      t.replicas

module _ {F : Type 0} ⦃f : Float64 F⦄ where
  unfoldable pub read_tablet : Dict String → TabletBody → Peers → Tablet F
  unfolding lookup
  read_tablet names t ps = record {
    id = t.tablet_id;
    table_id = t.table_id;
    table_name = lookup t.table_id names;
    state = t.state;
    leader_id = ps.leader;
    peers = ps.peers;
    size_bytes = pos 0;
    read_ops = nought;
    write_ops = nought;
  }

  -- The loop over the tablets, which hands on the servers by host.
  unfoldable pub read_tablets :
      Dict String → List TabletBody → Dict NodeId → List (Tablet F) × Dict NodeId
  read_tablets names [] hosts = ([], hosts)
  read_tablets names (t ∷ ts) hosts =
      let ps = read_replicas t hosts in
      let (rest, all) = read_tablets names ts ps.hosts in (read_tablet names t ps ∷ rest, all)

  unfoldable pub read_entities : EntitiesBody → List Table × List (Tablet F) × Dict NodeId
  read_entities body =
      let (tablets, hosts) = read_tablets (table_names body.tables) body.tablets [] in
      (map (read_table (keyspace_names body.keyspaces)) body.tables, tablets, hosts)

  unfoldable pub parse_entities :
      Json F → String → Result (List Table × List (Tablet F) × Dict NodeId)
  parse_entities json raw =
      if not (has_prefix raw "{")
      then err "dump-entities: response is not JSON"
      else decoded "unmarshal dump-entities" (json.entities raw)
        >>= (λ body. ok (read_entities body))

-- The answers that may be missing: an empty text, and one that does not decode, name no tablet.
unfoldable pub read_ids : (String → Result TabletsBody) → String → List TabletId × List TabletId
read_ids decode raw =
    if str_eq raw ""
    then ([], [])
    else elim (decode raw) [ ok body ↦ (body.under_replicated, body.leaderless) | err _ ↦ ([], []) ]

unfoldable pub keep_named : List FlagBody → Dict String → Dict String
keep_named [] out = out
keep_named (b ∷ bs) out = keep_named bs (if str_eq b.name "" then out else put b.name b.value out)

-- The zero value of `domain.LoadBalancer`.
abbrev pub no_balancer : LoadBalancer
no_balancer = record { known = false; enabled = false; has_idle = false; idle = false }

unfoldable pub set_idle : LoadBalancer → Bool → LoadBalancer
set_idle lb b = record lb { has_idle = true; idle = b; known = true }

unfoldable pub read_idle : LoadBalancer → IdleBody → LoadBalancer
read_idle lb body = elim body.is_idle [
  | some b ↦ set_idle lb b
  | none ↦ elim body.idle [ some b ↦ set_idle lb b | none ↦ lb ]
]

module _ {F : Type 0} where
  unfoldable pub assign_tserver_uuids : List (TServer F) → Dict NodeId → List (TServer F)
  assign_tserver_uuids [] hosts = []
  assign_tserver_uuids (t ∷ ts) hosts =
      elim (get t.host hosts) [ none ↦ t | some id ↦ record t { id = id } ]
      ∷ assign_tserver_uuids ts hosts

  unfoldable pub parse_health : Json F → String → List TabletId × List TabletId
  parse_health json raw = read_ids json.health raw

  unfoldable pub parse_replication : Json F → String → List TabletId × List TabletId
  parse_replication json raw = read_ids json.replication raw

  unfoldable pub parse_varz_flags : Json F → String → Dict String
  parse_varz_flags json raw =
      if str_eq raw ""
      then []
      else elim (json.flags raw) [ ok body ↦ keep_named body [] | err _ ↦ [] ]

  -- None where the flag is not there.
  unfoldable pub varz_flag_bool : Json F → String → String → Option Bool
  varz_flag_bool json raw name = elim (get name (parse_varz_flags json raw)) [
    | none ↦ none
    | some v ↦ some (equal_fold v "true" || str_eq v "1")
  ]

  unfoldable pub parse_load_balancer : Json F → String → String → LoadBalancer
  parse_load_balancer json idle_raw varz_raw =
      let lb : LoadBalancer = elim (varz_flag_bool json varz_raw "enable_load_balancing") [
        | none ↦ no_balancer
        | some enabled ↦ record no_balancer { known = true; enabled = enabled }
      ] in
      if str_eq idle_raw "" then lb else elim (json.idle idle_raw) [
        | ok body ↦ read_idle lb body
        | err _ ↦
            let s = trim_space (to_lower idle_raw) in
            if str_eq s "true" || str_eq s "false" then set_idle lb (str_eq s "true") else lb
      ]

-- Of the flags, those with the names.
unfoldable pub pick_names : Dict String → List String → Dict String → Dict String
pick_names all [] out = out
pick_names all (n ∷ ns) out =
    pick_names all ns (elim (get n all) [ none ↦ out | some v ↦ put n v out ])

unfoldable pub pick_allowlist_flags : Dict String → List String → Dict String
pick_allowlist_flags all names =
    if length all == 0 || length names == 0 then [] else pick_names all names []
