-- ===== src/Yugabyte/Client.antt =====
-- internal/adapter/outbound/yugabyte/client.go: `New`, `get`, the search for the leader of the masters, and
-- `getEntities`. The network is a parameter, and so are the files and the certificates of `New`.
pub mod Leader
pub mod Hosts
pub mod Metrics
pub mod Order
pub mod Collect
pub mod Failures
use yb_doctor.Base.{
  String, Bool, true, false, ◌&&◌, ◌||◌, not, List, [], ◌∷◌, map, filter, any, length, ◌==◌, ℤ, pos,
  ltb_ℤ, leb_ℤ, str_eq, show_ℤ, concat, to_lower, contains, cut_before, has_prefix, trim_prefix,
  trim_end, if◌then◌else◌, Result, ok, err, is_err, and_then, ◌>>=◌,
}
use yb_doctor.Float.{Float64}
use yb_doctor.Config.{Config}
use yb_doctor.Yugabyte.Bodies.{Json}
use yb_doctor.Yugabyte.Servers.{decoded}

pub record Response : Type 0 where
  pub status : ℤ
  pub body : Result String

-- `http.NewRequestWithContext` and `Client.Do`, by the URL.
pub record Http : Type 0 where
  pub new_request : String → Result String
  pub send : String → Result Response

unfoldable pub join_url : String → String → String
join_url addr path =
    let addr =
      if not (has_prefix addr "http://") && not (has_prefix addr "https://")
      then concat ("http://" ∷ addr ∷ [])
      else addr in
    concat (trim_end b'/' addr ∷ path ∷ [])

unfoldable pub checked : String → ℤ → String → Result String
checked url status body =
    if leb_ℤ (pos 300) status
    then err (concat ("http get " ∷ url ∷ ": status " ∷ show_ℤ status ∷ []))
    else ok body

unfoldable pub fetch : Http → String → String → Result String
fetch http addr path =
    let url = join_url addr path in
    do
      request ← decoded "new request" (http.new_request url)
      response ← decoded (concat ("http get " ∷ url ∷ [])) (http.send request)
      body ← decoded (concat ("read body " ∷ url ∷ [])) response.body
      checked url response.status body

unfoldable pub loopback_host : String → String
loopback_host addr =
    let host = trim_prefix (trim_prefix addr "http://") "https://" in
    cut_before b':' (cut_before b'/' host)

unfoldable pub any_loopback : List String → Bool
any_loopback = any (λ addr.
    let host = loopback_host addr in
    str_eq host "127.0.0.1" || str_eq host "localhost" || str_eq host "::1")

pub record Client (F : Type 0) : Type 0 where
  pub http_timeout : ℤ
  pub tls_skip_verify : Bool
  -- The certificates of the TLS authority, empty where the defaults are used.
  pub tls_ca : String
  pub masters : List String
  pub max_conc : ℤ
  pub tserver_http_base : ℤ
  pub ysql_addr : String
  pub ysql_user : String
  pub ysql_password : String
  pub ysql_db : String
  pub ysql_ssl_mode : String
  pub ysql_timeout : ℤ
  pub flag_allow : List String
  pub p99_warn_ms : F

-- The file of certificates, which must be read and hold at least one: `AppendCertsFromPEM` says so.
unfoldable pub load_ca : (String → Result String) → (String → Bool) → String → Result String
load_ca read_file append_certs path =
    if str_eq path ""
    then ok ""
    else decoded "read tls ca" (read_file path)
      >>= (λ pem. if append_certs pem then ok pem else err "yugabyte: invalid tls ca pem")

module _ {F : Type 0} where
  unfoldable pub new_client :
      (String → Result String) → (String → Bool) → Config F → Result (Client F)
  new_client read_file append_certs cfg =
      if length cfg.masters == 0
      then err "yugabyte: masters is empty"
      else load_ca read_file append_certs cfg.tls_ca_file >>= (λ pem. ok (record {
        http_timeout = cfg.http_timeout;
        tls_skip_verify = cfg.tls_skip_verify;
        tls_ca = pem;
        masters = cfg.masters;
        max_conc = cfg.max_concurrency;
        tserver_http_base =
            if ltb_ℤ cfg.loopback_tserver_port_base (pos 1)
            then pos 9000
            else cfg.loopback_tserver_port_base;
        ysql_addr = cfg.ysql_addr;
        ysql_user = cfg.ysql_user;
        ysql_password = cfg.ysql_password;
        ysql_db = cfg.ysql_database;
        ysql_ssl_mode = cfg.ysql_ssl_mode;
        ysql_timeout = cfg.ysql_timeout;
        flag_allow = filter (λ n. not (str_eq n "")) (map (λ spec. spec.name) cfg.flag_allowlist);
        p99_warn_ms = cfg.thresholds.p99_warn_ms;
      }))

  module _ (json : Json F) (http : Http) where
    -- The master answers that it leads: with a body that decodes to yes, or, where none decodes, with a
    -- text that has "true".
    unfoldable pub claims_lead : String → Bool
    claims_lead addr = elim (fetch http addr "/api/v1/is-leader") [
      | err _ ↦ false
      | ok b ↦ elim (json.is_leader b) [ ok v ↦ v | err _ ↦ contains (to_lower b) "true" ]
    ]

    -- The requests that run at once, in the order in which they end: each that claims writes `found`.
    unfoldable pub last_claim : List String → String → String
    last_claim [] found = found
    last_claim (addr ∷ order) found = last_claim order (if claims_lead addr then addr else found)

    unfoldable pub answers : String → Bool
    answers addr = not (is_err (fetch http addr "/api/v1/masters"))

    unfoldable pub first_answer : List String → Result String
    first_answer [] = err "yugabyte: no master leader found"
    first_answer (addr ∷ masters) =
        let rest = first_answer masters in if answers addr then ok addr else rest

    -- The masters, and the order in which their answers come.
    unfoldable pub find_leader : List String → List String → Result String
    find_leader masters order =
        let found = last_claim order "" in
        if str_eq found "" then first_answer masters else ok found

module _ (http : Http) where
  unfoldable pub first_entities : String → List String → Result String
  first_entities leader [] = err "yugabyte: dump-entities did not return JSON"
  first_entities leader (path ∷ paths) =
      let rest = first_entities leader paths in
      elim (fetch http leader path) [
        | err _ ↦ rest
        | ok b ↦ if has_prefix b "{" then ok b else rest
      ]

  unfoldable pub get_entities : String → Result String
  get_entities leader = first_entities leader ("/dump-entities" ∷ "/api/v1/dump-entities" ∷ [])
