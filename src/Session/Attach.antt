-- ===== src/Session/Attach.antt =====
-- src/session/attach.rs: which attach endpoints are exclusive, and which session holds one.
pub mod Owner
use Prim.Native.String.{compare}
use text.Mathlib.Text.{is_le}
use agent_debugger.Prelude.{
  ℕ, ◌*◌, ◌-◌, ◌^◌, String, Bool, true, false, not, ◌&&◌, ◌||◌, Option, none, some, ◌=ˢ◌, List, [],
  ◌∷◌, leb, ltb, ◌==◌, Result, ok, err, if◌then◌else◌,
}
use agent_debugger.Json.{Value, get, get_str, as_u64, to_u16, and_then, unwrap_or, obj, no_member}
use agent_debugger.Json.Serde.{Serde}
use agent_debugger.Dap.Text.{same_codes}
use agent_debugger.Dap.Header.{literal}
use agent_debugger.Session.Paths.{Metadata, directory, Dir, check_name}
use agent_debugger.Session.Paths.Hosts.{IpAddr, normalize_attach_host, is_unspecified_host}
use agent_debugger.Session.Sidecar.{session_lang_opt, cli_markers_v2}

unfoldable pub attach_exclusive : String → Bool
attach_exclusive lang = lang =ˢ "py" || lang =ˢ "node" || lang =ˢ "java"

-- the fields of a `SpawnSpec` that decide
pub record SpawnSpec : Type 0 where
  pub kind : String
  pub lang : String
  pub requested : Value

pub data AttachError : Type 0 where
  unspecified_address : String → AttachError

abbrev port_of : Value → Option ℕ
port_of v = and_then (and_then (get "port" v) as_u64) to_u16

-- the endpoint that a spawn attaches to
unfoldable pub attach_endpoint : SpawnSpec → Result AttachError (Option (String × ℕ))
unfolding attach_exclusive is_unspecified_host
attach_endpoint spec =
    let host = unwrap_or (get_str "host" spec.requested) "" in
    if not (spec.kind =ˢ "attach") || not (attach_exclusive spec.lang)
    then ok none
    else if is_unspecified_host (literal host)
    then err (unspecified_address host)
    else elim (port_of spec.requested) [
      | none ↦ ok none
      | some port ↦ ok (if host =ˢ "" then none else some (host, port))
    ]

abbrev second : ℕ
second = 10 ^ 9

-- The clock is in nanoseconds since the epoch; a publish in the future is not recent.
unfoldable pub published_recently : Value → ℕ → ℕ → Bool
published_recently session bound now = elim (and_then (get "updatedAt" session) as_u64) [
  | none ↦ false
  | some s ↦ leb (s * second) now && ltb (now - s * second) (bound * second)
]

abbrev recent_publish : ℕ
recent_publish = 120

abbrev parsed_session : Serde → Dir → Option Value
parsed_session serde dir = and_then dir.session serde.from_str

module _ (serde : Serde) (now : ℕ) where
  -- `connects`: the outcome of the two attempts to connect to the recorded port
  unfoldable pub daemon_alive_in : Dir → Bool × Bool → Bool
  unfolding published_recently
  daemon_alive_in dir connects =
      let parsed = parsed_session serde dir in
      let port = unwrap_or (and_then parsed port_of) 0 in
      if port == 0
      then false
      else connects.0
        || connects.1
        || published_recently (unwrap_or parsed (obj no_member)) recent_publish now

  -- a numeric port other than 0, and a dead daemon
  unfoldable pub legacy_proven_dead : Dir → Bool × Bool → Bool
  unfolding daemon_alive_in
  legacy_proven_dead dir connects =
      not (unwrap_or (and_then (parsed_session serde dir) port_of) 0 == 0)
      && not (daemon_alive_in dir connects)

-- the endpoint of a persisted intent
unfoldable pub intent_endpoint : Value → Option (String × ℕ)
intent_endpoint stops =
    and_then (get "requestedTarget" stops)
      (λ v. and_then (get_str "host" v) (λ host. and_then (port_of v) (λ port. some (host, port))))

-- One entry of the sessions root, with what a probe of its daemon would see.
pub record Entry : Type 0 where
  pub name : String
  pub metadata : Metadata
  pub dir : Dir
  pub connects : Bool × Bool

abbrev pub is_ok {ℓ} : {E : Type 0} {A : Type ℓ} → Result E A → Bool
is_ok (ok a) = true
is_ok (err e) = false

abbrev pub is_directory : Metadata → Bool
is_directory directory = true
is_directory _ = false

abbrev pub live_kind : Option String → Bool
live_kind none = false
live_kind (some kind) = kind =ˢ "attach" || kind =ˢ "launch"

module _ (serde : Serde) (parse_ip : List ℕ → Option IpAddr) (now : ℕ) where
  abbrev pub same_host : String → String → Bool
  same_host a b =
      same_codes (normalize_attach_host parse_ip (literal a))
        (normalize_attach_host parse_ip (literal b))

  abbrev pub same_endpoint : String → ℕ → Option (String × ℕ) → Bool
  same_endpoint host port none = false
  same_endpoint host port (some (h, p)) = p == port && same_host h host

  abbrev pub kind_of : Dir → Option String
  kind_of dir = and_then (parsed_session serde dir) (get_str "kind")

  -- what the scan asks of an entry, one `continue` after the other
  unfoldable pub owns_endpoint : (exclude host : String) → ℕ → Entry → Bool
  unfolding check_name normalize_attach_host intent_endpoint attach_exclusive session_lang_opt
      daemon_alive_in
  owns_endpoint exclude host port e =
      not (e.name =ˢ exclude)
      && is_ok (check_name e.name)
      && is_directory e.metadata
      && same_endpoint host port (and_then (and_then e.dir.stops serde.from_str) intent_endpoint)
      && attach_exclusive (unwrap_or (session_lang_opt serde e.dir) "")
      && live_kind (kind_of e.dir)
      && daemon_alive_in serde now e.dir e.connects

  unfoldable pub find_live_endpoint_owner_in :
      (exclude host : String) → ℕ → List Entry → Option String
  unfolding owns_endpoint
  find_live_endpoint_owner_in exclude host port [] = none
  find_live_endpoint_owner_in exclude host port (e ∷ es) =
      let rest = find_live_endpoint_owner_in exclude host port es in
      if owns_endpoint exclude host port e then some e.name else rest

abbrev is_browser : Option String → Bool
is_browser none = false
is_browser (some lang) = lang =ˢ "browser"

-- `out.sort()`, by insertion
unfoldable pub insert_name : String → List String → List String
insert_name name [] = name ∷ []
insert_name name (n ∷ ns) =
    let rest = insert_name name ns in if is_le (compare name n) then name ∷ n ∷ ns else n ∷ rest

module _ (serde : Serde) (now : ℕ) where
  -- a live session of the old schema; a missing or unknown language counts
  unfoldable pub is_live_legacy : (exclude : String) → Entry → Bool
  unfolding check_name session_lang_opt daemon_alive_in
  is_live_legacy exclude e =
      not (e.name =ˢ exclude)
      && is_ok (check_name e.name)
      && is_directory e.metadata
      && not (cli_markers_v2 serde e.dir)
      && not (is_browser (session_lang_opt serde e.dir))
      && live_kind (and_then (parsed_session serde e.dir) (get_str "kind"))
      && daemon_alive_in serde now e.dir e.connects

  unfoldable pub find_live_legacy_sessions_in : (exclude : String) → List Entry → List String
  unfolding is_live_legacy insert_name
  find_live_legacy_sessions_in exclude [] = []
  find_live_legacy_sessions_in exclude (e ∷ es) =
      let rest = find_live_legacy_sessions_in exclude es in
      if is_live_legacy exclude e then insert_name e.name rest else rest
