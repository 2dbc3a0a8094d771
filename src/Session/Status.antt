-- ===== src/Session/Status.antt =====
-- `status`, its rows and `cmd_context_target` of src/session/close_status.rs.
pub mod Rows
use Prim.Native.String.{◌++◌}
use Prim.Native.String.{compare}
use Prim.Native.Nat.{Ordering}
use agent_debugger.Prelude.{
  ℕ, ◌/◌, ◌^◌, String, Bool, true, false, not, ◌&&◌, Option, none, some, List, [], ◌∷◌, Result, ok,
  err, ◌>>=◌, ◌>>◌, ◌==◌, if◌then◌else◌,
}
use agent_debugger.Json.{
  Value, obj, arr, str, num, bool, null, member, no_member, of_list, get, get_str, insert, as_u64,
  to_u16, and_then, unwrap_or,
}
use agent_debugger.Json.Serde.{Serde}
use agent_debugger.Dap.Text.{decimal}
use agent_debugger.Session.Error.{Error}
use agent_debugger.Session.Paths.{Dir, agent_home, check_name, checked_session_dir}
use agent_debugger.Session.Sidecar.{session_lang_opt, sidecar_is_v2, cli_markers_v2}
use agent_debugger.Session.Probe.{Probe, ours, not_ours, unclear}
use agent_debugger.Session.Attach.{published_recently, is_ok}
use agent_debugger.Session.Forward.{Env, forward_target}
use agent_debugger.Session.Layered.{stops_armed, layered_identity_or_null}
use agent_debugger.Session.Layered.Cap.{digits}

-- One entry of the sessions root: its name, whether its own type is a directory, and its files.
pub record Listed : Type 0 where
  pub name : String
  pub is_dir : Bool
  pub dir : Dir

-- of a clock in nanoseconds since the epoch
abbrev pub seconds : ℕ → ℕ
seconds now = now / 10 ^ 9

abbrev pub or_null : Option Value → Value
or_null v = unwrap_or v null

abbrev pub string_or_null : Option String → Value
string_or_null none = null
string_or_null (some s) = str s

abbrev pub not_ours_hint : ℕ → String → String
not_ours_hint port reason =
    "port "
    ++ (digits (decimal port)
        ++ (" is not this session's debugger (" ++ (reason ++ "); close to clear")))

abbrev pub unsupported_hint : String → String
unsupported_hint name = "close '" ++ (name ++ "' and recreate (unsupported schema v1)")

-- an absent session.json belongs to a start and speaks for no schema
abbrev pub session_v2 : Serde → Option String → Bool
session_v2 serde none = true
session_v2 serde (some raw) = sidecar_is_v2 serde (some raw)

abbrev pub live_of : Serde → Dir → Value
live_of serde dir = unwrap_or (and_then dir.session serde.from_str) (obj no_member)

abbrev pub row_port : Value → ℕ
row_port live = unwrap_or (and_then (and_then (get "port" live) as_u64) to_u16) 0

abbrev pub probed : ℕ → Value → ℕ → Probe → Bool × Option String
probed port live now ours = (true, none)
probed port live now (not_ours reason) = (false, some (not_ours_hint port reason))
probed port live now unclear = (published_recently live 120 now, none)

-- `probe` is `probe_session_bridge` of a port.
unfoldable pub alive_and_hint : (ℕ → Probe) → ℕ → Value → Bool × Option String
unfolding published_recently
alive_and_hint probe now live =
    if row_port live == 0
    then (false, none)
    else probed (row_port live) live now (probe (row_port live))

-- `redact_argv`, the length of a value's JSON, the clock, and the sidecars' parser
module _ (redact : List String → Value) (size : Value → ℕ) (now : ℕ) (serde : Serde) where
  abbrev parsed_stops : Dir → Option Value
  parsed_stops dir = and_then dir.stops serde.from_str

  abbrev pub armed_of : Option Value → Value
  armed_of none = null
  armed_of (some stops) = stops_armed stops

  -- the fields of every row, with the three that depend on the schema
  abbrev pub row : String → Dir → Bool → (stale : Bool) → (hint : Value) → Value
  row name dir alive stale hint =
      let live = live_of serde dir in
      obj (
        member "name" (str name) (
          member "lang" (str (unwrap_or (session_lang_opt serde dir) "unknown")) (
            member "kind" (or_null (get "kind" live)) (
              member "port" (num (row_port live)) (
                member "alive" (bool alive) (
                  member "stopped" (or_null (get "stopped" live)) (
                    member "lastStop" (or_null (get "lastStop" live)) (
                      member "updatedAt" (or_null (get "updatedAt" live)) (
                        member "armed" (armed_of (parsed_stops dir)) (
                          member "target" (or_null (and_then (parsed_stops dir) (get "target"))) (
                            member "requestedTarget"
                              (or_null (and_then (parsed_stops dir) (get "requestedTarget")))
                              (member "targetIdentity"
                                (layered_identity_or_null redact size (seconds now)
                                  (get "targetIdentity" live))
                                (member "stale" (bool stale) (
                                  member "unsupported" (bool stale)
                                    (member "hint" hint no_member)))))))))))))))

  unfoldable pub session_entry : (ℕ → Probe) → String → Dir → Value
  unfolding stops_armed layered_identity_or_null session_lang_opt cli_markers_v2 sidecar_is_v2
      alive_and_hint
  session_entry probe name dir =
      let seen = alive_and_hint probe now (live_of serde dir) in
      if cli_markers_v2 serde dir && session_v2 serde dir.session
      then row name dir seen.0 false (string_or_null seen.1)
      else row name dir seen.0 true (str (unsupported_hint name))

  abbrev pub is_listed : Option String → Listed → Bool
  unfolding checked_session_dir
  is_listed home e = e.is_dir && is_ok (checked_session_dir home e.name e.dir)

  abbrev after : Ordering → Bool
  after Ordering.gt = true
  after _ = false

  -- `as_str` of a row's name
  abbrev is_after : Option String → Option String → Bool
  is_after none other = false
  is_after (some a) none = true
  is_after (some a) (some b) = after (compare a b)

  -- a stable insertion: behind the rows that are not after it
  unfoldable pub insert_row : Value → List Value → List Value
  insert_row r [] = r ∷ []
  insert_row r (s ∷ rest) =
      let below = insert_row r rest in
      if is_after (get_str "name" r) (get_str "name" s) then s ∷ below else r ∷ (s ∷ rest)

  unfoldable pub rows : (ℕ → Probe) → Option String → List Listed → List Value
  unfolding session_entry insert_row checked_session_dir
  rows probe home [] = []
  rows probe home (e ∷ es) =
      let rest = rows probe home es in
      if is_listed home e then insert_row (session_entry probe e.name e.dir) rest else rest

  abbrev rows_under : (ℕ → Probe) → Option String → Result Error String → List Listed → List Value
  rows_under probe home (err e) entries = []
  rows_under probe home (ok root) entries = rows probe home entries

  unfoldable pub status : String → (ℕ → Probe) → Option String → List Listed → Value
  unfolding rows agent_home
  status version probe home entries = obj (
      member "version" (str version) (
        member "sessions" (arr (of_list (rows_under probe home (agent_home home) entries)))
          no_member))

  abbrev pub insert_identities : Dir → Value → Value
  insert_identities dir (obj m) = obj (
      insert "targetIdentity"
        (layered_identity_or_null redact size (seconds now)
          (and_then (and_then dir.session serde.from_str) (get "targetIdentity")))
        (insert "requestedTarget" (or_null (and_then (parsed_stops dir) (get "requestedTarget")))
          m))
  insert_identities dir v = v

  -- `later` is the directory once the answer is there
  unfoldable pub cmd_context_target :
      Env → String → (dir later : Dir) → Option String → Result Error Value
  unfolding check_name forward_target checked_session_dir layered_identity_or_null
  cmd_context_target env name dir later target = do
    check_name name
    resp ←
        forward_target serde env name dir (obj (member "cmd" (str "context") no_member)) 10 target
    checked_session_dir env.home name later
    ok (insert_identities later resp)
