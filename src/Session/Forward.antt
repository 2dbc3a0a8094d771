-- ===== src/Session/Forward.antt =====
-- src/session/forward.rs: routing of one command to the bridge of a session.
use agent_debugger.Prelude.{
  ℕ, ◌+◌, String, Bool, false, ◌||◌, Option, none, some, ◌=ˢ◌, Result, ok, err, ◌>>=◌, ◌>>◌,
  if◌then◌else◌, leb,
}
use agent_debugger.Json.{
  Value, u64_max, Members, num, str, obj, no_member, member, get, get_str, get_flag, insert, lookup,
  is_object, unwrap_or,
}
use agent_debugger.Json.Serde.{Serde}
use agent_debugger.Client.{RequestError}
use agent_debugger.Session.Error.{
  Error, BridgeFailure, unsupported_target, browser_only, request_failed, bridge_failure,
}
use agent_debugger.Session.Paths.{Dir, check_name, checked_session_dir, session_port}
use agent_debugger.Session.Sidecar.{session_lang_opt, require_schema_v2}

abbrev keep_object : Option Value → Option Value
keep_object none = none
keep_object (some v) = if is_object v then some v else none

-- `bridge_failure`: the error of a response that is not ok
unfoldable pub failure_of : Value → BridgeFailure
failure_of resp = record {
  message = unwrap_or (get_str "error" resp) "unknown bridge error";
  cause = none;
  wait_context = keep_object (get "waitContext" resp);
  diagnosis = none;
  target_identity = none;
  requested_target = none;
}

-- java and browser serve one target only
unfoldable pub is_main_only : Option String → Bool
is_main_only none = false
is_main_only (some lang) = lang =ˢ "java" || lang =ˢ "browser"

unfoldable pub normalize_target_for_lang_opt :
    Option String → Option String → Result Error (Option String)
unfolding is_main_only
normalize_target_for_lang_opt lang none = ok none
normalize_target_for_lang_opt lang (some target) =
    if is_main_only lang
    then (if target =ˢ "main" then ok none else err (unsupported_target target (unwrap_or lang "")))
    else ok (some target)

-- `m.entry("target").or_insert("main")`
abbrev or_insert : String → Value → Members → Option Value → Members
or_insert k v m (some _) = m
or_insert k v m none = insert k v m

unfoldable pub stamp_main : Value → Value
stamp_main (obj m) = obj (or_insert "target" (str "main") m (lookup "target" m))
stamp_main v = v

-- the selector rides in the framed body
unfoldable pub with_target : Option String → Value → Value
with_target none body = body
with_target (some t) (obj m) = obj (insert "target" (str t) m)
with_target (some t) body = body

-- `u64::saturating_add`
unfoldable pub saturating_add : ℕ → ℕ → ℕ
saturating_add a b = if leb (a + b) u64_max then a + b else u64_max

-- What the command line is run with: `HOME`, and `client::request` to a port, in seconds.
pub record Env : Type 0 where
  pub home : Option String
  pub request : ℕ → Value → ℕ → Result RequestError Value

-- An ok response, stamped, or the failure that the bridge reports.
unfoldable pub served : Result RequestError Value → Result Error Value
unfolding stamp_main failure_of
served (err e) = err (request_failed e)
served (ok resp) =
    if get_flag "ok" resp then ok (stamp_main resp) else err (bridge_failure (failure_of resp))

unfoldable pub clamp_tail : ℕ → ℕ
clamp_tail tail = if leb tail 500 then tail else 500

unfoldable pub reload_gate : Option String → Result Error (Unit {0})
reload_gate none = err browser_only
reload_gate (some lang) = if lang =ˢ "browser" then ok tt else err browser_only

module _ (serde : Serde) (env : Env) where
  unfoldable pub forward_target : String → Dir → Value → ℕ → Option String → Result Error Value
  unfolding check_name checked_session_dir require_schema_v2 normalize_target_for_lang_opt
      session_port with_target served
  forward_target name dir body timeout target = do
    check_name name
    checked_session_dir env.home name dir
    require_schema_v2 serde dir
    target' ← normalize_target_for_lang_opt (session_lang_opt serde dir) target
    port ← session_port serde env.home name dir
    served (env.request port (with_target target' body) timeout)

  unfoldable pub forward : String → Dir → Value → ℕ → Result Error Value
  unfolding forward_target
  forward name dir body timeout = forward_target name dir body timeout none

  unfoldable pub cmd_logs : String → Dir → ℕ → Result Error Value
  unfolding forward clamp_tail
  cmd_logs name dir tail =
      forward name dir
        (obj (member "cmd" (str "logs") (member "tail" (num (clamp_tail tail)) no_member))) 10

  unfoldable pub cmd_reload : String → Dir → ℕ → Result Error Value
  unfolding forward reload_gate saturating_add
  cmd_reload name dir timeout = do
    check_name name
    checked_session_dir env.home name dir
    require_schema_v2 serde dir
    reload_gate (session_lang_opt serde dir)
    forward name dir (obj (member "cmd" (str "reload") (member "timeout" (num timeout) no_member)))
        (saturating_add timeout 5)
