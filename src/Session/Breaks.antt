-- ===== src/Session/Breaks.antt =====
-- src/session/breaks.rs: live breakpoint commands, and the intent that they keep in stops.json.
pub mod Intent
pub mod Lock
pub mod Confirmed
pub mod Listed
pub mod Gating
pub mod Persist
use agent_debugger.Prelude.{
  ℕ, ◌+◌, ◌*◌, String, Bool, false, not, Option, none, some, ◌=ˢ◌, List, [], ◌∷◌, map, length,
  Result, ok, err, ◌>>=◌, ◌>>◌, if◌then◌else◌, leb,
}
use agent_debugger.Json.{
  Value, str, arr, obj, no_member, member, of_list, get, as_array, get_str, get_flag, and_then,
  unwrap_or,
}
use agent_debugger.Json.Serde.{Serde}
use agent_debugger.Client.{RequestError}
use agent_debugger.Session.Error.{Error, bridge_failure, may_have_applied, applied_live}
use agent_debugger.Session.Paths.{Dir, check_name, checked_session_dir, session_port}
use agent_debugger.Session.Sidecar.{session_lang_opt, require_schema_v2}
use agent_debugger.Session.Forward.{
  Env, failure_of, normalize_target_for_lang_opt, stamp_main, with_target,
}
use Intent.{
  Storage, persisted_line_breaks_in, append_confirmed_breaks_in, remove_confirmed_breaks_in,
}

unfoldable pub is_ephemeral_target : Option String → Bool
is_ephemeral_target none = false
is_ephemeral_target (some t) = not (t =ˢ "main")

-- `min(10 + 5 * n, 65)`
unfoldable pub forward_bound : ℕ → ℕ
forward_bound n = let secs = 10 + 5 * n in if leb secs 65 then secs else 65

-- the `raw` strings of the entries of a list member
unfoldable pub raws_of : List Value → List String
raws_of [] = []
raws_of (e ∷ es) = elim (get_str "raw" e) [ none ↦ raws_of es | some raw ↦ raw ∷ raws_of es ]

unfoldable pub confirmed_in : String → Value → List String
unfolding raws_of
confirmed_in key resp = raws_of (unwrap_or (and_then (get key resp) as_array) [])

unfoldable pub confirmed_removed : Value → List String
unfolding confirmed_in
confirmed_removed resp = confirmed_in "removed" resp

-- A command gives its result and the directory as it leaves it.
abbrev pub Outcome : Type 0
Outcome = Result Error Value × Dir

-- What a rewrite of the intent comes to: the answer, or the honest error.
unfoldable pub persisted : String → Value → Result Error (Unit {0}) × Dir → Outcome
persisted op resp (err e, dir) = (err (applied_live op e), dir)
persisted op resp (ok _, dir) = (ok (stamp_main resp), dir)

abbrev pub Persister : Type 0
Persister = Dir → List String → Result Error (Unit {0}) × Dir

-- `if !confirmed.is_empty()`
unfoldable pub persist_confirmed : String → Persister → List String → Value → Dir → Outcome
unfolding persisted
persist_confirmed op persist [] resp dir = (ok (stamp_main resp), dir)
persist_confirmed op persist (raw ∷ raws) resp dir = persisted op resp (persist dir (raw ∷ raws))

-- The part of the three commands that follows the request. `key` lists what the bridge confirms.
unfoldable pub settle :
    String → String → Persister → Option String → Dir → Result RequestError Value → Outcome
unfolding persist_confirmed confirmed_in is_ephemeral_target
settle op key persist target dir (err e) = (err (may_have_applied op e), dir)
settle op key persist target dir (ok resp) =
    if get_flag "ok" resp
    then (if is_ephemeral_target target
        then (ok (stamp_main resp), dir)
        else persist_confirmed op persist (confirmed_in key resp) resp dir)
    else (err (bridge_failure (failure_of resp)), dir)

-- the port and the target of a request, once the guards of a command have passed
unfoldable pub route : Serde → Env → String → Dir → Option String → Result Error (Option String × ℕ)
route serde env name dir target = do
  check_name name
  checked_session_dir env.home name dir
  require_schema_v2 serde dir
  target' ← normalize_target_for_lang_opt (session_lang_opt serde dir) target
  port ← session_port serde env.home name dir
  ok (target', port)

abbrev pub routed : Dir → (Option String → ℕ → Outcome) → Result Error (Option String × ℕ) → Outcome
routed dir run (err e) = (err e, dir)
routed dir run (ok (target, port)) = run target port

abbrev pub breaks_body : String → List String → Value
breaks_body cmd breaks =
    obj (member "cmd" (str cmd) (member "breaks" (arr (of_list (map str breaks))) no_member))

module _ (serde : Serde) (env : Env) (storage : Storage) where
  unfoldable pub cmd_breaks_add : String → Dir → List String → Option String → Outcome
  unfolding route settle append_confirmed_breaks_in with_target forward_bound
  cmd_breaks_add name dir breaks target =
      routed dir
        (λ target' port.
          settle "add" "added" (append_confirmed_breaks_in serde storage) target' dir (
            env.request port (with_target target' (breaks_body "breaksAdd" breaks))
              (forward_bound (length breaks))))
        (route serde env name dir target)

  unfoldable pub cmd_breaks_remove : String → Dir → List String → Option String → Outcome
  unfolding route settle remove_confirmed_breaks_in with_target forward_bound
  cmd_breaks_remove name dir breaks target =
      routed dir
        (λ target' port.
          settle "remove" "removed" (remove_confirmed_breaks_in serde storage) target' dir (
            env.request port (with_target target' (breaks_body "breaksRemove" breaks))
              (forward_bound (length breaks))))
        (route serde env name dir target)

  unfoldable pub cmd_breaks_clear : String → Dir → Option String → Outcome
  unfolding route settle remove_confirmed_breaks_in with_target forward_bound
      persisted_line_breaks_in
  cmd_breaks_clear name dir target =
      routed dir
        (λ target' port.
          settle "clear" "removed" (remove_confirmed_breaks_in serde storage) target' dir (
            env.request port
              (with_target target' (obj (member "cmd" (str "breaksClear") no_member)))
              (forward_bound (persisted_line_breaks_in serde dir))))
        (route serde env name dir target)
