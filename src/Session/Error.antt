-- ===== src/Session/Error.antt =====
-- The failures of src/session: one constructor for each message, with the arguments it is built
-- from, and the typed `BridgeFailure` of src/session/forward.rs.
use agent_debugger.Prelude.{String, Option}
use agent_debugger.Json.{Value}
use agent_debugger.Client.{RequestError}

pub record BridgeFailure : Type 0 where
  pub message : String
  pub cause : Option String
  pub wait_context : Option Value
  pub diagnosis : Option Value
  pub target_identity : Option Value
  pub requested_target : Option Value

pub data Error : Type 0 where
  invalid_session_name home_unset : Error
  path_is_symlink path_not_directory : Error
  cannot_stat file_is_symlink file_not_regular : Error
  no_session corrupt_session_file : Error
  unsupported_schema : Error
  unsupported_target : String → String → Error
  browser_only : Error
  request_failed : RequestError → Error
  bridge_failure : BridgeFailure → Error
  may_have_applied : String → RequestError → Error
  applied_live : String → Error → Error
  lock_unopenable lock_held_by_live_writer lock_failed : Error
  cannot_read_intent corrupt_intent breaks_not_a_list cannot_persist_intent : Error
