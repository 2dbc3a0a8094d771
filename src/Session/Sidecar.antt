-- ===== src/Session/Sidecar.antt =====
-- src/session/sidecar.rs: the schema gate over the files that the command line owns.
use agent_debugger.Prelude.{
  ℕ, String, Bool, false, ◌&&◌, Option, none, some, ◌==◌, Result, ok, err, if◌then◌else◌,
}
use agent_debugger.Json.{get, as_str, as_u64, and_then}
use agent_debugger.Json.Serde.{Serde}
use agent_debugger.Session.Error.{Error, unsupported_schema}
use agent_debugger.Session.Paths.{Dir}

abbrev pub schema_version : ℕ
schema_version = 2

module _ (serde : Serde) where
  unfoldable pub session_lang_opt : Dir → Option String
  session_lang_opt dir = and_then (and_then (and_then dir.lang serde.from_str) (get "lang")) as_str

  -- `v.as_object()`, then its numeric `schemaVersion`
  unfoldable pub sidecar_is_v2 : Option String → Bool
  sidecar_is_v2 file =
      elim (and_then (and_then (and_then file serde.from_str) (get "schemaVersion")) as_u64) [
        | none ↦ false
        | some version ↦ version == schema_version
      ]

  unfoldable pub cli_markers_v2 : Dir → Bool
  unfolding sidecar_is_v2
  cli_markers_v2 dir = sidecar_is_v2 dir.lang && sidecar_is_v2 dir.stops

  unfoldable pub require_schema_v2 : Dir → Result Error (Unit {0})
  unfolding cli_markers_v2
  require_schema_v2 dir = if cli_markers_v2 dir then ok tt else err unsupported_schema
