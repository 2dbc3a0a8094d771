-- ===== src/Output.antt =====
-- src/output.rs: what the command line prints, and its exit code.
pub mod Envelope
use agent_debugger.Prelude.{
  ℕ, String, Bool, true, false, not, ◌&&◌, Option, none, some, ◌=ˢ◌, List, [], ◌∷◌, ◌++◌, Result,
  ok, err, if◌then◌else◌,
}
use agent_debugger.Json.{Value, Members, bool, str, null, obj, member, no_member, insert}
use agent_debugger.Session.Error.{BridgeFailure}
use agent_debugger.Session.Paths.{is_blank}

-- how writing to stdout ends
pub data Write : Type 0 where
  written broken_pipe write_failed : Write

-- an error's display text, and the typed failure if the bridge reported it
pub record Failure : Type 0 where
  pub message : String
  pub bridge : Option BridgeFailure

unfoldable pub write_stdout : Write → ℕ → ℕ
write_stdout written code = code
write_stdout broken_pipe code = 0
write_stdout write_failed code = 1

unfoldable pub should_show_cause : String → Option String → Bool
unfolding is_blank
should_show_cause error none = false
should_show_cause error (some cause) = not (is_blank cause) && not (cause =ˢ error)

-- `envelope[key] = value`, if there is one
unfoldable pub insert_some : String → Option Value → Members → Members
insert_some key none m = m
insert_some key (some v) m = insert key v m

abbrev pub as_value : Option String → Option Value
as_value none = none
as_value (some s) = some (str s)

unfoldable pub build_error_envelope :
    (command error : String)
    → Option String
    → (wait_context diagnosis target_identity requested_target : Option Value) → Members
unfolding insert_some
build_error_envelope command error cause wait_context diagnosis target_identity requested_target =
    insert_some "requestedTarget" requested_target (
      insert_some "targetIdentity" target_identity (
        insert_some "diagnosis" diagnosis (
          insert_some "waitContext" wait_context (
            insert_some "cause" (as_value cause) (
              member "ok" (bool false)
                (member "command" (str command) (member "error" (str error) no_member)))))))

unfoldable pub envelope_of : String → Failure → Members
unfolding build_error_envelope
envelope_of command failure = elim failure.bridge [
  | none ↦ build_error_envelope command failure.message none none none none none
  | some b ↦
      build_error_envelope command failure.message b.cause b.wait_context b.diagnosis
        b.target_identity b.requested_target
]

abbrev success_envelope : String → Value → Value
success_envelope command data' =
    obj (member "ok" (bool true) (member "command" (str command) (member "data" data' no_member)))

-- a line of the human form, on stdout or stderr
pub data Line : Type 0 where
  done : String → Line
  pretty : Value → Line
  render_failed : Line
  error_line cause_line : String → Line
  json : Value → Line

-- the exit code, and the lines
abbrev pub Emitted : Type 0
Emitted = ℕ × List Line

unfoldable pub member_line : String → Option Value → List Line
member_line key none = []
member_line key (some v) = json (obj (member key v no_member)) ∷ []

abbrev cause_lines : String → Option String → List Line
cause_lines error none = []
cause_lines error (some cause) =
    if should_show_cause error (some cause) then cause_line cause ∷ [] else []

unfoldable pub human_lines : Failure → List Line
unfolding should_show_cause member_line
human_lines failure = elim failure.bridge [
  | none ↦ error_line failure.message ∷ []
  | some b ↦
      error_line failure.message ∷ cause_lines failure.message b.cause
      ++ member_line "waitContext" b.wait_context
      ++ member_line "diagnosis" b.diagnosis
      ++ member_line "targetIdentity" b.target_identity
      ++ member_line "requestedTarget" b.requested_target
]

abbrev pub is_null : Value → Bool
is_null null = true
is_null _ = false

-- `renders`: the serializer prints the data
unfoldable pub emit : String → Result Failure Value → (human renders : Bool) → Write → Emitted
unfolding write_stdout envelope_of human_lines
emit command (ok data') true renders w =
    if is_null data'
    then (write_stdout w 0, done command ∷ [])
    else if renders
    then (write_stdout w 0, pretty data' ∷ [])
    else (1, render_failed ∷ [])
emit command (ok data') false renders w =
    (write_stdout w 0, json (success_envelope command data') ∷ [])
emit command (err failure) true renders w = (1, human_lines failure)
emit command (err failure) false renders w =
    (write_stdout w 1, json (obj (envelope_of command failure)) ∷ [])
