-- ===== src/Session/Spawn/Wait.antt =====
-- The wait loop of `spawn_in`, the routing of setup failures, and the bridge's error file.
use agent_debugger.Prelude.{
  ℕ, ◌-◌, String, Bool, true, false, not, ◌&&◌, ◌||◌, Option, none, some, ◌=ˢ◌, ◌==◌, List, [], ◌∷◌,
  map, length, drop, ltb, Result, ok, err, if◌then◌else◌,
}
use agent_debugger.Json.{
  Value, bool, num, str, arr, obj, member, no_member, of_list, get, get_str, as_bool, as_u64,
  as_array, and_then, unwrap_or, insert,
}
use agent_debugger.Session.Error.{Error}
use agent_debugger.Session.Sidecar.{schema_version}

-- the text of a setup failure, by where it comes from
pub data Message : Type 0 where
  reported : String → Message  -- the bridge's own
  failed_during_setup : Message
  corrupt_error_file : Message
  forward_failed : Error → Message
  exited_during_setup : ℕ → Message

pub record BridgeSetupError : Type 0 where
  pub message : Message
  pub phase : Option String
  pub corrupt : Bool

abbrev known_phase : Option String → Bool
known_phase none = false
known_phase (some p) = p =ˢ "transport" || p =ˢ "config" || p =ˢ "runtime"

abbrev version_ok : Value → Bool
version_ok v = elim (and_then (get "schemaVersion" v) as_u64) [
  | none ↦ false
  | some n ↦ n == schema_version
]

-- what a present error.json says; `none` if it cannot be read or parsed
unfoldable pub read_bridge_error : Option Value → BridgeSetupError
read_bridge_error parsed = elim (and_then parsed (get_str "error")) [
  | none ↦ record { message = failed_during_setup; phase = none; corrupt = false }
  | some message ↦
      let phase = and_then parsed (get_str "phase") in
      if elim parsed [ none ↦ false | some v ↦ version_ok v ] && known_phase phase
      then record { message = reported message; phase = phase; corrupt = false }
      else record { message = corrupt_error_file; phase = none; corrupt = true }
]

-- Where a setup failure of an attach is sent; a launch keeps the plain message.
pub data SetupFailure : Type 0 where
  config_failure : Message → SetupFailure
  runtime_failure : Message → SetupFailure
  diagnosed : (listener_before : Option Bool) → Message → SetupFailure
  plain : Message → SetupFailure

abbrev phase_is : String → Option String → Bool
phase_is name none = false
phase_is name (some p) = p =ˢ name

abbrev pub Endpoint : Type 0
Endpoint = Option (String × ℕ)

unfoldable pub route_setup_failure : Endpoint → Option Bool → Option String → Message → SetupFailure
route_setup_failure none pre phase message = plain message
route_setup_failure (some _) pre phase message =
    if phase_is "config" phase
    then config_failure message
    else if phase_is "runtime" phase
    then runtime_failure message
    else diagnosed pre message

abbrev nonempty : String → Value → Bool
nonempty key stops = elim (and_then (get key stops) as_array) [
  | none ↦ false
  | some [] ↦ false
  | some (_ ∷ _) ↦ true
]

unfoldable pub logpoints_only_intent : Value → Bool
logpoints_only_intent stops =
    nonempty "logpoints" stops
    && not (nonempty "breaks" stops)
    && not (nonempty "watches" stops)
    && not (nonempty "exits" stops)

-- the last `tail` lines of logs.jsonl
unfoldable pub read_logs_file : Option (List String) → ℕ → Option Value
read_logs_file none tail = none
read_logs_file (some []) tail = none
read_logs_file (some (l ∷ ls)) tail =
    let start = length (l ∷ ls) - tail in
    some (
      obj (
        member "total" (num (length (l ∷ ls))) (
          member "truncated" (bool (ltb 0 start))
            (member "lines" (arr (of_list (map str (drop start (l ∷ ls))))) no_member))))

-- A look at error.json: absent, or present with what can be parsed of it.
abbrev pub ErrorFile : Type 0
ErrorFile = Option (Option Value)

-- the first look that finds the file
unfoldable pub settle_for_bridge_error : List ErrorFile → Option BridgeSetupError
unfolding read_bridge_error
settle_for_bridge_error [] = none
settle_for_bridge_error (none ∷ looks) = settle_for_bridge_error looks
settle_for_bridge_error (some parsed ∷ looks) = some (read_bridge_error parsed)

-- One turn of the wait loop, as far as it looks.
pub record Round : Type 0 where
  pub error_file : ErrorFile
  pub session_file : Option (Option Value)  -- session.json, once it is there
  pub answers : Bool → Result Error Value  -- of the first request: `context` if stopped, or `threads`
  pub identity : Value  -- the cached identity, null if there is none
  pub late_error_file : List ErrorFile  -- after a failed first request
  pub logs : Option (List String)  -- the lines of logs.jsonl
  pub exited : Option ℕ  -- the exit status of the bridge
  pub removes : Bool  -- `remove_dir_all` of the session directory succeeds
  pub past_deadline : Bool

pub data SpawnError : Type 0 where
  corrupt_setup_file : SpawnError
  setup : SetupFailure → SpawnError
  timed_out : SpawnError

-- How the loop ends: its result, whether it called `reap_child`, whether it called `remove_dir_all`,
-- and whether that removed the directory: the code asks for the outcome of neither.
pub record Ending : Type 0 where
  pub result : Result SpawnError Value
  pub reaps : Bool
  pub deletes : Bool
  pub removed : Bool

unfoldable pub take_down : Round → SpawnError → Ending
take_down round e = record { result = err e; reaps = true; deletes = true; removed = round.removes }

unfoldable pub with_identities : Value → Value → Value → Value
with_identities requested identity (obj m) =
    obj (insert "targetIdentity" identity (insert "requestedTarget" requested m))
with_identities requested identity v = v

unfoldable pub keep_session : Value → Ending
keep_session data' = record { result = ok data'; reaps = false; deletes = false; removed = false }

abbrev pub stopped_in : Option Value → Bool
stopped_in session = unwrap_or (and_then (and_then session (get "stopped")) as_bool) true

-- the intent and the endpoint of the session that is started
module _ (endpoint : Endpoint) (pre : Option Bool) (stops requested : Value) where
  unfoldable pub report : BridgeSetupError → SpawnError
  unfolding route_setup_failure
  report failure =
      if failure.corrupt
      then corrupt_setup_file
      else setup (route_setup_failure endpoint pre failure.phase failure.message)

  -- logpoints of a target that has already exited, or a failure
  unfoldable pub collect_logs : Round → Error → Ending
  unfolding logpoints_only_intent read_logs_file keep_session take_down route_setup_failure
      with_identities
  collect_logs round e =
      elim (if logpoints_only_intent stops then read_logs_file round.logs 50 else none) [
        | some logs ↦ keep_session (
            with_identities requested round.identity
              (obj (member "warning" (str "target already exited") (member "logs" logs no_member))))
        | none ↦ take_down round (setup (route_setup_failure endpoint pre none (forward_failed e)))
      ]

  -- the error file is the truth, also when it comes late
  unfoldable pub after_failure : Round → Error → Option BridgeSetupError → Ending
  unfolding report take_down collect_logs
  after_failure round e (some failure) = take_down round (report failure)
  after_failure round e none = collect_logs round e

  unfoldable pub after_request : Round → Result Error Value → Ending
  unfolding after_failure keep_session with_identities settle_for_bridge_error
  after_request round (ok data') = keep_session (with_identities requested round.identity data')
  after_request round (err e) =
      after_failure round e (settle_for_bridge_error round.late_error_file)

  -- the end of a bridge that has exited
  unfoldable pub after_exit : Round → ℕ → Ending
  after_exit round status = record {
    result = err (
        setup (elim endpoint [
          | none ↦ plain (exited_during_setup status)
          | some _ ↦ diagnosed pre (exited_during_setup status)
        ]));
    reaps = false;
    deletes = true;
    removed = round.removes;
  }

  -- neither file is there
  unfoldable pub without_files : Round → Option ℕ → Option Ending
  unfolding after_exit take_down
  without_files round (some status) = some (after_exit round status)
  without_files round none = if round.past_deadline then some (take_down round timed_out) else none

  unfoldable pub without_error : Round → Option (Option Value) → Option Ending
  unfolding after_request without_files
  without_error round (some session) =
      some (after_request round (round.answers (stopped_in session)))
  without_error round none = without_files round round.exited

  unfoldable pub with_error : Round → ErrorFile → Option Ending
  unfolding take_down report read_bridge_error without_error
  with_error round (some parsed) = some (take_down round (report (read_bridge_error parsed)))
  with_error round none = without_error round round.session_file

  -- `none`: this turn ends with a sleep
  unfoldable pub turn : Round → Option Ending
  unfolding with_error
  turn round = with_error round round.error_file

  -- `none` when the rounds are used up and the loop still waits
  unfoldable pub wait_loop : List Round → Option Ending
  unfolding turn
  wait_loop [] = none
  wait_loop (round ∷ rounds) = elim (turn round) [
    | some ending ↦ some ending
    | none ↦ wait_loop rounds
  ]
