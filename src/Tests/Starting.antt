-- ===== src/Tests/Starting.antt =====
-- src/session/spawn_lifecycle.rs at concrete rounds.
use agent_debugger.Prelude.{◌≡◌, ok, true, false, refl, none, some, [], ◌∷◌, err}
use agent_debugger.Json.{lookup, bool, num, str, obj, null, no_member, member}
use agent_debugger.Session.Error.{no_session}
use agent_debugger.Session.Spawn.Wait.{
  Round, Ending, take_down, report, read_bridge_error, settle_for_bridge_error, after_failure,
  after_request, without_files, without_error, with_error, turn, wait_loop, timed_out,
}
use agent_debugger.Session.Spawn.Ending.{EndsTidy, wait_loop-IsTidy}
use agent_debugger.Json.Serde.{Serde}
use agent_debugger.Dap.Text.{
  trim, trim_start, trim_end, is_whitespace, same_codes, to_ascii_lowercase,
}
use agent_debugger.Session.Paths.{
  not_found, check_name, has_separator, is_normal_component, check_dir_real, real_dir_for_delete,
}
use agent_debugger.Session.Paths.Hosts.{is_unspecified_host, strip_brackets}
use agent_debugger.Session.Attach.{
  SpawnSpec, attach_endpoint, attach_exclusive, find_live_endpoint_owner_in,
  find_live_legacy_sessions_in,
}
use agent_debugger.Session.Locks.World.{World, create_new, tick, read_path}
use agent_debugger.Session.Locks.Startup.{acquire_startup_lock}
use agent_debugger.Session.Locks.Endpoint.{
  alive, Claimant, acquire_endpoint_lock, claim_endpoint, still_holds_endpoint, holds_within,
  nonce_is,
}
use agent_debugger.Session.Spawn.Start.{
  Start, Done, ended, spawn_in, with_name, with_dir, with_root, with_startup, guarded,
  after_preflight, preflight, claimed_endpoint, no_owner, no_legacy, recheck, clear_stale, launch,
  waited,
}
use agent_debugger.Session.Spawn.Start.Exclusive.{MayStart, spawn-MayStart}

-- nothing is there yet
abbrev idle : Round
idle = record {
  error_file = none;
  session_file = none;
  answers = λ stopped. err no_session;
  identity = null;
  late_error_file = [];
  logs = none;
  exited = none;
  removes = true;
  past_deadline = false;
}

-- session.json is there, the first request fails, and error.json comes late
abbrev dying : Round
dying = record idle {
  session_file = some (some (obj (member "stopped" (bool false) no_member)));
  late_error_file =
      none
      ∷ some (
          some (
            obj (
              member "error" (str "no such line")
                (member "phase" (str "config") (member "schemaVersion" (num 2) no_member)))))
      ∷ [];
}

abbrev failed : Ending
failed = take_down dying (
    report (some ("localhost", 5678)) (some true) null null (
      read_bridge_error (
        some (
          obj (
            member "error" (str "no such line")
              (member "phase" (str "config") (member "schemaVersion" (num 2) no_member)))))))

wait_loop-IsTidy_example :
    EndsTidy (some ("localhost", 5678)) (some true) null null (idle ∷ dying ∷ []) failed
unfolding wait_loop turn with_error without_error without_files after_request after_failure
    settle_for_bridge_error
wait_loop-IsTidy_example =
    wait_loop-IsTidy (some ("localhost", 5678)) (some true) null null (idle ∷ dying ∷ []) failed
      refl

-- an attach to a free endpoint, whose bridge is too slow
abbrev claims : Serde
claims = record {
  to_vec = λ v. [];
  from_utf8_str = λ bs. none;
  to_string = λ v. "ours";
  from_str = λ s. some (obj (member "nonce" (str "c") no_member));
}

abbrev spec : SpawnSpec
spec = record {
  kind = "attach";
  lang = "py";
  requested = obj (member "host" (str "localhost") (member "port" (num 5678) no_member));
}

abbrev free_lock : World
free_lock = record { slot = none; quarantine = none; events = []; clock = 1000 }

abbrev start : Start
start = record {
  deadline_fits = true;
  metadata = not_found;
  root_made = true;
  startup_lock = free_lock;
  published = false;
  dir = record {
    metadata = not_found;
    lang = none;
    stops = none;
    session = none;
    breaks_lock = false;
    temporaries = [];
  };
  connects = (false, false);
  listener_before = some true;
  locks_dir = true;
  locks_dir_made = true;
  endpoint_lock = free_lock;
  published_sessions = λ session. false;
  entries = [];
  delete_metadata = not_found;
  clears = true;
  creates = true;
  set_up = ok tt;
  rounds = record idle { past_deadline = true } ∷ [];
}

abbrev us : Claimant
us = record { session = "demo"; pid = 9; created_at = 1000 }

abbrev slow : Done
slow = record {
  result = err (ended timed_out);
  cleared = false;
  spawned = true;
  reaps = true;
  deletes = true;
}

ran :
    spawn_in claims (λ s. none) (λ pid. alive) 0 "demo" spec null us ("a", "b", "c", "d") start
    ≡ some slow
unfolding spawn_in with_name with_dir with_root with_startup guarded after_preflight preflight
    claimed_endpoint no_owner no_legacy recheck clear_stale launch waited check_name has_separator
    is_normal_component check_dir_real acquire_startup_lock create_new tick attach_endpoint
    attach_exclusive is_unspecified_host strip_brackets trim trim_start trim_end is_whitespace
    same_codes to_ascii_lowercase acquire_endpoint_lock claim_endpoint find_live_endpoint_owner_in
    find_live_legacy_sessions_in still_holds_endpoint holds_within read_path nonce_is lookup
    wait_loop turn with_error without_error without_files take_down real_dir_for_delete
ran = refl

spawn-MayStart_example :
    MayStart claims
      (λ s. none)
      (λ pid. alive)
      0
      "demo"
      spec
      null
      us
      ("a", "b", "c", "d")
      start
      (attach_endpoint spec)
spawn-MayStart_example =
    spawn-MayStart claims (λ s. none) (λ pid. alive) 0 "demo" spec null us ("a", "b", "c", "d")
      start slow ran refl
