-- ===== src/Session/Close.antt =====
-- `close_in` of src/session/close_status.rs. Every look at the file system and the network is a
-- field of its own, so that what changes between two looks is covered.
pub mod Matrix
pub mod Answer
use agent_debugger.Prelude.{
  ℕ, String, Bool, true, false, not, ◌&&◌, none, some, List, any, Result, ok, err, if◌then◌else◌,
}
use agent_debugger.Json.{
  Value, str, bool, obj, member, no_member, get, get_flag, as_u64, to_u16, and_then,
}
use agent_debugger.Client.{RequestError}
use agent_debugger.Session.Error.{Error}
use agent_debugger.Session.Paths.{Metadata, check_name, check_dir_real, real_dir_for_delete}
use agent_debugger.Session.Probe.{Probe, ours, not_ours, unclear}
use agent_debugger.Session.Locks.World.{
  World, present, vanished, unreadable, read_lock_bytes, lock_mtime,
}
use agent_debugger.Session.Locks.Quarantine.{quarantine_verified}
use agent_debugger.Session.Locks.Startup.{stale_startup_mtime}

-- the failures of `read_session_file`
pub data SessionReadError : Type 0 where
  missing unreadable_file corrupt : SessionReadError

pub data CloseError : Type 0 where
  refused : Error → CloseError
  is_starting : CloseError
  no_valid_port : CloseError
  bad_session_file : SessionReadError → CloseError
  still_listens : ℕ → CloseError
  no_such_session dir_vanished remove_failed : CloseError

-- What close sees, in the order in which it looks.
pub record Site : Type 0 where
  pub metadata : Metadata  -- of the directory, at the entry
  pub published_at_gate : Bool  -- session.json exists
  pub lock : World  -- the startup lock
  pub session_file : Result SessionReadError Value
  pub reply : Result RequestError Value  -- to the close request
  pub probe : Probe
  pub deaths : List Bool  -- the connection attempts until the deadline: which of them fail
  pub still_there : Bool  -- the directory exists
  pub published : Bool  -- session.json exists, at the delete
  pub starter : Bool  -- the startup lock exists
  pub published_again : Bool  -- session.json exists, at the second look
  pub delete_metadata : Metadata  -- of the directory, right before the delete
  pub removes : Bool  -- `remove_dir_all` succeeds

-- a gate over an unpublished directory
unfoldable pub startup_close_gate : Bool → World → Result CloseError (Unit {0}) × World
unfolding stale_startup_mtime
startup_close_gate true w = (ok tt, w)
startup_close_gate false w =
    let (s, w') = read_lock_bytes w in
    elim s [
      | vanished ↦ (ok tt, w')
      | unreadable ↦ (err is_starting, w')
      | present raw ↦
          let (t, w'') = lock_mtime w' in
          elim t [
            | vanished ↦ (ok tt, w'')
            | unreadable ↦ (err is_starting, w'')
            | present mtime ↦
                if stale_startup_mtime mtime w''.clock
                then (let (gone, w3) = quarantine_verified raw w'' in
                    if gone then (ok tt, w3) else (err is_starting, w3))
                else (err is_starting, w'')
          ]
    ]

-- A step that may delete: its result, and whether `remove_dir_all` was called.
abbrev pub Removal : Type 0
Removal = Result CloseError (Unit {0}) × Bool

unfoldable pub remove_dir_after_foreign_probe : Site → Removal
unfolding real_dir_for_delete
remove_dir_after_foreign_probe site = elim (real_dir_for_delete site.delete_metadata) [
  | err e ↦ (err (refused e), false)
  | ok false ↦ (err dir_vanished, false)
  | ok true ↦ (if site.removes then ok tt else err remove_failed, true)
]

unfoldable pub remove_unpublished_dir : Site → Bool → Removal
unfolding remove_dir_after_foreign_probe
remove_unpublished_dir site expect_unpublished =
    if not site.published && site.starter
    then (err is_starting, false)
    else if expect_unpublished && site.published_again
    then (err is_starting, false)
    else remove_dir_after_foreign_probe site

unfoldable pub closed_response : String → Bool → Value
closed_response name confirmed = obj (
    member "closed" (str name)
      (member "confirmed" (bool confirmed) (member "target" (str "main") no_member)))

abbrev pub Outcome : Type 0
Outcome = Result CloseError Value × Bool

abbrev answered : Value → Removal → Outcome
answered response (ok _, deletes) = (ok response, deletes)
answered response (err e, deletes) = (err e, deletes)

-- an acknowledgement, not just any reply
unfoldable pub acked : Result RequestError Value → Bool
acked (ok resp) = get_flag "ok" resp
acked (err _) = false

module _ (site : Site) (name : String) where
  unfoldable pub finish : (expect_unpublished confirmed : Bool) → Outcome
  unfolding remove_unpublished_dir closed_response
  finish expect_unpublished confirmed =
      if site.still_there
      then answered (closed_response name confirmed)
          (remove_unpublished_dir site expect_unpublished)
      else (err no_such_session, false)

  -- the daemon must be seen dead before the directory goes
  unfoldable pub await_exit : ℕ → Bool → Outcome
  unfolding finish
  await_exit port confirmed =
      if any (λ dead. dead) site.deaths
      then finish false confirmed
      else (err (still_listens port), false)

  unfoldable pub close_port : ℕ → Outcome
  unfolding await_exit acked
  close_port port = if acked site.reply then await_exit port true else elim site.probe [
    | ours ↦ await_exit port false
    | unclear ↦ await_exit port false
    | not_ours _ ↦ answered (closed_response name false) (remove_dir_after_foreign_probe site)
  ]

  unfoldable pub close_session : Outcome
  unfolding close_port
  close_session = elim site.session_file [
    | err missing ↦ finish true false
    | err e ↦ (err (bad_session_file e), false)
    | ok v ↦ elim (and_then (and_then (get "port" v) as_u64) to_u16) [
      | none ↦ (err no_valid_port, false)
      | some port ↦ close_port port
    ]
  ]

  unfoldable pub gated : Result CloseError (Unit {0}) × World → Outcome × World
  unfolding close_session
  gated (err e, w) = ((err e, false), w)
  gated (ok _, w) = (close_session, w)

  unfoldable pub close_in : Outcome × World
  unfolding check_name check_dir_real startup_close_gate gated
  close_in = elim (check_name name) [
    | err e ↦ ((err (refused e), false), site.lock)
    | ok _ ↦ elim (check_dir_real site.metadata) [
      | err e ↦ ((err (refused e), false), site.lock)
      | ok _ ↦ gated (startup_close_gate site.published_at_gate site.lock)
    ]
  ]
