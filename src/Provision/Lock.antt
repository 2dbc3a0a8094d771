-- ===== src/Provision/Lock.antt =====
-- `provision_lock_path` and `acquire_provision_lock` of src/bridge.rs, and the guard's scope.
pub mod Ends
use agent_debugger.Prelude.{
  ℕ, zero, suc, ◌+◌, ◌/◌, not, ◌&&◌, List, [], ◌∷◌, ◌++◌, leb, Result, ok, err, if◌then◌else◌,
}
use agent_debugger.Dap.Header.{literal}
use agent_debugger.Provision.Disk.{
  Text, PathBuf, join, Node, absent, file, special, CallOutcome, goes_well, provisioning_lock,
  ProvisionError, must_be_regular, cannot_open, cannot_lock, in_progress, no_round_left, Action,
  ◌>>=◌, ◌>>◌, draw, put,
}
use agent_debugger.Provision.Links.{refuse_provision_link, is_file, is_statable}

unfoldable pub provision_lock_path : PathBuf → Text → PathBuf
provision_lock_path adapters adapter = join adapters (adapter ++ literal ".lock")

-- what `try_lock` says
pub data LockAttempt : Type 0 where
  locked : LockAttempt
  would_block : LockAttempt
  lock_error : LockAttempt

-- How the attempts on one lock file go, and the clock at which each of them ends, in milliseconds.
pub record Contention : Type 0 where
  pub start : ℕ
  pub attempt : ℕ → LockAttempt
  pub now : ℕ → ℕ

abbrev try_lock_at :
    ℕ
    → ℕ
    → LockAttempt
    → PathBuf
    → Result ProvisionError (Unit {0})
    → Result ProvisionError (Unit {0})
try_lock_at deadline now locked p again = ok tt
try_lock_at deadline now would_block p again = if leb deadline now then err in_progress else again
try_lock_at deadline now lock_error p again = err (cannot_lock p)

-- The loop from its `k`-th attempt on.
unfoldable pub lock_loop : ℕ → ℕ → ℕ → Contention → PathBuf → Result ProvisionError (Unit {0})
lock_loop zero k deadline c p = err no_round_left
lock_loop (suc fuel) k deadline c p =
    try_lock_at deadline (c.now k) (c.attempt k) p (lock_loop fuel (suc k) deadline c p)

-- enough for attempts that are a poll apart
abbrev pub rounds : ℕ → ℕ → ℕ
rounds wait poll = wait / poll + 2

unfoldable pub check_regular : PathBuf → Action (Unit {0})
check_regular p d = (
  if is_statable (d.tree p) && not (is_file (d.tree p))
      then err (must_be_regular provisioning_lock p)
      else ok tt,
  d,
)

abbrev open_at : PathBuf → CallOutcome → Node → Action (Unit {0})
open_at p goes_well absent d = (ok tt, put p (file "") d)
open_at p goes_well (file _) d = (ok tt, d)
open_at p goes_well special d = (ok tt, d)
open_at p _ _ d = (err (cannot_open p), d)

-- read, write and create, never truncate
unfoldable pub open_lock : PathBuf → Action (Unit {0})
unfolding draw
open_lock p d = let (o, d') = draw d in open_at p o (d'.tree p) d'

-- the opened handle, looked at again
unfoldable pub verify_handle : PathBuf → Action (Unit {0})
verify_handle p d =
    (if is_file (d.tree p) then ok tt else err (must_be_regular provisioning_lock p), d)

abbrev hold : PathBuf → Action (Unit {0})
hold p d = (ok tt, record d { held = p ∷ d.held })

unfoldable pub acquire_provision_lock : ℕ → ℕ → Contention → PathBuf → Action (Unit {0})
unfolding refuse_provision_link check_regular open_lock verify_handle lock_loop
acquire_provision_lock wait poll c p = do
  refuse_provision_link p provisioning_lock
  check_regular p
  open_lock p
  verify_handle p
  λ d. (lock_loop (rounds wait poll) 0 (c.start + wait) c p, d)
  hold p

abbrev release : List PathBuf → List PathBuf
release [] = []
release (p ∷ rest) = rest

-- The guard is dropped at the end of its scope, whatever the body returns.
abbrev pub under_guard : {A : Type 0} → Action (Unit {0}) → Action A → Action A
under_guard acquire body = do
  acquire
  λ d. let (r, d') = body d in (r, record d' { held = release d'.held })

-- 200 s and 20 ms
abbrev pub provision_lock_wait : ℕ
provision_lock_wait = 200000

abbrev pub provision_lock_poll : ℕ
provision_lock_poll = 20
