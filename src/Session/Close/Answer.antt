-- ===== src/Session/Close/Answer.antt =====
-- What the answer of `close` promises, and the name of a live starter.
use agent_debugger.Prelude.{
  ℕ, String, Bool, true, false, ◌≡◌, ◌⊎◌, inl, inr, refl, some, Result, ok, err, arith,
  Option-cases,
}
use agent_debugger.Json.{Value, get, as_u64, to_u16, and_then}
use agent_debugger.Session.Paths.{check_name, check_dir_real}
use agent_debugger.Session.Locks.World.{World, LockFile, read_lock_bytes}
use agent_debugger.Session.Locks.Startup.{stale_startup_mtime}
use agent_debugger.Session.Locks.Kept.{IsKept, read_lock_bytes-IsKept, lock_mtime-IsKept}
use agent_debugger.Session.Close.{
  Site, Removal, Outcome, SessionReadError, missing, CloseError, is_starting, startup_close_gate,
  remove_dir_after_foreign_probe, remove_unpublished_dir, closed_response, acked, answered, finish,
  await_exit, close_port, close_session, gated, close_in,
}
use agent_debugger.Session.Close.Matrix.{SeenDead}

-- The outcome is an error, or the directory was removed and the answer is honest about whether the
-- daemon acknowledged the close and was then seen dead.
abbrev pub IsHonest : Site → String → Outcome → Type 0
IsHonest site name o =
    (v : Value)
    → o.0 ≡ ok v
    → (o.1 ≡ true)
      × (site.removes ≡ true)
      × ((v ≡ closed_response name false)
          ⊎ ((v ≡ closed_response name true) × (acked site.reply ≡ true) × SeenDead site))

foreign-removes :
    (site : Site)
    → (remove_dir_after_foreign_probe site).0 ≡ ok tt
    → ((remove_dir_after_foreign_probe site).1 ≡ true) × (site.removes ≡ true)
unfolding remove_dir_after_foreign_probe
foreign-removes site done = ground arith

unpublished-removes :
    (site : Site) (expect : Bool)
    → (remove_unpublished_dir site expect).0 ≡ ok tt
    → ((remove_unpublished_dir site expect).1 ≡ true) × (site.removes ≡ true)
unfolding remove_unpublished_dir
unpublished-removes site expect done = ground (arith, foreign-removes site)

answered-ok :
    (response v : Value) (r : Removal)
    → (answered response r).0 ≡ ok v
    → (v ≡ response) × (r.0 ≡ ok tt) × ((answered response r).1 ≡ r.1)
answered-ok response v (ok tt, deletes) done = (ground arith, refl, refl)
answered-ok response v (err e, deletes) done = ground arith

module _ (site : Site) (name : String) where
  finish-ok :
      (expect confirmed : Bool) (v : Value)
      → (finish site name expect confirmed).0 ≡ ok v
      → (v ≡ closed_response name confirmed)
        × ((finish site name expect confirmed).1 ≡ true)
        × (site.removes ≡ true)
  unfolding finish
  finish-ok expect confirmed v done = ground (
    arith,
    answered-ok (closed_response name confirmed) v (remove_unpublished_dir site expect),
    unpublished-removes site expect,
  )

  await-ok :
      (port : ℕ) (confirmed : Bool) (v : Value)
      → (await_exit site name port confirmed).0 ≡ ok v
      → (v ≡ closed_response name confirmed)
        × ((await_exit site name port confirmed).1 ≡ true)
        × (site.removes ≡ true)
        × SeenDead site
  unfolding await_exit
  await-ok port confirmed v done = ground (arith, finish-ok false confirmed v)

  close_port-IsHonest : (port : ℕ) → IsHonest site name (close_port site name port)
  unfolding close_port
  close_port-IsHonest port v done = ground (
    arith,
    await-ok port true v,
    await-ok port false v,
    answered-ok (closed_response name false) v (remove_dir_after_foreign_probe site),
    foreign-removes site,
  )

  session-IsHonest :
      (r : Result SessionReadError Value)
      → site.session_file ≡ r
      → IsHonest site name (close_session site name)
  unfolding close_session
  session-IsHonest (err missing) read v done = ground (arith, finish-ok true false v)
  session-IsHonest (err _) read v done = ground arith
  session-IsHonest (ok s) read v done =
      elim (Option-cases (and_then (and_then (get "port" s) as_u64) to_u16)) [
        | inl invalid ↦ ground arith
        | inr (port, valid) ↦ ground (arith, close_port-IsHonest port v)
      ]

  gated-IsHonest :
      (r : Result CloseError (Unit {0}) × World) → IsHonest site name (gated site name r).0
  unfolding gated
  gated-IsHonest (ok tt, w) v done = session-IsHonest site.session_file refl v done
  gated-IsHonest (err e, w) v done = ground arith

  -- If `close` answers that a session is closed, then its directory has been removed, and the answer
  -- says `confirmed` only if the bridge acknowledged the close and its port was seen dead after that.
  pub close-IsHonest : IsHonest site name (close_in site name).0
  unfolding close_in
  close-IsHonest v done =
      ground (arith, gated-IsHonest (startup_close_gate site.published_at_gate site.lock) v)

  gate-kept :
      (f : LockFile)
      → IsKept (stale_startup_mtime f.modified) f site.lock
      → ((startup_close_gate false site.lock).0 ≡ err is_starting)
        × ((startup_close_gate false site.lock).1.slot ≡ some f)
  unfolding startup_close_gate
  gate-kept f kept =
      let read = read_lock_bytes-IsKept (stale_startup_mtime f.modified) f site.lock kept in
      let dated =
        lock_mtime-IsKept (stale_startup_mtime f.modified) f (read_lock_bytes site.lock).1 read.0 in
      ground (arith, read.0.slot, dated.0.slot, dated.0.fresh)

  -- While a starter's lock is in place and not stale, `close` of a sound, unpublished session tells
  -- that it is starting, deletes nothing and leaves the lock.
  pub close-starting :
      (f : LockFile)
      → IsKept (stale_startup_mtime f.modified) f site.lock
      → check_name name ≡ ok tt
      → check_dir_real site.metadata ≡ ok tt
      → site.published_at_gate ≡ false
      → ((close_in site name).0 ≡ (err is_starting, false)) × ((close_in site name).1.slot ≡ some f)
  unfolding close_in gated
  close-starting f kept named real early = ground (arith, gate-kept f kept)
