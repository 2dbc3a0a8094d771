-- ===== src/Session/Close/Matrix.antt =====
-- When `close` deletes a session directory, and what its answer says.
use agent_debugger.Prelude.{
  ℕ, String, Bool, true, false, ◌≡◌, ◌≢◌, ◌⊎◌, inl, inr, refl, some, any, Result, ok, err, arith,
  Option-cases,
}
use agent_debugger.Json.{Value, get, as_u64, to_u16, and_then}
use agent_debugger.Session.Paths.{directory, real_dir_for_delete}
use agent_debugger.Session.Probe.{ours, unclear}
use agent_debugger.Session.Locks.World.{World}
use agent_debugger.Session.Close.{
  Site, SessionReadError, missing, CloseError, startup_close_gate, remove_dir_after_foreign_probe,
  remove_unpublished_dir, acked, finish, await_exit, close_port, close_session, gated, close_in,
}

-- a connection attempt fails before the deadline
abbrev pub SeenDead : Site → Type 0
SeenDead site = any (λ dead. dead) site.deaths ≡ true

-- the port answers as somebody else
abbrev pub IsForeign : Site → Type 0
IsForeign site = (site.probe ≢ ours) × (site.probe ≢ unclear)

-- The port that session.json names.
abbrev pub NamesPort : Site → ℕ → Type 0
NamesPort site port =
    (v : Value) × (site.session_file ≡ ok v)
    × (and_then (and_then (get "port" v) as_u64) to_u16 ≡ some port)

-- The reasons for a delete: session.json missing when it is read and at the last look, and in between
-- no startup lock or a session.json; a daemon seen dead; or an unacknowledged close of a port that
-- answers as somebody else.
abbrev pub MayDelete : Site → Type 0
MayDelete site =
    ((site.session_file ≡ err missing)
      × ((site.published ≡ true) ⊎ (site.starter ≡ false))
      × (site.published_again ≡ false))
    ⊎ ((port : ℕ) × NamesPort site port × SeenDead site)
    ⊎ ((port : ℕ) × NamesPort site port × (acked site.reply ≡ false) × IsForeign site)

foreign-real :
    (site : Site)
    → (remove_dir_after_foreign_probe site).1 ≡ true
    → real_dir_for_delete site.delete_metadata ≡ ok true
unfolding remove_dir_after_foreign_probe
foreign-real site deletes = ground arith

unpublished-real :
    (site : Site) (expect : Bool)
    → (remove_unpublished_dir site expect).1 ≡ true
    → (real_dir_for_delete site.delete_metadata ≡ ok true)
      × ((site.published ≡ true) ⊎ (site.starter ≡ false))
      × ((expect ≡ false) ⊎ (site.published_again ≡ false))
unfolding remove_unpublished_dir
unpublished-real site expect deletes = ground (arith, foreign-real site)

real-directory :
    (site : Site)
    → real_dir_for_delete site.delete_metadata ≡ ok true
    → site.delete_metadata ≡ directory
unfolding real_dir_for_delete
real-directory site real = ground arith

module _ (site : Site) (name : String) where
  finish-real :
      (expect confirmed : Bool)
      → (finish site name expect confirmed).1 ≡ true
      → (real_dir_for_delete site.delete_metadata ≡ ok true)
        × ((site.published ≡ true) ⊎ (site.starter ≡ false))
        × ((expect ≡ false) ⊎ (site.published_again ≡ false))
  unfolding finish
  finish-real expect confirmed deletes = ground (arith, unpublished-real site expect)

  await-dead :
      (port : ℕ) (confirmed : Bool)
      → (await_exit site name port confirmed).1 ≡ true
      → (real_dir_for_delete site.delete_metadata ≡ ok true) × SeenDead site
  unfolding await_exit
  await-dead port confirmed deletes = ground (arith, finish-real false confirmed)

  close_port-deletes :
      (port : ℕ)
      → (close_port site name port).1 ≡ true
      → (real_dir_for_delete site.delete_metadata ≡ ok true)
        × (SeenDead site ⊎ ((acked site.reply ≡ false) × IsForeign site))
  unfolding close_port
  close_port-deletes port deletes =
      ground (arith, await-dead port true, await-dead port false, foreign-real site)

  session-deletes :
      (r : Result SessionReadError Value)
      → site.session_file ≡ r
      → (close_session site name).1 ≡ true
      → (real_dir_for_delete site.delete_metadata ≡ ok true) × MayDelete site
  unfolding close_session
  session-deletes (err missing) read deletes =
      let why = finish-real true false (ground arith) in (why.0, inl (read, why.1, ground arith))
  session-deletes (err _) read deletes = ground arith
  session-deletes (ok v) read deletes =
      elim (Option-cases (and_then (and_then (get "port" v) as_u64) to_u16)) [
        | inl invalid ↦ ground arith
        | inr (port, valid) ↦
            let why = close_port-deletes port (ground arith) in
            (
              why.0,
              inr (elim why.1 [
                | inl dead ↦ inl (port, (v, read, valid), dead)
                | inr foreign ↦ inr (port, (v, read, valid), foreign.0, foreign.1)
              ]),
            )
      ]

  gated-deletes :
      (r : Result CloseError (Unit {0}) × World)
      → (gated site name r).0.1 ≡ true
      → ((close_session site name).1 ≡ true) × (r.0 ≡ ok tt)
  unfolding gated
  gated-deletes (ok tt, w) deletes = (deletes, refl)
  gated-deletes (err e, w) deletes = ground arith

  close_in-gated :
      (close_in site name).0.1 ≡ true
      → (gated site name (startup_close_gate site.published_at_gate site.lock)).0.1 ≡ true
  unfolding close_in
  close_in-gated deletes = ground arith

  -- `close` deletes a directory only if the startup gate passes, and either session.json is missing
  -- when it is read and at the last look before the delete, while at the look in between there was
  -- no startup lock or there was a session.json, or the daemon on its port is seen dead, or the
  -- close is not acknowledged and the port answers as somebody else; and it deletes only what is a
  -- directory right before.
  pub close-MayDelete :
      (close_in site name).0.1 ≡ true
      → MayDelete site
        × (site.delete_metadata ≡ directory)
        × ((startup_close_gate site.published_at_gate site.lock).0 ≡ ok tt)
  close-MayDelete deletes =
      let passed =
        gated-deletes (startup_close_gate site.published_at_gate site.lock)
          (close_in-gated deletes) in
      let why = session-deletes site.session_file refl passed.0 in
      (why.1, real-directory site why.0, passed.1)
