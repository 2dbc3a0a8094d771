-- ===== src/Session/Locks/Verdicts.antt =====
-- When a lock file counts as stale.
use agent_debugger.Prelude.{
  ℕ, ◌-◌, ◌≤◌, String, true, ◌≡◌, ◌↔◌, ◌⊎◌, inl, inr, refl, Option, none, some, arith,
}
use agent_debugger.Json.Serde.{Serde}
use agent_debugger.Session.Locks.Endpoint.{
  Liveness, dead, holder_pid, lock_snapshot_is_stale, is_dead,
}

module _ (serde : Serde) (holder : ℕ → Liveness) where
  -- the record names a pid that is known to be dead
  abbrev pub NamesDead : String → Type 0
  NamesDead raw = (pid : ℕ) × (holder_pid serde holder raw ≡ some pid) × (holder pid ≡ dead)

  is_dead-some :
      (o : Option ℕ) → is_dead holder o ≡ true → (pid : ℕ) × (o ≡ some pid) × (holder pid ≡ dead)
  is_dead-some none sure = ground arith
  is_dead-some (some pid) sure = (pid, refl, ground arith)

  is_dead-dead :
      (o : Option ℕ) (pid : ℕ) → o ≡ some pid → holder pid ≡ dead → is_dead holder o ≡ true
  is_dead-dead o pid here gone = ground arith

  lock_snapshot_iff :
      (raw : String) (mtime now : ℕ)
      → (lock_snapshot_is_stale serde holder raw mtime now ≡ true) ↔ (
          (mtime ≤ now)
          × ((7200 ≤ now - mtime)
              ⊎ ((10 ≤ now - mtime) × (is_dead holder (holder_pid serde holder raw) ≡ true))))
  unfolding lock_snapshot_is_stale
  lock_snapshot_iff raw mtime now = ground arith

  -- An endpoint lock is stale exactly if its mtime is not in the future and either two hours have
  -- gone by since, or ten seconds have and its record names a process that is known to be dead.
  pub stale_iff :
      (raw : String) (mtime now : ℕ)
      → (lock_snapshot_is_stale serde holder raw mtime now ≡ true)
        ↔ ((mtime ≤ now) × ((7200 ≤ now - mtime) ⊎ ((10 ≤ now - mtime) × NamesDead raw)))
  stale_iff raw mtime now =
      let o = holder_pid serde holder raw in
      let judged = lock_snapshot_iff raw mtime now in
      (
        (λ stale. (
          (judged.0 stale).0,
          elim (judged.0 stale).1 [
            | inl old ↦ inl old
            | inr young ↦ inr (young.0, is_dead-some o young.1)
          ],
        )),
        (λ reasons. judged.1 (
          reasons.0,
          elim reasons.1 [
            | inl old ↦ inl old
            | inr young ↦ inr (young.0, is_dead-dead o young.1.0 young.1.1 young.1.2)
          ],
        )),
      )
