-- ===== src/Provision/Lock/Ends.antt =====
-- The wait for a provisioning lock ends, and how.
use agent_debugger.Prelude.{
  ℕ, zero, suc, ◌+◌, ◌*◌, ◌/◌, ◌≤◌, ◌<◌, ◌≡◌, ◌⊎◌, refl, sym, subst, inl, inr, arith, leb,
  Bool-cases, Result, ok, err,
}
use native.Mathlib.Nat.{lt-div-mul-add, suc-mul}
use agent_debugger.Provision.Disk.{PathBuf, ProvisionError, cannot_lock, in_progress}
use agent_debugger.Provision.Lock.{
  LockAttempt, locked, would_block, lock_error, Contention, lock_loop, rounds,
}

-- From attempt `k` to attempt `j` every one was blocked, and ended before the deadline.
pub data Waited (c : Contention) (deadline : ℕ) : ℕ → ℕ → Type 0 where
  arrived : (k : ℕ) → Waited c deadline k k
  blocked :
      (k j : ℕ)
      → c.attempt k ≡ would_block
      → c.now k < deadline
      → Waited c deadline (suc k) j
      → Waited c deadline k j

-- what the attempt that ends the wait makes of it
abbrev pub Verdict : Contention → ℕ → PathBuf → ℕ → Result ProvisionError (Unit {0}) → Type 0
Verdict c deadline p j r =
    ((c.attempt j ≡ locked) × (r ≡ ok tt))
    ⊎ ((c.attempt j ≡ would_block) × (deadline ≤ c.now j) × (r ≡ err in_progress))
    ⊎ ((c.attempt j ≡ lock_error) × (r ≡ err (cannot_lock p)))

abbrev EndsAt : Contention → ℕ → PathBuf → ℕ → Result ProvisionError (Unit {0}) → Type 0
EndsAt c deadline p k r = (j : ℕ) × Waited c deadline k j × Verdict c deadline p j r

LockAttempt-cases : (t : LockAttempt) → (t ≡ locked) ⊎ (t ≡ would_block) ⊎ (t ≡ lock_error)
LockAttempt-cases locked = inl refl
LockAttempt-cases would_block = inr (inl refl)
LockAttempt-cases lock_error = inr (inr refl)

module _ (c : Contention) (p : PathBuf) (deadline : ℕ) where
  loop_next :
      (fuel k : ℕ)
      → c.attempt k ≡ would_block
      → c.now k < deadline
      → lock_loop (suc fuel) k deadline c p ≡ lock_loop fuel (suc k) deadline c p
  unfolding lock_loop
  loop_next fuel k taken early = ground arith

  -- an attempt that is free, fails or comes too late ends the wait
  loop_last :
      (fuel k : ℕ)
      → (c.attempt k ≡ would_block → deadline ≤ c.now k)
      → EndsAt c deadline p k (lock_loop (suc fuel) k deadline c p)
  unfolding lock_loop
  loop_last fuel k late = elim (LockAttempt-cases (c.attempt k)) [
    | inl free ↦ (k, arrived k, inl (free, ground arith))
    | inr (inl taken) ↦ (k, arrived k, inr (inl (taken, late taken, ground (arith, late taken))))
    | inr (inr broken) ↦ (k, arrived k, inr (inr (broken, ground arith)))
  ]

  loop-EndsAt :
      (fuel k : ℕ)
      → deadline ≤ c.now (k + fuel)
      → EndsAt c deadline p k (lock_loop (suc fuel) k deadline c p)
  loop-EndsAt zero k over =
      loop_last zero k (λ taken. subst (λ n. deadline ≤ c.now n) (omega arith) over)
  loop-EndsAt (suc fuel) k over =
      let rest = loop-EndsAt fuel (suc k) (subst (λ n. deadline ≤ c.now n) (omega arith) over) in
      elim (LockAttempt-cases (c.attempt k)) [
        | inl free ↦ loop_last (suc fuel) k (λ taken. cc)
        | inr (inr broken) ↦ loop_last (suc fuel) k (λ taken. cc)
        | inr (inl taken) ↦ elim (Bool-cases (leb deadline (c.now k))) [
          | inl late ↦ loop_last (suc fuel) k (λ _. ground arith)
          | inr early ↦
              let before : c.now k < deadline = ground arith in
              (
                rest.0,
                blocked k rest.0 taken before rest.1,
                subst (Verdict c deadline p rest.0) (sym (loop_next (suc fuel) k taken before))
                    rest.2,
              )
        ]
      ]

deadline_met :
    (wait poll : ℕ) (c : Contention)
    → ((k : ℕ) → c.start + k * suc poll ≤ c.now k)
    → c.start + wait ≤ c.now (0 + suc (wait / suc poll))
deadline_met wait poll c paced =
    let q = wait / suc poll in
    let reached : c.start + suc q * suc poll ≤ c.now (suc q) = paced (suc q) in
    let beyond : wait < q * suc poll + suc poll = lt-div-mul-add (omega arith) in
    let met : c.start + wait ≤ c.now (suc q) =
      omega (arith, reached, beyond, suc-mul q (suc poll)) in
    let same : suc q ≡ 0 + suc q = omega arith in subst (λ n. c.start + wait ≤ c.now n) same met

-- If each attempt ends at least a poll after the one before, the wait for a lock ends within its
-- rounds: with the lock, with an error of the kernel, or, at the deadline and not before it, with
-- `in_progress`, and every attempt until then was blocked.
pub lock_loop-ends :
    (wait poll : ℕ) (c : Contention) (p : PathBuf)
    → ((k : ℕ) → c.start + k * suc poll ≤ c.now k)
    → (j : ℕ) × Waited c (c.start + wait) 0 j
      × Verdict c (c.start + wait) p j (lock_loop (rounds wait (suc poll)) 0 (c.start + wait) c p)
lock_loop-ends wait poll c p paced =
    subst (λ n. EndsAt c (c.start + wait) p 0 (lock_loop n 0 (c.start + wait) c p)) (omega arith)
      (loop-EndsAt c p (c.start + wait) (suc (wait / suc poll)) 0 (deadline_met wait poll c paced))
