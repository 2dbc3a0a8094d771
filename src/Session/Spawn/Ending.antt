-- ===== src/Session/Spawn/Ending.antt =====
-- How the start of a session ends.
use agent_debugger.Prelude.{
  ℕ, Bool, true, false, not, ◌≡◌, ◌≢◌, ◌⊎◌, inl, inr, refl, Option, none, some, List, [], ◌∷◌, any,
  Result, ok, err, arith, Option-cases, Bool-cases, subst, ap, ◌∙◌,
}
use agent_debugger.Json.{Value}
use agent_debugger.Session.Error.{Error}
use agent_debugger.Session.Spawn.Wait.{
  Endpoint, Round, SpawnError, Ending, take_down, keep_session, report, collect_logs, after_failure,
  after_request, without_files, without_error, with_error, stopped_in, with_identities,
  BridgeSetupError, read_bridge_error, ErrorFile, timed_out, after_exit, turn, wait_loop,
  settle_for_bridge_error,
}

abbrev pub succeeded : Ending → Bool
succeeded ending = elim ending.result [ ok _ ↦ true | err _ ↦ false ]

abbrev pub has_exited : Round → Bool
has_exited round = elim round.exited [ none ↦ false | some _ ↦ true ]

abbrev pub cannot_remove : Round → Bool
cannot_remove round = not round.removes

-- Either the session is kept and its bridge left running; or the directory is removed, unless its
-- removal fails, and the bridge has been taken down, or has exited by itself.
abbrev pub IsTidy : (exited unremoved : Bool) → Ending → Type 0
IsTidy exited unremoved ending =
    ((succeeded ending ≡ true) × (ending.deletes ≡ false) × (ending.reaps ≡ false))
    ⊎ ((succeeded ending ≡ false)
        × (ending.deletes ≡ true)
        × ((ending.removed ≡ true) ⊎ (unremoved ≡ true))
        × ((ending.reaps ≡ true) ⊎ (exited ≡ true)))

take_down-IsTidy :
    (exited : Bool) (round : Round) (e : SpawnError)
    → IsTidy exited (cannot_remove round) (take_down round e)
unfolding take_down
take_down-IsTidy exited round e = ground arith

keep_session-IsTidy :
    (exited unremoved : Bool) (v : Value) → IsTidy exited unremoved (keep_session v)
unfolding keep_session
keep_session-IsTidy exited unremoved v = inl (refl, refl, refl)

module _ (endpoint : Endpoint) (pre : Option Bool) (stops requested : Value) where
  collect-IsTidy :
      (exited : Bool) (round : Round) (e : Error)
      → IsTidy exited (cannot_remove round) (collect_logs endpoint pre stops requested round e)
  unfolding collect_logs keep_session take_down
  collect-IsTidy exited round e = ground arith

  failure-IsTidy :
      (exited : Bool) (round : Round) (e : Error) (late : Option BridgeSetupError)
      → IsTidy exited
          (cannot_remove round)
          (after_failure endpoint pre stops requested round e late)
  unfolding after_failure
  failure-IsTidy exited round e (some failure) =
      take_down-IsTidy exited round (report endpoint pre stops requested failure)
  failure-IsTidy exited round e none = collect-IsTidy exited round e

  request-IsTidy :
      (exited : Bool) (round : Round) (r : Result Error Value)
      → IsTidy exited (cannot_remove round) (after_request endpoint pre stops requested round r)
  unfolding after_request
  request-IsTidy exited round (ok v) =
      keep_session-IsTidy exited (cannot_remove round) (with_identities requested round.identity v)
  request-IsTidy exited round (err e) =
      failure-IsTidy exited round e (settle_for_bridge_error round.late_error_file)

  -- an ending of a turn is tidy, if there is one
  abbrev TidyEnd : Round → Option Ending → Type 0
  TidyEnd round none = Unit {0}
  TidyEnd round (some ending) = IsTidy (has_exited round) (cannot_remove round) ending

  files-IsTidy :
      (round : Round) (status : Option ℕ)
      → round.exited ≡ status
      → TidyEnd round (without_files endpoint pre stops requested round status)
  unfolding without_files after_exit take_down
  files-IsTidy round (some status) e = ground arith
  files-IsTidy round none e = elim (Bool-cases round.past_deadline) [
    | inl late ↦ rw late (take_down-IsTidy (has_exited round) round timed_out)
    | inr early ↦ rw early tt
  ]

  error-IsTidy :
      (round : Round) (session : Option (Option Value))
      → TidyEnd round (without_error endpoint pre stops requested round session)
  unfolding without_error
  error-IsTidy round (some session) =
      request-IsTidy (has_exited round) round (round.answers (stopped_in session))
  error-IsTidy round none = files-IsTidy round round.exited refl

  with_error-IsTidy :
      (round : Round) (file : ErrorFile)
      → TidyEnd round (with_error endpoint pre stops requested round file)
  unfolding with_error
  with_error-IsTidy round (some parsed) =
      take_down-IsTidy (has_exited round) round
        (report endpoint pre stops requested (read_bridge_error parsed))
  with_error-IsTidy round none = error-IsTidy round round.session_file

  turn-IsTidy : (round : Round) → TidyEnd round (turn endpoint pre stops requested round)
  unfolding turn
  turn-IsTidy round = with_error-IsTidy round round.error_file

  -- the turn in which the wait ends is the first that has an ending, and it is tidy
  abbrev pub EndsTidy : List Round → Ending → Type 0
  EndsTidy [] ending = ⊥
  EndsTidy (round ∷ rounds) ending =
      ((turn endpoint pre stops requested round ≡ some ending)
        × IsTidy (has_exited round) (cannot_remove round) ending)
      ⊎ ((turn endpoint pre stops requested round ≡ none) × EndsTidy rounds ending)

  -- If the wait for a new session ends, then in the first turn that has an ending either the session
  -- is kept and its bridge left running, or the removal of its directory has been called, the
  -- directory is gone unless that removal fails, and `reap_child` has been called for the bridge or
  -- the bridge is seen to have exited by itself.
  pub wait_loop-IsTidy :
      (rounds : List Round) (ending : Ending)
      → wait_loop endpoint pre stops requested rounds ≡ some ending
      → EndsTidy rounds ending
  unfolding wait_loop
  wait_loop-IsTidy [] ending ended = ground arith
  wait_loop-IsTidy (round ∷ rounds) ending ended =
      elim (Option-cases (turn endpoint pre stops requested round)) [
        | inl waits ↦ inr (waits, wait_loop-IsTidy rounds ending (ground arith))
        | inr (now, ends) ↦
            let same : now ≡ ending = ground arith in
            inl (
              ends ∙ ap some same,
              subst (IsTidy (has_exited round) (cannot_remove round)) same
                  (subst (TidyEnd round) ends (turn-IsTidy round)),
            )
      ]

  -- The wait ends at the latest in the first turn that finds the deadline past.
  pub wait_loop-ends :
      (rounds : List Round)
      → any (λ round. round.past_deadline) rounds ≡ true
      → wait_loop endpoint pre stops requested rounds ≢ none
  unfolding wait_loop turn with_error without_error without_files
  wait_loop-ends [] late = ground arith
  wait_loop-ends (round ∷ rounds) late = ground (arith, wait_loop-ends rounds)
