-- ===== src/Output/Envelope.antt =====
-- What the envelope of an error holds, and when the exit code is zero.
use agent_debugger.Prelude.{
  String, Bool, true, false, ◌≡◌, ◌≢◌, ◌↔◌, ◌⊎◌, inl, inr, refl, ap, ◌∙◌, Option, none, some, ◌=ˢ◌,
  Result, ok, err, arith, if◌then◌else◌,
}
use agent_debugger.Json.{Value, member, no_member, Members, bool, str, lookup}
use agent_debugger.Json.Laws.{lookup-insert}
use agent_debugger.Output.{
  Write, broken_pipe, write_failed, Failure, write_stdout, insert_some, as_value,
  build_error_envelope, is_null, emit,
}

abbrev or_else : Option Value → Option Value → Option Value
or_else none old = old
or_else (some v) old = some v

lookup-insert_some :
    (j k : String) (o : Option Value) (m : Members)
    → lookup j (insert_some k o m) ≡ (if k =ˢ j then or_else o (lookup j m) else lookup j m)
unfolding insert_some
lookup-insert_some j k none m = ground arith
lookup-insert_some j k (some v) m = lookup-insert k j v m

-- The members of an error envelope: the three that it always has, and each of the five others
-- exactly if its value is given.
pub record IsEnvelope (command error : String) (cause : Option String)
    (wait_context diagnosis target_identity requested_target : Option Value) (m : Members)
    : Type 0 where
  pub ok_member : lookup "ok" m ≡ some (bool false)
  pub command_member : lookup "command" m ≡ some (str command)
  pub error_member : lookup "error" m ≡ some (str error)
  pub cause_member : lookup "cause" m ≡ as_value cause
  pub wait_context_member : lookup "waitContext" m ≡ wait_context
  pub diagnosis_member : lookup "diagnosis" m ≡ diagnosis
  pub target_identity_member : lookup "targetIdentity" m ≡ target_identity
  pub requested_target_member : lookup "requestedTarget" m ≡ requested_target

or_else-none : (o : Option Value) → or_else o none ≡ o
or_else-none none = refl
or_else-none (some v) = refl

module _ (command error : String) (cause : Option String) (w d t r : Option Value) where
  abbrev m0 : Members
  m0 =
      member "ok" (bool false)
        (member "command" (str command) (member "error" (str error) no_member))

  abbrev m1 : Members
  m1 = insert_some "cause" (as_value cause) m0

  abbrev m2 : Members
  m2 = insert_some "waitContext" w m1

  abbrev m3 : Members
  m3 = insert_some "diagnosis" d m2

  abbrev m4 : Members
  m4 = insert_some "targetIdentity" t m3

  -- a key goes through the insertions whose keys differ from it
  from_m1 :
      (j : String)
      → ("waitContext" =ˢ j) ≡ false
      → ("diagnosis" =ˢ j) ≡ false
      → ("targetIdentity" =ˢ j) ≡ false
      → ("requestedTarget" =ˢ j) ≡ false
      → lookup j (build_error_envelope command error cause w d t r) ≡ lookup j m1
  unfolding build_error_envelope
  from_m1 j a b c e = ground (
    arith,
    lookup-insert_some j "requestedTarget" r m4,
    lookup-insert_some j "targetIdentity" t m3,
    lookup-insert_some j "diagnosis" d m2,
    lookup-insert_some j "waitContext" w m1,
  )

  from_m2 :
      (j : String)
      → ("diagnosis" =ˢ j) ≡ false
      → ("targetIdentity" =ˢ j) ≡ false
      → ("requestedTarget" =ˢ j) ≡ false
      → lookup j (build_error_envelope command error cause w d t r) ≡ lookup j m2
  unfolding build_error_envelope
  from_m2 j b c e = ground (
    arith,
    lookup-insert_some j "requestedTarget" r m4,
    lookup-insert_some j "targetIdentity" t m3,
    lookup-insert_some j "diagnosis" d m2,
  )

  from_m3 :
      (j : String)
      → ("targetIdentity" =ˢ j) ≡ false
      → ("requestedTarget" =ˢ j) ≡ false
      → lookup j (build_error_envelope command error cause w d t r) ≡ lookup j m3
  unfolding build_error_envelope
  from_m3 j c e = ground (
    arith,
    lookup-insert_some j "requestedTarget" r m4,
    lookup-insert_some j "targetIdentity" t m3,
  )

  from_m4 :
      (j : String)
      → ("requestedTarget" =ˢ j) ≡ false
      → lookup j (build_error_envelope command error cause w d t r) ≡ lookup j m4
  unfolding build_error_envelope
  from_m4 j e = ground (arith, lookup-insert_some j "requestedTarget" r m4)

  last :
      lookup "requestedTarget" (build_error_envelope command error cause w d t r)
      ≡ or_else r (lookup "requestedTarget" m4)
  unfolding build_error_envelope
  last = lookup-insert_some "requestedTarget" "requestedTarget" r m4

  -- a key that is not among the first three members
  absent :
      (j : String)
      → ("ok" =ˢ j) ≡ false
      → ("command" =ˢ j) ≡ false
      → ("error" =ˢ j) ≡ false
      → lookup j m0 ≡ none
  unfolding lookup
  absent j a b c = ground arith

  -- Every error envelope has `ok: false`, the command and the error, and it has the cause and each
  -- of the four structured members exactly if their values are given.
  pub build_error_envelope-IsEnvelope :
      IsEnvelope command error cause w d t r (build_error_envelope command error cause w d t r)
  unfolding lookup
  build_error_envelope-IsEnvelope = record {
    ok_member =
        from_m1 "ok" refl refl refl refl ∙ lookup-insert_some "ok" "cause" (as_value cause) m0;
    command_member =
        from_m1 "command" refl refl refl refl
        ∙ lookup-insert_some "command" "cause" (as_value cause) m0;
    error_member =
        from_m1 "error" refl refl refl refl
        ∙ lookup-insert_some "error" "cause" (as_value cause) m0;
    cause_member =
        from_m1 "cause" refl refl refl refl
        ∙ lookup-insert_some "cause" "cause" (as_value cause) m0
        ∙ or_else-none (as_value cause);
    wait_context_member =
        from_m2 "waitContext" refl refl refl
        ∙ lookup-insert_some "waitContext" "waitContext" w m1
        ∙ ap (or_else w) (lookup-insert_some "waitContext" "cause" (as_value cause) m0)
        ∙ or_else-none w;
    diagnosis_member =
        from_m3 "diagnosis" refl refl
        ∙ lookup-insert_some "diagnosis" "diagnosis" d m2
        ∙ ap (or_else d) (
            lookup-insert_some "diagnosis" "waitContext" w m1
            ∙ lookup-insert_some "diagnosis" "cause" (as_value cause) m0)
        ∙ or_else-none d;
    target_identity_member =
        from_m4 "targetIdentity" refl
        ∙ lookup-insert_some "targetIdentity" "targetIdentity" t m3
        ∙ ap (or_else t) (
            lookup-insert_some "targetIdentity" "diagnosis" d m2
            ∙ lookup-insert_some "targetIdentity" "waitContext" w m1
            ∙ lookup-insert_some "targetIdentity" "cause" (as_value cause) m0)
        ∙ or_else-none t;
    requested_target_member =
        last
        ∙ ap (or_else r) (
            lookup-insert_some "requestedTarget" "targetIdentity" t m3
            ∙ lookup-insert_some "requestedTarget" "diagnosis" d m2
            ∙ lookup-insert_some "requestedTarget" "waitContext" w m1
            ∙ lookup-insert_some "requestedTarget" "cause" (as_value cause) m0)
        ∙ or_else-none r;
  }

-- The exit code is zero exactly if a result is shown to stdout or its reader has gone, or the reader
-- of an error's JSON envelope has gone; a result that cannot be rendered for people counts as failed.
pub emit-exit :
    (command : String) (result : Result Failure Value) (human renders : Bool) (w : Write)
    → ((emit command result human renders w).0 ≡ 0) ↔ (
        ((data' : Value) × (result ≡ ok data')
          × (w ≢ write_failed)
          × ((human ≡ false) ⊎ (renders ≡ true) ⊎ (is_null data' ≡ true)))
        ⊎ ((e : Failure) × (result ≡ err e) × (human ≡ false) × (w ≡ broken_pipe)))
unfolding emit write_stdout
emit-exit command (ok data') true renders w = (
  (λ zero'. inl (data', refl, ground arith, ground arith)),
  (λ why. elim why [
    | inl (v, same, shown, rendered) ↦ ground arith
    | inr (e, same, machine, gone) ↦ ground arith
  ]),
)
emit-exit command (ok data') false renders w = (
  (λ zero'. inl (data', refl, ground arith, ground arith)),
  (λ why. elim why [
    | inl (v, same, shown, rendered) ↦ ground arith
    | inr (e, same, machine, gone) ↦ ground arith
  ]),
)
emit-exit command (err e) true renders w = (
  (λ zero'. ground arith),
  (λ why. elim why [
    | inl (v, same, shown, rendered) ↦ ground arith
    | inr (f, same, machine, gone) ↦ ground arith
  ]),
)
emit-exit command (err e) false renders w = (
  (λ zero'. inr (e, refl, refl, ground arith)),
  (λ why. elim why [
    | inl (v, same, shown, rendered) ↦ ground arith
    | inr (f, same, machine, gone) ↦ ground arith
  ]),
)
