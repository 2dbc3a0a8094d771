-- ===== src/Session/Breaks/Gating.antt =====
-- When a breaks command may change the directory, and what it then writes.
use agent_debugger.Prelude.{
  ℕ, ◌≤◌, String, true, ◌≡◌, ◌≢◌, ◌⊎◌, ◌||◌, inl, inr, Bool-cases, false, refl, Option, some, List,
  [], ◌∷◌, arith, Result, ok, err, eq_iff,
}
use agent_debugger.Json.{Value, get_flag}
use agent_debugger.Json.Serde.{Serde}
use agent_debugger.Session.Error.{Error}
use agent_debugger.Session.Paths.{Dir}
use agent_debugger.Session.Forward.{Env, normalize_target_for_lang_opt}
use agent_debugger.Session.Sidecar.{session_lang_opt}
use agent_debugger.Session.Breaks.Intent.{
  Storage, abandon_write, write_intent, new_intent, written, opened, rewritten_if, rewrite_intent,
  append_confirmed_breaks_in, remove_confirmed_breaks_in,
}
use agent_debugger.Session.Breaks.{
  Persister, Outcome, is_ephemeral_target, forward_bound, persisted, persist_confirmed,
  confirmed_in, settle, route, routed, cmd_breaks_add, cmd_breaks_remove, cmd_breaks_clear,
}
use agent_debugger.Client.{RequestError}

-- The request of a command waits between 10 and 65 seconds.
pub forward_bound_range : (n : ℕ) → (10 ≤ forward_bound n) × (forward_bound n ≤ 65)
unfolding forward_bound
forward_bound_range n = ground arith

-- The intent and the other sidecars are what they were; breaks.lock may be there now, and a temporary
-- file only if its removal fails.
abbrev pub Unharmed : Storage → Dir → Dir → Type 0
Unharmed storage dir dir' =
    (dir'.metadata ≡ dir.metadata)
    × (dir'.lang ≡ dir.lang)
    × (dir'.stops ≡ dir.stops)
    × (dir'.session ≡ dir.session)
    × ((dir'.breaks_lock ≡ dir.breaks_lock) ⊎ (dir'.breaks_lock ≡ true))
    × ((dir'.temporaries ≡ dir.temporaries) ⊎ (storage.cleans ≡ false))

-- the command succeeds, or does no harm
abbrev pub IsSafe : {A : Type 0} → Storage → Dir → Result Error A × Dir → Type 0
IsSafe storage dir (ok a, dir') = Unit {0}
IsSafe storage dir (err e, dir') = Unharmed storage dir dir'

same-Unharmed : (storage : Storage) (dir : Dir) → Unharmed storage dir dir
same-Unharmed storage dir = (refl, refl, refl, refl, inl refl, inl refl)

module _ (serde : Serde) (storage : Storage) where
  created :
      (dir : Dir)
      → ((dir.breaks_lock || storage.opens) ≡ dir.breaks_lock)
        ⊎ ((dir.breaks_lock || storage.opens) ≡ true)
  created dir = ground arith

  abandon-IsSafe :
      (left : Option String) (dir : Dir)
      → IsSafe storage dir (abandon_write serde storage left (opened serde storage dir))
  unfolding abandon_write
  abandon-IsSafe left dir = elim (Bool-cases storage.cleans) [
    | inl cleans ↦ rw cleans (refl, refl, refl, refl, created dir, inl refl)
    | inr lingers ↦ rw lingers (refl, refl, refl, refl, created dir, inr refl)
  ]

  write-IsSafe :
      (text : String) (dir : Dir)
      → IsSafe storage dir (write_intent serde storage text (opened serde storage dir))
  unfolding write_intent
  write-IsSafe text dir = elim (Bool-cases storage.writes) [
    | inl full ↦ elim (Bool-cases storage.renames) [
      | inl renamed ↦ rw (full, renamed) tt
      | inr fails ↦ rw (full, fails) (abandon-IsSafe (some text) dir)
    ]
    | inr torn ↦ rw torn (abandon-IsSafe storage.torn dir)
  ]

  written-IsSafe :
      (dir : Dir) (r : Result Error Value)
      → IsSafe storage dir (written serde storage (opened serde storage dir) r)
  unfolding written
  written-IsSafe dir (ok intent) = write-IsSafe (serde.to_string intent) dir
  written-IsSafe dir (err e) = (refl, refl, refl, refl, created dir, inl refl)

  rewritten-IsSafe :
      (r : Result Error (Unit {0})) (f : List Value → List Value) (dir : Dir)
      → IsSafe storage dir (rewritten_if serde storage r f dir)
  unfolding rewritten_if
  rewritten-IsSafe (err e) f dir = same-Unharmed storage dir
  rewritten-IsSafe (ok _) f dir = written-IsSafe dir (new_intent serde storage f dir)

  -- what a rewrite does, whichever it is
  abbrev Rewrites : Persister → Type 0
  Rewrites persist = (dir : Dir) (raws : List String) → IsSafe storage dir (persist dir raws)

  append-IsSafe : Rewrites (append_confirmed_breaks_in serde storage)
  unfolding append_confirmed_breaks_in rewrite_intent
  append-IsSafe dir raws = rewritten-IsSafe storage.checked _ dir

  remove-IsSafe : Rewrites (remove_confirmed_breaks_in serde storage)
  unfolding remove_confirmed_breaks_in rewrite_intent
  remove-IsSafe dir raws = rewritten-IsSafe storage.checked _ dir

  persisted-IsSafe :
      (op : String) (resp : Value) (dir : Dir) (r : Result Error (Unit {0}) × Dir)
      → IsSafe storage dir r
      → IsSafe storage dir (persisted op resp r)
  unfolding persisted
  persisted-IsSafe op resp dir (ok _, dir') safe = tt
  persisted-IsSafe op resp dir (err e, dir') safe = safe

  persist_confirmed-IsSafe :
      (op : String) (persist : Persister) (raws : List String) (resp : Value) (dir : Dir)
      → Rewrites persist
      → IsSafe storage dir (persist_confirmed op persist raws resp dir)
  unfolding persist_confirmed
  persist_confirmed-IsSafe op persist [] resp dir safe = tt
  persist_confirmed-IsSafe op persist (r ∷ rs) resp dir safe =
      persisted-IsSafe op resp dir (persist dir (r ∷ rs)) (safe dir (r ∷ rs))

  settle-IsSafe :
      (op key : String) (persist : Persister) (target : Option String) (dir : Dir)
      (answer : Result RequestError Value)
      → Rewrites persist
      → IsSafe storage dir (settle op key persist target dir answer)
  unfolding settle
  settle-IsSafe op key persist target dir (err x) safe = same-Unharmed storage dir
  settle-IsSafe op key persist target dir (ok resp) safe = elim (Bool-cases (get_flag "ok" resp)) [
    | inl fine ↦ elim (Bool-cases (is_ephemeral_target target)) [
      | inl own ↦ rw (fine, own) tt
      | inr global ↦
          rw (fine, global)
            (persist_confirmed-IsSafe op persist (confirmed_in key resp) resp dir safe)
    ]
    | inr refused ↦ rw refused (same-Unharmed storage dir)
  ]

  routed-IsSafe :
      (dir : Dir) (run : Option String → ℕ → Outcome) (r : Result Error (Option String × ℕ))
      → ((t : Option String) (p : ℕ) → IsSafe storage dir (run t p))
      → IsSafe storage dir (routed dir run r)
  routed-IsSafe dir run (err x) safe = same-Unharmed storage dir
  routed-IsSafe dir run (ok (t, p)) safe = safe t p

module _ (serde : Serde) (env : Env) (storage : Storage) where
  -- A breaks command, whichever of the three, succeeds, or reports an error and leaves the
  -- directory's own state and its lang.json, stops.json and session.json as they were: at most
  -- breaks.lock is new, and a temporary file remains only if its removal fails.
  pub breaks_error-IsSafe :
      (name : String) (dir : Dir) (breaks : List String) (target : Option String)
      → IsSafe storage dir (cmd_breaks_add serde env storage name dir breaks target)
        × IsSafe storage dir (cmd_breaks_remove serde env storage name dir breaks target)
        × IsSafe storage dir (cmd_breaks_clear serde env storage name dir target)
  unfolding cmd_breaks_add cmd_breaks_remove cmd_breaks_clear
  breaks_error-IsSafe name dir breaks target =
      let add = append-IsSafe serde storage in
      let remove = remove-IsSafe serde storage in
      (
        routed-IsSafe serde storage dir _ (route serde env name dir target) λ t p.
            settle-IsSafe serde storage "add" "added" (append_confirmed_breaks_in serde storage) t
              dir _ add,
        routed-IsSafe serde storage dir _ (route serde env name dir target) λ t p.
            settle-IsSafe serde storage "remove" "removed"
              (remove_confirmed_breaks_in serde storage) t dir _ remove,
        routed-IsSafe serde storage dir _ (route serde env name dir target) λ t p.
            settle-IsSafe serde storage "clear" "removed" (remove_confirmed_breaks_in serde storage)
              t dir _ remove,
      )

  route-target :
      (name : String) (dir : Dir) (target t : Option String) (p : ℕ)
      → route serde env name dir target ≡ ok (t, p)
      → normalize_target_for_lang_opt (session_lang_opt serde dir) target ≡ ok t
  unfolding route
  route-target name dir target t p h = ground arith

  normalize-ne_main :
      (lang t : Option String) (target : String)
      → normalize_target_for_lang_opt lang (some target) ≡ ok t
      → target ≢ "main"
      → is_ephemeral_target t ≡ true
  unfolding normalize_target_for_lang_opt is_ephemeral_target
  normalize-ne_main lang t target h k = ground (arith, eq_iff target "main")

settle-ephemeral :
    (op key : String) (persist : Persister) (target : Option String) (dir : Dir)
    (answer : Result RequestError Value)
    → is_ephemeral_target target ≡ true
    → (settle op key persist target dir answer).1 ≡ dir
unfolding settle
settle-ephemeral op key persist target dir (err x) h = refl
settle-ephemeral op key persist target dir (ok resp) h = ground arith

routed-unchanged :
    (dir : Dir) (run : Option String → ℕ → Outcome) (r : Result Error (Option String × ℕ))
    → ((t : Option String) (p : ℕ) → r ≡ ok (t, p) → (run t p).1 ≡ dir)
    → (routed dir run r).1 ≡ dir
routed-unchanged dir run (err x) k = refl
routed-unchanged dir run (ok (t, p)) k = k t p refl

module _ (serde : Serde) (env : Env) (storage : Storage) where
  -- A command that names a target other than `main` never changes the directory, whatever the
  -- bridge answers: its breakpoints are the target's own and are not inherited.
  pub ephemeral-unchanged :
      (name : String) (dir : Dir) (breaks : List String) (target : String)
      → target ≢ "main"
      → ((cmd_breaks_add serde env storage name dir breaks (some target)).1 ≡ dir)
        × ((cmd_breaks_remove serde env storage name dir breaks (some target)).1 ≡ dir)
        × ((cmd_breaks_clear serde env storage name dir (some target)).1 ≡ dir)
  unfolding cmd_breaks_add cmd_breaks_remove cmd_breaks_clear
  ephemeral-unchanged name dir breaks target h = (
    routed-unchanged dir _ (route serde env name dir (some target)) λ t p r.
        settle-ephemeral "add" "added" (append_confirmed_breaks_in serde storage) t dir _
          (other t p r),
    routed-unchanged dir _ (route serde env name dir (some target)) λ t p r.
        settle-ephemeral "remove" "removed" (remove_confirmed_breaks_in serde storage) t dir _
          (other t p r),
    routed-unchanged dir _ (route serde env name dir (some target)) λ t p r.
        settle-ephemeral "clear" "removed" (remove_confirmed_breaks_in serde storage) t dir _
          (other t p r),
  )
    where
      other :
          (t : Option String) (p : ℕ)
          → route serde env name dir (some target) ≡ ok (t, p)
          → is_ephemeral_target t ≡ true
      other t p r =
          normalize-ne_main serde env storage (session_lang_opt serde dir) t target
            (route-target serde env storage name dir (some target) t p r) h
