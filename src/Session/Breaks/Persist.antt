-- ===== src/Session/Breaks/Persist.antt =====
-- What a confirmed breaks command leaves in stops.json.
use agent_debugger.Prelude.{
  ℕ, String, true, false, ◌≡◌, ◌≢◌, refl, Option, some, List, [], ◌∷◌, arith, Result, ok, eq_iff,
  length,
}
use agent_debugger.Json.{
  Value, Members, arr, obj, get_flag, lookup, insert, as_array, and_then, of_list,
}
use agent_debugger.Json.Laws.{lookup-insert, to_list-of_list}
use agent_debugger.Json.Serde.{Serde, TextBack}
use agent_debugger.Session.Error.{Error}
use agent_debugger.Session.Paths.{Dir}
use agent_debugger.Session.Forward.{Env, stamp_main, with_target}
use agent_debugger.Session.Breaks.Intent.{
  Storage, append_raws, remove_raws, rewrite_intent, rewrite_breaks, new_intent, write_intent,
  written, rewritten_if, opened,
}
use agent_debugger.Session.Breaks.Listed.{
  IsExtended, without, append_raws-IsExtended, remove_raws-without,
}
use agent_debugger.Session.Breaks.{
  is_ephemeral_target, forward_bound, persist_confirmed, confirmed_in, settle, route,
  cmd_breaks_add, cmd_breaks_remove, breaks_body,
}

-- the intent that a directory records
abbrev pub intent_of : Serde → Dir → Option Value
intent_of serde dir = and_then dir.stops serde.from_str

-- The directory records the object `m`, and its `breaks` member is the list.
pub record Records (serde : Serde) (dir : Dir) (m : Members) (list : List Value) : Type 0 where
  pub intent : intent_of serde dir ≡ some (obj m)
  pub breaks : and_then (lookup "breaks" m) as_array ≡ some list

-- the members after a rewrite
abbrev pub with_breaks : List Value → Members → Members
with_breaks list m = insert "breaks" (arr (of_list list)) m

-- The directory is still one, the lock is taken, and the file is written and renamed.
pub record IsWorking (storage : Storage) : Type 0 where
  pub checked : storage.checked ≡ ok tt
  pub locked : storage.lock ≡ ok tt
  pub writes : storage.writes ≡ true
  pub renames : storage.renames ≡ true

pub breaks-with_breaks :
    (list : List Value) (m : Members)
    → and_then (lookup "breaks" (with_breaks list m)) as_array ≡ some list
breaks-with_breaks list m =
    ground (arith, lookup-insert "breaks" "breaks" (arr (of_list list)) m, to_list-of_list list)

-- A rewrite of the breaks list keeps every other member of the intent.
pub lookup-with_breaks :
    (k : String) (list : List Value) (m : Members)
    → k ≢ "breaks"
    → lookup k (with_breaks list m) ≡ lookup k m
lookup-with_breaks k list m h =
    ground (arith, lookup-insert "breaks" k (arr (of_list list)) m, eq_iff "breaks" k)

-- the directory after a rewrite of the breaks list
abbrev pub rewritten : Serde → Storage → Dir → Members → List Value → Dir
rewritten serde storage dir m list = record (opened serde storage dir) {
  stops = some (serde.to_string (obj (with_breaks list m)));
}

module _ (serde : Serde) (storage : Storage) where
  rewrite_intent-eq :
      (f : List Value → List Value) (dir : Dir) (m : Members) (list : List Value)
      → IsWorking storage
      → Records serde dir m list
      → rewrite_intent serde storage f dir ≡ (ok tt, rewritten serde storage dir m (f list))
  unfolding rewrite_intent rewritten_if written new_intent write_intent rewrite_breaks
  rewrite_intent-eq f dir m list works r = ground arith

rewritten-Records :
    (serde : Serde) (storage : Storage) (dir : Dir) (m : Members) (list : List Value)
    → TextBack serde (obj (with_breaks list m))
    → Records serde (rewritten serde storage dir m list) (with_breaks list m) list
rewritten-Records serde storage dir m list back = record {
  intent = back;
  breaks = breaks-with_breaks list m;
}

-- The stamped answer, and a record of an intent with such a list, in which nothing else has changed.
abbrev pub Persists :
    Serde → Value → Members → (List Value → Type 0) → Result Error Value × Dir → Type 0
Persists serde resp m IsList out =
    (m' : Members) × (list : List Value) × (out.0 ≡ ok (stamp_main resp))
    × Records serde out.1 m' list
    × IsList list
    × ((k : String) → k ≢ "breaks" → lookup k m' ≡ lookup k m)

abbrev Rewrite : Type 0
Rewrite = List Value → List String → List Value

persist_confirmed-Persists :
    (serde : Serde) (storage : Storage) (f : Rewrite) (op : String) (resp : Value) (dir : Dir)
    (m : Members) (list : List Value) (raws : List String) (IsList : List Value → Type 0)
    → IsList (f list raws)
    → IsWorking storage
    → Records serde dir m list
    → f list [] ≡ list
    → TextBack serde (obj (with_breaks (f list raws) m))
    → Persists serde resp m IsList
        (persist_confirmed op (λ d rs. rewrite_intent serde storage (λ l. f l rs) d) raws resp dir)
unfolding persist_confirmed
persist_confirmed-Persists serde storage f op resp dir m list [] IsList is_list works before same
      back =
    (m, f list [], refl, rw same before, is_list, λ k h. refl)
persist_confirmed-Persists serde storage f op resp dir m list (r ∷ rs) IsList is_list works before
      same back =
    rw (rewrite_intent-eq serde storage (λ l. f l (r ∷ rs)) dir m list works before) (
      with_breaks (f list (r ∷ rs)) m,
      f list (r ∷ rs),
      refl,
      rewritten-Records serde storage dir m (f list (r ∷ rs)) back,
      is_list,
      λ k h. lookup-with_breaks k (f list (r ∷ rs)) m h,
    )

module _ (serde : Serde) (env : Env) (storage : Storage) (works : IsWorking storage) (name : String)
    (dir : Dir) (target : Option String) (m : Members) (list : List Value)
    (before : Records serde dir m list) (t : Option String) (port : ℕ)
    (routed : route serde env name dir target ≡ ok (t, port))
    (global : is_ephemeral_target t ≡ false) (resp : Value)
    (is_ok : get_flag "ok" resp ≡ true) where
  settle-Persists :
      (op key : String) (f : Rewrite) (IsList : List Value → Type 0)
      → IsList (f list (confirmed_in key resp))
      → f list [] ≡ list
      → TextBack serde (obj (with_breaks (f list (confirmed_in key resp)) m))
      → Persists serde resp m IsList
          (settle op key (λ d rs. rewrite_intent serde storage (λ l. f l rs) d) t dir (ok resp))
  unfolding settle
  settle-Persists op key f IsList is_list same back =
      rw (is_ok, global)
        (persist_confirmed-Persists serde storage f op resp dir m list (confirmed_in key resp)
          IsList is_list works before same back)

  -- After a global `breaks add` that the bridge serves, with a stops.json that has a breaks list, a
  -- working lock and disk, and a new intent that the serializer reads back, the command answers with
  -- the bridge's stamped response, and stops.json records the old entries in their order, then
  -- strings that were not among them, none twice, so that it lists exactly what it listed before and
  -- the confirmed strings; and every other member is as it was.
  pub breaks_add-Persists :
      (breaks : List String)
      → env.request port
          (with_target t (breaks_body "breaksAdd" breaks))
          (forward_bound (length breaks))
        ≡ ok resp
      → TextBack serde (obj (with_breaks (append_raws list (confirmed_in "added" resp)) m))
      → Persists serde resp m
          (IsExtended list (confirmed_in "added" resp))
          (cmd_breaks_add serde env storage name dir breaks target)
  unfolding cmd_breaks_add append_raws
  breaks_add-Persists breaks answered back =
      rw (routed, answered)
        (settle-Persists "add" "added" append_raws (IsExtended list (confirmed_in "added" resp))
          (append_raws-IsExtended list (confirmed_in "added" resp)) refl back)

  -- After a global `breaks remove` that the bridge serves, with a stops.json that has a breaks list,
  -- a working lock and disk, and a new intent that the serializer reads back, the command answers
  -- with the bridge's stamped response, and stops.json records the old list without every entry that
  -- is one of the confirmed strings, and every other member as it was.
  pub breaks_remove-Persists :
      (breaks : List String)
      → env.request port
          (with_target t (breaks_body "breaksRemove" breaks))
          (forward_bound (length breaks))
        ≡ ok resp
      → TextBack serde (obj (with_breaks (remove_raws list (confirmed_in "removed" resp)) m))
      → Persists serde resp m
          (λ new. new ≡ without (confirmed_in "removed" resp) list)
          (cmd_breaks_remove serde env storage name dir breaks target)
  unfolding cmd_breaks_remove remove_raws
  breaks_remove-Persists breaks answered back =
      rw (routed, answered)
        (settle-Persists "remove" "removed" remove_raws
          (λ new. new ≡ without (confirmed_in "removed" resp) list)
          (remove_raws-without list (confirmed_in "removed" resp)) refl back)
