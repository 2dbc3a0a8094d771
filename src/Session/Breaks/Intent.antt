-- ===== src/Session/Breaks/Intent.antt =====
-- The breaks list of stops.json: its counting, and its rewrites under the lock.
use Prim.Native.Char.{code}
use text.Mathlib.Text.{starts_with}
use agent_debugger.Prelude.{
  ℕ, suc, String, Bool, false, not, ◌||◌, none, some, ◌=ˢ◌, ◌==◌, List, [], ◌∷◌, ◌++◌, any, Option,
  Result, ok, err, ◌>>=◌, ◌>>◌, or_fail, if◌then◌else◌,
}
use agent_debugger.Json.{
  Value, str, arr, obj, of_list, get, lookup, insert, as_str, as_array, and_then, unwrap_or,
}
use agent_debugger.Json.Serde.{Serde}
use agent_debugger.Session.Error.{
  Error, cannot_read_intent, corrupt_intent, breaks_not_a_list, cannot_persist_intent,
}
use agent_debugger.Session.Paths.{Dir}

-- `s.split('|').next()`
unfoldable pub before_bar : String → String
before_bar String.[] = String.[]
before_bar (String.◌∷◌ c s) =
    let rest = before_bar s in if code c == 124 then String.[] else String.◌∷◌ c rest

-- `method:` and `exc` forms are startup stops, not line breaks
unfoldable pub is_line_break : Value → Bool
unfolding before_bar
is_line_break v =
    let head = before_bar (unwrap_or (as_str v) "") in
    not (starts_with head "method:" || head =ˢ "exc" || starts_with head "exc:")

unfoldable pub count_line_breaks : List Value → ℕ
unfolding is_line_break
count_line_breaks [] = 0
count_line_breaks (v ∷ vs) =
    let rest = count_line_breaks vs in if is_line_break v then suc rest else rest

unfoldable pub persisted_line_breaks_in : Serde → Dir → ℕ
unfolding count_line_breaks
persisted_line_breaks_in serde dir =
    count_line_breaks (
      unwrap_or (and_then (and_then (and_then dir.stops serde.from_str) (get "breaks")) as_array)
        [])

-- `v.as_str() == Some(r)`
unfoldable pub has_raw : String → Value → Bool
has_raw r v = elim (as_str v) [ none ↦ false | some s ↦ s =ˢ r ]

unfoldable pub append_raw : List Value → String → List Value
unfolding has_raw
append_raw list r = if any (has_raw r) list then list else list ++ str r ∷ []

unfoldable pub append_raws : List Value → List String → List Value
unfolding append_raw
append_raws list [] = list
append_raws list (r ∷ rs) = append_raws (append_raw list r) rs

-- `list.retain(|v| v.as_str() != Some(r))`
unfoldable pub retain_ne : String → List Value → List Value
unfolding has_raw
retain_ne r [] = []
retain_ne r (v ∷ vs) = let rest = retain_ne r vs in if has_raw r v then rest else v ∷ rest

unfoldable pub remove_raws : List Value → List String → List Value
unfolding retain_ne
remove_raws list [] = list
remove_raws list (r ∷ rs) = remove_raws (retain_ne r list) rs

-- The `breaks` array of an intent rewritten in place; every other member stays.
unfoldable pub rewrite_breaks : (List Value → List Value) → Value → Result Error Value
rewrite_breaks f (obj m) = elim (and_then (lookup "breaks" m) as_array) [
  | none ↦ err breaks_not_a_list
  | some list ↦ ok (obj (insert "breaks" (arr (of_list (f list))) m))
]
rewrite_breaks f _ = err breaks_not_a_list

-- What a rewrite meets, in the order in which it looks.
pub record Storage : Type 0 where
  pub checked : Result Error (Unit {0})  -- the directory, once more
  pub opens : Bool  -- `acquire_breaks_lock` has opened breaks.lock, and so created it
  pub lock : Result Error (Unit {0})  -- what it returns
  pub writes : Bool  -- of the temporary file
  pub torn : Option String  -- what a failed write leaves in it, if it was created
  pub renames : Bool
  pub cleans : Bool  -- the removal of the temporary file, its result ignored

-- `atomic_tmp_name` gives every write a name of its own
abbrev pub add_temporary : Option String → List String → List String
add_temporary none files = files
add_temporary (some text) files = text ∷ files

module _ (serde : Serde) (storage : Storage) where
  -- the temporary file is removed, or stays as it is
  unfoldable pub abandon_write : Option String → Dir → Result Error (Unit {0}) × Dir
  abandon_write left dir = (
    err cannot_persist_intent,
    if storage.cleans then dir else record dir { temporaries = add_temporary left dir.temporaries },
  )

  -- write the temporary file, and rename it onto stops.json
  unfoldable pub write_intent : String → Dir → Result Error (Unit {0}) × Dir
  unfolding abandon_write
  write_intent text dir =
      if storage.writes
      then (if storage.renames
          then (ok tt, record dir { stops = some text })
          else abandon_write (some text) dir)
      else abandon_write storage.torn dir

  -- the new intent, under the lock
  unfoldable pub new_intent : (List Value → List Value) → Dir → Result Error Value
  unfolding rewrite_breaks
  new_intent f dir = do
    storage.lock
    raw ← or_fail dir.stops cannot_read_intent
    intent ← or_fail (serde.from_str raw) corrupt_intent
    rewrite_breaks f intent

  unfoldable pub written : Dir → Result Error Value → Result Error (Unit {0}) × Dir
  unfolding write_intent
  written dir (err e) = (err e, dir)
  written dir (ok intent) = write_intent (serde.to_string intent) dir

  abbrev pub opened : Dir → Dir
  opened dir = record dir { breaks_lock = dir.breaks_lock || storage.opens }

  unfoldable pub rewritten_if :
      Result Error (Unit {0}) → (List Value → List Value) → Dir → Result Error (Unit {0}) × Dir
  unfolding new_intent written
  rewritten_if (err e) f dir = (err e, dir)
  rewritten_if (ok _) f dir = written (opened dir) (new_intent f dir)

  unfoldable pub rewrite_intent : (List Value → List Value) → Dir → Result Error (Unit {0}) × Dir
  unfolding rewritten_if
  rewrite_intent f dir = rewritten_if storage.checked f dir

  unfoldable pub append_confirmed_breaks_in : Dir → List String → Result Error (Unit {0}) × Dir
  unfolding rewrite_intent append_raws
  append_confirmed_breaks_in dir raws = rewrite_intent (λ list. append_raws list raws) dir

  unfoldable pub remove_confirmed_breaks_in : Dir → List String → Result Error (Unit {0}) × Dir
  unfolding rewrite_intent remove_raws
  remove_confirmed_breaks_in dir raws = rewrite_intent (λ list. remove_raws list raws) dir
