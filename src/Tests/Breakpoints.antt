-- ===== src/Tests/Breakpoints.antt =====
-- src/session/breaks.rs at a concrete session.
use agent_debugger.Prelude.{
  false, String, ◌≡◌, ◌≢◌, refl, true, Option, none, some, List, [], ◌∷◌, arith, ◌=ˢ◌, eq_iff,
  if◌then◌else◌, ok,
}
use agent_debugger.Json.{
  Value, Members, bool, num, str, arr, obj, no_member, member, no_element, element, of_list,
  to_list, insert, lookup,
}
use agent_debugger.Json.Serde.{Serde}
use agent_debugger.Session.Paths.{
  Dir, directory, check_name, has_separator, is_normal_component, agent_home, is_blank,
  check_dir_real, checked_session_dir, read_session, session_port,
}
use agent_debugger.Session.Sidecar.{
  require_schema_v2, cli_markers_v2, sidecar_is_v2, session_lang_opt,
}
use agent_debugger.Session.Forward.{Env, normalize_target_for_lang_opt, is_main_only}
use agent_debugger.Session.Breaks.{
  is_ephemeral_target, confirmed_in, raws_of, route, cmd_breaks_add, cmd_breaks_remove,
  cmd_breaks_clear, settle, persist_confirmed, persisted,
}
use agent_debugger.Session.Breaks.Intent.{
  Storage, abandon_write, write_intent, written, new_intent, rewritten_if, rewrite_intent,
  append_confirmed_breaks_in, rewrite_breaks, append_raws, append_raw, has_raw, remove_raws,
  retain_ne,
}
use agent_debugger.Session.Breaks.Listed.{IsExtended, without}
use agent_debugger.Session.Breaks.Gating.{IsSafe, breaks_error-IsSafe, ephemeral-unchanged}
use agent_debugger.Session.Breaks.Persist.{
  IsWorking, Records, Persists, breaks_add-Persists, breaks_remove-Persists,
}

abbrev lang_file : Value
lang_file = obj (member "lang" (str "py") (member "schemaVersion" (num 2) no_member))

abbrev session_file : Value
session_file = obj (member "port" (num 5678) no_member)

abbrev members : Members
members =
    member "breaks" (arr (element (str "a.py:1") no_element))
      (member "schemaVersion" (num 2) (member "timeout" (num 30) no_member))

abbrev members_after : Members
members_after =
    member "breaks" (arr (element (str "a.py:1") (element (str "a.py:2") no_element)))
      (member "schemaVersion" (num 2) (member "timeout" (num 30) no_member))

abbrev members_without : Members
members_without =
    member "breaks" (arr no_element)
      (member "schemaVersion" (num 2) (member "timeout" (num 30) no_member))

-- A serializer that knows the files of this session; `to_string` tells the two rewrites apart.
abbrev read_back : String → Option Value
read_back s =
    if s =ˢ "lang"
    then some lang_file
    else if s =ˢ "session"
    then some session_file
    else if s =ˢ "stops"
    then some (obj members)
    else if s =ˢ "stops with a.py:2"
    then some (obj members_after)
    else some (obj members_without)

abbrev write_out : Value → String
write_out (obj (member k (arr no_element) m)) = "stops without"
write_out _ = "stops with a.py:2"

abbrev files : Serde
files = record {
  to_vec = λ v. [];
  from_utf8_str = λ bs. none;
  to_string = write_out;
  from_str = read_back;
}

abbrev demo : Dir
demo = record {
  metadata = directory;
  lang = some "lang";
  stops = some "stops";
  session = some "session";
  breaks_lock = false;
  temporaries = [];
}

abbrev added : Value
added = obj (
    member "ok" (bool true) (
      member "added" (arr (element (obj (member "raw" (str "a.py:2") no_member)) no_element))
        no_member))

abbrev removed : Value
removed = obj (
    member "ok" (bool true) (
      member "removed" (arr (element (obj (member "raw" (str "a.py:1") no_member)) no_element))
        no_member))

abbrev env_of : Value → Env
env_of resp = record { home = some "/home/me"; request = λ port body secs. ok resp }

abbrev storage : Storage
storage = record {
  checked = ok tt;
  opens = true;
  lock = ok tt;
  writes = true;
  torn = none;
  renames = true;
  cleans = true;
}

-- the disk is full, and what was written stays behind
abbrev full_disk : Storage
full_disk = record storage { writes = false; torn = some "{"; cleans = false }

working : IsWorking storage
working = record { checked = refl; locked = refl; writes = refl; renames = refl }

abbrev list : List Value
list = str "a.py:1" ∷ []

before : Records files demo members list
unfolding lookup to_list
before = record { intent = refl; breaks = refl }

routed :
    (resp : Value) → route files (env_of resp) "demo" demo (some "main") ≡ ok (some "main", 5678)
unfolding route check_name has_separator is_normal_component agent_home is_blank check_dir_real
    checked_session_dir read_session session_port require_schema_v2 cli_markers_v2 sidecar_is_v2
    session_lang_opt normalize_target_for_lang_opt is_main_only lookup
routed resp = refl

breaks_add-Persists_example :
    Persists files added members
      (IsExtended list ("a.py:2" ∷ []))
      (cmd_breaks_add files (env_of added) storage "demo" demo ("a.py:2" ∷ []) (some "main"))
unfolding confirmed_in raws_of lookup append_raws append_raw has_raw is_ephemeral_target insert
    of_list to_list
breaks_add-Persists_example =
    breaks_add-Persists files (env_of added) storage working "demo" demo (some "main") members list
      before (some "main") 5678 (routed added) refl added refl ("a.py:2" ∷ []) refl refl

breaks_remove-Persists_example :
    Persists files removed members
      (λ new. new ≡ without ("a.py:1" ∷ []) list)
      (cmd_breaks_remove files (env_of removed) storage "demo" demo ("a.py:1" ∷ []) (some "main"))
unfolding confirmed_in raws_of lookup remove_raws retain_ne has_raw is_ephemeral_target insert
    of_list to_list
breaks_remove-Persists_example =
    breaks_remove-Persists files (env_of removed) storage working "demo" demo (some "main") members
      list before (some "main") 5678 (routed removed) refl removed refl ("a.py:1" ∷ []) refl refl

abbrev closed : Dir
closed = record demo { session = none }

breaks_error-IsSafe_example :
    IsSafe full_disk demo
      (cmd_breaks_add files (env_of added) full_disk "demo" demo ("a.py:2" ∷ []) none)
    × IsSafe full_disk demo
        (cmd_breaks_remove files (env_of added) full_disk "demo" demo ("a.py:2" ∷ []) none)
    × IsSafe full_disk demo (cmd_breaks_clear files (env_of added) full_disk "demo" demo none)
breaks_error-IsSafe_example =
    breaks_error-IsSafe files (env_of added) full_disk "demo" demo ("a.py:2" ∷ []) none

-- a failed add leaves breaks.lock and the torn file, and stops.json as it was
full_disk_runs :
    (cmd_breaks_add files (env_of added) full_disk "demo" demo ("a.py:2" ∷ []) (some "main")).1
    ≡ record demo { breaks_lock = true; temporaries = "{" ∷ [] }
unfolding cmd_breaks_add settle persist_confirmed persisted append_confirmed_breaks_in
    rewrite_intent rewritten_if written new_intent write_intent abandon_write rewrite_breaks
    is_ephemeral_target lookup confirmed_in raws_of to_list
full_disk_runs = rw (routed added) refl

worker_ne_main : ◌≢◌ {A = String} "worker" "main"
worker_ne_main = ground (arith, eq_iff "worker" "main")

ephemeral-unchanged_example :
    ((cmd_breaks_add files (env_of added) storage "demo" demo ("a.py:2" ∷ []) (some "worker")).1
      ≡ demo)
    × ((cmd_breaks_remove files
          (env_of added)
          storage
          "demo"
          demo
          ("a.py:2" ∷ [])
          (some "worker")).1
        ≡ demo)
    × ((cmd_breaks_clear files (env_of added) storage "demo" demo (some "worker")).1 ≡ demo)
ephemeral-unchanged_example =
    ephemeral-unchanged files (env_of added) storage "demo" demo ("a.py:2" ∷ []) "worker"
      worker_ne_main
