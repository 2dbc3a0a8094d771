-- ===== src/Tests/Layering.antt =====
-- Layered identities that are stored, cut and shown.
use agent_debugger.Prelude.{
  ℕ, ◌+◌, String, true, false, ◌≡◌, ◌⊎◌, refl, none, some, List, [], arith,
}
use agent_debugger.Dap.Text.{decimal, decimal_from}
use agent_debugger.Json.{
  Value, obj, arr, str, num, null, member, no_member, element, no_element, lookup, to_list,
}
use agent_debugger.Json.Serde.{Serde}
use agent_debugger.Session.Paths.{Dir, directory}
use agent_debugger.Session.Layered.{
  is_layered_identity, sanitize_layered_identity, sanitize_members, fill_roles, reredact_argv_in,
  strings_of, owner_target_identity, cached_target_identity, stops_armed,
}
use agent_debugger.Session.Layered.Cap.{
  chars, take_chars, trunc_string, walk, longest, shrink, cap_loop, cap_identity,
}
use agent_debugger.Session.Layered.Settled.{weight, IsSettled, cap_identity-Settles}
use agent_debugger.Session.Layered.Shape.{target_identity-layered}

abbrev masked : List String → Value
masked argv = arr (element (str "[redacted]") no_element)

abbrev stored : Value
stored = obj (
    member "debuggee"
      (obj
        (member "argv" (arr (element (str "--token") (element (str "s3") no_element))) no_member))
      (member "endpoint" null (member "adapter" (obj no_member) no_member)))

-- a long name
abbrev long_name : Value
long_name = obj (
    member "name" (str "abcdefghijklmnopqrstuvwxyzabcdefghijklmnopqrstuvwxyzabcdefghijkl")
      no_member)

unfoldable long_size : Value → ℕ
unfolding weight
long_size v = 2000 + weight v

layered_runs :
    (is_layered_identity stored ≡ true)
    × (sanitize_layered_identity masked long_size 7 stored
        ≡ obj (
            member "debuggee"
              (obj (member "argv" (arr (element (str "[redacted]") no_element)) no_member))
              (member "endpoint" null (member "adapter" (obj no_member) no_member))))
    × (is_layered_identity (obj (member "pid" null no_member)) ≡ false)
unfolding is_layered_identity sanitize_layered_identity sanitize_members fill_roles reredact_argv_in
    strings_of cap_identity cap_loop walk long_size weight lookup trunc_string take_chars chars
    longest shrink
layered_runs = (refl, refl, refl)

cap_runs :
    cap_identity long_size long_name ≡ obj (member "name" (str "a… (+63 more chars)") no_member)
unfolding cap_identity cap_loop walk long_size weight trunc_string take_chars chars longest shrink
    decimal decimal_from
cap_runs = refl

cap_identity-Settles_example : IsSettled long_size (cap_identity long_size long_name)
unfolding weight walk chars trunc_string
cap_identity-Settles_example = cap_identity-Settles long_size long_name (omega arith)

abbrev session_file : Serde
session_file = record {
  to_vec = λ v. [];
  from_utf8_str = λ bs. none;
  to_string = λ v. "";
  from_str = λ s. some (obj (member "targetIdentity" stored no_member));
}

abbrev owner : Dir
owner = record {
  metadata = directory;
  lang = none;
  stops = none;
  session = some "session";
  breaks_lock = false;
  temporaries = [];
}

target_identity-layered_example :
    (is_layered_identity (owner_target_identity masked long_size 7 session_file owner) ≡ true)
    × ((cached_target_identity masked long_size 7 session_file owner ≡ null)
        ⊎ (is_layered_identity (cached_target_identity masked long_size 7 session_file owner)
            ≡ true))
target_identity-layered_example = target_identity-layered masked long_size 7 session_file owner

owner_runs :
    owner_target_identity masked long_size 7 session_file owner
    ≡ sanitize_layered_identity masked long_size 7 stored
unfolding owner_target_identity is_layered_identity lookup
owner_runs = refl

stops_runs :
    stops_armed (obj (member "breaks" (arr (element null no_element)) no_member))
    ≡ obj (
        member "breaks" (num 1) (
          member "logpoints" (num 0) (member "watches" (num 0) (member "exits" (num 0) no_member))))
unfolding stops_armed lookup to_list
stops_runs = refl
