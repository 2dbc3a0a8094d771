-- ===== src/Tests/Targeting.antt =====
-- src/spawn.rs at concrete targets.
use agent_debugger.Prelude.{String, true, false, ◌≡◌, refl, none, some, List, [], ◌∷◌, ok, err}
use agent_debugger.Dap.Header.{literal}
use agent_debugger.Target.{
  Target, py_launch, Stops, target_args, stops_args, bridge_args, insert_identity, show, show_from,
  check_module, module_ok, segments, bad_module, needs_exactly_one,
}
use agent_debugger.Json.{insert, obj, member, no_member, str, bool}
use agent_debugger.Target.Spawn.{target_summary, summarize, summary_key}
use agent_debugger.Target.Roundtrip.{pair}
use agent_debugger.Target.Readers.{read_options, java, browser}
use agent_debugger.Target.Modules.{reads_names, module_ok-eq-reads_names}

abbrev py_target : Target
py_target = py_launch none (some "pkg.mod") none true

abbrev stops : Stops
stops = record {
  breakpoints = "app.py:3" ∷ "app.py:9" ∷ [];
  source_paths = [];
  logpoints = "app.py:4:x" ∷ [];
  watches = [];
  exits = [];
  timeout = 20;
}

bridge_args_runs :
    bridge_args py_target stops ("--break" ∷ [])
    ≡ ok (
        "--module" ∷ "pkg.mod" ∷ "--subprocess" ∷ "--break" ∷ "app.py:3" ∷ "--break" ∷ "app.py:9"
        ∷ "--logpoint" ∷ "app.py:4:x" ∷ "--timeout" ∷ "20" ∷ "--" ∷ "--break" ∷ [])
unfolding bridge_args target_args stops_args show show_from check_module module_ok segments
bridge_args_runs = refl

bridge_args_fails :
    (bridge_args (py_launch none none none false) stops [] ≡ err needs_exactly_one)
    × (bridge_args (py_launch none (some "a..b") none false) stops [] ≡ err (bad_module "a..b"))
unfolding bridge_args target_args check_module module_ok segments
bridge_args_fails = (refl, refl)

-- A value that is the separator takes the identity in.
separator_value :
    insert_identity "{}" ("--break" ∷ "--" ∷ "--timeout" ∷ "20" ∷ [])
    ≡ "--break" ∷ "--target-identity" ∷ "{}" ∷ "--" ∷ "--timeout" ∷ "20" ∷ []
unfolding insert_identity
separator_value = refl

abbrev targeted : List String
targeted = "--module" ∷ "pkg.mod" ∷ "--subprocess" ∷ []

-- only the Java bridge takes a watch, and a browser no program
readers_run :
    (read_options java ("--watch" ∷ "a.B.c" ∷ []) ≡ some (pair "--watch" "a.B.c" ∷ [], []))
    × (read_options browser ("--watch" ∷ "a.B.c" ∷ []) ≡ none)
    × (read_options browser ("--" ∷ "x" ∷ []) ≡ none)
unfolding read_options
readers_run = (refl, refl, refl)

module_ok-eq-reads_names_example :
    module_ok (literal "pkg.mod") ≡ reads_names false (literal "pkg.mod")
module_ok-eq-reads_names_example = module_ok-eq-reads_names (literal "pkg.mod")

-- The program's arguments are no part of the summary.
target_summary_runs :
    target_summary
      ("--port" ∷ "9222" ∷ "--workers" ∷ "--tab" ∷ "shop" ∷ "--" ∷ "--port" ∷ "1234" ∷ [])
    ≡ obj (
        member "port"
          (str "9222")
          (member "workers" (bool true) (member "tab" (str "shop") no_member)))
unfolding target_summary summarize summary_key insert
target_summary_runs = refl
