-- ===== src/Target/Spawn.antt =====
-- `cmd_spawn` and `seed_target_identity` of src/spawn.rs, and `target_summary` of
-- src/session/identity.rs.
use agent_debugger.Prelude.{
  ℕ, ◌+◌, String, Bool, true, ◌||◌, Option, none, some, ◌=ˢ◌, List, [], ◌∷◌, map, leb, Result, ok,
  ◌>>=◌, if◌then◌else◌,
}
use agent_debugger.Json.{
  Value, Members, obj, arr, of_list, str, num, bool, member, no_member, insert, unwrap_or, u64_max,
}
use agent_debugger.Session.Sidecar.{schema_version}
use agent_debugger.Target.{
  Target, java_launch, java_attach, py_launch, py_attach, node_launch, node_attach, browser_attach,
  Stops, UsageError, bridge_args, requested_target,
}

-- the display key of an option that has a value
unfoldable pub summary_key : String → Option String
summary_key a =
    if a =ˢ "--program"
    then some "program"
    else if a =ˢ "--module"
    then some "module"
    else if a =ˢ "--main"
    then some "main"
    else if a =ˢ "--port"
    then some "port"
    else if a =ˢ "--host"
    then some "host"
    else if a =ˢ "--tab"
    then some "tab"
    else if a =ˢ "--cp"
    then some "classpath"
    else if a =ˢ "--python"
    then some "python"
    else if a =ˢ "--node"
    then some "node"
    else none

-- what an option without a value records
abbrev record_switch : String → Members → Members
record_switch a m =
    if a =ˢ "--subprocess"
    then insert "subprocess" (bool true) m
    else if a =ˢ "--workers"
    then insert "workers" (bool true) m
    else m

abbrev is_switch : String → Bool
is_switch a = a =ˢ "--subprocess" || a =ˢ "--workers"

-- The loop over the arguments, up to the separator.
unfoldable pub summarize : Members → List String → Members
unfolding summary_key
summarize m [] = m
summarize m (a ∷ []) = record_switch a m
summarize m (a ∷ b ∷ args) =
    let skip_one = summarize (record_switch a m) (b ∷ args) in
    if a =ˢ "--"
    then m
    else if is_switch a
    then skip_one
    else elim (summary_key a) [ none ↦ skip_one | some key ↦ summarize (insert key (str b) m) args ]

unfoldable pub target_summary : List String → Value
unfolding summarize
target_summary args = obj (summarize no_member args)

-- What the seed identity is made from.
pub data Seed : Type 0 where
  launched : (exe : String) → (argv : List String) → Seed
  attached : (host : String) → (port : ℕ) → Seed
  no_seed : Seed

abbrev py_argv : Option String → Option String → List String
py_argv (some p) _ = p ∷ []
py_argv none (some m) = "-m" ∷ m ∷ []
py_argv none none = []

unfoldable pub seed_target_identity : Target → Seed
seed_target_identity (py_launch program module' python subprocess) =
    launched (unwrap_or python "python3") (unwrap_or python "python3" ∷ py_argv program module')
seed_target_identity (node_launch program node workers) =
    launched (unwrap_or node "node") (unwrap_or node "node" ∷ program ∷ [])
seed_target_identity (java_launch main classpath) =
    launched "java" ("java" ∷ "-cp" ∷ unwrap_or classpath "." ∷ main ∷ [])
seed_target_identity (py_attach host port) = attached host port
seed_target_identity (node_attach host port) = attached host port
seed_target_identity (java_attach host port) = attached host port
seed_target_identity (browser_attach host port tab) = no_seed

abbrev strings : List String → Value
strings ss = arr (of_list (map str ss))

-- the intent that `stops.json` keeps
unfoldable pub intent : Stops → List String → Value → Value
unfolding target_summary
intent stops args requested = obj (
    member "schemaVersion" (num schema_version) (
      member "breaks" (strings stops.breakpoints) (
        member "logpoints" (strings stops.logpoints) (
          member "watches" (strings stops.watches) (
            member "exits" (strings stops.exits) (
              member "sources" (strings stops.source_paths) (
                member "timeout" (num stops.timeout) (
                  member "target" (target_summary args)
                    (member "requestedTarget" requested no_member)))))))))

pub record Spec : Type 0 where
  pub lang : String
  pub kind : String
  pub bridge_args : List String
  pub wait_secs : ℕ
  pub stops : Value
  pub requested : Value
  pub seed : Seed

-- `timeout.saturating_add(10)`
abbrev wait_for : ℕ → ℕ
wait_for timeout = if leb (timeout + 10) u64_max then timeout + 10 else u64_max

unfoldable pub cmd_spawn : String → String → Target → Stops → List String → Result UsageError Spec
unfolding bridge_args intent requested_target seed_target_identity
cmd_spawn lang kind target stops program_args = do
  args ← bridge_args target stops program_args
  ok (record {
    lang = lang;
    kind = kind;
    bridge_args = args;
    wait_secs = wait_for stops.timeout;
    stops = intent stops args (requested_target target);
    requested = requested_target target;
    seed = seed_target_identity target;
  })
