-- ===== src/Target.antt =====
-- src/spawn.rs: the arguments of a bridge, from the target and the stops that the user named; and
-- what `setup_bridge` of src/session/spawn_lifecycle.rs puts around them.
pub mod Roundtrip
pub mod Readers
pub mod Modules
pub mod Bridge
pub mod Spawn
use agent_debugger.Prelude.{
  ℕ, zero, suc, ◌/◌, ◌%◌, String, Bool, true, false, ◌&&◌, ◌||◌, Option, none, some, ◌=ˢ◌, List, [],
  ◌∷◌, ◌++◌, all, leb, ltb, ◌==◌, Result, ok, err, ◌>>=◌, ◌>>◌, guard, if◌then◌else◌,
}
use Prim.Native.Char.{Char}
use agent_debugger.Dap.Header.{literal}
use agent_debugger.Json.{
  Value, Members, obj, str, num, bool, null, member, no_member, insert, unwrap_or,
}

pub data Target : Type 0 where
  java_launch : (main : String) → (classpath : Option String) → Target
  java_attach : (host : String) → (port : ℕ) → Target
  py_launch : (program module' python : Option String) → (subprocess : Bool) → Target
  py_attach : (host : String) → (port : ℕ) → Target
  node_launch : (program : String) → (node : Option String) → (workers : Bool) → Target
  node_attach : (host : String) → (port : ℕ) → Target
  browser_attach : (host : String) → (port : ℕ) → (tab : Option String) → Target

pub record Stops : Type 0 where
  pub breakpoints : List String
  pub source_paths : List String
  pub logpoints : List String
  pub watches : List String
  pub exits : List String
  pub timeout : ℕ

pub data UsageError : Type 0 where
  needs_exactly_one : UsageError
  bad_module : String → UsageError

-- the character of a digit
abbrev digit_char : ℕ → Char
digit_char d =
    if d == 0
    then "0"
    else if d == 1
    then "1"
    else if d == 2
    then "2"
    else if d == 3
    then "3"
    else if d == 4
    then "4"
    else if d == 5
    then "5"
    else if d == 6
    then "6"
    else if d == 7
    then "7"
    else if d == 8
    then "8"
    else "9"

abbrev digit : ℕ → String → String
digit d s = String.◌∷◌ (digit_char d) s

unfoldable pub show_from : ℕ → ℕ → String → String
show_from zero n out = out
show_from (suc fuel) n out =
    let more = show_from fuel (n / 10) (digit (n % 10) out) in
    if ltb n 10 then digit n out else more

-- `to_string`
unfoldable pub show : ℕ → String
unfolding show_from
show n = show_from (suc n) n ""

abbrev between : ℕ → ℕ → ℕ → Bool
between lo hi c = leb lo c && leb c hi

abbrev pub is_alphabetic : ℕ → Bool
is_alphabetic c = between b'A' b'Z' c || between b'a' b'z' c

abbrev pub starts_name : ℕ → Bool
starts_name c = is_alphabetic c || c == b'_'

abbrev pub continues_name : ℕ → Bool
continues_name c = is_alphabetic c || between b'0' b'9' c || c == b'_'

abbrev pub push_char : ℕ → List (List ℕ) → List (List ℕ)
push_char c [] = (c ∷ []) ∷ []
push_char c (seg ∷ segs) = (c ∷ seg) ∷ segs

-- `split('.')`
unfoldable pub segments : List ℕ → List (List ℕ)
segments [] = [] ∷ []
segments (c ∷ cs) = let rest = segments cs in if c == b'.' then [] ∷ rest else push_char c rest

abbrev pub is_identifier : List ℕ → Bool
is_identifier [] = false
is_identifier (c ∷ cs) = starts_name c && all continues_name cs

abbrev has_chars : List ℕ → Bool
has_chars [] = false
has_chars (_ ∷ _) = true

unfoldable pub module_ok : List ℕ → Bool
unfolding segments
module_ok m = has_chars m && all is_identifier (segments m)

unfoldable pub check_module : String → Result UsageError (Unit {0})
unfolding module_ok
check_module m = guard (module_ok (literal m)) (bad_module m)

abbrev pub opt_flag : String → Option String → List String
opt_flag flag none = []
opt_flag flag (some v) = flag ∷ v ∷ []

abbrev pub bare_flag : String → Bool → List String
bare_flag flag true = flag ∷ []
bare_flag flag false = []

abbrev pub endpoint_args : String → ℕ → List String
endpoint_args host port = "--host" ∷ host ∷ "--port" ∷ show port ∷ []

-- exactly one of a program and a module
abbrev pub one_of : Option String → Option String → Result UsageError (List String)
one_of (some p) none = ok ("--program" ∷ p ∷ [])
one_of none (some m) = do check_module m; ok ("--module" ∷ m ∷ [])
one_of _ _ = err needs_exactly_one

unfoldable pub target_args : Target → Result UsageError (List String)
unfolding check_module show
target_args (java_launch main classpath) =
    ok ("--main" ∷ main ∷ "--cp" ∷ unwrap_or classpath "." ∷ [])
target_args (java_attach host port) = ok (endpoint_args host port)
target_args (py_launch program module' python subprocess) = do
  what ← one_of program module'
  ok (what ++ (opt_flag "--python" python ++ bare_flag "--subprocess" subprocess))
target_args (py_attach host port) = ok (endpoint_args host port)
target_args (node_launch program node workers) =
    ok ("--program" ∷ program ∷ opt_flag "--node" node ++ bare_flag "--workers" workers)
target_args (node_attach host port) = ok (endpoint_args host port)
target_args (browser_attach host port tab) = ok (endpoint_args host port ++ opt_flag "--tab" tab)

abbrev pub each : String → List String → List String
each flag [] = []
each flag (v ∷ vs) = flag ∷ v ∷ each flag vs

unfoldable pub stops_args : Stops → List String
unfolding show
stops_args stops =
    each "--break" stops.breakpoints
    ++ (each "--src" stops.source_paths
        ++ (each "--logpoint" stops.logpoints
            ++ (each "--watch" stops.watches
                ++ (each "--exit" stops.exits ++ "--timeout" ∷ show stops.timeout ∷ []))))

-- The separator goes last.
abbrev pub program_tail : List String → List String
program_tail [] = []
program_tail (a ∷ as') = "--" ∷ a ∷ as'

unfoldable pub bridge_args : Target → Stops → List String → Result UsageError (List String)
unfolding target_args stops_args
bridge_args target stops program_args = do
  args ← target_args target
  ok (args ++ (stops_args stops ++ program_tail program_args))

-- `args.iter().position(|a| a == "--")`, and the seed identity before it
unfoldable pub insert_identity : String → List String → List String
insert_identity identity [] = "--target-identity" ∷ identity ∷ []
insert_identity identity (a ∷ as') =
    let rest = insert_identity identity as' in
    if a =ˢ "--" then "--target-identity" ∷ identity ∷ a ∷ as' else a ∷ rest

-- how the adapter's process is told that it runs a session
abbrev pub session_args : String → String → List String
session_args kind dir = "session" ∷ "--kind" ∷ kind ∷ "--dir" ∷ dir ∷ []

-- the script or the class path comes before
abbrev pub adapter_args : String → String → List String
adapter_args lang installed =
    if lang =ˢ "py" || lang =ˢ "node" || lang =ˢ "browser"
    then installed ∷ []
    else "-cp" ∷ installed ∷ "JdiBridge" ∷ []

unfoldable pub setup_args : String → String → String → String → List String → String → List String
unfolding insert_identity
setup_args lang installed kind dir args identity =
    insert_identity identity (adapter_args lang installed ++ (session_args kind dir ++ args))

abbrev opt_member : String → Option String → Members → Members
opt_member key none m = m
opt_member key (some v) m = insert key (str v) m

abbrev flag_member : String → Bool → Members → Members
flag_member key true m = insert key (bool true) m
flag_member key false m = m

abbrev endpoint_value : String → ℕ → Members → Value
endpoint_value host port rest = obj (member "host" (str host) (member "port" (num port) rest))

abbrev without_pid : Members
without_pid = member "pid" null no_member

abbrev str_or_null : Option String → Value
str_or_null none = null
str_or_null (some s) = str s

-- what the user asked for; `pid` is never known
unfoldable pub requested_target : Target → Value
requested_target (java_launch main classpath) =
    obj (member "main" (str main) (member "classpath" (str (unwrap_or classpath ".")) without_pid))
requested_target (java_attach host port) = endpoint_value host port without_pid
requested_target (py_launch program module' python subprocess) = obj (
    insert "pid" null (
      flag_member "subprocess" subprocess (
        opt_member "python" python
          (opt_member "module" module' (opt_member "program" program no_member)))))
requested_target (py_attach host port) = endpoint_value host port without_pid
requested_target (node_launch program node workers) = obj (
    insert "pid" null (
      flag_member "workers" workers
        (opt_member "node" node (member "program" (str program) no_member))))
requested_target (node_attach host port) = endpoint_value host port without_pid
requested_target (browser_attach host port tab) =
    endpoint_value host port (member "tab" (str_or_null tab) without_pid)
