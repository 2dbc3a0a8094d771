-- ===== src/Session/Paths.antt =====
-- src/session/paths.rs: the home root, session names, and directories that must be real.
pub mod Hosts
use Prim.Native.Char.{code}
use agent_debugger.Prelude.{
  List, ℕ, String, Bool, true, false, ◌||◌, Option, none, some, ◌=ˢ◌, ◌==◌, Result, ok, err, ◌>>=◌,
  ◌>>◌, or_fail, if◌then◌else◌, not,
}
use agent_debugger.Json.{Value, get, as_u64, to_u16, and_then}
use agent_debugger.Json.Serde.{Serde}
use agent_debugger.Dap.Text.{is_whitespace}
use agent_debugger.Session.Error.{
  Error, invalid_session_name, home_unset, path_is_symlink, path_not_directory, cannot_stat,
  file_is_symlink, no_session, corrupt_session_file,
}

-- `home.trim().is_empty()`
unfoldable pub is_blank : String → Bool
unfolding is_whitespace
is_blank String.[] = true
is_blank (String.◌∷◌ c s) = if is_whitespace (code c) then is_blank s else false

-- `HOME`, or nothing when it is unset
unfoldable pub agent_home : Option String → Result Error String
unfolding is_blank
agent_home none = err home_unset
agent_home (some home) = if is_blank home then err home_unset else ok home

-- `name.contains(['\\', '/', '\0'])`
unfoldable pub has_separator : String → Bool
has_separator String.[] = false
has_separator (String.◌∷◌ c s) = code c == 92 || code c == 47 || code c == 0 || has_separator s

-- With no separator in it a path has one component: none if it is empty, `CurDir` or `ParentDir`
-- if it is one or two dots, and `Normal` otherwise.
unfoldable pub is_normal_component : String → Bool
is_normal_component name = not (name =ˢ "" || name =ˢ "." || name =ˢ "..")

unfoldable pub check_name : String → Result Error (Unit {0})
unfolding has_separator is_normal_component
check_name name =
    if has_separator name
    then err invalid_session_name
    else if is_normal_component name
    then ok tt
    else err invalid_session_name

-- What `symlink_metadata` says of a path.
pub data Metadata : Type 0 where
  symlink directory regular other : Metadata
  not_found stat_failed : Metadata

unfoldable pub check_dir_real : Metadata → Result Error (Unit {0})
check_dir_real symlink = err path_is_symlink
check_dir_real regular = err path_not_directory
check_dir_real other = err path_not_directory
check_dir_real _ = ok tt

unfoldable pub real_dir_for_delete : Metadata → Result Error Bool
real_dir_for_delete symlink = err path_is_symlink
real_dir_for_delete regular = err path_not_directory
real_dir_for_delete other = err path_not_directory
real_dir_for_delete directory = ok true
real_dir_for_delete not_found = ok false
real_dir_for_delete stat_failed = err cannot_stat

unfoldable pub refuse_symlink : Metadata → Result Error (Unit {0})
refuse_symlink symlink = err file_is_symlink
refuse_symlink stat_failed = err cannot_stat
refuse_symlink _ = ok tt

-- A session's directory: its own metadata, the text of each sidecar that can be read, and what the
-- rewrites of stops.json leave beside it.
pub record Dir : Type 0 where
  pub metadata : Metadata
  pub lang : Option String  -- lang.json
  pub stops : Option String  -- stops.json
  pub session : Option String  -- session.json
  pub breaks_lock : Bool  -- breaks.lock exists
  pub temporaries : List String  -- the temporary files of writes that failed, as far as they remain

unfoldable pub checked_session_dir : Option String → String → Dir → Result Error (Unit {0})
unfolding agent_home check_name check_dir_real
checked_session_dir home name dir = do
  check_name name
  root ← agent_home home
  check_dir_real dir.metadata

unfoldable pub read_session : Serde → Option String → String → Dir → Result Error Value
unfolding checked_session_dir
read_session serde home name dir = do
  checked_session_dir home name dir
  raw ← or_fail dir.session no_session
  or_fail (serde.from_str raw) corrupt_session_file

unfoldable pub session_port : Serde → Option String → String → Dir → Result Error ℕ
unfolding read_session
session_port serde home name dir = do
  session ← read_session serde home name dir
  or_fail (and_then (and_then (get "port" session) as_u64) to_u16) corrupt_session_file
