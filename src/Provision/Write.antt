-- ===== src/Provision/Write.antt =====
-- `provision_tmp_name`, `atomic_write_provisioned` and `file_matches` of src/bridge.rs.
pub mod Names
pub mod Atomic
use agent_debugger.Prelude.{
  ℕ, ◌+◌, ◌%◌, ◌^◌, String, Bool, false, Option, none, some, ◌=ˢ◌, ◌==◌, [], ◌∷◌, ◌++◌, ok, err,
  if◌then◌else◌,
}
use agent_debugger.Dap.Header.{literal}
use agent_debugger.Dap.Text.{decimal}
use agent_debugger.Provision.Disk.{
  Text, PathBuf, Node, symlink, to_file, file, Disk, Action, ◌>>=◌, ◌>>◌, create_new_file,
  write_all, sync_all, rename, remove_file,
}

-- what stands before the last dot, if there is one
unfoldable pub before_dot : Text → Option Text
before_dot [] = none
before_dot (c ∷ cs) = elim (before_dot cs) [
  | none ↦ if c == 46 then some [] else none
  | some s ↦ some (c ∷ s)
]

-- `Path::file_stem`: a dot in front does not count.
unfoldable pub file_stem : Text → Text
unfolding before_dot
file_stem [] = []
file_stem (c ∷ cs) = elim (before_dot cs) [ none ↦ c ∷ cs | some s ↦ c ∷ s ]

unfoldable pub with_extension : PathBuf → Text → PathBuf
unfolding file_stem
with_extension [] extension = []
with_extension (name ∷ p) extension = (file_stem name ++ 46 ∷ extension) ∷ p

unfoldable pub provision_tmp_name : ℕ → PathBuf → ℕ → PathBuf
unfolding with_extension
provision_tmp_name pid dest n =
    with_extension dest (literal "tmp." ++ decimal pid ++ 46 ∷ decimal n)

-- one exclusive file in the same directory, then a rename
unfoldable pub write_and_rename : PathBuf → PathBuf → String → Action (Unit {0})
unfolding create_new_file write_all sync_all rename
write_and_rename tmp dest source = do
  create_new_file tmp
  write_all tmp source
  sync_all tmp
  rename tmp dest

abbrev pub clean_up : PathBuf → Action (Unit {0}) → Action (Unit {0})
clean_up tmp m d =
    let (r, d') = m d in elim r [ ok done ↦ (ok done, d') | err e ↦ (err e, remove_file tmp d') ]

unfoldable pub atomic_write_provisioned : ℕ → PathBuf → String → Action (Unit {0})
unfolding write_and_rename remove_file provision_tmp_name
atomic_write_provisioned pid dest source d =
    let tmp = provision_tmp_name pid dest d.counter in
    clean_up tmp (write_and_rename tmp dest source)
      (record d { counter = (d.counter + 1) % 2 ^ 64 })

-- The read follows a link.
abbrev pub content_is : String → Node → Bool
content_is source (file existing) = existing =ˢ source
content_is source (symlink (to_file existing)) = existing =ˢ source
content_is source _ = false

unfoldable pub file_matches : PathBuf → String → Disk → Bool
file_matches p source d = content_is source (d.tree p)
