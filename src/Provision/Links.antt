-- ===== src/Provision/Links.antt =====
-- The guards against planted links in src/bridge.rs, and the directories on the managed path.
use agent_debugger.Prelude.{
  Bool, true, false, not, ◌&&◌, Option, none, some, List, [], ◌∷◌, ok, if◌then◌else◌,
}
pub mod Grows
use agent_debugger.Dap.Header.{literal}
use agent_debugger.Provision.Disk.{
  PathBuf, Node, absent, unstatable, symlink, directory, file, special, What, provisioning_dir,
  must_not_be_symlink, cannot_stat, must_be_directory, must_be_regular, Action, pure, bail, ◌>>=◌,
  ◌>>◌, same_path, create_dir_all,
}

abbrev refuse_link_at : PathBuf → What → Node → Action (Unit {0})
refuse_link_at p what absent = pure tt
refuse_link_at p what unstatable = bail (cannot_stat what p)
refuse_link_at p what (symlink _) = bail (must_not_be_symlink what p)
refuse_link_at p what directory = pure tt
refuse_link_at p what (file _) = pure tt
refuse_link_at p what special = pure tt

unfoldable pub refuse_provision_link : PathBuf → What → Action (Unit {0})
refuse_provision_link p what d = refuse_link_at p what (d.tree p) d

abbrev pub is_dir : Node → Bool
is_dir directory = true
is_dir _ = false

abbrev pub is_file : Node → Bool
is_file (file _) = true
is_file _ = false

-- `symlink_metadata(path).is_ok()`
abbrev pub is_statable : Node → Bool
is_statable absent = false
is_statable unstatable = false
is_statable _ = true

abbrev check_kind : PathBuf → Bool → What → Node → Action (Unit {0})
check_kind p want_dir what n =
    if is_statable n && want_dir && not (is_dir n)
    then bail (must_be_directory what p)
    else if is_statable n && not want_dir && not (is_file n)
    then bail (must_be_regular what p)
    else pure tt

unfoldable pub check_provision_path : PathBuf → Bool → What → Action (Unit {0})
unfolding refuse_provision_link
check_provision_path p want_dir what = do
  refuse_provision_link p what
  λ d. check_kind p want_dir what (d.tree p) d

-- The paths from `dir` up to the anchor, or to the root if the anchor is not on the way; and
-- whether it is.
unfoldable pub chain : PathBuf → PathBuf → List PathBuf
chain anchor [] = [] ∷ []
chain anchor (name ∷ p) =
    let rest = chain anchor p in
    if same_path (name ∷ p) anchor then (name ∷ p) ∷ [] else (name ∷ p) ∷ rest

-- `chain[..chain.len() - 1].iter().rev()`, if the last one is the anchor
unfoldable pub below : PathBuf → List PathBuf → List PathBuf → Option (List PathBuf)
below anchor above [] = none
below anchor above (p ∷ []) = if same_path p anchor then some above else none
below anchor above (p ∷ q ∷ rest) = below anchor (p ∷ above) (q ∷ rest)

unfoldable pub refuse_links : List PathBuf → Action (Unit {0})
unfolding refuse_provision_link
refuse_links [] d = (ok tt, d)
refuse_links (p ∷ rest) d =
    let deeper = refuse_links rest in
    (refuse_provision_link p provisioning_dir
        >> (if is_statable (d.tree p) then deeper else pure tt))
      d

abbrev pub refuse_chain : PathBuf → Option (List PathBuf) → Action (Unit {0})
refuse_chain dir none = refuse_provision_link dir provisioning_dir
refuse_chain dir (some managed) = refuse_links managed

unfoldable pub ensure_real_dir_all : PathBuf → PathBuf → Action (Unit {0})
unfolding refuse_links below chain create_dir_all
ensure_real_dir_all anchor dir = do
  refuse_chain dir (below anchor [] (chain anchor dir))
  create_dir_all dir

-- The home directory is the anchor; without one it is a directory that does not exist.
abbrev pub no_home : PathBuf
no_home = literal "nonexistent-agent-home" ∷ []

unfoldable pub ensure_provision_dir : Option PathBuf → PathBuf → Action (Unit {0})
unfolding ensure_real_dir_all
ensure_provision_dir none dir = ensure_real_dir_all no_home dir
ensure_provision_dir (some home) dir = ensure_real_dir_all home dir
