-- ===== src/Provision/Write/Atomic.antt =====
-- A write that is cut short anywhere leaves the old file in place.
use agent_debugger.Prelude.{
  ℕ, ◌+◌, String, false, ◌≡◌, refl, ◌∙◌, ap, arith, Result, ok, err, ◌%◌, ◌^◌,
}
use agent_debugger.Provision.Disk.{
  Text, PathBuf, join, file, Disk, ProvisionError, Action, ◌>>◌, create_new_file, write_all,
  sync_all, rename, remove_file, same_path,
}
use agent_debugger.Provision.Disk.Laws.{draw-tree, same_path_refl}
use agent_debugger.Provision.Write.Names.{tmp_apart}
use agent_debugger.Provision.Write.{
  write_and_rename, atomic_write_provisioned, provision_tmp_name, clean_up,
}

-- `dest` holds the new file after success, and what it held before otherwise; of all other paths
-- only `tmp` may differ.
abbrev pub Swaps :
    PathBuf → PathBuf → String → Disk → Result ProvisionError (Unit {0}) × Disk → Type 0
Swaps tmp dest source d (r, d') =
    (d'.tree dest ≡ elim r [ ok _ ↦ file source | err _ ↦ d.tree dest ])
    × ((q : PathBuf) → same_path q tmp ≡ false → same_path q dest ≡ false → d'.tree q ≡ d.tree q)

-- only `tmp` may differ
abbrev Spares : PathBuf → Disk → Disk → Type 0
Spares tmp d d' = (q : PathBuf) → same_path q tmp ≡ false → d'.tree q ≡ d.tree q

create_new_file-Spares : (tmp : PathBuf) (d : Disk) → Spares tmp d (create_new_file tmp d).1
unfolding create_new_file
create_new_file-Spares tmp d q e = grind (arith, draw-tree d)

write_all-Spares : (tmp : PathBuf) (s : String) (d : Disk) → Spares tmp d (write_all tmp s d).1
unfolding write_all
write_all-Spares tmp s d q e = grind (arith, draw-tree d)

write_all-tree :
    (tmp : PathBuf) (s : String) (d : Disk)
    → (write_all tmp s d).0 ≡ ok tt
    → (write_all tmp s d).1.tree tmp ≡ file s
unfolding write_all
write_all-tree tmp s d done = grind (arith, draw-tree d, same_path_refl tmp)

sync_all-tree : (tmp : PathBuf) (d : Disk) → (sync_all tmp d).1.tree ≡ d.tree
unfolding sync_all
sync_all-tree tmp d = grind (arith, draw-tree d)

rename-Swaps :
    (tmp dest : PathBuf) (s : String) (d : Disk)
    → same_path dest tmp ≡ false
    → d.tree tmp ≡ file s
    → Swaps tmp dest s d (rename tmp dest d)
unfolding rename
rename-Swaps tmp dest s d apart written =
    (grind (arith, draw-tree d, same_path_refl dest), λ q e e'. grind (arith, draw-tree d))

remove_file-Spares : (tmp : PathBuf) (d : Disk) → Spares tmp d (remove_file tmp d)
unfolding remove_file
remove_file-Spares tmp d q e = grind (arith, draw-tree d)

module _ (tmp dest : PathBuf) (s : String) (apart : same_path dest tmp ≡ false) where
  Swaps-trans :
      (d d' : Disk) (x : Result ProvisionError (Unit {0}) × Disk)
      → Spares tmp d d'
      → Swaps tmp dest s d' x
      → Swaps tmp dest s d x
  Swaps-trans d d' (ok done, d'') spares swaps = (swaps.0, λ q e e'. swaps.1 q e e' ∙ spares q e)
  Swaps-trans d d' (err e, d'') spares swaps =
      (swaps.0 ∙ spares dest apart, λ q e e'. swaps.1 q e e' ∙ spares q e)

  Spares-err : (d d' : Disk) (e : ProvisionError) → Spares tmp d d' → Swaps tmp dest s d (err e, d')
  Spares-err d d' e spares = (spares dest apart, λ q a b. spares q a)

  bind-Swaps :
      (d : Disk) (x : Result ProvisionError (Unit {0}) × Disk) (k : Action (Unit {0}))
      → Spares tmp d x.1
      → (x.0 ≡ ok tt → Swaps tmp dest s x.1 (k x.1))
      → Swaps tmp dest s d (((λ _. x) >> k) d)
  bind-Swaps d (ok tt, d') k spares next = Swaps-trans d d' (k d') spares (next refl)
  bind-Swaps d (err e, d') k spares next = Spares-err d d' e spares

  write_and_rename-Swaps : (d : Disk) → Swaps tmp dest s d (write_and_rename tmp dest s d)
  unfolding write_and_rename
  write_and_rename-Swaps d =
      let d1 = (create_new_file tmp d).1 in
      let d2 = (write_all tmp s d1).1 in
      let d3 = (sync_all tmp d2).1 in
      let same = sync_all-tree tmp d2 in
      bind-Swaps d (create_new_file tmp d) (write_all tmp s >> (sync_all tmp >> rename tmp dest))
        (create_new_file-Spares tmp d)
        λ made.
          bind-Swaps d1 (write_all tmp s d1) (sync_all tmp >> rename tmp dest)
            (write_all-Spares tmp s d1)
            λ written.
              bind-Swaps d2 (sync_all tmp d2) (rename tmp dest) (λ q e. ap (λ t. t q) same)
                λ synced.
                  rename-Swaps tmp dest s d3 apart
                    (ap (λ t. t tmp) same ∙ write_all-tree tmp s d1 written)

  clean_up-Swaps :
      (d : Disk) (x : Result ProvisionError (Unit {0}) × Disk)
      → Swaps tmp dest s d x
      → Swaps tmp dest s d (clean_up tmp (λ _. x) d)
  clean_up-Swaps d (ok done, d') swaps = swaps
  clean_up-Swaps d (err e, d') swaps = (
    remove_file-Spares tmp d' dest apart ∙ swaps.0,
    λ q a b. remove_file-Spares tmp d' q a ∙ swaps.1 q a b,
  )

-- However its calls go, `atomic_write_provisioned` to a file in a directory either succeeds, and
-- then that file holds the new text, or fails, and then the file is as it was; no other path
-- changes but that of the temporary file.
pub atomic_write-Swaps :
    (id : ℕ) (dir : PathBuf) (name : Text) (source : String) (d : Disk)
    → Swaps
        (provision_tmp_name id (join dir name) d.counter)
        (join dir name)
        source
        d
        (atomic_write_provisioned id (join dir name) source d)
unfolding atomic_write_provisioned
atomic_write-Swaps id dir name source d =
    let tmp = provision_tmp_name id (join dir name) d.counter in
    let counted = record d { counter = (d.counter + 1) % 2 ^ 64 } in
    clean_up-Swaps tmp (join dir name) source (tmp_apart id dir name d.counter) d
      (write_and_rename tmp (join dir name) source counted)
      (write_and_rename-Swaps tmp (join dir name) source (tmp_apart id dir name d.counter) counted)
