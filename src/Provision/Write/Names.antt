-- ===== src/Provision/Write/Names.antt =====
-- The name of a temporary file has more dots than the name that it is made from.
use agent_debugger.Prelude.{
  ℕ, suc, ◌+◌, ◌≤◌, ◌<◌, false, ◌≡◌, ◌≢◌, refl, ap, some, none, [], ◌∷◌, ◌++◌, ◌==◌, arith,
  if◌then◌else◌, Bool-cases, inl, inr,
}
use agent_debugger.Dap.Header.{literal}
use agent_debugger.Dap.Text.{decimal}
use agent_debugger.Provision.Disk.{Text, PathBuf, join, same_path}
use agent_debugger.Provision.Disk.Laws.{same_path-eq}
use agent_debugger.Provision.Write.{before_dot, file_stem, with_extension, provision_tmp_name}

abbrev pub dots : Text → ℕ
dots [] = 0
dots (c ∷ cs) = (if c == 46 then 1 else 0) + dots cs

dots-append : (s t : Text) → dots (s ++ t) ≡ dots s + dots t
dots-append [] t = omega arith
dots-append (c ∷ s) t = omega (arith, dots-append s t)

before_dot-dots : (cs : Text) → dots cs ≡ elim (before_dot cs) [ none ↦ 0 | some s ↦ suc (dots s) ]
unfolding before_dot
before_dot-dots [] = refl
before_dot-dots (c ∷ cs) = grind (arith, before_dot-dots cs)

file_stem-dots : (name : Text) → dots name ≤ suc (dots (file_stem name))
unfolding file_stem
file_stem-dots [] = omega arith
file_stem-dots (c ∷ cs) = grind (arith, before_dot-dots cs)

abbrev leaf_dots : PathBuf → ℕ
leaf_dots [] = 0
leaf_dots (name ∷ p) = dots name

module _ (id : ℕ) (dir : PathBuf) (name : Text) (n : ℕ) where
  abbrev suffix : Text
  suffix = literal "tmp." ++ decimal id ++ 46 ∷ decimal n

  tmp-dots : dots name < dots (file_stem name ++ 46 ∷ suffix)
  tmp-dots = grind (arith, file_stem-dots name, dots-append (file_stem name) (46 ∷ suffix))

  tmp_ne : dots name ≢ dots (file_stem name ++ 46 ∷ suffix)
  tmp_ne same = omega (arith, tmp-dots, same)

  tmp_many : (name' : Text) → dots name' ≤ 1 → dots name' ≢ dots (file_stem name ++ 46 ∷ suffix)
  tmp_many name' few same = grind (arith, dots-append (file_stem name) (46 ∷ suffix))

  pub tmp_apart : same_path (join dir name) (provision_tmp_name id (join dir name) n) ≡ false
  unfolding provision_tmp_name with_extension
  tmp_apart =
      elim (Bool-cases (same_path (join dir name) (provision_tmp_name id (join dir name) n))) [
        | inl same ↦ elim (tmp_ne (ap leaf_dots (same_path-eq _ _ same))) [ ]
        | inr apart ↦ apart
      ]

  -- no file name with one dot at most, either
  pub tmp_other :
      (name' : Text)
      → dots name' ≤ 1
      → same_path (join dir name') (provision_tmp_name id (join dir name) n) ≡ false
  unfolding provision_tmp_name with_extension
  tmp_other name' few =
      elim (Bool-cases (same_path (join dir name') (provision_tmp_name id (join dir name) n))) [
        | inl same ↦ elim (tmp_many name' few (ap leaf_dots (same_path-eq _ _ same))) [ ]
        | inr apart ↦ apart
      ]
