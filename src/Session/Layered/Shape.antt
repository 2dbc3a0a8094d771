-- ===== src/Session/Layered/Shape.antt =====
-- What leaves the command line as an identity has the layered shape.
use agent_debugger.Prelude.{
  and-left, and-right, ℕ, String, Bool, true, false, ◌&&◌, ◌≡◌, ◌⊎◌, refl, sym, ◌∙◌, ap, subst,
  Option, none, some, ◌=ˢ◌, List, all, any, eq_iff, Bool-cases, inl, inr,
}
use agent_debugger.Json.{
  Value, Members, is_object, obj, arr, str, num, real, bool, null, member, no_member, lookup,
}
use agent_debugger.Json.Serde.{Serde}
use agent_debugger.Session.Paths.{Dir}
use agent_debugger.Session.Layered.Cap.{cap-obj}
use agent_debugger.Session.Layered.{
  roles, flat_keys, is_role, has_key, layered_members, is_layered_identity, reredact_argv_in,
  sanitize_member, sanitize_members, fill_roles, sanitize_layered_identity,
  layered_identity_or_null, unavailable_identity, owner_identity_of, owner_target_identity,
  cached_target_identity, stored_identity,
}

abbrev map_option : (Value → Value) → Option Value → Option Value
map_option f none = none
map_option f (some v) = some (f v)

abbrev is_found : Option Value → Bool
is_found none = false
is_found (some _) = true

module _ (redact : List String → Value) (size : Value → ℕ) (now : ℕ) where
  lookup-sanitize :
      (k : String) (m : Members)
      → lookup k (sanitize_members redact size now m)
        ≡ map_option (sanitize_member redact size now k) (lookup k m)
  unfolding lookup sanitize_members
  lookup-sanitize k no_member = refl
  lookup-sanitize k (member j v m) = elim (Bool-cases (j =ˢ k)) [
    | inl same ↦
        rw same (ap (λ i. some (sanitize_member redact size now i v)) ((eq_iff j k).0 same))
    | inr other ↦ rw other (lookup-sanitize k m)
  ]

  is_found-map : (f : Value → Value) (o : Option Value) → is_found (map_option f o) ≡ is_found o
  is_found-map f none = refl
  is_found-map f (some v) = refl

  has_key-sanitize :
      (k : String) (m : Members) → has_key k (sanitize_members redact size now m) ≡ has_key k m
  has_key-sanitize k m =
      ap is_found (lookup-sanitize k m)
      ∙ is_found-map (sanitize_member redact size now k) (lookup k m)

  obj-role : (v : Value) → is_object v ≡ true → is_role (some v) ≡ true
  obj-role (obj m) e = refl
  obj-role (arr vs) e = cc
  obj-role (str s) e = cc
  obj-role (num n) e = cc
  obj-role (real s) e = cc
  obj-role (bool b) e = cc
  obj-role null e = cc

  role-sanitize :
      (k : String) (o : Option Value)
      → any (λ role. role =ˢ k) roles ≡ true
      → is_role o ≡ true
      → is_role (map_option (sanitize_member redact size now k) o) ≡ true
  unfolding reredact_argv_in
  role-sanitize k none listed role = role
  role-sanitize k (some (obj m)) listed role = rw listed (obj-role _ (cap-obj size _))
  role-sanitize k (some null) listed role = rw listed refl
  role-sanitize k (some (arr vs)) listed role = cc
  role-sanitize k (some (str s)) listed role = cc
  role-sanitize k (some (num n)) listed role = cc
  role-sanitize k (some (real s)) listed role = cc
  role-sanitize k (some (bool b)) listed role = cc

  role-found : (o : Option Value) → is_role o ≡ true → is_found o ≡ true
  role-found none role = cc
  role-found (some v) role = refl

  three : (a b c : Bool) → (a && (b && (c && true))) ≡ true → (a ≡ true) × (b ≡ true) × (c ≡ true)
  three a b c e = (
    and-left a _ e,
    and-left b _ (and-right a _ e),
    and-left c true (and-right b _ (and-right a _ e)),
  )

  module _ (m : Members) (layered : layered_members m ≡ true) where
    abbrev kept : Members
    kept = sanitize_members redact size now m

    roles_in :
        (is_role (lookup "debuggee" m) ≡ true)
        × (is_role (lookup "endpoint" m) ≡ true)
        × (is_role (lookup "adapter" m) ≡ true)
    roles_in = three _ _ _ (and-left (all (λ role. is_role (lookup role m)) roles) _ layered)

    kept-role :
        (k : String)
        → any (λ role. role =ˢ k) roles ≡ true
        → is_role (lookup k m) ≡ true
        → is_role (lookup k kept) ≡ true
    kept-role k listed role =
        ap is_role (lookup-sanitize k m) ∙ role-sanitize k (lookup k m) listed role

    kept-roles : all (λ role. is_role (lookup role kept)) roles ≡ true
    kept-roles =
        rw
          (
            kept-role "debuggee" refl roles_in.0,
            kept-role "endpoint" refl roles_in.1,
            kept-role "adapter" refl roles_in.2,
          )
          refl

    kept-flat : any (λ k. has_key k kept) flat_keys ≡ any (λ k. has_key k m) flat_keys
    kept-flat =
        rw
          (
            has_key-sanitize "pid" m,
            has_key-sanitize "argv" m,
            has_key-sanitize "executable" m,
            has_key-sanitize "cwd" m,
          )
          refl

    kept-layered : layered_members kept ≡ true
    kept-layered =
        rw (kept-roles, kept-flat)
          (and-right (all (λ role. is_role (lookup role m)) roles) _ layered)

    fill-kept : fill_roles redact size now roles kept ≡ kept
    unfolding fill_roles
    fill-kept =
        rw
          (
            role-found _ (kept-role "debuggee" refl roles_in.0),
            role-found _ (kept-role "endpoint" refl roles_in.1),
            role-found _ (kept-role "adapter" refl roles_in.2),
          )
          refl

    sanitize-layered :
        is_layered_identity (sanitize_layered_identity redact size now (obj m)) ≡ true
    unfolding is_layered_identity sanitize_layered_identity
    sanitize-layered = subst (λ r. layered_members r ≡ true) (sym fill-kept) kept-layered

  unavailable-layered :
      (reason : String) → is_layered_identity (unavailable_identity redact size now reason) ≡ true
  unfolding is_layered_identity unavailable_identity lookup
  unavailable-layered reason = refl

  sanitize-again :
      (v : Value)
      → is_layered_identity v ≡ true
      → is_layered_identity (sanitize_layered_identity redact size now v) ≡ true
  unfolding is_layered_identity
  sanitize-again (obj m) layered = sanitize-layered m layered
  sanitize-again (arr vs) layered = cc
  sanitize-again (str s) layered = cc
  sanitize-again (num n) layered = cc
  sanitize-again (real s) layered = cc
  sanitize-again (bool b) layered = cc
  sanitize-again null layered = cc

  owner-layered :
      (stored : Option Value)
      → is_layered_identity (owner_identity_of redact size now stored) ≡ true
  owner-layered none = unavailable-layered _
  owner-layered (some v) = elim (Bool-cases (is_layered_identity v)) [
    | inl layered ↦ rw layered (sanitize-again v layered)
    | inr other ↦ rw other (unavailable-layered _)
  ]

  stored-layered :
      (stored : Option Value)
      → (layered_identity_or_null redact size now stored ≡ null)
        ⊎ (is_layered_identity (layered_identity_or_null redact size now stored) ≡ true)
  unfolding layered_identity_or_null
  stored-layered none = inl refl
  stored-layered (some v) = elim (Bool-cases (is_layered_identity v)) [
    | inl layered ↦ rw layered (inr (sanitize-again v layered))
    | inr other ↦ rw other (inl refl)
  ]

  -- Whatever a session directory stores, `owner_target_identity` is a layered identity, and
  -- `cached_target_identity` is one or null.
  pub target_identity-layered :
      (serde : Serde) (dir : Dir)
      → (is_layered_identity (owner_target_identity redact size now serde dir) ≡ true)
        × ((cached_target_identity redact size now serde dir ≡ null)
            ⊎ (is_layered_identity (cached_target_identity redact size now serde dir) ≡ true))
  unfolding owner_target_identity cached_target_identity
  target_identity-layered serde dir = (
    owner-layered (stored_identity redact size now serde dir),
    stored-layered (stored_identity redact size now serde dir),
  )
