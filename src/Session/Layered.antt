-- ===== src/Session/Layered.antt =====
-- The layered target identity of src/session/identity.rs. `redact_argv`, which Identity/Secrets
-- models on texts, the length of a serialized value and the clock enter as arguments.
pub mod Cap
pub mod Settled
pub mod Shape
use agent_debugger.Prelude.{
  ℕ, String, Bool, true, false, not, ◌&&◌, Option, none, some, ◌=ˢ◌, List, [], ◌∷◌, all, any,
  length, if◌then◌else◌,
}
use agent_debugger.Json.{
  Value, Members, Elements, obj, arr, str, num, null, member, no_member, element, no_element, get,
  lookup, insert, is_object, as_str, as_array, and_then,
}
use agent_debugger.Session.Layered.Cap.{cap_identity}
use agent_debugger.Json.Serde.{Serde}
use agent_debugger.Session.Paths.{Dir}

abbrev pub roles : List String
roles = "debuggee" ∷ "endpoint" ∷ "adapter" ∷ []

abbrev pub flat_keys : List String
flat_keys = "pid" ∷ "argv" ∷ "executable" ∷ "cwd" ∷ []

-- an object or null
abbrev pub is_role : Option Value → Bool
is_role (some (obj m)) = true
is_role (some null) = true
is_role _ = false

abbrev pub has_key : String → Members → Bool
has_key k m = elim (lookup k m) [ none ↦ false | some _ ↦ true ]

abbrev pub layered_members : Members → Bool
layered_members m =
    all (λ role. is_role (lookup role m)) roles && not (any (λ k. has_key k m) flat_keys)

unfoldable pub is_layered_identity : Value → Bool
is_layered_identity (obj m) = layered_members m
is_layered_identity _ = false

-- the strings of an array, if it holds nothing else
unfoldable pub strings_of : Elements → Option (List String)
strings_of no_element = some []
strings_of (element v vs) =
    and_then (as_str v) (λ s. and_then (strings_of vs) (λ ss. some (s ∷ ss)))

abbrev pub strings_in : Value → Option (List String)
unfolding strings_of
strings_in (arr vs) = strings_of vs
strings_in _ = none

-- `redact_argv`
module _ (redact : List String → Value) where
  abbrev pub argv_or : String → Option (List String) → Value → Value
  argv_or k none child = child
  argv_or k (some argv) child = if k =ˢ "argv" then redact argv else child

  -- every array of strings under `argv`, at any depth
  unfoldable mutual
    unfolding strings_of

    pub reredact_argv_in : Value → Value
    reredact_argv_in (obj m) = obj (reredact_members m)
    reredact_argv_in (arr vs) = arr (reredact_elements vs)
    reredact_argv_in v = v

    pub reredact_members : Members → Members
    reredact_members no_member = no_member
    reredact_members (member k v m) =
        member k (argv_or k (strings_in v) (reredact_argv_in v)) (reredact_members m)

    pub reredact_elements : Elements → Elements
    reredact_elements no_element = no_element
    reredact_elements (element v vs) = element (reredact_argv_in v) (reredact_elements vs)

-- with `v.to_string().chars().count()` and the clock
module _ (redact : List String → Value) (size : Value → ℕ) (now : ℕ) where
  -- what is kept of one member: a role is an object or null
  abbrev pub sanitize_member : String → Value → Value
  sanitize_member k v =
      if any (λ role. role =ˢ k) roles && not (is_object v)
      then null
      else cap_identity size (reredact_argv_in redact v)

  unfoldable pub sanitize_members : Members → Members
  unfolding reredact_argv_in
  sanitize_members no_member = no_member
  sanitize_members (member k v m) = member k (sanitize_member k v) (sanitize_members m)

  abbrev unavailable_entry : String → String → Value
  unavailable_entry field reason =
      obj (member "field" (str field) (member "reason" (str reason) no_member))

  abbrev missing_role : String → Value
  missing_role role = obj (
      member "confidence" (str "unavailable") (
        member "observedAt" (num now) (
          member "unavailable"
            (arr (element (unavailable_entry role "role missing from stored identity") no_element))
            no_member)))

  unfoldable pub fill_roles : List String → Members → Members
  fill_roles [] m = m
  fill_roles (role ∷ rest) m =
      fill_roles rest (if has_key role m then m else insert role (missing_role role) m)

  unfoldable pub sanitize_layered_identity : Value → Value
  unfolding sanitize_members fill_roles
  sanitize_layered_identity (obj m) = obj (fill_roles roles (sanitize_members m))
  sanitize_layered_identity v = obj (fill_roles roles no_member)

  unfoldable pub layered_identity_or_null : Option Value → Value
  unfolding is_layered_identity sanitize_layered_identity
  layered_identity_or_null none = null
  layered_identity_or_null (some v) =
      if is_layered_identity v then sanitize_layered_identity v else null

  abbrev pub stored_identity : Serde → Dir → Option Value
  stored_identity serde dir = and_then (and_then dir.session serde.from_str) (get "targetIdentity")

  unfoldable pub cached_target_identity : Serde → Dir → Value
  unfolding layered_identity_or_null
  cached_target_identity serde dir = layered_identity_or_null (stored_identity serde dir)

  abbrev no_field : String → String → Value
  no_field field reason = arr (
      element (obj (member "field" (str field) (member "reason" (str reason) no_member)))
        no_element)

  -- no role has a pid
  unfoldable pub unavailable_identity : String → Value
  unavailable_identity reason = obj (
      member "debuggee"
        (obj (
          member "kind" (str "process") (
            member "pid" null (
              member "confidence" (str "unavailable") (
                member "observedAt" (num now)
                  (member "unavailable" (no_field "pid" reason) no_member))))))
        (member "endpoint"
          (obj (
            member "confidence" (str "unavailable") (
              member "observedAt" (num now)
                (member "unavailable" (no_field "ownerPid" reason) no_member))))
          (member "adapter"
            (obj (
              member "confidence" (str "unavailable") (
                member "observedAt" (num now)
                  (member "unavailable" (no_field "pid" reason) no_member))))
            no_member)))

  abbrev pub owner_identity_of : Option Value → Value
  owner_identity_of none = unavailable_identity "owner has no layered identity"
  owner_identity_of (some v) =
      if is_layered_identity v
      then sanitize_layered_identity v
      else unavailable_identity "owner has no layered identity"

  unfoldable pub owner_target_identity : Serde → Dir → Value
  unfolding unavailable_identity sanitize_layered_identity is_layered_identity
  owner_target_identity serde dir = owner_identity_of (stored_identity serde dir)

abbrev count : String → Value → ℕ
count key stops = elim (and_then (get key stops) as_array) [ none ↦ 0 | some vs ↦ length vs ]

unfoldable pub stops_armed : Value → Value
stops_armed stops = obj (
    member "breaks" (num (count "breaks" stops)) (
      member "logpoints" (num (count "logpoints" stops)) (
        member "watches" (num (count "watches" stops))
          (member "exits" (num (count "exits" stops)) no_member))))
