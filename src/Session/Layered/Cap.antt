-- ===== src/Session/Layered/Cap.antt =====
-- `trunc_chars` and `cap_identity` of src/session/identity.rs. The number of characters of a
-- serialized value, which serde_json gives, enters as an argument.
use Prim.Native.String.{len, ◌++◌, char_at}
use agent_debugger.Prelude.{
  ℕ, zero, suc, ◌-◌, String, true, ◌≡◌, refl, inl, inr, Bool-cases, Option-cases, Option, none,
  some, List, [], ◌∷◌, leb, ltb, if◌then◌else◌,
}
use agent_debugger.Json.{
  Value, Members, Elements, obj, arr, str, member, no_member, element, no_element, is_object,
}
use agent_debugger.Dap.Text.{decimal}

-- `s.chars().count()`
unfoldable pub chars : String → ℕ
chars String.[] = 0
chars (String.◌∷◌ c s) = suc (chars s)

unfoldable pub take_chars : ℕ → String → String
take_chars zero s = ""
take_chars (suc n) String.[] = ""
take_chars (suc n) (String.◌∷◌ c s) = String.◌∷◌ c (take_chars n s)

abbrev pub digits : List ℕ → String
digits [] = ""
digits (d ∷ ds) = String.◌∷◌ (char_at "0123456789" (d - 48)) (digits ds)

unfoldable pub trunc_string : String → ℕ → String
unfolding take_chars chars
trunc_string s limit =
    if leb (chars s) limit
    then s
    else take_chars limit s ++ ("… (+" ++ (digits (decimal (chars s - limit)) ++ " more chars)"))

abbrev pub identity_field_cap : ℕ
identity_field_cap = 512

abbrev pub identity_total_cap : ℕ
identity_total_cap = 2048

abbrev pub identity_array_cap : ℕ
identity_array_cap = 32

abbrev cap_str : String → String
cap_str s = if ltb identity_field_cap (chars s) then trunc_string s identity_field_cap else s

abbrev size_of : Elements → ℕ
size_of no_element = 0
size_of (element v vs) = suc (size_of vs)

-- `walk`; behind the first 32 elements of an array stands how many were dropped
unfoldable mutual
  unfolding trunc_string chars

  pub walk : Value → Value
  walk (obj m) = obj (walk_members m)
  walk (arr vs) = arr (walk_elements identity_array_cap vs)
  walk (str s) = str (cap_str s)
  walk v = v

  pub walk_members : Members → Members
  walk_members no_member = no_member
  walk_members (member k v m) = member k (walk v) (walk_members m)

  pub walk_elements : ℕ → Elements → Elements
  walk_elements n no_element = no_element
  walk_elements zero (element v vs) =
      element (str (cap_str ("… (+" ++ (digits (decimal (suc (size_of vs))) ++ " more)"))))
        no_element
  walk_elements (suc n) (element v vs) = element (walk v) (walk_elements n vs)

-- a `&mut String` into a value: the string, and the value with another in its place
abbrev pub Place : Type 0 → Type 0
Place A = Option (String × (String → A))

abbrev pub over : {A B : Type 0} → (A → B) → Place A → Place B
over f none = none
over f (some (s, set)) = some (s, λ t. f (set t))

-- `max_by_key(|s| s.len())`: of two as long, the later
abbrev pub later : {A : Type 0} → Place A → Place A → Place A
later none o = o
later (some a) none = some a
later (some (s, set)) (some (t, put)) = if leb (len s) (len t) then some (t, put) else some (s, set)

unfoldable mutual
  unfolding chars

  pub longest : Value → Place Value
  longest (obj m) = over obj (longest_member m)
  longest (arr vs) = over arr (longest_element vs)
  longest (str s) = if ltb 1 (chars s) then some (s, str) else none
  longest v = none

  pub longest_member : Members → Place Members
  longest_member no_member = none
  longest_member (member k v m) =
      later (over (λ w. member k w m) (longest v)) (over (member k v) (longest_member m))

  pub longest_element : Elements → Place Elements
  longest_element no_element = none
  longest_element (element v vs) =
      later (over (λ w. element w vs) (longest v)) (over (element v) (longest_element vs))

abbrev at_least_1 : ℕ → ℕ
at_least_1 n = if leb n 1 then 1 else n

unfoldable pub shrink : String → String
unfolding trunc_string chars
shrink s =
    let candidate = trunc_string s (at_least_1 (chars s - 64)) in
    if ltb (chars candidate) (chars s) then candidate else "…"

-- `v.to_string().chars().count()`
module _ (size : Value → ℕ) where
  unfoldable pub cap_loop : ℕ → Value → Value
  unfolding longest shrink
  cap_loop zero v = v
  cap_loop (suc passes) v =
      if ltb identity_total_cap (size v)
      then elim (longest v) [ none ↦ v | some (s, set) ↦ cap_loop passes (set (shrink s)) ]
      else v

  unfoldable pub cap_identity : Value → Value
  unfolding cap_loop walk
  cap_identity v = cap_loop 4096 (walk v)

  loop-obj : (n : ℕ) (m : Members) → is_object (cap_loop n (obj m)) ≡ true
  unfolding cap_loop longest
  loop-obj zero m = refl
  loop-obj (suc n) m = elim (Bool-cases (ltb identity_total_cap (size (obj m)))) [
    | inr fits ↦ rw fits refl
    | inl large ↦ elim (Option-cases (longest_member m)) [
      | inl no_place ↦ rw (large, no_place) refl
      | inr found ↦ rw (large, found.1) (loop-obj n (found.0.1 (shrink found.0.0)))
    ]
  ]

  -- an object stays one
  pub cap-obj : (m : Members) → is_object (cap_identity (obj m)) ≡ true
  unfolding cap_identity walk
  cap-obj m = loop-obj 4096 (walk_members m)
