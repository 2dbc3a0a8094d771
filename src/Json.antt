-- ===== src/Json.antt =====
-- `serde_json::Value` as the sources use it: the documented enum and the accessors they call.
-- A number is a `u64`, or a literal that `as_u64` refuses; an object is its list of members.
pub mod Laws
pub mod Serde
use agent_debugger.Prelude.{
  ℕ, ◌^◌, ◌-◌, String, Bool, true, false, Option, none, some, List, [], ◌∷◌, ◌=ˢ◌, leb,
  if◌then◌else◌,
}

mutual
  pub data Members : Type 0 where
    member : String → Value → Members → Members
    no_member : Members

  pub data Elements : Type 0 where
    element : Value → Elements → Elements
    no_element : Elements

  pub data Value : Type 0 where
    obj : Members → Value
    arr : Elements → Value
    str : String → Value
    num : ℕ → Value
    real : String → Value
    bool : Bool → Value
    null : Value

unfoldable pub to_list : Elements → List Value
to_list no_element = []
to_list (element v vs) = v ∷ to_list vs

unfoldable pub of_list : List Value → Elements
of_list [] = no_element
of_list (v ∷ vs) = element v (of_list vs)

-- `Map::get`
unfoldable pub lookup : String → Members → Option Value
lookup k no_member = none
lookup k (member j v m) = if j =ˢ k then some v else lookup k m

-- `Map::insert`
unfoldable pub insert : String → Value → Members → Members
insert k v no_member = member k v no_member
insert k v (member j w m) = if j =ˢ k then member k v m else member j w (insert k v m)

-- `Value::get`: only an object has members
abbrev pub get : String → Value → Option Value
get k (obj m) = lookup k m
get k _ = none

abbrev pub as_str : Value → Option String
as_str (str s) = some s
as_str _ = none

abbrev pub as_bool : Value → Option Bool
as_bool (bool b) = some b
as_bool _ = none

abbrev pub u64_max : ℕ
u64_max = 2 ^ 64 - 1

abbrev pub as_u64 : Value → Option ℕ
as_u64 (num n) = if leb n u64_max then some n else none
as_u64 _ = none

abbrev pub as_array : Value → Option (List Value)
as_array (arr vs) = some (to_list vs)
as_array _ = none

abbrev pub is_object : Value → Bool
is_object (obj m) = true
is_object _ = false

-- `u16::try_from(p).ok()`
abbrev pub to_u16 : ℕ → Option ℕ
to_u16 p = if leb p 65535 then some p else none

-- `and_then` and `unwrap_or`
abbrev pub and_then {ℓ κ} : {A : Type ℓ} {B : Type κ} → Option A → (A → Option B) → Option B
and_then none f = none
and_then (some a) f = f a

abbrev pub unwrap_or {ℓ} : {A : Type ℓ} → Option A → A → A
unwrap_or none d = d
unwrap_or (some a) d = a

abbrev pub get_str : String → Value → Option String
get_str k v = and_then (get k v) as_str

-- `v.get(k).and_then(as_bool).unwrap_or(false)`
abbrev pub get_flag : String → Value → Bool
get_flag k v = unwrap_or (and_then (get k v) as_bool) false
