-- ===== src/Session/Layered/Settled.antt =====
-- Every pass of the loop of `cap_identity` shortens a string, so it settles.
use Prim.Native.String.{len}
use agent_debugger.Prelude.{
  ℕ, zero, suc, ◌+◌, ◌<◌, ◌≤◌, String, ◌≡◌, ◌⊎◌, refl, inl, inr, Bool-cases, Option-cases, none,
  some, leb, ltb, if◌then◌else◌, subst, arith,
}
use agent_debugger.Json.{
  Value, Members, Elements, obj, arr, str, num, real, bool, null, member, no_member, element,
  no_element,
}
use agent_debugger.Session.Layered.Cap.{
  chars, identity_total_cap, walk, Place, over, later, longest, longest_member, longest_element,
  shrink, cap_loop, cap_identity,
}

-- the characters of all strings of a value
unfoldable mutual
  unfolding chars

  pub weight : Value → ℕ
  weight (obj m) = weight_members m
  weight (arr vs) = weight_elements vs
  weight (str s) = chars s
  weight v = 0

  pub weight_members : Members → ℕ
  weight_members no_member = 0
  weight_members (member k v m) = weight v + weight_members m

  pub weight_elements : Elements → ℕ
  weight_elements no_element = 0
  weight_elements (element v vs) = weight v + weight_elements vs

-- A place holds a string longer than one character, and a string there weighs in as itself.
abbrev Weighs : {A : Type 0} → (A → ℕ) → A → Place A → Type 0
Weighs w a none = Unit
Weighs w a (some (s, set)) = (1 < chars s) × ((t : String) → w (set t) + chars s ≡ w a + chars t)

over-Weighs :
    {A B : Type 0} (w : A → ℕ) (u : B → ℕ) (f : A → B) (k : ℕ) (a : A)
    → ((x : A) → u (f x) ≡ w x + k)
    → (p : Place A) → Weighs w a p
    → Weighs u (f a) (over f p)
over-Weighs w u f k a adds none h = tt
over-Weighs w u f k a adds (some (s, set)) h =
    (h.0, λ t. let e = h.1 t in let x = adds (set t) in let y = adds a in omega arith)

later-Weighs :
    {A : Type 0} (w : A → ℕ) (a : A) (p q : Place A)
    → Weighs w a p
    → Weighs w a q
    → Weighs w a (later p q)
later-Weighs w a none q hp hq = hq
later-Weighs w a (some p) none hp hq = hp
later-Weighs w a (some (s, set)) (some (t, put)) hp hq = elim (Bool-cases (leb (len s) (len t))) [
  | inl more ↦ rw more hq
  | inr less ↦ rw less hp
]

mutual
  unfolding longest weight

  longest-Weighs : (v : Value) → Weighs weight v (longest v)
  longest-Weighs (obj m) =
      over-Weighs weight_members weight obj 0 m (λ x. omega arith) (longest_member m)
        (member-Weighs m)
  longest-Weighs (arr vs) =
      over-Weighs weight_elements weight arr 0 vs (λ x. omega arith) (longest_element vs)
        (element-Weighs vs)
  longest-Weighs (str s) = elim (Bool-cases (ltb 1 (chars s))) [
    | inl long ↦ rw long (ground arith, λ t. omega arith)
    | inr short ↦ rw short tt
  ]
  longest-Weighs (num n) = tt
  longest-Weighs (real s) = tt
  longest-Weighs (bool b) = tt
  longest-Weighs null = tt

  member-Weighs : (m : Members) → Weighs weight_members m (longest_member m)
  member-Weighs no_member = tt
  member-Weighs (member k v m) =
      later-Weighs weight_members (member k v m) _ _
        (over-Weighs weight weight_members (λ w. member k w m) (weight_members m) v (λ x. refl)
          (longest v) (longest-Weighs v))
        (over-Weighs weight_members weight_members (member k v) (weight v) m (λ x. omega arith)
          (longest_member m) (member-Weighs m))

  element-Weighs : (vs : Elements) → Weighs weight_elements vs (longest_element vs)
  element-Weighs no_element = tt
  element-Weighs (element v vs) =
      later-Weighs weight_elements (element v vs) _ _
        (over-Weighs weight weight_elements (λ w. element w vs) (weight_elements vs) v (λ x. refl)
          (longest v) (longest-Weighs v))
        (over-Weighs weight_elements weight_elements (element v) (weight v) vs (λ x. omega arith)
          (longest_element vs) (element-Weighs vs))

shorter-chars :
    (c s : String) → 1 < chars s → chars (if ltb (chars c) (chars s) then c else "…") < chars s
unfolding chars
shorter-chars c s long = elim (Bool-cases (ltb (chars c) (chars s))) [
  | inl less ↦ rw less (ground arith)
  | inr more ↦ rw more long
]

shrink-chars : (s : String) → 1 < chars s → chars (shrink s) < chars s
unfolding shrink
shrink-chars s long = shorter-chars _ s long

-- what the loop runs to: the value fits, or no string is longer than one character
abbrev pub IsSettled : (Value → ℕ) → Value → Type 0
IsSettled size v = (size v ≤ identity_total_cap) ⊎ (longest v ≡ none)

module _ (size : Value → ℕ) where
  cap_loop-Settles : (n : ℕ) (v : Value) → weight v ≤ n → IsSettled size (cap_loop size n v)
  unfolding cap_loop chars
  cap_loop-Settles zero v enough = elim (Option-cases (longest v)) [
    | inl no_place ↦ inr no_place
    | inr (place, found) ↦
        let weighs = subst (Weighs weight v) found (longest-Weighs v) in
        let e = weighs.1 "" in let long = weighs.0 in omega arith
  ]
  cap_loop-Settles (suc n) v enough = elim (Bool-cases (ltb identity_total_cap (size v))) [
    | inr fits ↦ rw fits (inl (ground arith))
    | inl large ↦ elim (Option-cases (longest v)) [
      | inl no_place ↦ rw (large, no_place) (inr no_place)
      | inr (place, found) ↦
          let weighs = subst (Weighs weight v) found (longest-Weighs v) in
          let e = weighs.1 (shrink place.0) in
          let less = shrink-chars place.0 weighs.0 in
          rw (large, found) (cap_loop-Settles n (place.1 (shrink place.0)) (omega arith))
    ]
  ]

  -- What `cap_identity` gives has at most 2048 characters as JSON, or no string longer than one
  -- character, if the strings of the value that `walk` leaves have at most 4096 characters in all.
  pub cap_identity-Settles :
      (v : Value) → weight (walk v) ≤ 4096 → IsSettled size (cap_identity size v)
  unfolding cap_identity
  cap_identity-Settles v bounded = cap_loop-Settles 4096 (walk v) bounded
