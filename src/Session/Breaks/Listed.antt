-- ===== src/Session/Breaks/Listed.antt =====
-- The list that a confirmed breaks command records, told without the loops that build it.
use agent_debugger.Prelude.{
  String, Bool, false, ◌||◌, ◌≡◌, refl, sym, ap, ◌∙◌, ◌=ˢ◌, eq_iff, List, [], ◌∷◌, ◌++◌, any, map,
  All, arith, Bool-cases, inl, inr, if◌then◌else◌,
}
use agent_debugger.Json.{Value, obj, arr, str, num, real, bool, null}
use agent_debugger.Session.Breaks.Intent.{has_raw, append_raw, append_raws, remove_raws}
use agent_debugger.Session.Breaks.Confirmed.{
  names, records, any-append, records-append_raws, unnamed, remove_raws-unnamed,
}

-- one of the strings, as an entry
abbrev pub is_named : List String → Value → Bool
is_named rs (str s) = any (λ r. s =ˢ r) rs
is_named rs _ = false

-- every entry but those that are one of the strings, in their order
abbrev pub without : List String → List Value → List Value
without rs [] = []
without rs (v ∷ vs) = let rest = without rs vs in if is_named rs v then rest else v ∷ rest

-- is the string an entry?
abbrev pub lists : String → List Value → Bool
lists q [] = false
lists q (v ∷ vs) = is_named (q ∷ []) v || lists q vs

-- no string twice
abbrev pub IsDistinct : List String → Type 0
IsDistinct [] = Unit {0}
IsDistinct (r ∷ rs) = (names r rs ≡ false) × IsDistinct rs

-- The old entries in their order, then strings that were not among them, none of them twice; and
-- what is listed then is what was listed before, and the given strings.
abbrev pub IsExtended : List Value → List String → List Value → Type 0
IsExtended old rs new =
    (added : List String) × (new ≡ old ++ map str added)
    × IsDistinct added
    × All (λ r. lists r old ≡ false) added
    × ((q : String) → lists q new ≡ (lists q old || names q rs))

lists-records : (q : String) (list : List Value) → lists q list ≡ records q list
unfolding has_raw
lists-records q [] = refl
lists-records q (str s ∷ vs) = ground (arith, lists-records q vs)
lists-records q (obj m ∷ vs) = lists-records q vs
lists-records q (arr m ∷ vs) = lists-records q vs
lists-records q (num m ∷ vs) = lists-records q vs
lists-records q (real m ∷ vs) = lists-records q vs
lists-records q (bool m ∷ vs) = lists-records q vs
lists-records q (null ∷ vs) = lists-records q vs

is_named-other :
    (rs : List String) (v : Value)
    → ((r : String) → has_raw r v ≡ false)
    → any (λ r. has_raw r v) rs ≡ false
unfolding has_raw
is_named-other [] v other = refl
is_named-other (r ∷ rs) v other = rw (other r) (is_named-other rs v other)

is_named-raws : (rs : List String) (v : Value) → any (λ r. has_raw r v) rs ≡ is_named rs v
unfolding has_raw
is_named-raws [] (str s) = refl
is_named-raws (r ∷ rs) (str s) = ap (λ b. (s =ˢ r) || b) (is_named-raws rs (str s))
is_named-raws rs (obj m) = is_named-other rs (obj m) (λ r. refl)
is_named-raws rs (arr vs) = is_named-other rs (arr vs) (λ r. refl)
is_named-raws rs (num n) = is_named-other rs (num n) (λ r. refl)
is_named-raws rs (real r) = is_named-other rs (real r) (λ r. refl)
is_named-raws rs (bool b) = is_named-other rs (bool b) (λ r. refl)
is_named-raws rs null = is_named-other rs null (λ r. refl)

unnamed-without : (rs : List String) (vs : List Value) → unnamed rs vs ≡ without rs vs
unfolding unnamed
unnamed-without rs [] = refl
unnamed-without rs (v ∷ vs) = rw (is_named-raws rs v, unnamed-without rs vs) refl

pub remove_raws-without :
    (list : List Value) (rs : List String) → remove_raws list rs ≡ without rs list
remove_raws-without list rs = remove_raws-unnamed list rs ∙ unnamed-without rs list

append_nil : (vs : List Value) → vs ++ [] ≡ vs
append_nil [] = refl
append_nil (v ∷ vs) = ap (◌∷◌ v) (append_nil vs)

append_snoc : (old vs : List Value) (v : Value) → (old ++ v ∷ []) ++ vs ≡ old ++ v ∷ vs
append_snoc [] vs v = refl
append_snoc (w ∷ old) vs v = ap (◌∷◌ w) (append_snoc old vs v)

-- no entry of the longer list
abbrev NewTo : List Value → List String → Type 0
NewTo old added = All (λ q. records q old ≡ false) added

NewTo-snoc :
    (r : String) (old : List Value) (added : List String)
    → NewTo (old ++ str r ∷ []) added
    → NewTo old added × (names r added ≡ false)
unfolding has_raw
NewTo-snoc r old [] new = (tt, refl)
NewTo-snoc r old (q ∷ added) new =
    let rest = NewTo-snoc r old added new.1 in
    let first = new.0 in
    let split = any-append (has_raw q) old (str r ∷ []) in
    let here : records q old ≡ false = ground arith in
    ((here, rest.0), ground (arith, rest, eq_iff r q, eq_iff q r))

append_raws-Added :
    (old : List Value) (rs : List String)
    → (added : List String) × (append_raws old rs ≡ old ++ map str added)
      × IsDistinct added
      × NewTo old added
unfolding append_raws append_raw
append_raws-Added old [] = ([], sym (append_nil old), tt, tt)
append_raws-Added old (r ∷ rs) = elim (Bool-cases (records r old)) [
  | inl there ↦ rw there (append_raws-Added old rs)
  | inr new ↦
      let rest = append_raws-Added (old ++ str r ∷ []) rs in
      let fresh = NewTo-snoc r old rest.0 rest.3 in
      rw new (
        r ∷ rest.0,
        rest.1 ∙ append_snoc old (map str rest.0) (str r),
        (fresh.1, rest.2),
        (new, fresh.0),
      )
]

NewTo-lists :
    (old : List Value) (added : List String)
    → NewTo old added
    → All (λ r. lists r old ≡ false) added
NewTo-lists old [] new = tt
NewTo-lists old (r ∷ added) new = (lists-records r old ∙ new.0, NewTo-lists old added new.1)

pub append_raws-IsExtended :
    (old : List Value) (rs : List String) → IsExtended old rs (append_raws old rs)
append_raws-IsExtended old rs =
    let added = append_raws-Added old rs in
    (
      added.0,
      added.1,
      added.2,
      NewTo-lists old added.0 added.3,
      λ q.
          lists-records q (append_raws old rs)
          ∙ records-append_raws q old rs
          ∙ ap (λ b. b || names q rs) (sym (lists-records q old)),
    )
