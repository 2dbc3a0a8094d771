-- ===== src/Session/Breaks/Confirmed.antt =====
-- The breaks list as a set of raw strings: what appending and removing confirmed stops does to it.
use text.Mathlib.TextPositions.{eq_refl}
use agent_debugger.Prelude.{
  String, Bool, true, false, not, ◌||◌, ◌&&◌, ◌≡◌, refl, sym, ap, ◌∙◌, some, ◌=ˢ◌, eq_iff, List, [],
  ◌∷◌, ◌++◌, any, All, All-map, arith, Bool-cases, inl, inr, if◌then◌else◌,
}
use agent_debugger.Json.{Value, str, as_str}
use agent_debugger.Session.Breaks.Intent.{has_raw, append_raw, append_raws, retain_ne, remove_raws}

-- is the string among these?
abbrev pub names : String → List String → Bool
names q rs = any (λ r. r =ˢ q) rs

-- is it recorded in the list?
abbrev pub records : String → List Value → Bool
records q list = any (has_raw q) list

pub any-append :
    {A : Type 0} (p : A → Bool) (xs ys : List A) → any p (xs ++ ys) ≡ (any p xs || any p ys)
any-append p [] ys = refl
any-append p (x ∷ xs) ys = ground (arith, any-append p xs ys)

records-append_raw :
    (q r : String) (list : List Value)
    → records q (append_raw list r) ≡ (records q list || (r =ˢ q))
unfolding append_raw
records-append_raw q r list = ground (arith, any-append (has_raw q) list (str r ∷ []), eq_iff r q)

-- After an append the list records what it recorded before and the confirmed strings, nothing else.
pub records-append_raws :
    (q : String) (list : List Value) (rs : List String)
    → records q (append_raws list rs) ≡ (records q list || names q rs)
unfolding append_raws
records-append_raws q list [] = ground arith
records-append_raws q list (r ∷ rs) =
    ground (arith, records-append_raw q r list, records-append_raws q (append_raw list r) rs)

-- A value holds one raw string.
has_raw-both : (q r : String) (v : Value) → has_raw r v ≡ true → has_raw q v ≡ (r =ˢ q)
unfolding has_raw
has_raw-both q r (str s) h = ground (arith, eq_iff s r, eq_iff s q, eq_iff r q)
has_raw-both q r v h = cc

records-retain_ne :
    (q r : String) (list : List Value)
    → records q (retain_ne r list) ≡ (records q list && not (r =ˢ q))
unfolding retain_ne
records-retain_ne q r [] = refl
records-retain_ne q r (v ∷ vs) = ground (
  arith,
  records-retain_ne q r vs,
  has_raw-both q r v,
  has_raw-both r q v,
  eq_iff r q,
  eq_iff q r,
)

-- After a removal it records exactly what it recorded before and the removed strings do not name,
-- duplicates of old files included.
pub records-remove_raws :
    (q : String) (list : List Value) (rs : List String)
    → records q (remove_raws list rs) ≡ (records q list && not (names q rs))
unfolding remove_raws
records-remove_raws q list [] = ground arith
records-remove_raws q list (r ∷ rs) =
    ground (arith, records-retain_ne q r list, records-remove_raws q (retain_ne r list) rs)

-- Recorded strings are not recorded again.
append_raws-present :
    (list : List Value) (rs : List String)
    → All (λ r. records r list ≡ true) rs
    → append_raws list rs ≡ list
unfolding append_raws
append_raws-present list [] h = refl
append_raws-present list (r ∷ rs) h = ground (arith, append_raws-present list rs h.1, h.0)

append_raws-All :
    (list : List Value) (rs : List String) → All (λ r. records r (append_raws list rs) ≡ true) rs
unfolding append_raws
append_raws-All list [] = tt
append_raws-All list (r ∷ rs) = (
  ground
      (arith, records-append_raws r (append_raw list r) rs, records-append_raw r r list, eq_refl r),
  append_raws-All (append_raw list r) rs,
)

-- Appending the same confirmed strings once more changes nothing.
pub append_raws_idem :
    (list : List Value) (rs : List String)
    → append_raws (append_raws list rs) rs ≡ append_raws list rs
append_raws_idem list rs = append_raws-present (append_raws list rs) rs (append_raws-All list rs)

-- No raw string stands twice.
abbrev pub IsUnique : List Value → Type 0
IsUnique [] = Unit
IsUnique (v ∷ vs) = ((r : String) → as_str v ≡ some r → records r vs ≡ false) × IsUnique vs

retain_ne-absent :
    (r : String) (list : List Value) → records r list ≡ false → retain_ne r list ≡ list
unfolding retain_ne
retain_ne-absent r [] h = refl
retain_ne-absent r (v ∷ vs) h = ground (arith, retain_ne-absent r vs)

-- the raw strings are not recorded in the list
abbrev pub IsFresh : List String → List Value → Type 0
IsFresh rs list = All (λ r. records r list ≡ false) rs

remove_raws-absent :
    (list : List Value) (rs : List String) → IsFresh rs list → remove_raws list rs ≡ list
unfolding remove_raws
remove_raws-absent list [] h = refl
remove_raws-absent list (r ∷ rs) h =
    rw (retain_ne-absent r list h.0) (remove_raws-absent list rs h.1)

-- the entries that none of the strings names
unfoldable pub unnamed : List String → List Value → List Value
unnamed rs [] = []
unnamed rs (v ∷ vs) =
    let rest = unnamed rs vs in if any (λ r. has_raw r v) rs then rest else v ∷ rest

unnamed-cons :
    (r : String) (rs : List String) (list : List Value)
    → unnamed (r ∷ rs) list ≡ unnamed rs (retain_ne r list)
unfolding unnamed retain_ne
unnamed-cons r rs [] = refl
unnamed-cons r rs (v ∷ vs) = ground (arith, unnamed-cons r rs vs)

unnamed-nil : (list : List Value) → unnamed [] list ≡ list
unfolding unnamed
unnamed-nil [] = refl
unnamed-nil (v ∷ vs) = ap (◌∷◌ v) (unnamed-nil vs)

pub remove_raws-unnamed :
    (list : List Value) (rs : List String) → remove_raws list rs ≡ unnamed rs list
unfolding remove_raws
remove_raws-unnamed list [] = sym (unnamed-nil list)
remove_raws-unnamed list (r ∷ rs) =
    remove_raws-unnamed (retain_ne r list) rs ∙ sym (unnamed-cons r rs list)

abbrev Names : List String → String → Type 0
Names rs r = any (λ x. has_raw x (str r)) rs ≡ true

unnamed-snoc :
    (rs : List String) (r : String) (list : List Value)
    → Names rs r
    → unnamed rs (list ++ str r ∷ []) ≡ unnamed rs list
unfolding unnamed
unnamed-snoc rs r [] h = ground arith
unnamed-snoc rs r (v ∷ vs) h = ground (arith, unnamed-snoc rs r vs h)

unnamed-append_raws :
    (rs : List String) (list : List Value) (more : List String)
    → All (Names rs) more
    → unnamed rs (append_raws list more) ≡ unnamed rs list
unfolding append_raws append_raw
unnamed-append_raws rs list [] h = refl
unnamed-append_raws rs list (r ∷ more) h = elim (Bool-cases (records r list)) [
  | inl old ↦ rw old (unnamed-append_raws rs list more h.1)
  | inr new ↦
      rw new (unnamed-append_raws rs (list ++ str r ∷ []) more h.1 ∙ unnamed-snoc rs r list h.0)
]

Names-self : (rs : List String) → All (Names rs) rs
unfolding has_raw
Names-self [] = tt
Names-self (r ∷ rs) = (
  ground (arith, eq_refl r),
  All-map (Names rs) (Names (r ∷ rs)) rs (λ a h. ground arith) (Names-self rs),
)

-- Removing the strings that an append has added gives the list back.
pub remove_raws-append_raws :
    (list : List Value) (rs : List String)
    → IsFresh rs list
    → remove_raws (append_raws list rs) rs ≡ list
remove_raws-append_raws list rs h =
    remove_raws-unnamed (append_raws list rs) rs
    ∙ unnamed-append_raws rs list rs (Names-self rs)
    ∙ sym (remove_raws-unnamed list rs)
    ∙ remove_raws-absent list rs h

IsUnique-snoc :
    (r : String) (list : List Value)
    → records r list ≡ false
    → IsUnique list
    → IsUnique (list ++ str r ∷ [])
IsUnique-snoc r [] h u = (λ q e. refl, tt)
IsUnique-snoc r (v ∷ vs) h u = (
  λ q e.
      unfold has_raw in
      ground (arith, any-append (has_raw q) vs (str r ∷ []), u.0 q e, eq_iff r q, eq_iff q r),
  IsUnique-snoc r vs (ground arith) u.1,
)

-- A list without duplicates stays so, however often the same stop is confirmed.
pub append_raws-IsUnique :
    (list : List Value) (rs : List String) → IsUnique list → IsUnique (append_raws list rs)
unfolding append_raws append_raw
append_raws-IsUnique list [] u = u
append_raws-IsUnique list (r ∷ rs) u = elim (Bool-cases (records r list)) [
  | inl old ↦ rw old (append_raws-IsUnique list rs u)
  | inr new ↦ rw new (append_raws-IsUnique (list ++ str r ∷ []) rs (IsUnique-snoc r list new u))
]
