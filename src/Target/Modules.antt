-- ===== src/Target/Modules.antt =====
-- The module names that `check_module` accepts, as an automaton with two states reads them.
use agent_debugger.Prelude.{
  ℕ, Bool, true, false, ◌&&◌, ◌≡◌, refl, sym, List, [], ◌∷◌, all, Bool-cases, inl, inr, ◌==◌,
  if◌then◌else◌,
}
use agent_debugger.Target.{
  module_ok, segments, is_identifier, continues_name, starts_name, push_char,
}

-- `started` tells whether a name has begun: a dot ends it, and the end of the text may only stand
-- inside a name.
unfoldable pub reads_names : Bool → List ℕ → Bool
reads_names started [] = started
reads_names started (c ∷ cs) =
    let next = reads_names false cs in
    let more = reads_names true cs in
    if c == b'.'
    then started && next
    else (if started then continues_name c else starts_name c) && more

-- the first segment has begun, the others are whole
abbrev first_ok : List (List ℕ) → Bool
first_ok [] = true
first_ok (seg ∷ segs) = all continues_name seg && all is_identifier segs

and_assoc : (a b c : Bool) → (a && b && c) ≡ (a && (b && c))
and_assoc true b c = refl
and_assoc false b c = refl

first_ok-push_char :
    (c : ℕ) (segs : List (List ℕ))
    → first_ok (push_char c segs) ≡ (continues_name c && first_ok segs)
first_ok-push_char c [] = and_assoc (continues_name c) true true
first_ok-push_char c (seg ∷ segs) =
    and_assoc (continues_name c) (all continues_name seg) (all is_identifier segs)

all-push_char :
    (c : ℕ) (segs : List (List ℕ))
    → all is_identifier (push_char c segs) ≡ (starts_name c && first_ok segs)
all-push_char c [] = and_assoc (starts_name c) true true
all-push_char c (seg ∷ segs) =
    and_assoc (starts_name c) (all continues_name seg) (all is_identifier segs)

reads_names-segments :
    (cs : List ℕ)
    → (reads_names false cs ≡ all is_identifier (segments cs))
      × (reads_names true cs ≡ first_ok (segments cs))
unfolding reads_names segments
reads_names-segments [] = (refl, refl)
reads_names-segments (c ∷ cs) =
    let rest = reads_names-segments cs in
    elim (Bool-cases (c == b'.')) [
      | inl dot ↦ rw dot (refl, rest.0)
      | inr other ↦ rw other (
        rw rest.1 (sym (all-push_char c (segments cs))),
        rw rest.1 (sym (first_ok-push_char c (segments cs))),
      )
    ]

-- A module name is accepted exactly if it is a dotted list of ASCII identifiers, as the automaton
-- reads it character by character: every name begins with a letter or an underscore and goes on
-- with letters, digits and underscores, a dot stands only between two names.
pub module_ok-eq-reads_names : (m : List ℕ) → module_ok m ≡ reads_names false m
unfolding module_ok reads_names
module_ok-eq-reads_names [] = refl
module_ok-eq-reads_names (c ∷ cs) = sym (reads_names-segments (c ∷ cs)).0
