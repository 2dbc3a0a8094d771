-- ===== src/Session/Causes/Hidden.antt =====
-- Secrets leave no trace in a masked message.
use agent_debugger.Prelude.{
  and-left, and-right, ℕ, zero, suc, ◌+◌, ◌≤◌, ◌<◌, Bool, true, false, ◌&&◌, ◌≡◌, refl, sym, ◌∙◌,
  ap, Option, none, some, [], ◌∷◌, ◌++◌, all, length, take, drop, ◌==◌, arith, Bool-cases, inl, inr,
  length-append, take-append, drop-append,
}
use agent_debugger.Dap.Text.{to_ascii_lowercase}
use agent_debugger.Session.Identity.Secrets.{Text, redacted}
use agent_debugger.Session.Causes.{
  span, in_token, starts_lower, push_front, find_scheme, mask_token, mask_round, mask_scheme_loop,
  mask_scheme_token,
}

-- the front of a token, and where it ends
span-token :
    (tok tail : Text)
    → all in_token tok ≡ true
    → span in_token tail ≡ ([], tail)
    → span in_token (tok ++ tail) ≡ (tok, tail)
unfolding span
span-token [] tail whole ends = ends
span-token (c ∷ tok) tail whole ends = rw (and-left (in_token c) (all in_token tok) whole) (
    ap (λ x. (c ∷ x.0, x.1))
      (span-token tok tail (and-right (in_token c) (all in_token tok) whole) ends))

span-length : (p : ℕ → Bool) (s : Text) → length (span p s).1 ≤ length s
unfolding span
span-length p [] = omega arith
span-length p (c ∷ s) = ground (arith, span-length p s)

drop-shorter : (n : ℕ) (s : Text) → length (drop n s) ≤ length s
drop-shorter zero s = omega arith
drop-shorter (suc n) [] = omega arith
drop-shorter (suc n) (c ∷ s) = omega (arith, drop-shorter n s)

starts_lower-append :
    (scheme s t : Text)
    → length scheme ≤ length s
    → starts_lower scheme (s ++ t) ≡ starts_lower scheme s
starts_lower-append [] s t fits = refl
starts_lower-append (k ∷ ks) [] t fits = ground arith
starts_lower-append (k ∷ ks) (c ∷ s) t fits =
    ap (λ b. to_ascii_lowercase c == k && b) (starts_lower-append ks s t (omega (arith, fits)))

-- `head` is where the scheme occurs first behind `before`.
abbrev pub OccursAt : Text → Text → Text → Type 0
OccursAt scheme [] head = starts_lower scheme head ≡ true
OccursAt scheme (c ∷ before) head =
    (starts_lower scheme (c ∷ before ++ head) ≡ false) × OccursAt scheme before head

append_assoc : (xs ys zs : Text) → (xs ++ ys) ++ zs ≡ xs ++ (ys ++ zs)
append_assoc [] ys zs = refl
append_assoc (x ∷ xs) ys zs = ap (◌∷◌ x) (append_assoc xs ys zs)

find-here :
    (scheme : Text) (c : ℕ) (cs : Text)
    → starts_lower scheme (c ∷ cs) ≡ true
    → find_scheme scheme (c ∷ cs) ≡ some ([], c ∷ cs)
unfolding find_scheme
find-here scheme c cs here = rw here refl

find-later :
    (scheme : Text) (c : ℕ) (cs : Text)
    → starts_lower scheme (c ∷ cs) ≡ false
    → find_scheme scheme (c ∷ cs) ≡ push_front c (find_scheme scheme cs)
unfolding find_scheme
find-later scheme c cs later = rw later refl

find-OccursAt :
    (scheme before head tail : Text)
    → 0 < length scheme
    → length scheme ≤ length head
    → OccursAt scheme before head
    → find_scheme scheme (before ++ (head ++ tail)) ≡ some (before, head ++ tail)
find-OccursAt scheme [] [] tail nonempty fits occurs =
    let never : 0 < 0 = omega (arith, nonempty, fits) in elim never [ ]
find-OccursAt scheme [] (c ∷ head) tail nonempty fits occurs =
    find-here scheme c (head ++ tail) (starts_lower-append scheme (c ∷ head) tail fits ∙ occurs)
find-OccursAt scheme (c ∷ before) head tail nonempty fits occurs =
    let long : length scheme ≤ length (c ∷ before ++ head) =
      omega (arith, fits, length-append before head) in
    find-later scheme c (before ++ (head ++ tail)) (
      ap (λ x. starts_lower scheme (c ∷ x)) (sym (append_assoc before head tail))
      ∙ starts_lower-append scheme (c ∷ before ++ head) tail long
      ∙ occurs.0)
    ∙ ap (push_front c) (find-OccursAt scheme before head tail nonempty fits occurs.1)

abbrev Fits : Text → Option (Text × Text) → Type 0
Fits s none = Unit {0}
Fits s (some (before, at)) = (0 < length at) × (length at ≤ length s)

push_front-Fits :
    (c : ℕ) (s : Text) (found : Option (Text × Text))
    → Fits s found
    → Fits (c ∷ s) (push_front c found)
push_front-Fits c s none fits = tt
push_front-Fits c s (some (before, at)) fits = (fits.0, omega (arith, fits.1))

find-Fits : (scheme s : Text) → Fits s (find_scheme scheme s)
unfolding find_scheme
find-Fits scheme [] = tt
find-Fits scheme (c ∷ s) = elim (Bool-cases (starts_lower scheme (c ∷ s))) [
  | inl here ↦ rw here (omega arith, omega arith)
  | inr later ↦ rw later (push_front-Fits c s (find_scheme scheme s) (find-Fits scheme s))
]

drop-shortens : (n : ℕ) (s : Text) → 0 < n → 0 < length s → length (drop n s) < length s
drop-shortens zero s positive full = omega (arith, positive)
drop-shortens (suc n) [] positive full = omega (arith, full)
drop-shortens (suc n) (c ∷ s) positive full = omega (arith, drop-shorter n s)

module _ (scheme : Text) (nonempty : 0 < length scheme) where
  round-enough :
      (rest : Text) (f g : Text → Text)
      → ((tail : Text) → length tail < length rest → f tail ≡ g tail)
      → (found : Option (Text × Text)) → Fits rest found
      → mask_round scheme rest f found ≡ mask_round scheme rest g found
  round-enough rest f g agree none fits = refl
  round-enough rest f g agree (some (before, at)) fits =
      let (token, tail) = span in_token (drop (length scheme) at) in
      let shorter : length tail < length rest = omega (
        arith,
        span-length in_token (drop (length scheme) at),
        drop-shortens (length scheme) at nonempty fits.0,
        fits.1,
      ) in
      ap (λ l. before ++ (take (length scheme) at ++ (mask_token token ++ l))) (agree tail shorter)

  empty-loop :
      (fuel : ℕ) (rest : Text) → length rest ≤ 0 → mask_scheme_loop scheme (suc fuel) rest ≡ rest
  unfolding mask_scheme_loop find_scheme
  empty-loop fuel [] enough = refl
  empty-loop fuel (c ∷ rest) enough = let never : 0 < 0 = omega (arith, enough) in elim never [ ]

  mask_token-full : (tok : Text) → 0 < length tok → mask_token tok ≡ redacted
  mask_token-full [] full = let never : 0 < 0 = omega (arith, full) in elim never [ ]
  mask_token-full (c ∷ tok) full = refl

  take-front :
      (head rest : Text) → length head ≡ length scheme → take (length scheme) (head ++ rest) ≡ head
  take-front head rest long = ap (λ n. take n (head ++ rest)) (sym long) ∙ take-append head rest

  drop-front :
      (head rest : Text) → length head ≡ length scheme → drop (length scheme) (head ++ rest) ≡ rest
  drop-front head rest long = ap (λ n. drop n (head ++ rest)) (sym long) ∙ drop-append head rest

  shown :
      (before head tok tail : Text) (fuel : ℕ)
      → length head ≡ length scheme
      → OccursAt scheme before head
      → 0 < length tok
      → all in_token tok ≡ true
      → span in_token tail ≡ ([], tail)
      → mask_scheme_loop scheme (suc fuel) (before ++ (head ++ (tok ++ tail)))
        ≡ before ++ (head ++ (redacted ++ mask_scheme_loop scheme fuel tail))
  unfolding mask_scheme_loop
  shown before head tok tail fuel long occurs full whole ends =
      ap (mask_round scheme (before ++ (head ++ (tok ++ tail))) (mask_scheme_loop scheme fuel))
        (find-OccursAt scheme before head (tok ++ tail) nonempty (omega (arith, long)) occurs)
      ∙ rw
          (
            take-front head (tok ++ tail) long,
            drop-front head (tok ++ tail) long,
            span-token tok tail whole ends,
            mask_token-full tok full,
          )
          refl

  loop-enough :
      (fuel fuel' : ℕ) (rest : Text)
      → length rest ≤ fuel
      → length rest ≤ fuel'
      → mask_scheme_loop scheme fuel rest ≡ mask_scheme_loop scheme fuel' rest
  unfolding mask_scheme_loop
  loop-enough zero zero rest enough enough' = refl
  loop-enough zero (suc fuel') rest enough enough' = sym (empty-loop fuel' rest enough)
  loop-enough (suc fuel) zero rest enough enough' = empty-loop fuel rest enough'
  loop-enough (suc fuel) (suc fuel') rest enough enough' =
      round-enough rest (mask_scheme_loop scheme fuel) (mask_scheme_loop scheme fuel')
        (λ tail shorter.
          loop-enough fuel fuel' tail (omega (arith, enough, shorter))
            (omega (arith, enough', shorter)))
        (find_scheme scheme rest) (find-Fits scheme rest)

  -- What stands behind a scheme does not show: two messages that differ only in the token behind a
  -- scheme are the same once that scheme's tokens are masked. The scheme is to occur there first,
  -- and both tokens are to end at the same delimiter.
  pub mask_scheme-hides :
      (before head tok tok' tail : Text)
      → length head ≡ length scheme
      → OccursAt scheme before head
      → 0 < length tok
      → 0 < length tok'
      → all in_token tok ≡ true
      → all in_token tok' ≡ true
      → span in_token tail ≡ ([], tail)
      → mask_scheme_token (before ++ (head ++ (tok ++ tail))) scheme
        ≡ mask_scheme_token (before ++ (head ++ (tok' ++ tail))) scheme
  unfolding mask_scheme_token
  mask_scheme-hides before head tok tok' tail long occurs some_tok some_tok' whole whole' ends =
      let s = before ++ (head ++ (tok ++ tail)) in
      let s' = before ++ (head ++ (tok' ++ tail)) in
      let fuel = length s + length s' in
      loop-enough (length s) (suc fuel) s (omega arith) (omega arith)
      ∙ shown before head tok tail fuel long occurs some_tok whole ends
      ∙ sym (shown before head tok' tail fuel long occurs some_tok' whole' ends)
      ∙ loop-enough (suc fuel) (length s') s' (omega arith) (omega arith)
