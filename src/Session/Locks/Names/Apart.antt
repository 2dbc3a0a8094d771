-- ===== src/Session/Locks/Names/Apart.antt =====
-- Two endpoints have two locks.
use agent_debugger.Prelude.{
  ℕ, ◌+◌, ◌*◌, ◌-◌, ◌/◌, ◌%◌, ◌<◌, ◌≤◌, true, false, ◌≡◌, ◌≢◌, refl, sym, ap, ◌∙◌, inl, inr,
  Bool-cases, some, [], ◌∷◌, ◌++◌, All, All-map, ◌==◌, leb, if◌then◌else◌, arith,
}
use agent_debugger.Dap.Text.{decimal, parse_usize}
use agent_debugger.Dap.Text.Ascii.{IsDigit}
use agent_debugger.Dap.Text.Decimal.{parse_usize-decimal, decimal-digits}
use agent_debugger.Session.Identity.Secrets.{Text}
use agent_debugger.Session.Locks.Names.{
  is_ascii_alphanumeric, hex_digit, push_safe, safe, endpoint_lock_name,
}

-- reading back: outside, behind `_`, and behind `_` and a digit
data Reading : Type 0 where
  outside opened : Reading
  half : ℕ → Reading

abbrev digit_value : ℕ → ℕ
digit_value c = if leb c 57 then c - 48 else c - 87

unfoldable unescape : Reading → Text → Text
unescape r [] = []
unescape outside (c ∷ cs) =
    let there = unescape opened cs in
    let here = unescape outside cs in if c == b'_' then there else c ∷ here
unescape opened (c ∷ cs) =
    let there = unescape (half c) cs in
    let here = unescape outside cs in if c == b'_' then b'_' ∷ here else there
unescape (half h) (c ∷ cs) = (digit_value h * 16 + digit_value c) ∷ unescape outside cs

abbrev pub IsByte : ℕ → Type 0
IsByte b = b < 256

digit_value-hex : (d : ℕ) → d < 16 → digit_value (hex_digit d) ≡ d
digit_value-hex d h = ground arith

hex_digit-other : (d : ℕ) → d < 16 → (hex_digit d == b'_') ≡ false
hex_digit-other d h = ground arith

alphanumeric-other : (b : ℕ) → is_ascii_alphanumeric b ≡ true → (b == b'_') ≡ false
alphanumeric-other b h = ground arith

nibbles :
    (b : ℕ)
    → IsByte b
    → digit_value (hex_digit (b / 16)) * 16 + digit_value (hex_digit (b % 16)) ≡ b
nibbles b h =
    rw (digit_value-hex (b / 16) (omega arith), digit_value-hex (b % 16) (omega arith))
      (omega arith)

unescape-push :
    (b : ℕ) (rest : Text)
    → IsByte b
    → unescape outside (push_safe b rest) ≡ b ∷ unescape outside rest
unfolding unescape push_safe
unescape-push b rest h = elim (Bool-cases (is_ascii_alphanumeric b)) [
  | inl kept ↦ rw (kept, alphanumeric-other b kept) refl
  | inr other ↦ elim (Bool-cases (b == b'_')) [
    | inl low ↦ rw (other, low) (ap (λ c. c ∷ unescape outside rest) (ground arith))
    | inr odd ↦
        rw (other, odd, hex_digit-other (b / 16) (omega arith))
          (ap (λ c. c ∷ unescape outside rest) (nibbles b h))
  ]
]

unescape-safe : (bs : Text) → All IsByte bs → unescape outside (safe bs) ≡ bs
unfolding unescape safe
unescape-safe [] h = refl
unescape-safe (b ∷ bs) h = unescape-push b (safe bs) h.0 ∙ ap (λ r. b ∷ r) (unescape-safe bs h.1)

abbrev IsFree : ℕ → Text → Type 0
IsFree d = All (λ c. c ≢ d)

-- a text is cut at its first `d` in one way
cut_unique :
    (d : ℕ) (a b s t : Text)
    → IsFree d a
    → IsFree d b
    → a ++ (d ∷ s) ≡ b ++ (d ∷ t)
    → (a ≡ b) × (s ≡ t)
cut_unique d [] [] s t fa fb e = ground arith
cut_unique d [] (y ∷ b) s t fa fb e = let n = fb.0 in ground arith
cut_unique d (x ∷ a) [] s t fa fb e = let n = fa.0 in ground arith
cut_unique d (x ∷ a) (y ∷ b) s t fa fb e =
    let rest = cut_unique d a b s t fa.1 fb.1 (ground arith) in (ground (arith, rest), rest.1)

hex_digit-no_dash : (d : ℕ) → hex_digit d ≢ b'-'
hex_digit-no_dash d e = ground arith

push_safe-IsFree : (b : ℕ) (rest : Text) → IsFree b'-' rest → IsFree b'-' (push_safe b rest)
unfolding push_safe
push_safe-IsFree b rest free = elim (Bool-cases (is_ascii_alphanumeric b)) [
  | inl kept ↦ rw kept (λ e. ground arith, free)
  | inr other ↦ elim (Bool-cases (b == b'_')) [
    | inl low ↦ rw (other, low) (λ e. omega arith, (λ e. omega arith, free))
    | inr odd ↦
        rw (other, odd)
          (λ e. omega arith, (hex_digit-no_dash (b / 16), (hex_digit-no_dash (b % 16), free)))
  ]
]

safe-IsFree : (bs : Text) → IsFree b'-' (safe bs)
unfolding safe push_safe
safe-IsFree [] = tt
safe-IsFree (b ∷ bs) = push_safe-IsFree b (safe bs) (safe-IsFree bs)

decimal-IsFree : (n : ℕ) → IsFree b'.' (decimal n)
decimal-IsFree n =
    All-map IsDigit (λ c. c ≢ b'.') (decimal n) (λ c h. λ e. let low = h.0 in omega arith)
      (decimal-digits n)

some-number : (m n : ℕ) → some m ≡ some n → m ≡ n
some-number m n e = ground arith

-- Two endpoints whose languages have no dash, whose hosts are bytes and whose ports are at most
-- 65535 have the same lock name only if they are one endpoint.
pub endpoint_lock_name-injective :
    (l l' h h' : Text) (p p' : ℕ)
    → IsFree b'-' l
    → IsFree b'-' l'
    → All IsByte h
    → All IsByte h'
    → p ≤ 65535
    → p' ≤ 65535
    → endpoint_lock_name l h p ≡ endpoint_lock_name l' h' p'
    → (l ≡ l') × (h ≡ h') × (p ≡ p')
unfolding endpoint_lock_name
endpoint_lock_name-injective l l' h h' p p' fl fl' bh bh' small small' same =
    let lang = cut_unique b'-' l l' _ _ fl fl' same in
    let host = cut_unique b'-' (safe h) (safe h') _ _ (safe-IsFree h) (safe-IsFree h') lang.1 in
    let port =
      cut_unique b'.' (decimal p) (decimal p') _ _ (decimal-IsFree p) (decimal-IsFree p') host.1 in
    let shown = ap parse_usize port.0 in
    let one = parse_usize-decimal p (omega arith) in
    let other = parse_usize-decimal p' (omega arith) in
    (
      lang.0,
      sym (unescape-safe h bh) ∙ ap (unescape outside) host.0 ∙ unescape-safe h' bh',
      some-number p p' (sym one ∙ shown ∙ other),
    )
