-- ===== src/Session/Paths/Hosts.antt =====
-- `normalize_attach_host` and `is_unspecified_host` of src/session/paths.rs, over the code points of
-- a host. Parsing an address strictly (`IpAddr::from_str`) is a parameter.
pub mod Loopback
use agent_debugger.Prelude.{
  ℕ, ◌+◌, ◌*◌, ◌-◌, ◌/◌, ◌%◌, ◌^◌, Bool, false, ◌&&◌, ◌||◌, Option, none, some, List, [], ◌∷◌, map,
  any, all, length, leb, ltb, ◌==◌, if◌then◌else◌,
}
use agent_debugger.Dap.Text.{trim, to_ascii_lowercase, same_codes}
use agent_debugger.Dap.Header.{literal}

-- `IpAddr`: the 32 or 128 bits of an address
pub data IpAddr : Type 0 where
  v4 : ℕ → IpAddr
  v6 : ℕ → IpAddr

abbrev drop_last : List ℕ → List ℕ
drop_last [] = []
drop_last (c ∷ []) = []
drop_last (c ∷ d ∷ cs) = c ∷ drop_last (d ∷ cs)

abbrev last_is : ℕ → List ℕ → Bool
last_is x [] = false
last_is x (c ∷ []) = c == x
last_is x (c ∷ d ∷ cs) = last_is x (d ∷ cs)

-- `[host]` without its brackets
unfoldable pub strip_brackets : List ℕ → List ℕ
strip_brackets [] = []
strip_brackets (c ∷ cs) =
    if c == b'[' && (last_is b']' cs && ltb 1 (length cs)) then drop_last cs else c ∷ cs

-- `strip_suffix('.').unwrap_or`
unfoldable pub strip_dot : List ℕ → List ℕ
strip_dot h = if last_is b'.' h then drop_last h else h

-- `Ipv4Addr::is_loopback`
abbrev pub loopback_v4 : ℕ → Bool
loopback_v4 a = a / 2 ^ 24 == 127

-- `Ipv6Addr::is_loopback`, and `to_ipv4_mapped` of `::ffff:a.b.c.d`
abbrev pub loopback_v6 : ℕ → Bool
loopback_v6 a = a == 1 || (a / 2 ^ 32 == 65535 && loopback_v4 (a % 2 ^ 32))

abbrev push_part : ℕ → List (List ℕ) → List (List ℕ)
push_part c [] = (c ∷ []) ∷ []
push_part c (p ∷ ps) = (c ∷ p) ∷ ps

-- `s.split('.')`
unfoldable pub split_dots : List ℕ → List (List ℕ)
split_dots [] = [] ∷ []
split_dots (c ∷ cs) = let rest = split_dots cs in if c == b'.' then [] ∷ rest else push_part c rest

abbrev between : ℕ → ℕ → ℕ → Bool
between lo hi c = leb lo c && leb c hi

-- the value of a hexadecimal digit
abbrev digit : ℕ → ℕ
digit c = if between b'0' b'9' c then c - 48 else if between b'a' b'f' c then c - 87 else c - 55

abbrev valid_digit : ℕ → ℕ → Bool
valid_digit radix c =
    between b'0' b'9' c && ltb (c - 48) radix
    || radix == 16 && (between b'a' b'f' c || between b'A' b'F' c)

-- the number of valid digits
unfoldable pub digits_value : ℕ → ℕ → List ℕ → ℕ
digits_value radix n [] = n
digits_value radix n (c ∷ cs) = digits_value radix (n * radix + digit c) cs

-- the digits of a part, and their radix
unfoldable pub radix_of : List ℕ → List ℕ × ℕ
radix_of [] = ([], 10)
radix_of (c ∷ []) = (c ∷ [], 10)
radix_of (c ∷ d ∷ cs) =
    if c == b'0'
    then (if d == b'x' || d == b'X' then (cs, 16) else (c ∷ d ∷ cs, 8))
    else (c ∷ d ∷ cs, 10)

-- a part as a `u32`
unfoldable pub part_value : List ℕ → Option ℕ
unfolding radix_of digits_value
part_value p =
    let (digits, radix) = radix_of p in
    let n = digits_value radix 0 digits in
    if ltb 0 (length digits)
      && leb (length digits) 16
      && all (valid_digit radix) digits
      && leb n 4294967295
    then some n
    else none

unfoldable pub part_values : List (List ℕ) → Option (List ℕ)
unfolding part_value
part_values [] = some []
part_values (p ∷ ps) = elim (part_value p) [
  | none ↦ none
  | some n ↦ elim (part_values ps) [ none ↦ none | some ns ↦ some (n ∷ ns) ]
]

-- The address of one to four numbers, `a.b` being `a` and 24 bits of `b`, and so on.
unfoldable pub address_of : List ℕ → Option ℕ
address_of (a ∷ []) = some a
address_of (a ∷ b ∷ []) = if leb a 0xff && leb b 0xffffff then some (a * 2 ^ 24 + b) else none
address_of (a ∷ b ∷ c ∷ []) =
    if leb a 0xff && leb b 0xff && leb c 0xffff then some (a * 2 ^ 24 + b * 2 ^ 16 + c) else none
address_of (a ∷ b ∷ c ∷ d ∷ []) =
    if leb a 0xff && leb b 0xff && leb c 0xff && leb d 0xff
    then some (a * 2 ^ 24 + b * 2 ^ 16 + c * 2 ^ 8 + d)
    else none
address_of _ = none

abbrev loopback_address : Option ℕ → Bool
loopback_address none = false
loopback_address (some a) = a / 2 ^ 24 == 127

-- the forms of `inet_aton`: one to four parts, each decimal, octal or hexadecimal
unfoldable pub inet_aton_loopback : List ℕ → Bool
unfolding split_dots part_values address_of
inet_aton_loopback s =
    let parts = split_dots s in
    if any (λ c. c == b':') s
      || length s == 0
      || ltb 4 (length parts)
      || any (λ p. length p == 0 || ltb 18 (length p)) parts
    then false
    else elim (part_values parts) [ none ↦ false | some ns ↦ loopback_address (address_of ns) ]

abbrev loopback : List ℕ
loopback = literal "loopback"

module _ (parse_ip : List ℕ → Option IpAddr) where
  unfoldable pub ip_is_loopback : List ℕ → Bool
  unfolding inet_aton_loopback
  ip_is_loopback s = elim (parse_ip s) [
    | none ↦ inet_aton_loopback s
    | some (v4 a) ↦ loopback_v4 a
    | some (v6 a) ↦ loopback_v6 a
  ]

  unfoldable pub normalize_attach_host : List ℕ → List ℕ
  unfolding strip_brackets strip_dot ip_is_loopback
  normalize_attach_host host =
      let fqdn = strip_dot (map to_ascii_lowercase (strip_brackets (trim host))) in
      if same_codes fqdn (literal "localhost") || ip_is_loopback fqdn then loopback else fqdn

unfoldable pub is_unspecified_host : List ℕ → Bool
unfolding strip_brackets
is_unspecified_host host =
    let h = map to_ascii_lowercase (strip_brackets (trim host)) in
    same_codes h (literal "0.0.0.0")
    || same_codes h (literal "::")
    || same_codes h (literal "::0")
    || same_codes h (literal "0:0:0:0:0:0:0:0")
