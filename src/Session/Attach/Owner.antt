-- ===== src/Session/Attach/Owner.antt =====
-- The scan for the session that holds an attach endpoint finds one exactly if there is one.
use agent_debugger.Prelude.{
  ℕ, String, Bool, true, false, not, ◌&&◌, ◌≡◌, ◌≢◌, ◌⊎◌, ◌↔◌, inl, inr, refl, Option, none, some,
  ◌=ˢ◌, eq_iff, List, [], ◌∷◌, ==_iff, arith, ok, err, Bool-cases, Result,
}
use agent_debugger.Json.{and_then, unwrap_or}
use agent_debugger.Json.Serde.{Serde}
use agent_debugger.Session.Paths.{Metadata, directory, check_name}
use agent_debugger.Session.Paths.Hosts.{IpAddr}
use agent_debugger.Session.Sidecar.{session_lang_opt}
use agent_debugger.Session.Attach.{
  Entry, is_ok, is_directory, live_kind, same_endpoint, same_host, intent_endpoint,
  attach_exclusive, daemon_alive_in, kind_of, owns_endpoint, find_live_endpoint_owner_in,
}

all_iff :
    (a b c d e f g : Bool)
    → ((not a && b && c && d && e && f && g) ≡ true)
      ↔ ((a ≡ false) × (b ≡ true) × (c ≡ true) × (d ≡ true) × (e ≡ true) × (f ≡ true) × (g ≡ true))
all_iff true b c d e f g = ground arith
all_iff false b c d e f g = ground arith

-- some entry of the list is as `P` says
abbrev pub Some : (Entry → Type 0) → List Entry → Type 0
Some P [] = ⊥
Some P (e ∷ es) = P e ⊎ Some P es

-- the tests of the scan and what they say
is_ok_iff : {E : Type 0} (r : Result E (Unit {0})) → (is_ok r ≡ true) ↔ (r ≡ ok tt)
is_ok_iff (ok tt) = ((λ e. refl), (λ e. refl))
is_ok_iff (err e) = ((λ h. ground arith), (λ h. ground arith))

is_directory_iff : (m : Metadata) → (is_directory m ≡ true) ↔ (m ≡ directory)
is_directory_iff m = ground arith

abbrev pub IsExclusive : String → Type 0
IsExclusive lang = (lang ≡ "py") ⊎ (lang ≡ "node") ⊎ (lang ≡ "java")

attach_exclusive_iff : (lang : String) → (attach_exclusive lang ≡ true) ↔ IsExclusive lang
unfolding attach_exclusive
attach_exclusive_iff lang = ground (arith, eq_iff lang "py", eq_iff lang "node", eq_iff lang "java")

IsExclusive-some :
    (o : Option String)
    → attach_exclusive (unwrap_or o "") ≡ true
    → (lang : String) × (o ≡ some lang) × IsExclusive lang
IsExclusive-some none yes' =
    ground
      (arith, (attach_exclusive_iff "").0 yes', eq_iff "" "py", eq_iff "" "node", eq_iff "" "java")
IsExclusive-some (some lang) yes' = (lang, refl, (attach_exclusive_iff lang).0 yes')

live_kind-some :
    (o : Option String)
    → live_kind o ≡ true
    → (kind : String) × (o ≡ some kind) × ((kind ≡ "attach") ⊎ (kind ≡ "launch"))
live_kind-some none yes' = ground arith
live_kind-some (some kind) yes' =
    (kind, refl, ground (arith, eq_iff kind "attach", eq_iff kind "launch"))

live_kind-holds :
    (o : Option String) (kind : String)
    → o ≡ some kind
    → (kind ≡ "attach") ⊎ (kind ≡ "launch")
    → live_kind o ≡ true
live_kind-holds o kind here holds = ground (arith, eq_iff kind "attach", eq_iff kind "launch")

module _ (serde : Serde) (parse_ip : List ℕ → Option IpAddr) (now : ℕ) (exclude host : String)
    (port : ℕ) where
  -- Another session's real directory, with an intent for the same endpoint, an exclusive language, a
  -- kind that holds its target, and a live daemon.
  pub record IsOwner (e : Entry) : Type 0 where
    pub other : e.name ≢ exclude
    pub named : check_name e.name ≡ ok tt
    pub real : e.metadata ≡ directory
    pub named_host : String
    pub intent :
        and_then (and_then e.dir.stops serde.from_str) intent_endpoint ≡ some (named_host, port)
    pub host_alike : same_host serde parse_ip now named_host host ≡ true
    pub lang : String
    pub speaks : session_lang_opt serde e.dir ≡ some lang
    pub exclusive : IsExclusive lang
    pub kind : String
    pub recorded : kind_of serde parse_ip now e.dir ≡ some kind
    pub holds : (kind ≡ "attach") ⊎ (kind ≡ "launch")
    pub alive : daemon_alive_in serde now e.dir e.connects ≡ true

  endpoint-some :
      (o : Option (String × ℕ))
      → same_endpoint serde parse_ip now host port o ≡ true
      → (h : String) × (o ≡ some (h, port)) × (same_host serde parse_ip now h host ≡ true)
  endpoint-some none yes' = ground arith
  endpoint-some (some (h, p)) yes' = (h, ground (arith, ==_iff p port), ground arith)

  -- the seven guards at once
  owns_iff :
      (e : Entry)
      → (owns_endpoint serde parse_ip now exclude host port e ≡ true) ↔ (
          ((e.name =ˢ exclude) ≡ false)
          × (is_ok (check_name e.name) ≡ true)
          × (is_directory e.metadata ≡ true)
          × (same_endpoint serde parse_ip now host port
                (and_then (and_then e.dir.stops serde.from_str) intent_endpoint)
              ≡ true)
          × (attach_exclusive (unwrap_or (session_lang_opt serde e.dir) "") ≡ true)
          × (live_kind (kind_of serde parse_ip now e.dir) ≡ true)
          × (daemon_alive_in serde now e.dir e.connects ≡ true))
  unfolding owns_endpoint
  owns_iff e =
      all_iff (e.name =ˢ exclude) (is_ok (check_name e.name)) (is_directory e.metadata)
        (same_endpoint serde parse_ip now host port
          (and_then (and_then e.dir.stops serde.from_str) intent_endpoint))
        (attach_exclusive (unwrap_or (session_lang_opt serde e.dir) ""))
        (live_kind (kind_of serde parse_ip now e.dir)) (daemon_alive_in serde now e.dir e.connects)

  owns-IsOwner :
      (e : Entry) → owns_endpoint serde parse_ip now exclude host port e ≡ true → IsOwner e
  owns-IsOwner e owned =
      let g = (owns_iff e).0 owned in
      let intent =
        endpoint-some (and_then (and_then e.dir.stops serde.from_str) intent_endpoint) g.3 in
      let lang = IsExclusive-some (session_lang_opt serde e.dir) g.4 in
      let kind = live_kind-some (kind_of serde parse_ip now e.dir) g.5 in
      record {
        other = ground (arith, g.0, eq_iff e.name exclude);
        named = (is_ok_iff (check_name e.name)).0 g.1;
        real = (is_directory_iff e.metadata).0 g.2;
        named_host = intent.0;
        intent = intent.1;
        host_alike = intent.2;
        lang = lang.0;
        speaks = lang.1;
        exclusive = lang.2;
        kind = kind.0;
        recorded = kind.1;
        holds = kind.2;
        alive = g.6;
      }

  IsOwner-owns :
      (e : Entry) → IsOwner e → owns_endpoint serde parse_ip now exclude host port e ≡ true
  IsOwner-owns e o = (owns_iff e).1 (
    ground (arith, o.other, eq_iff e.name exclude),
    (is_ok_iff (check_name e.name)).1 o.named,
    (is_directory_iff e.metadata).1 o.real,
    rw o.intent (ground (arith, o.host_alike, ==_iff port port)),
    rw o.speaks ((attach_exclusive_iff o.lang).1 o.exclusive),
    live_kind-holds (kind_of serde parse_ip now e.dir) o.kind o.recorded o.holds,
    o.alive,
  )

  find-hit :
      (e : Entry) (es : List Entry)
      → owns_endpoint serde parse_ip now exclude host port e ≡ true
      → find_live_endpoint_owner_in serde parse_ip now exclude host port (e ∷ es) ≡ some e.name
  unfolding find_live_endpoint_owner_in
  find-hit e es owned = ground arith

  find-miss :
      (e : Entry) (es : List Entry)
      → owns_endpoint serde parse_ip now exclude host port e ≡ false
      → find_live_endpoint_owner_in serde parse_ip now exclude host port (e ∷ es)
        ≡ find_live_endpoint_owner_in serde parse_ip now exclude host port es
  unfolding find_live_endpoint_owner_in
  find-miss e es free = ground arith

  -- The scan answers with the name of an entry that owns the endpoint, and answers nothing only if no
  -- entry does.
  pub find_live-IsOwner :
      (es : List Entry)
      → ((name : String)
          → find_live_endpoint_owner_in serde parse_ip now exclude host port es ≡ some name
          → Some (λ e. (e.name ≡ name) × IsOwner e) es)
        × (Some IsOwner es
            → find_live_endpoint_owner_in serde parse_ip now exclude host port es ≢ none)
  unfolding find_live_endpoint_owner_in
  find_live-IsOwner [] = ((λ name found. ground arith), (λ owner. elim owner [ ]))
  find_live-IsOwner (e ∷ es) =
      let rest = find_live-IsOwner es in
      elim (Bool-cases (owns_endpoint serde parse_ip now exclude host port e)) [
        | inl owned ↦ (
          (λ name found. inl (ground (arith, find-hit e es owned), owns-IsOwner e owned)),
          (λ owner missing. ground (arith, find-hit e es owned)),
        )
        | inr free ↦ (
          (λ name found. inr (rest.0 name (ground (arith, find-miss e es free)))),
          (λ owner missing. elim owner [
            | inl o ↦ ground (arith, IsOwner-owns e o)
            | inr later ↦ rest.1 later (ground (arith, find-miss e es free))
          ]),
        )
      ]
