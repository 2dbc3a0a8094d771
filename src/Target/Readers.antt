-- ===== src/Target/Readers.antt =====
-- How the four bridges read their arguments: bridge/java/src/BridgeCli.java, bridge/py/src/pybridge.py,
-- bridge/node/src/nodebridge.js and bridge/browser/src/browserbridge.js. What a bridge makes of the
-- value of an option is left out.
use agent_debugger.Prelude.{
  String, Bool, true, false, not, ◌&&◌, ◌||◌, ◌≡◌, refl, ◌∙◌, ap, Option, none, some, ◌=ˢ◌, List,
  [], ◌∷◌, ◌++◌, any, all, and-left, and-right, if◌then◌else◌,
}
use agent_debugger.Target.{
  Target, java_launch, java_attach, py_launch, py_attach, node_launch, node_attach, browser_attach,
  Stops, program_tail, show,
}
use agent_debugger.Target.Roundtrip.{
  Item, pair, switch, print, all-append, each_item, stops_items, opt_item, switch_item,
  target_items,
}

pub data Bridge : Type 0 where
  java python node browser : Bridge

-- the options with a value that all four know
abbrev pub common_options : List String
common_options =
    "--kind" ∷ "--dir" ∷ "--host" ∷ "--port" ∷ "--src" ∷ "--break" ∷ "--logpoint" ∷ "--timeout"
    ∷ "--target-identity" ∷ []

-- the others: only Java knows watches and exits
abbrev pub own_options : Bridge → List String
own_options java = "--main" ∷ "--cp" ∷ "--classpath" ∷ "--watch" ∷ "--exit" ∷ []
own_options python = "--program" ∷ "--module" ∷ "--python" ∷ []
own_options node = "--program" ∷ "--node" ∷ []
own_options browser = "--tab" ∷ []

abbrev pub takes_value : Bridge → String → Bool
takes_value b a = any (λ k. a =ˢ k) common_options || any (λ k. a =ˢ k) (own_options b)

abbrev pub switches : Bridge → List String
switches java = []
switches python = "--subprocess" ∷ []
switches node = "--workers" ∷ []
switches browser = []

-- the browser bridge starts no program, and knows no separator
abbrev pub knows_separator : Bridge → Bool
knows_separator browser = false
knows_separator _ = true

abbrev Reading : Type 0
Reading = Option (List Item × List String)

abbrev pub put : Item → Reading → Reading
put i none = none
put i (some (items, args)) = some (i ∷ items, args)

-- The options, and the program's arguments; `none` is a usage error: an unknown argument, or an
-- option without its value.
unfoldable pub read_options : Bridge → List String → Reading
read_options b [] = some ([], [])
read_options b (a ∷ []) =
    if (a =ˢ "--") && knows_separator b
    then some ([], [])
    else if takes_value b a
    then none
    else if any (λ k. a =ˢ k) (switches b)
    then some (switch a ∷ [], [])
    else none
read_options b (a ∷ v ∷ args) =
    let after_switch = read_options b (v ∷ args) in
    let after_value = read_options b args in
    if (a =ˢ "--") && knows_separator b
    then some ([], v ∷ args)
    else if takes_value b a
    then put (pair a v) after_value
    else if any (λ k. a =ˢ k) (switches b)
    then put (switch a) after_switch
    else none

-- an option that the bridge knows
abbrev pub fits : Bridge → Item → Bool
fits b (pair k v) = not (k =ˢ "--") && takes_value b k
fits b (switch k) = not (k =ˢ "--") && (not (takes_value b k) && any (λ x. k =ˢ x) (switches b))

not-false : (a : Bool) → not a ≡ true → a ≡ false
not-false true e = cc
not-false false e = refl

read-pair :
    (b : Bridge) (k v : String) (args : List String)
    → fits b (pair k v) ≡ true
    → read_options b (k ∷ v ∷ args) ≡ put (pair k v) (read_options b args)
unfolding read_options
read-pair b k v args known =
    let word = not-false (k =ˢ "--") (and-left (not (k =ˢ "--")) (takes_value b k) known) in
    let valued = and-right (not (k =ˢ "--")) (takes_value b k) known in rw (word, valued) refl

read-switch :
    (b : Bridge) (k : String) (args : List String)
    → fits b (switch k) ≡ true
    → read_options b (k ∷ args) ≡ put (switch k) (read_options b args)
unfolding read_options
read-switch b k args known = go args
  where
    word : (k =ˢ "--") ≡ false
    word = not-false (k =ˢ "--") (and-left (not (k =ˢ "--")) _ known)

    rest : (not (takes_value b k) && any (λ x. k =ˢ x) (switches b)) ≡ true
    rest = and-right (not (k =ˢ "--")) _ known

    alone : takes_value b k ≡ false
    alone = not-false (takes_value b k) (and-left (not (takes_value b k)) _ rest)

    listed : any (λ x. k =ˢ x) (switches b) ≡ true
    listed = and-right (not (takes_value b k)) _ rest

    go : (as' : List String) → read_options b (k ∷ as') ≡ put (switch k) (read_options b as')
    go [] = rw (word, alone, listed) refl
    go (v ∷ as') = rw (word, alone, listed) refl

-- A browser is given no program's arguments.
abbrev pub MayPass : Bridge → List String → Type 0
MayPass browser args = args ≡ []
MayPass _ args = Unit {0}

read-tail :
    (b : Bridge) (args : List String)
    → MayPass b args
    → read_options b (program_tail args) ≡ some ([], args)
unfolding read_options
read-tail b [] may = refl
read-tail java (a ∷ args) may = refl
read-tail python (a ∷ args) may = refl
read-tail node (a ∷ args) may = refl
read-tail browser (a ∷ args) may = cc

pub read-print :
    (b : Bridge) (items : List Item) (args : List String)
    → MayPass b args
    → all (fits b) items ≡ true
    → read_options b (print items ++ program_tail args) ≡ some (items, args)
read-print b [] args may known = read-tail b args may
read-print b (pair k v ∷ items) args may known =
    read-pair b k v (print items ++ program_tail args)
      (and-left (fits b (pair k v)) (all (fits b) items) known)
    ∙ ap (put (pair k v))
        (read-print b items args may (and-right (fits b (pair k v)) (all (fits b) items) known))
read-print b (switch k ∷ items) args may known =
    read-switch b k (print items ++ program_tail args)
      (and-left (fits b (switch k)) (all (fits b) items) known)
    ∙ ap (put (switch k))
        (read-print b items args may (and-right (fits b (switch k)) (all (fits b) items) known))

-- Only the Java bridge takes watches and exits; the others refuse them.
abbrev pub Supports : Bridge → Stops → Type 0
Supports java stops = Unit {0}
Supports _ stops = (stops.watches ≡ []) × (stops.exits ≡ [])

each-fits :
    (b : Bridge) (flag : String) (vs : List String)
    → fits b (pair flag flag) ≡ true
    → all (fits b) (each_item flag vs) ≡ true
each-fits b flag [] known = refl
each-fits b flag (v ∷ vs) known = rw known (each-fits b flag vs known)

after-fits :
    (b : Bridge) (flag : String) (vs : List String) (ys : List Item)
    → fits b (pair flag flag) ≡ true
    → all (fits b) ys ≡ true
    → all (fits b) (each_item flag vs ++ ys) ≡ true
after-fits b flag vs ys known on_ys =
    all-append (fits b) (each_item flag vs) ys (each-fits b flag vs known) on_ys

none-fits :
    (b : Bridge) (flag : String) (vs : List String) (ys : List Item)
    → vs ≡ []
    → all (fits b) ys ≡ true
    → all (fits b) (each_item flag vs ++ ys) ≡ true
none-fits b flag vs ys empty on_ys = rw empty on_ys

last-fits :
    (b : Bridge) (stops : Stops)
    → Supports b stops
    → all (fits b) (
        each_item "--watch" stops.watches
        ++ (each_item "--exit" stops.exits ++ pair "--timeout" (show stops.timeout) ∷ []))
      ≡ true
last-fits java stops supported =
    after-fits java "--watch" stops.watches _ refl
      (after-fits java "--exit" stops.exits _ refl refl)
last-fits python stops supported =
    none-fits python "--watch" stops.watches _ supported.0
      (none-fits python "--exit" stops.exits _ supported.1 refl)
last-fits node stops supported =
    none-fits node "--watch" stops.watches _ supported.0
      (none-fits node "--exit" stops.exits _ supported.1 refl)
last-fits browser stops supported =
    none-fits browser "--watch" stops.watches _ supported.0
      (none-fits browser "--exit" stops.exits _ supported.1 refl)

pub stops-fits :
    (b : Bridge) (stops : Stops) → Supports b stops → all (fits b) (stops_items stops) ≡ true
stops-fits b stops supported = after-fits b "--break" stops.breakpoints _ refl (
    after-fits b "--src" stops.source_paths _ refl
      (after-fits b "--logpoint" stops.logpoints _ refl (last-fits b stops supported)))

-- the bridge of a target
abbrev pub bridge_of : Target → Bridge
bridge_of (java_launch main classpath) = java
bridge_of (java_attach host port) = java
bridge_of (py_launch program module' interpreter subprocess) = python
bridge_of (py_attach host port) = python
bridge_of (node_launch program binary workers) = node
bridge_of (node_attach host port) = node
bridge_of (browser_attach host port tab) = browser

opt-fits :
    (b : Bridge) (flag : String) (v : Option String)
    → fits b (pair flag flag) ≡ true
    → all (fits b) (opt_item flag v) ≡ true
opt-fits b flag none known = refl
opt-fits b flag (some v) known = rw known refl

switch-fits :
    (b : Bridge) (flag : String) (on : Bool)
    → fits b (switch flag) ≡ true
    → all (fits b) (switch_item flag on) ≡ true
switch-fits b flag true known = rw known refl
switch-fits b flag false known = refl

pub target-fits : (target : Target) → all (fits (bridge_of target)) (target_items target) ≡ true
target-fits (java_launch main none) = refl
target-fits (java_launch main (some classpath)) = refl
target-fits (java_attach host port) = refl
target-fits (py_launch program module' interpreter subprocess) =
    all-append (fits python) (opt_item "--program" program) _
      (opt-fits python "--program" program refl)
      (all-append (fits python) (opt_item "--module" module') _
        (opt-fits python "--module" module' refl)
        (all-append (fits python) (opt_item "--python" interpreter) _
          (opt-fits python "--python" interpreter refl)
          (switch-fits python "--subprocess" subprocess refl)))
target-fits (py_attach host port) = refl
target-fits (node_launch program binary workers) =
    all-append (fits node) (opt_item "--node" binary) _ (opt-fits node "--node" binary refl)
      (switch-fits node "--workers" workers refl)
target-fits (node_attach host port) = refl
target-fits (browser_attach host port none) = refl
target-fits (browser_attach host port (some tab)) = refl
