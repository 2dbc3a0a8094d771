-- ===== src/Target/Roundtrip.antt =====
-- The arguments of a bridge as a list of options.
use agent_debugger.Prelude.{
  and-left, and-right, ℕ, String, Bool, true, false, not, ◌&&◌, ◌||◌, ◌≡◌, refl, sym, ◌∙◌, ap,
  Option, none, some, ◌=ˢ◌, List, [], ◌∷◌, ◌++◌, map, all, arith, Bool-cases, inl, inr, eq_iff,
  Result, ok, err, ◌>>=◌, ◌>>◌, if◌then◌else◌,
}
use agent_debugger.Target.{
  Target, java_launch, java_attach, py_launch, py_attach, node_launch, node_attach, browser_attach,
  UsageError, check_module, one_of, Stops, each, opt_flag, bare_flag, target_args, stops_args, show,
}

-- One option.
pub data Item : Type 0 where
  pair : String → String → Item
  switch : String → Item

abbrev pub is_switch : String → Bool
is_switch a = a =ˢ "--subprocess" || a =ˢ "--workers"

abbrev pub first_item : Item → List Item × List String → List Item × List String
first_item i (items, args) = (i ∷ items, args)

-- the values of one option, in their order
abbrev pub values_of : String → List Item → List String
values_of key [] = []
values_of key (pair k v ∷ items) =
    let rest = values_of key items in if k =ˢ key then v ∷ rest else rest
values_of key (switch k ∷ items) = values_of key items

abbrev pub print : List Item → List String
print [] = []
print (pair k v ∷ items) = k ∷ v ∷ print items
print (switch k ∷ items) = k ∷ print items

abbrev pub is_proper : Item → Bool
is_proper (pair k v) = not (k =ˢ "--") && not (is_switch k)
is_proper (switch k) = not (k =ˢ "--") && is_switch k

pub print-append : (xs ys : List Item) → print (xs ++ ys) ≡ print xs ++ print ys
print-append [] ys = refl
print-append (pair k v ∷ xs) ys = ap (λ args. k ∷ v ∷ args) (print-append xs ys)
print-append (switch k ∷ xs) ys = ap (λ args. k ∷ args) (print-append xs ys)

pub values_of-append :
    (key : String) (xs ys : List Item)
    → values_of key (xs ++ ys) ≡ values_of key xs ++ values_of key ys
values_of-append key [] ys = refl
values_of-append key (pair k v ∷ xs) ys = grind (arith, values_of-append key xs ys)
values_of-append key (switch k ∷ xs) ys = values_of-append key xs ys

pub all-append :
    (p : Item → Bool) (xs ys : List Item)
    → all p xs ≡ true
    → all p ys ≡ true
    → all p (xs ++ ys) ≡ true
all-append p [] ys on_xs on_ys = on_ys
all-append p (x ∷ xs) ys on_xs on_ys =
    rw (and-left (p x) (all p xs) on_xs)
      (all-append p xs ys (and-right (p x) (all p xs) on_xs) on_ys)

abbrev pub each_item : String → List String → List Item
each_item flag vs = map (pair flag) vs

print-each_item : (flag : String) (vs : List String) → print (each_item flag vs) ≡ each flag vs
print-each_item flag [] = refl
print-each_item flag (v ∷ vs) = ap (λ args. flag ∷ v ∷ args) (print-each_item flag vs)

values_of-each_item :
    (key flag : String) (vs : List String)
    → values_of key (each_item flag vs) ≡ (if flag =ˢ key then vs else [])
values_of-each_item key flag [] = grind arith
values_of-each_item key flag (v ∷ vs) = grind (arith, values_of-each_item key flag vs)

-- The options of the stops, one list after the other.
abbrev pub stops_items : Stops → List Item
stops_items stops =
    each_item "--break" stops.breakpoints
    ++ (each_item "--src" stops.source_paths
        ++ (each_item "--logpoint" stops.logpoints
            ++ (each_item "--watch" stops.watches
                ++ (each_item "--exit" stops.exits ++ pair "--timeout" (show stops.timeout) ∷ []))))

print-after :
    (flag : String) (vs : List String) (ys : List Item) (args : List String)
    → print ys ≡ args
    → print (each_item flag vs ++ ys) ≡ each flag vs ++ args
print-after flag vs ys args e =
    print-append (each_item flag vs) ys ∙ rw (print-each_item flag vs, e) refl

pub print-stops_items : (stops : Stops) → print (stops_items stops) ≡ stops_args stops
unfolding stops_args
print-stops_items stops = print-after "--break" stops.breakpoints _ _ (
    print-after "--src" stops.source_paths _ _ (
      print-after "--logpoint" stops.logpoints _ _
        (print-after "--watch" stops.watches _ _ (print-after "--exit" stops.exits _ _ refl))))

values_of-after :
    (key flag : String) (vs : List String) (ys : List Item)
    → values_of key (each_item flag vs ++ ys) ≡ (if flag =ˢ key then vs else []) ++ values_of key ys
values_of-after key flag vs ys =
    values_of-append key (each_item flag vs) ys
    ∙ ap (λ l. l ++ values_of key ys) (values_of-each_item key flag vs)

pub append_nil : (vs : List String) → vs ++ [] ≡ vs
append_nil [] = refl
append_nil (v ∷ vs) = ap (◌∷◌ v) (append_nil vs)

abbrev pub picks : String → String → List String → List String
picks key flag vs = if flag =ˢ key then vs else []

pub stops-values :
    (key : String) (stops : Stops)
    → values_of key (stops_items stops)
      ≡ picks key "--break" stops.breakpoints
        ++ (picks key "--src" stops.source_paths
            ++ (picks key "--logpoint" stops.logpoints
                ++ (picks key "--watch" stops.watches
                    ++ (picks key "--exit" stops.exits
                        ++ picks key "--timeout" (show stops.timeout ∷ [])))))
stops-values key stops =
    rw
      (
        values_of-after key "--break" stops.breakpoints (
            each_item "--src" stops.source_paths
            ++ (each_item "--logpoint" stops.logpoints
                ++ (each_item "--watch" stops.watches
                    ++ (each_item "--exit" stops.exits
                        ++ pair "--timeout" (show stops.timeout) ∷ [])))),
        values_of-after key "--src" stops.source_paths (
            each_item "--logpoint" stops.logpoints
            ++ (each_item "--watch" stops.watches
                ++ (each_item "--exit" stops.exits ++ pair "--timeout" (show stops.timeout) ∷ []))),
        values_of-after key "--logpoint" stops.logpoints (
            each_item "--watch" stops.watches
            ++ (each_item "--exit" stops.exits ++ pair "--timeout" (show stops.timeout) ∷ [])),
        values_of-after key "--watch" stops.watches
            (each_item "--exit" stops.exits ++ pair "--timeout" (show stops.timeout) ∷ []),
        values_of-after key "--exit" stops.exits (pair "--timeout" (show stops.timeout) ∷ []),
      )
      refl

-- The options of a target.
abbrev pub opt_item : String → Option String → List Item
opt_item flag none = []
opt_item flag (some v) = pair flag v ∷ []

abbrev pub switch_item : String → Bool → List Item
switch_item flag true = switch flag ∷ []
switch_item flag false = []

abbrev pub endpoint_items : String → ℕ → List Item
endpoint_items host port = pair "--host" host ∷ pair "--port" (show port) ∷ []

abbrev pub target_items : Target → List Item
target_items (java_launch main none) = pair "--main" main ∷ pair "--cp" "." ∷ []
target_items (java_launch main (some classpath)) = pair "--main" main ∷ pair "--cp" classpath ∷ []
target_items (java_attach host port) = endpoint_items host port
target_items (py_launch program module' python subprocess) =
    opt_item "--program" program
    ++ (opt_item "--module" module'
        ++ (opt_item "--python" python ++ switch_item "--subprocess" subprocess))
target_items (py_attach host port) = endpoint_items host port
target_items (node_launch program node workers) =
    pair "--program" program ∷ opt_item "--node" node ++ switch_item "--workers" workers
target_items (node_attach host port) = endpoint_items host port
target_items (browser_attach host port tab) = endpoint_items host port ++ opt_item "--tab" tab

print-switches :
    (python : Option String) (flag other : String) (on : Bool)
    → print (opt_item flag python ++ switch_item other on)
      ≡ opt_flag flag python ++ bare_flag other on
print-switches none flag other true = refl
print-switches none flag other false = refl
print-switches (some v) flag other true = refl
print-switches (some v) flag other false = refl

abbrev pub args_of : Result UsageError (List String) → List String
args_of (ok args) = args
args_of (err e) = []

checked-args :
    (r : Result UsageError (Unit {0})) (args what : List String)
    → (r >> ok args) ≡ ok what
    → args ≡ what
checked-args (ok done) args what e = ap args_of e
checked-args (err f) args what e = cc

print-one_of :
    (program module' : Option String) (rest : List Item) (what : List String)
    → one_of program module' ≡ ok what
    → print (opt_item "--program" program ++ (opt_item "--module" module' ++ rest))
      ≡ what ++ print rest
print-one_of (some p) none rest what e = ap (λ w. w ++ print rest) (ap args_of e)
print-one_of none (some m) rest what e =
    ap (λ w. w ++ print rest) (checked-args (check_module m) ("--module" ∷ m ∷ []) what e)
print-one_of none none rest what e = cc
print-one_of (some p) (some m) rest what e = cc

-- a target that is accepted
print-py :
    (program module' python : Option String) (subprocess : Bool) (args : List String)
    (r : Result UsageError (List String))
    → one_of program module' ≡ r
    → (r >>= λ what.
        ok (what ++ (opt_flag "--python" python ++ bare_flag "--subprocess" subprocess)))
      ≡ ok args
    → print (target_items (py_launch program module' python subprocess)) ≡ args
print-py program module' python subprocess args (ok what) e made =
    print-one_of program module'
      (opt_item "--python" python ++ switch_item "--subprocess" subprocess) what e
    ∙ ap (◌++◌ what) (print-switches python "--python" "--subprocess" subprocess)
    ∙ ap args_of made
print-py program module' python subprocess args (err f) e made = cc

pub print-target_items :
    (target : Target) (args : List String)
    → target_args target ≡ ok args
    → print (target_items target) ≡ args
unfolding target_args
print-target_items (java_launch main none) args e = ap args_of e
print-target_items (java_launch main (some classpath)) args e = ap args_of e
print-target_items (java_attach host port) args e = ap args_of e
print-target_items (py_launch program module' python subprocess) args e =
    print-py program module' python subprocess args (one_of program module') refl e
print-target_items (py_attach host port) args e = ap args_of e
print-target_items (node_launch program node workers) args e =
    ap (λ l. "--program" ∷ program ∷ l) (print-switches node "--node" "--workers" workers)
    ∙ ap args_of e
print-target_items (node_attach host port) args e = ap args_of e
print-target_items (browser_attach host port none) args e = ap args_of e
print-target_items (browser_attach host port (some tab)) args e = ap args_of e

-- no option of a target is one of the stops, of the identity or of the session
abbrev pub is_targets : String → Bool
is_targets k =
    k =ˢ "--main"
    || k =ˢ "--cp"
    || k =ˢ "--host"
    || k =ˢ "--port"
    || k =ˢ "--program"
    || k =ˢ "--module"
    || k =ˢ "--python"
    || k =ˢ "--node"
    || k =ˢ "--tab"

abbrev pub names_target : Item → Bool
names_target (pair k v) = is_targets k && is_proper (pair k v)
names_target (switch k) = is_proper (switch k)

target_ne : (key k : String) → is_targets key ≡ false → is_targets k ≡ true → (k =ˢ key) ≡ false
target_ne key k foreign own = elim (Bool-cases (k =ˢ key)) [
  | inl same ↦ cc (sym foreign ∙ sym (ap is_targets ((eq_iff k key).0 same)) ∙ own)
  | inr other ↦ other
]

pub foreign-values :
    (key : String)
    → is_targets key ≡ false
    → (items : List Item) → all names_target items ≡ true
    → values_of key items ≡ []
foreign-values key foreign [] own = refl
foreign-values key foreign (pair k v ∷ items) own =
    rw
      (target_ne key k foreign (
        and-left (is_targets k) (is_proper (pair k v))
          (and-left (names_target (pair k v)) (all names_target items) own)))
      (foreign-values key foreign items
        (and-right (names_target (pair k v)) (all names_target items) own))
foreign-values key foreign (switch k ∷ items) own =
    foreign-values key foreign items
      (and-right (names_target (switch k)) (all names_target items) own)

opt_item-own :
    (flag : String) (v : Option String)
    → names_target (pair flag flag) ≡ true
    → all names_target (opt_item flag v) ≡ true
opt_item-own flag none own = refl
opt_item-own flag (some v) own = rw own refl

switch_item-own :
    (flag : String) (on : Bool)
    → is_proper (switch flag) ≡ true
    → all names_target (switch_item flag on) ≡ true
switch_item-own flag true own = rw own refl
switch_item-own flag false own = refl

pub target_items-own : (target : Target) → all names_target (target_items target) ≡ true
target_items-own (java_launch main none) = refl
target_items-own (java_launch main (some classpath)) = refl
target_items-own (java_attach host port) = refl
target_items-own (py_launch program module' python subprocess) =
    all-append names_target (opt_item "--program" program) _ (opt_item-own "--program" program refl)
      (all-append names_target (opt_item "--module" module') _
        (opt_item-own "--module" module' refl)
        (all-append names_target (opt_item "--python" python) _
          (opt_item-own "--python" python refl) (switch_item-own "--subprocess" subprocess refl)))
target_items-own (py_attach host port) = refl
target_items-own (node_launch program node workers) =
    all-append names_target (opt_item "--node" node) _ (opt_item-own "--node" node refl)
      (switch_item-own "--workers" workers refl)
target_items-own (node_attach host port) = refl
target_items-own (browser_attach host port none) = refl
target_items-own (browser_attach host port (some tab)) = refl
