-- ===== src/Target/Bridge.antt =====
-- What a bridge reads of the arguments that `setup_bridge` starts it with.
use agent_debugger.Prelude.{String, Bool, not, ◌≡◌, ◌=ˢ◌, Option, none, some, List, [], ◌∷◌, ◌++◌}
use agent_debugger.Target.{
  Target, Stops, stops_args, program_tail, adapter_args, session_args, show,
}
use agent_debugger.Target.Roundtrip.{Item, pair, values_of, print, stops_items, target_items}

abbrev pub is_word : String → Bool
is_word a = not (a =ˢ "--")

-- no usage error; the options of a session, read back one by one, and the program's arguments
abbrev pub IsRead :
    String → String → String → Stops → List String → Option (List Item × List String) → Type 0
IsRead kind dir identity stops program_args none = ⊥
IsRead kind dir identity stops program_args (some (items, rest)) =
    (rest ≡ program_args)
    × (values_of "--kind" items ≡ kind ∷ [])
    × (values_of "--dir" items ≡ dir ∷ [])
    × (values_of "--break" items ≡ stops.breakpoints)
    × (values_of "--src" items ≡ stops.source_paths)
    × (values_of "--logpoint" items ≡ stops.logpoints)
    × (values_of "--watch" items ≡ stops.watches)
    × (values_of "--exit" items ≡ stops.exits)
    × (values_of "--timeout" items ≡ show stops.timeout ∷ [])
    × (values_of "--target-identity" items ≡ identity ∷ [])

module _ (kind dir identity : String) (target : Target) (stops : Stops) where
  abbrev last_items : List Item
  last_items = stops_items stops ++ pair "--target-identity" identity ∷ []

  abbrev pub all_items : List Item
  all_items = pair "--kind" kind ∷ pair "--dir" dir ∷ target_items target ++ last_items

module _ (lang installed kind dir identity : String) (target : Target) (stops : Stops)
    (program_args targeted : List String) where
  abbrev pub options : List String
  options = adapter_args lang installed ++ (session_args kind dir ++ (targeted ++ stops_args stops))

  abbrev pub args : List String
  args = targeted ++ (stops_args stops ++ program_tail program_args)

  abbrev with_identity : List String
  with_identity = "--target-identity" ∷ identity ∷ program_tail program_args

  abbrev pub rest : List String
  rest = print (all_items kind dir identity target stops) ++ program_tail program_args
