-- ===== src/Tests/Listing.antt =====
-- Rows of the status list.
use agent_debugger.Prelude.{
  ℕ, ◌*◌, ◌^◌, String, true, false, ◌≡◌, refl, none, some, List, [], ◌∷◌, map,
}
use agent_debugger.Dap.Text.{decimal, decimal_from}
use agent_debugger.Json.{
  Value, obj, arr, str, num, bool, member, no_member, no_element, get, get_str, lookup,
}
use agent_debugger.Json.Serde.{Serde}
use agent_debugger.Session.Paths.{
  Dir, directory, agent_home, is_blank, check_name, has_separator, is_normal_component,
  check_dir_real, checked_session_dir,
}
use agent_debugger.Session.Sidecar.{sidecar_is_v2, cli_markers_v2}
use agent_debugger.Session.Probe.{Probe, not_ours, unclear}
use agent_debugger.Session.Attach.{published_recently}
use agent_debugger.Session.Layered.{cached_target_identity}
use agent_debugger.Session.Status.{Listed, alive_and_hint, session_entry, insert_row, rows}
use agent_debugger.Session.Status.Rows.{IsHonestRow, session_entry-IsHonestRow}

abbrev masked : List String → Value
masked argv = arr no_element

abbrev small : Value → ℕ
small v = 10

abbrev everything : Value
everything = obj (
    member "schemaVersion" (num 2) (
      member "lang" (str "python")
        (member "port" (num 5678) (member "updatedAt" (num 100) no_member))))

abbrev sidecars : Serde
sidecars = record {
  to_vec = λ v. [];
  from_utf8_str = λ bs. none;
  to_string = λ v. "";
  from_str = λ s. some everything;
}

abbrev files : Dir
files = record {
  metadata = directory;
  lang = some "lang";
  stops = some "stops";
  session = some "session";
  breaks_lock = false;
  temporaries = [];
}

-- a directory without lang.json
abbrev older : Dir
older = record {
  metadata = directory;
  lang = none;
  stops = some "stops";
  session = some "session";
  breaks_lock = false;
  temporaries = [];
}

abbrev stranger : ℕ → Probe
stranger port = not_ours "unexpected protocol"

abbrev silent : ℕ → Probe
silent port = unclear

abbrev listed : List Listed
listed =
    record { name = "web"; is_dir = true; dir = files }
    ∷ record { name = "app"; is_dir = true; dir = older }
    ∷ record { name = "note"; is_dir = false; dir = files }
    ∷ []

row_runs :
    (get "hint" (session_entry masked small (150 * 10 ^ 9) sidecars stranger "web" files)
      ≡ some (str "port 5678 is not this session's debugger (unexpected protocol); close to clear"))
    × (get "alive" (session_entry masked small (150 * 10 ^ 9) sidecars silent "web" files)
        ≡ some (bool true))
    × (get "alive" (session_entry masked small (220 * 10 ^ 9) sidecars silent "web" files)
        ≡ some (bool false))
    × (get "stale" (session_entry masked small (150 * 10 ^ 9) sidecars silent "app" older)
        ≡ some (bool true))
unfolding session_entry alive_and_hint published_recently lookup cli_markers_v2 sidecar_is_v2
    decimal decimal_from
row_runs = (refl, refl, refl, refl)

status_runs :
    map (get_str "name") (rows masked small (150 * 10 ^ 9) sidecars silent (some "/home/me") listed)
    ≡ some "app" ∷ some "web" ∷ []
unfolding rows insert_row session_entry checked_session_dir agent_home check_name is_blank
    has_separator is_normal_component check_dir_real lookup cli_markers_v2 sidecar_is_v2
status_runs = refl

session_entry-IsHonestRow_example :
    IsHonestRow silent
      (150 * 10 ^ 9)
      sidecars
      files
      (cached_target_identity masked small 150 sidecars files)
      (session_entry masked small (150 * 10 ^ 9) sidecars silent "web" files)
session_entry-IsHonestRow_example =
    session_entry-IsHonestRow masked small (150 * 10 ^ 9) sidecars silent "web" files
