-- ===== src/Tests/Attaching.antt =====
-- src/session/attach.rs at a concrete bridge and a concrete sessions root.
use agent_debugger.Prelude.{
  ℕ, ◌≡◌, ◌≢◌, refl, String, true, false, Option, none, some, List, [], ◌∷◌, take, drop, arith,
  ◌=ˢ◌, if◌then◌else◌,
}
use agent_debugger.Json.{
  Value, bool, str, num, arr, obj, no_member, member, no_element, lookup, to_list,
}
use agent_debugger.Json.Serde.{Serde, BytesBack}
use agent_debugger.Dap.Text.{utf8_step, decode_from, decimal, decimal_from}
use agent_debugger.Dap.Header.{literal}
use agent_debugger.Dap.Frame.{header_of, encode_message}
use agent_debugger.Session.Paths.{directory}
use agent_debugger.Session.Paths.Hosts.{IpAddr}
use agent_debugger.Session.Probe.{
  ours, connected, Answer, chunk, valid_breaks_envelope, probe_session_bridge,
}
use agent_debugger.Session.Probe.Verdict.{
  IsReceived, ShowsBridge, probe_ours-ShowsBridge, Delivers, probe_chunks-ours,
}
use agent_debugger.Session.Attach.{Entry, find_live_endpoint_owner_in}
use agent_debugger.Session.Attach.Owner.{IsOwner, Some, find_live-IsOwner}

abbrev stops_answer : Value
stops_answer = obj (member "ok" (bool true) (member "stops" (arr no_element) no_member))

abbrev bridge : Serde
bridge = record {
  to_vec = λ v. literal "{\"ok\":true,\"stops\":[]}";
  from_utf8_str = λ bs. some stops_answer;
  to_string = λ v. "";
  from_str = λ s. none;
}

bridge-BytesBack : BytesBack bridge stops_answer
unfolding decode_from utf8_step
bridge-BytesBack = record { chars = literal "{\"ok\":true,\"stops\":[]}"; utf8 = refl; back = refl }

abbrev answers : List Answer
answers =
    chunk (take 9 (encode_message bridge stops_answer))
    ∷ chunk (drop 9 (encode_message bridge stops_answer))
    ∷ []

delivered : Delivers answers (encode_message bridge stops_answer)
unfolding encode_message header_of decimal decimal_from
delivered = (
  take 9 (encode_message bridge stops_answer),
  drop 9 (encode_message bridge stops_answer),
  refl,
  (drop 9 (encode_message bridge stops_answer), [], refl, refl, refl),
  refl,
)

probe_chunks-ours_example : probe_session_bridge bridge connected true true answers ≡ some ours
unfolding valid_breaks_envelope lookup to_list
probe_chunks-ours_example =
    probe_chunks-ours bridge stops_answer bridge-BytesBack refl (omega arith)
      (unfold encode_message header_of decimal decimal_from in omega arith) refl answers delivered

probe_ours-ShowsBridge_example :
    (bytes : List ℕ) × IsReceived [] answers bytes × ShowsBridge bridge bytes
probe_ours-ShowsBridge_example =
    probe_ours-ShowsBridge bridge connected true true answers probe_chunks-ours_example

abbrev dotted : List (List ℕ)
dotted = literal "0x7f" ∷ literal "1" ∷ []

-- one attached python session whose daemon answers the second connect
abbrev read_back : String → Option Value
read_back s =
    if s =ˢ "lang"
    then some (obj (member "lang" (str "py") no_member))
    else if s =ˢ "session"
    then some (obj (member "kind" (str "attach") (member "port" (num 4000) no_member)))
    else some (
        obj (
          member "requestedTarget"
            (obj (member "host" (str "localhost") (member "port" (num 5678) no_member))) no_member))

abbrev files : Serde
files = record {
  to_vec = λ v. [];
  from_utf8_str = λ bs. none;
  to_string = λ v. "";
  from_str = read_back;
}

abbrev entries : List Entry
entries =
    record {
      name = "owner";
      metadata = directory;
      dir = record {
        metadata = directory;
        lang = some "lang";
        stops = some "stops";
        session = some "session";
        breaks_lock = false;
        temporaries = [];
      };
      connects = (false, true);
    }
    ∷ []

abbrev no_ip : List ℕ → Option IpAddr
no_ip s = none

find_live-IsOwner_example :
    ((name : String)
      → find_live_endpoint_owner_in files no_ip 0 "new" "127.1" 5678 entries ≡ some name
      → Some (λ e. (e.name ≡ name) × IsOwner files no_ip 0 "new" "127.1" 5678 e) entries)
    × (Some (IsOwner files no_ip 0 "new" "127.1" 5678) entries
        → find_live_endpoint_owner_in files no_ip 0 "new" "127.1" 5678 entries ≢ none)
find_live-IsOwner_example = find_live-IsOwner files no_ip 0 "new" "127.1" 5678 entries
