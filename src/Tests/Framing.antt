-- ===== src/Tests/Framing.antt =====
-- src/dap.rs and src/client.rs at concrete frames.
use agent_debugger.Prelude.{
  ℕ, ◌≡◌, refl, true, false, Option, none, some, List, [], ◌∷◌, ◌++◌, arith, take, ok,
}
use agent_debugger.Json.{Value, bool, obj, no_member, member}
use agent_debugger.Json.Serde.{Serde, BytesBack}
use agent_debugger.Dap.Text.{
  utf8_step, decode_from, lines, split_once, is_whitespace, trim_start, trim_end, trim,
  to_ascii_lowercase, same_codes, eq_ignore_ascii_case, read_digits, parse_usize, decimal_from,
  decimal,
}
use agent_debugger.Dap.Header.{literal, find_header_end, parse_content_length}
use agent_debugger.Dap.Frame.{header_of, encode_message, try_decode_message}
use agent_debugger.Dap.Roundtrip.{decode-encode}
use agent_debugger.Dap.Prefix.{decode-prefix}
use agent_debugger.Client.{Turn, bytes, transient, request}
use agent_debugger.Client.Chunks.{IsHealthy, request-chunks}

-- A serializer that knows one object and its text.
abbrev reply : Value
reply = obj (member "ok" (bool true) no_member)

abbrev one_reply : Serde
one_reply = record {
  to_vec = λ v. literal "{\"ok\":true}";
  from_utf8_str = λ bs. some reply;
  to_string = λ v. "{\"ok\":true}";
  from_str = λ s. some reply;
}

one_reply-BytesBack : BytesBack one_reply reply
unfolding decode_from utf8_step
one_reply-BytesBack = record { chars = literal "{\"ok\":true}"; utf8 = refl; back = refl }

encoded : encode_message one_reply reply ≡ literal "Content-Length: 11\r\n\r\n{\"ok\":true}"
unfolding encode_message header_of decimal decimal_from
encoded = refl

run_decode : List ℕ → Option ℕ
unfolding try_decode_message encode_message header_of decimal decimal_from find_header_end
    parse_content_length lines split_once trim trim_start trim_end is_whitespace
    eq_ignore_ascii_case to_ascii_lowercase same_codes parse_usize read_digits decode_from utf8_step
run_decode buf = elim (try_decode_message one_reply buf) [ ok (some (v, n)) ↦ some n | _ ↦ none ]

-- a lower-case header with blanks and another line in front of it
decodes_loose_header :
    run_decode (literal "X: y\r\ncontent-length :  +11 \r\n\r\n{\"ok\":true}trailing") ≡ some 43
unfolding run_decode
decodes_loose_header = refl

overflow_is_incomplete :
    run_decode (literal "Content-Length: 18446744073709551616\r\n\r\n{}") ≡ none
unfolding run_decode
overflow_is_incomplete = refl

decode-encode_example :
    try_decode_message one_reply (encode_message one_reply reply ++ 1 ∷ 2 ∷ [])
    ≡ ok (some (reply, 33))
unfolding encode_message header_of decimal decimal_from
decode-encode_example =
    decode-encode one_reply reply (1 ∷ 2 ∷ []) one_reply-BytesBack refl (omega arith)

decode-prefix_example :
    try_decode_message one_reply (take 30 (encode_message one_reply reply)) ≡ ok none
decode-prefix_example =
    decode-prefix one_reply reply 30 (omega arith)
      (unfold encode_message header_of decimal decimal_from in omega arith)

abbrev announced : List ℕ
announced = literal "Content-Length: 11\r\n\r\n{"

-- the frame in two pieces, with a retried fault between them
abbrev two_reads : List Turn
two_reads =
    record { expired = false; read = bytes (literal "Content-Length: 11\r\n") }
    ∷ record { expired = false; read = transient }
    ∷ record { expired = false; read = bytes (literal "\r\n{\"ok\":true}") }
    ∷ []

two_reads-IsHealthy : IsHealthy two_reads
two_reads-IsHealthy =
    (refl, (λ e. cc), (λ e. cc), (refl, (λ e. cc), (λ e. cc), (refl, (λ e. cc), (λ e. cc), tt)))

request-chunks_example : request one_reply two_reads ≡ some (ok reply)
unfolding encode_message header_of decimal decimal_from
request-chunks_example =
    request-chunks one_reply reply one_reply-BytesBack refl (omega arith) (omega arith) two_reads
      two_reads-IsHealthy refl

abbrev silence : List Turn
silence =
    record { expired = false; read = transient } ∷ record { expired = true; read = transient } ∷ []
