-- ===== src/Tests/Printing.antt =====
-- src/output.rs at concrete results.
use agent_debugger.Prelude.{none, some, err, Result}
use agent_debugger.Json.{Value, null, str}
use agent_debugger.Output.{Failure, build_error_envelope}
use agent_debugger.Output.Envelope.{IsEnvelope, build_error_envelope-IsEnvelope}

build_error_envelope-IsEnvelope_example :
    IsEnvelope "step" "no session" (some "refused") none (some null) none (some (str "main")) (
      build_error_envelope "step" "no session"
        (some "refused")
        none
        (some null)
        none
        (some (str "main")))
build_error_envelope-IsEnvelope_example =
    build_error_envelope-IsEnvelope "step" "no session" (some "refused") none (some null) none
      (some (str "main"))

abbrev failure : Failure
failure = record { message = "no session"; bridge = none }

abbrev outcome : Result Failure Value
outcome = err failure
