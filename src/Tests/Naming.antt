-- ===== src/Tests/Naming.antt =====
-- Names of endpoint locks.
use agent_debugger.Prelude.{ℕ, ◌≡◌, refl, arith}
use agent_debugger.Dap.Header.{literal}
use agent_debugger.Dap.Text.{decimal, decimal_from}
use agent_debugger.Session.Locks.Names.{push_safe, safe, endpoint_lock_name}
use agent_debugger.Session.Locks.Names.Apart.{endpoint_lock_name-injective}

abbrev port : ℕ
port = 5678

lock_name_runs :
    (endpoint_lock_name (literal "py") (literal "my-host") 5678 ≡ literal "py-my_2dhost-5678.lock")
    × (endpoint_lock_name (literal "py") (literal "my.host") 5678
        ≡ literal "py-my_2ehost-5678.lock")
    × (endpoint_lock_name (literal "py") (literal "my_host") 5678 ≡ literal "py-my__host-5678.lock")
unfolding endpoint_lock_name safe push_safe decimal decimal_from
lock_name_runs = (refl, refl, refl)

endpoint_lock_name-injective_example :
    (literal "py" ≡ literal "py") × (literal "a_b" ≡ literal "a_b") × (port ≡ port)
endpoint_lock_name-injective_example =
    endpoint_lock_name-injective (literal "py") (literal "py") (literal "a_b") (literal "a_b") port
      port (ground arith, (ground arith, tt)) (ground arith, (ground arith, tt))
      (omega arith, (omega arith, (omega arith, tt)))
      (omega arith, (omega arith, (omega arith, tt))) (omega arith) (omega arith) refl
