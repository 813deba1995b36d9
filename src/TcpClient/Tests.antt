-- ===== src/TcpClient/Tests.antt =====
-- Runs of `TcpClient`, and the theorems at concrete inputs.
use libuvwrapper.Base.{ℕ, ◌≡◌, some, none, [], ◌∷◌, ok, ◌+◌, true, false}
use libuvwrapper.SafeBuffer.Example.{small}
use libuvwrapper.Loop.{Async, loop_stop}
use libuvwrapper.Requests.{Request, UvCall}
use libuvwrapper.System.{System, async_callback}
use libuvwrapper.System.Example.{answers, system}
use libuvwrapper.TcpClient.{new, connect_to_server}
use libuvwrapper.TcpClient.Address.{new_client_address}

abbrev linked : System (Unit {0})
linked = system tt

abbrev junk_async : ℕ → Async Request
junk_async x = record { event = loop_stop; ploop = false; tcb = none }

abbrev client : System (Unit {0})
client = new (λ i. i + 10) junk_async (λ x. small) tt

new_client_address_example :
    (m : System (Unit {0})) × (t : System (Unit {0})) × (connect_to_server (some 44) 3 client
      ≡ ok (true, m))
    × (async_callback answers 10 m ≡ ok t)
    × (t.calls ≡ UvCall.tcp_init 100 ∷ UvCall.tcp_connect 100 none ∷ [])
new_client_address_example =
    new_client_address answers (some 44) 3 (λ i. i + 10) junk_async (λ x. small) tt
