-- ===== src/TcpServer/Tests.antt =====
-- Runs of `TcpServer`, and the theorems at concrete inputs.
use libuvwrapper.Base.{ℕ, ◌+◌, ◌≡◌, refl, true, false, none, some, [], ◌∷◌, ok, ◌==◌, if◌then◌else◌}
use libuvwrapper.SafeBuffer.Example.{small}
use libuvwrapper.Loop.{Async, loop_stop}
use libuvwrapper.Requests.{Request, UvCall}
use libuvwrapper.System.{System, async_callback}
use libuvwrapper.System.Example.{answers, system, free_loop-IsFree}
use libuvwrapper.TcpServer.{new, tcp_listen, tcp_stop}
use libuvwrapper.TcpServer.Listen.{new_server_listens}
use libuvwrapper.TcpServer.Stop.{stop_reaches_loop}

abbrev idle : System (Unit {0})
idle = system tt

stop_reaches_loop_example :
    (t : System (Unit {0})) × (async_callback answers 1 (tcp_stop idle).1 ≡ ok t)
    × (t ≡ record idle {
      loop = record (idle.loop) { stopping = true; d_async = 2 ∷ 1 ∷ []; asyncs = t.loop.asyncs };
    })
    × ((x : ℕ)
        → t.loop.asyncs x ≡ (
            if 1 == x
            then record { event = loop_stop; ploop = true; tcb = none }
            else idle.loop.asyncs x))
stop_reaches_loop_example = stop_reaches_loop answers idle 1 (2 ∷ []) free_loop-IsFree

abbrev junk_async : ℕ → Async Request
junk_async x = record { event = loop_stop; ploop = false; tcb = none }

abbrev server : System (Unit {0})
server = new (λ i. i + 10) junk_async (λ x. small) tt

new_server_listens_example :
    (m : System (Unit {0})) × (t : System (Unit {0})) × (tcp_listen (some 44) 8 server
      ≡ ok (true, m))
    × (async_callback answers 10 m ≡ ok t)
    × (t.calls ≡ UvCall.tcp_init 100 ∷ UvCall.tcp_bind 100 (some 44) ∷ UvCall.listen 100 1024 ∷ [])
    × ((t.listeners 8).server ≡ some 100)
new_server_listens_example =
    new_server_listens answers 44 8 (λ i. i + 10) junk_async (λ x. small) tt refl refl
