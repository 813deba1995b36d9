-- ===== src/System/Tests.antt =====
-- A run of a system, and the theorems on whole runs at it.
use libuvwrapper.Base.{
  Outcome, fault, none, List, ◌++◌, ℕ, ◌+◌, ◌≡◌, refl, none, true, false, Bool, ◌>>=◌, [], ◌∷◌, ok,
}
use libuvwrapper.Loop.{Async, loop_stop, tcp_connect, new, run, add_req}
use libuvwrapper.Requests.{Request, UvCall, success}
use libuvwrapper.Connect
use libuvwrapper.Connect.Example.{open_conn}
use libuvwrapper.Timer.{start_timer}
use libuvwrapper.Timer
use libuvwrapper.System.Timers.{timer_restarts}
use libuvwrapper.System.Reconnects.{reconnect_double_frees}
use libuvwrapper.System.{System, async_callback, put_conn, conn_world, set_at, on_timer}
use libuvwrapper.System.Example.{answers, system, free_loop-IsFree}
use libuvwrapper.System.Methods.{Method, invoke}

abbrev fresh : ℕ → ℕ
fresh i = i + 10

abbrev junk : ℕ → Async Request
junk x = record { event = loop_stop; ploop = false; tcb = none }

abbrev born : System (Unit {0})
born = record (system tt) { loop = new fresh junk }

abbrev started : System (Unit {0})
started = record born { loop = run born.loop }

-- The connection at 3 asks the loop to connect.
abbrev asked : System (Unit {0})
asked = put_conn 3 started (record (conn_world 3 started) {
  loop = (add_req started.loop tcp_connect (Request.connect 3)).1;
})

-- The callback of the handle at 10 comes to its end, and gives it back.
abbrev Returned : Type 0
Returned =
    (v : System (Unit {0})) × (xs : List ℕ) × (async_callback answers 10 asked ≡ ok v)
    × (v.loop.d_async ≡ xs ++ (10 ∷ []))

-- The timer at 5 is registered and set to 100 and 20; it runs or not.
abbrev with_timer : Bool → System (Unit {0})
with_timer running = record (system tt) {
  timers =
      set_at (λ x. Timer.new) 5
        (record {
          started = running;
          restart = false;
          has_loop = true;
          has_callback = true;
          delay = 100;
          repeat = 20;
        });
}

timer_restarts_example :
    (t : System (Unit {0})) × ((on_timer 5 (start_timer 5 true) (with_timer true) >>= λ r.
    async_callback answers 1 r.1 >>= λ u. async_callback answers 2 u)
      ≡ ok t)
    × (t.timers 5 ≡ record ((with_timer true).timers 5) { started = true; restart = false })
    × (t.calls ≡ UvCall.stop_timer 5 ∷ UvCall.init_timer 5 ∷ UvCall.start_timer 5 100 20 ∷ [])
    × (t.loop.d_async ≡ 1 ∷ 2 ∷ [])
timer_restarts_example =
    timer_restarts answers 5 (λ us. refl) (with_timer true) 1 2 [] refl free_loop-IsFree refl refl
      refl refl

-- The connection at 3 with a handle in m_pStream only, as if it was accepted.
abbrev with_accepted : System (Unit {0})
with_accepted = record (system tt) {
  conns = set_at (system tt).conns 3 (record open_conn { tcp = none });
}

reconnect_double_frees_example :
    (t : System (Unit {0})) × ((after : System (Unit {0}) → Outcome (System (Unit {0})))
      → (invoke (Method.reconnect 3) (system tt) >>= λ u. async_callback answers 1 u >>= λ u.
          invoke (Method.closed 3) u >>= λ u. async_callback answers 2 u >>= after)
        ≡ after t)
    × ((t.conns 3).freed ≡ 90 ∷ [])
    × (invoke (Method.connected 3 101 success) t ≡ fault)
reconnect_double_frees_example =
    reconnect_double_frees answers 3 90 (system tt) 1 2 [] success free_loop-IsFree refl refl refl
      refl refl refl
