-- ===== src/TcpServer.antt =====
-- libuvcpp/tcpServer.h and libuvcpp/tcpServer.cpp: the class `TcpServer`, a listener with a loop
-- of its own. The server is the listener at `me` in the system of its loop. m_ip, m_port and
-- m_ConCB are only written.
pub mod Listen
pub mod Stop
mod Tests
use libuvwrapper.Base.{ℕ, Bool, true, false, Option, List, [], if◌then◌else◌, Outcome, ok, ◌>>=◌}
use libuvwrapper.SafeBuffer.{SafeBuffer}
use libuvwrapper.Loop.{Async, is_running, run, stop}
use libuvwrapper.Loop
use libuvwrapper.Requests.{Request}
use libuvwrapper.Connect
use libuvwrapper.Timer
use libuvwrapper.Accept.{Accept, register_accept, set_ip_and_port, set_new_connect_callback, listen}
use libuvwrapper.Accept
use libuvwrapper.System.{System, set_at, listener_world, put_listener}

module _ {App : Type 0} where
  -- TcpServer(): a new loop and a new listener, as for the client.
  unfoldable pub new : (ℕ → ℕ) → (ℕ → Async Request) → (ℕ → SafeBuffer) → App → System App
  new fresh junk_async junk app = record {
    loop = Loop.new fresh junk_async;
    conns = λ _. Connect.new junk;
    timers = λ _. Timer.new;
    listeners = λ _. Accept.new;
    calls = [];
    events = [];
    app = app;
  }

  -- tcpRun, which returns true
  unfoldable pub tcp_run : System App → Bool × System App
  tcp_run s = (true, record s { loop = run s.loop })

  -- ~TcpServer(), before its members go.
  unfoldable pub destroy : System App → System App
  destroy s = record s { loop = stop s.loop }

  -- tcpStop, which returns true
  unfoldable pub tcp_stop : System App → Bool × System App
  tcp_stop s = (true, record s { loop = stop s.loop })

  -- tcpListen: `parsed` is what uv_ip4_addr makes of `ip` and `port`. What `listen` returns is
  -- ignored.
  unfoldable pub tcp_listen : Option ℕ → ℕ → System App → Outcome (Bool × System App)
  unfolding tcp_run
  tcp_listen parsed me s =
      let started = if is_running s.loop then s else (tcp_run s).1 in
      do
        c ← set_ip_and_port parsed (register_accept (started.listeners me)).1
        r ← listen me (record (listener_world me started) { acceptor = set_new_connect_callback c })
        ok (true, put_listener me started r.1)
