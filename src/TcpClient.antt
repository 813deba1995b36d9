-- ===== src/TcpClient.antt =====
-- libuvcpp/tcpClient.h and libuvcpp/tcpClient.cpp: the class `TcpClient`, a connection with a loop
-- of its own. The client is the connection at `me` in the system of its loop.
pub mod Write
pub mod Address
pub mod Order
pub mod Swap
mod Tests
use libuvwrapper.Base.{
  ℕ, Bool, true, false, Option, none, List, [], if◌then◌else◌, Outcome, ok, ◌>>=◌,
}
use libuvwrapper.Memory.{Allocator}
use libuvwrapper.SafeBuffer.{SafeBuffer}
use libuvwrapper.Loop.{Async, is_running, run}
use libuvwrapper.Loop
use libuvwrapper.Requests.{Request}
use libuvwrapper.Connect.{register_connect, set_event_handler, wirte_data}
use libuvwrapper.Connect
use libuvwrapper.Timer
use libuvwrapper.Accept
use libuvwrapper.System.{System, set_at, on_conn}

module _ {App : Type 0} where
  -- TcpClient(): a new loop and a new connection. `fresh` gives the addresses of the loop's
  -- objects; the other two arguments are what memory held before.
  unfoldable pub new : (ℕ → ℕ) → (ℕ → Async Request) → (ℕ → SafeBuffer) → App → System App
  new fresh junk_async junk app = record {
    loop = Loop.new fresh junk_async;
    conns = λ _. Connect.new junk;
    timers = λ _. Timer.new;
    listeners = λ _. Accept.new;
    calls = [];
    events = [];
    app = app;
  }

  -- `if (!m_pLoop->IsRunning()) m_pLoop->run();`
  unfoldable pub ensure_running : System App → System App
  ensure_running s = if is_running s.loop then s else record s { loop = run s.loop }

  -- ConnectToServer: `parsed` is what uv_ip4_addr makes of `ip` and `port`, which the code does
  -- not look at.
  unfoldable pub connect_to_server : Option ℕ → ℕ → System App → Outcome (Bool × System App)
  unfolding ensure_running register_connect
  connect_to_server parsed me s =
      let started = ensure_running s in
      let conn = set_event_handler (register_connect (started.conns me)).1 in
      on_conn me (Connect.connect_to_server me)
        (record started { conns = set_at started.conns me conn })

  -- WriteData
  unfoldable pub write_data :
      Allocator → ℕ → ℕ → List ℕ → ℕ → System App → Outcome (Bool × System App)
  write_data a me fresh pbuf len s = on_conn me (wirte_data a me fresh pbuf len) s
