-- ===== src/Sample.antt =====
-- sample/sample.cpp and viualstudio2013/uvwrapper/uvwrapper/uvwrapper.cpp: a server that keeps the
-- connections that it accepts and reads from each; the second also counts what it reads. `std::cout`
-- is left out. LONGLONG has 64 bits; adding and exchanging it wraps around, as unsigned numbers do.
pub mod Accepting
pub mod Speed
mod Tests
use libuvwrapper.Base.{
  ℕ, ◌+◌, ◌%◌, ◌^◌, Bool, true, false, Option, none, some, List, [], ◌∷◌, ◌++◌, length, Outcome, ok,
  ◌>>=◌,
}
use libuvwrapper.Memory.{word_mod, add64}
use libuvwrapper.Requests.{Request}
use libuvwrapper.Connect.{
  Event, ev_connect, ev_read, ev_write, ev_close, set_event_handler, start_read_data,
}
use libuvwrapper.System.{System, set_at, on_conn}
use libuvwrapper.TcpServer.{tcp_listen}
use libuvwrapper.TcpServer
use libuvwrapper.SafeBuffer.{SafeBuffer}
use libuvwrapper.Loop.{Async}

-- vReceivedCon and datalen.
pub record App : Type 0 where
  pub received : List ℕ
  pub datalen : ℕ

-- OnNewConnection: what StartReadData returns is ignored.
unfoldable pub on_new_connection : ℕ → System App → Outcome (System App)
on_new_connection conn s = do
  let kept = record s { app = record (s.app) { received = s.app.received ++ (conn ∷ []) } }
  r ←
      on_conn conn (start_read_data conn)
        (record kept { conns = set_at kept.conns conn (set_event_handler (kept.conns conn)) })
  ok r.1

-- OnHandlerCallback of uvwrapper.cpp. That of sample.cpp does nothing for any event.
unfoldable pub on_handler_callback : Event → App → App
on_handler_callback (ev_read bytes) a = record a { datalen = add64 a.datalen (length bytes + 40) }
on_handler_callback (ev_write _) a = a
on_handler_callback ev_close a = a
on_handler_callback (ev_connect _) a = a

-- One round of the thread `t1`: what InterlockedExchange64 gives, which it prints.
unfoldable pub take_speed : App → ℕ × App
take_speed a = (a.datalen, record a { datalen = 0 })

-- `main`, up to the wait for input: a new TcpServer listens. `parsed` is what uv_ip4_addr makes of
-- "0.0.0.0" and 12396.
unfoldable pub main :
    Option ℕ → ℕ → (ℕ → ℕ) → (ℕ → Async Request) → (ℕ → SafeBuffer) → Outcome (Bool × System App)
main parsed me fresh junk_async junk =
    tcp_listen parsed me
      (TcpServer.new fresh junk_async junk (record { received = []; datalen = 0 }))
