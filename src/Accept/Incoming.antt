-- ===== src/Accept/Incoming.antt =====
-- What the callback of uv_listen in libuvcpp/accept.cpp makes of a new connection.
use libuvwrapper.Base.{ℕ, ◌≡◌, refl, true, false, some, [], ◌∷◌, ◌++◌, ok}
use libuvwrapper.SafeBuffer.{SafeBuffer}
use libuvwrapper.Requests.{UvCall, success}
use libuvwrapper.Connect.{
  Connect, World, is_connected, register_loop_and_stream, run_read_start, run_close_connect,
  drop_stream,
}
use libuvwrapper.Connect
use libuvwrapper.Accept.{Listener, on_connection, hand_over}
use mathlib.Core.List.{append_assoc}

-- What the callback leaves when uv_accept succeeds.
abbrev with_accepted : ℕ → ℕ → Connect → Listener → Listener
with_accepted handle client c w = record w {
  acceptor = record (w.acceptor) { accepted = w.acceptor.accepted ++ ((client, c) ∷ []) };
  calls = w.calls ++ (UvCall.tcp_init client ∷ UvCall.accept handle client ∷ []);
}

-- When a new-connection callback is set and uv_tcp_init and uv_accept succeed, the callback is
-- called once, with a connection that is connected: on it ReadStart starts to read from the new
-- handle, and CloseConnect closes that handle.
accepted_usable :
    (handle client : ℕ) (junk : ℕ → SafeBuffer) (w : Listener) (v : World)
    → w.acceptor.callback ≡ true
    → (c : Connect) × (on_connection handle junk client false success success w
        ≡ ok (with_accepted handle client c w))
      × (is_connected c ≡ true)
      × (run_read_start (record v { conn = c })
          ≡ ok (record v { conn = c; calls = v.calls ++ (UvCall.start_reading client ∷ []) }))
      × (run_close_connect (record v { conn = c })
          ≡ ok (record v {
            conn = record c { connected = false };
            calls = v.calls ++ (UvCall.close client ∷ []);
          }))
unfolding on_connection hand_over drop_stream Connect.new is_connected run_read_start
    run_close_connect register_loop_and_stream
accepted_usable handle client junk w v set = (
  record (Connect.new junk) { connected = true; has_loop = true; stream = some client },
  rw set (simp append_assoc refl),
  refl,
  refl,
  refl,
)
