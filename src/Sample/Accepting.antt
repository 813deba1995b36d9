-- ===== src/Sample/Accepting.antt =====
-- A connection that the sample's server accepts.
use libuvwrapper.Base.{
  ℕ, ◌≡◌, refl, ap, ◌∙◌, true, false, some, List, [], ◌∷◌, ◌++◌, length, ==_refl, ok, ◌>>=◌,
  drop_prefix, bind_ok,
}
use libuvwrapper.SafeBuffer.{SafeBuffer}
use libuvwrapper.Loop.{EventType}
use libuvwrapper.Requests.{Request, UvCall, success}
use libuvwrapper.Connect.{
  Connect, is_connected, set_event_handler, start_read_data, register_loop_and_stream, request,
  run_read_start, call, drop_stream,
}
use libuvwrapper.Connect
use libuvwrapper.Accept.{on_connection, hand_over}
use libuvwrapper.System.{System, Answers, exec, async_callback, incoming, greet, set_at}
use libuvwrapper.System.Dispatch.{
  IsFree, posted, served, serving, add_req-posted, async_callback-posted,
}
use libuvwrapper.Sample.{App, on_new_connection}
use mathlib.Core.List.{append_assoc}

module _ (me handle client : ℕ) (junk : ℕ → SafeBuffer) (s : System App) where
  abbrev fresh_conn : Connect
  fresh_conn = record (Connect.new junk) { connected = true; has_loop = true; stream = some client }

  admitted :
      (s.listeners me).callback ≡ true
      → incoming on_new_connection me handle junk client false success success s
        ≡ on_new_connection client (record s {
          listeners = set_at s.listeners me (record (s.listeners me) {
            accepted = (s.listeners me).accepted ++ ((client, fresh_conn) ∷ []);
          });
          conns = set_at s.conns client fresh_conn;
          calls = s.calls ++ (UvCall.tcp_init client ∷ UvCall.accept handle client ∷ []);
        })
  unfolding incoming greet on_connection hand_over register_loop_and_stream drop_stream Connect.new
  admitted set =
      rw
        (
          set,
          drop_prefix (length (s.listeners me).accepted) (s.listeners me).accepted
              ((client, fresh_conn) ∷ []) refl,
        )
        (simp append_assoc (bind_ok _))

  -- The system when the listener has the connection, and the program has set its handler.
  abbrev kept : System App
  kept = record s {
    listeners = set_at s.listeners me (record (s.listeners me) {
      accepted = (s.listeners me).accepted ++ ((client, fresh_conn) ∷ []);
    });
    conns = set_at s.conns client fresh_conn;
    calls = s.calls ++ (UvCall.tcp_init client ∷ UvCall.accept handle client ∷ []);
  }

  abbrev handled : System App
  handled = record kept {
    app = record (s.app) { received = s.app.received ++ (client ∷ []) };
    conns =
        set_at (set_at (set_at s.conns client fresh_conn) client (set_event_handler fresh_conn))
          client (set_event_handler fresh_conn);
    events = s.events ++ [];
  }

  module _ (env : Answers) (h : ℕ) (rest : List ℕ) (f : IsFree s.loop h rest) where
    reading_requested :
        on_new_connection client kept
        ≡ ok (record handled {
          loop = posted s.loop h rest EventType.tcp_read_start (Request.read_start client);
        })
    unfolding on_new_connection start_read_data set_event_handler request register_loop_and_stream
        Connect.new
    reading_requested =
        rw
          (
            ==_refl client,
            add_req-posted s.loop h rest EventType.tcp_read_start (Request.read_start client) f,
          )
          refl

    -- A connection that the sample's server accepts is kept, gets the program's handler, and is read
    -- from: after the callback of uv_listen and that of the handle that it signals, libuv was called
    -- to make, to accept and to read the connection, each once, and the loop has its handle back. The
    -- conditions: the callback for new connections is set, uv_tcp_init and uv_accept succeed, and the
    -- loop runs with a free handle.
    pub accepted_is_read :
        (s.listeners me).callback ≡ true
        → (t : System App) × ((incoming on_new_connection me handle junk client false success
                success s
              >>= λ u. async_callback env h u)
            ≡ ok t)
          × (t.calls
              ≡ s.calls
                ++ (UvCall.tcp_init client
                    ∷ UvCall.accept handle client
                    ∷ UvCall.start_reading client
                    ∷ []))
          × (t.app.received ≡ s.app.received ++ (client ∷ []))
          × ((t.conns client).handler ≡ true)
          × (t.loop ≡ served s.loop h rest EventType.tcp_read_start (Request.read_start client))
    unfolding exec run_read_start call set_event_handler register_loop_and_stream Connect.new
    accepted_is_read set =
        let reached : System App = record handled {
          loop = serving s.loop h rest EventType.tcp_read_start (Request.read_start client);
          conns = set_at handled.conns client (handled.conns client);
          calls = kept.calls ++ (UvCall.start_reading client ∷ []);
          events = handled.events ++ [];
        } in
        let ran =
          async_callback-posted env handled reached h rest EventType.tcp_read_start
            (Request.read_start client) f (λ e. cc) (rw (==_refl client) refl) refl in
        (
          _,
          ap (λ m. m >>= λ u. async_callback env h u) (admitted set ∙ reading_requested) ∙ ran,
          simp append_assoc refl,
          refl,
          rw (==_refl client) refl,
          refl,
        )
