-- ===== src/TcpClient/Address.antt =====
-- Where a TcpClient connects to.
use libuvwrapper.Base.{
  ℕ, ◌≡◌, refl, true, false, Option, none, List, [], ◌∷◌, ◌++◌, arith, ==_refl, ok,
}
use libuvwrapper.SafeBuffer.{SafeBuffer}
use libuvwrapper.Loop.{Async, new_asyncs, EventType, run, is_running}
use libuvwrapper.Requests.{Request, UvCall}
use libuvwrapper.Connect.{
  Connect, register_connect, set_event_handler, request, run_connect, drop_tcp, call,
}
use libuvwrapper.Connect
use libuvwrapper.System.{System, Answers, async_callback, set_at}
use libuvwrapper.System.Reconnects.{dialling, exec-dialling}
use libuvwrapper.System.Dispatch.{
  IsFree, posted, served, serving, add_req-posted, async_callback-posted, new-IsFree,
}
use libuvwrapper.TcpClient.{new, connect_to_server, ensure_running}
use mathlib.Core.List.{append_assoc}

module _ {App : Type 0} where
  ensure_running_lem : (s : System App) → ensure_running s ≡ record s { loop = run s.loop }
  unfolding ensure_running is_running run
  ensure_running_lem s = ground arith

  module _ (env : Answers) (parsed : Option ℕ) (me h : ℕ) (rest : List ℕ) (s : System App)
      (f : IsFree (run s.loop) h rest) where
    -- The system once the connection is registered.
    abbrev registered : System App
    registered = record s {
      loop = run s.loop;
      conns = set_at s.conns me (record (s.conns me) { has_loop = true; handler = true });
    }

    requested :
        connect_to_server parsed me s
        ≡ ok (
          true,
          record registered {
            conns = set_at registered.conns me (registered.conns me);
            loop = posted (run s.loop) h rest EventType.tcp_connect (Request.connect me);
            events = s.events ++ [];
          },
        )
    unfolding connect_to_server register_connect set_event_handler Connect.connect_to_server request
    requested =
        rw
          (
            ensure_running_lem s,
            ==_refl me,
            add_req-posted (run s.loop) h rest EventType.tcp_connect (Request.connect me) f,
          )
          refl

    -- What the loop's thread leaves.
    abbrev base : System App
    base = record registered {
      conns = set_at registered.conns me (registered.conns me);
      events = s.events ++ [];
    }

    abbrev handle : ℕ
    handle = env.fresh s.calls

    -- The connection while the loop's thread runs its request, and the system.
    abbrev registered_conn : Connect
    registered_conn = record (s.conns me) { has_loop = true; handler = true }

    abbrev asked : System App
    asked = record base {
      loop = serving (run s.loop) h rest EventType.tcp_connect (Request.connect me);
    }

    -- A client whose address was never set, in a loop with a free handle, takes any `ip` and `port`,
    -- returns true where m_ptcp does not dangle, and its request, when the loop's thread runs it, connects the new handle to an
    -- address that was never set; the loop has its handle back.
    connects_to_unset :
        (s.conns me).addr ≡ none
        → (s.conns me).tcp_dead ≡ false
        → (m : System App) × (t : System App) × (connect_to_server parsed me s ≡ ok (true, m))
          × (async_callback env h m ≡ ok t)
          × (t.calls ≡ s.calls ++ (UvCall.tcp_init handle ∷ UvCall.tcp_connect handle none ∷ []))
          × (t.loop ≡ served (run s.loop) h rest EventType.tcp_connect (Request.connect me))
    connects_to_unset unset alive =
        let ran =
          async_callback-posted env base (dialling env me asked registered_conn) h rest
            EventType.tcp_connect (Request.connect me) f (λ e. cc)
            (exec-dialling env me handle asked registered_conn (rw (==_refl me) refl) refl alive)
            refl in
        (_, _, requested, ran, simp (==_refl, unset, append_assoc) refl, refl)

  -- A new TcpClient takes any `ip` and `port` and returns true, but when the loop's thread runs its
  -- request, the new handle is connected to an address that was never set.
  pub new_client_address :
      (env : Answers) (parsed : Option ℕ) (me : ℕ) (fresh : ℕ → ℕ) (junk_async : ℕ → Async Request)
      (junk : ℕ → SafeBuffer) (app : App)
      → (m : System App) × (t : System App) × (connect_to_server parsed me
            (new fresh junk_async junk app)
          ≡ ok (true, m))
        × (async_callback env (fresh 0) m ≡ ok t)
        × (t.calls ≡ UvCall.tcp_init (env.fresh []) ∷ UvCall.tcp_connect (env.fresh []) none ∷ [])
  unfolding new Connect.new
  new_client_address env parsed me fresh junk_async junk app =
      let (m, t, returned, ran, calls, _) =
        connects_to_unset env parsed me (fresh 0) (new_asyncs fresh 1 4)
          (new fresh junk_async junk app) (new-IsFree fresh junk_async) refl refl in
      (m, t, returned, ran, calls)
