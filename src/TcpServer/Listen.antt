-- ===== src/TcpServer/Listen.antt =====
-- `TcpServer::tcpListen` and what the loop's thread then does.
use libuvwrapper.Base.{
  ℕ, ◌≡◌, refl, true, some, List, [], ◌∷◌, ◌++◌, arith, ==_refl, if◌then◌else◌, ok,
}
use libuvwrapper.SafeBuffer.{SafeBuffer}
use libuvwrapper.Loop.{Async, new_asyncs, EventType, is_running, run}
use libuvwrapper.Loop.Send.{add_req_full}
use libuvwrapper.Requests.{Request, UvCall, success}
use libuvwrapper.Accept.{
  Accept, register_accept, set_ip_and_port, set_new_connect_callback, listen, server_listen_start,
}
use libuvwrapper.System.{System, Answers, exec, async_callback, set_at}
use libuvwrapper.System.Dispatch.{
  IsFree, posted, served, serving, add_req-posted, async_callback-posted, new-IsFree,
}
use libuvwrapper.TcpServer.{new, tcp_listen, tcp_run}
use mathlib.Core.List.{append_assoc}

module _ {App : Type 0} (addr me : ℕ) (s : System App) where
  -- The listener once it is registered.
  abbrev pub ready : Accept
  ready = record (s.listeners me) { has_loop = true; addr = some addr; callback = true }

  started : (if is_running s.loop then s else (tcp_run s).1) ≡ record s { loop = run s.loop }
  unfolding tcp_run is_running run
  started = ground arith

  listen_requested :
      (h : ℕ) (rest : List ℕ)
      → IsFree (run s.loop) h rest
      → tcp_listen (some addr) me s
        ≡ ok (
          true,
          record s {
            loop = posted (run s.loop) h rest EventType.tcp_listen (Request.server_listen_start me);
            listeners = set_at s.listeners me ready;
          },
        )
  unfolding tcp_listen register_accept set_ip_and_port set_new_connect_callback listen
  listen_requested h rest f =
      rw
        (
          started,
          add_req-posted (run s.loop) h rest EventType.tcp_listen (Request.server_listen_start me)
              f,
        )
        refl

  run_running : (run s.loop).running ≡ true
  unfolding run
  run_running = ground arith

  -- When all handles of its loop are in flight, `tcpListen` returns true all the same: no request to
  -- listen is on its way and nothing was called.
  listen_lost :
      (run s.loop).d_async ≡ []
      → tcp_listen (some addr) me s
        ≡ ok (true, record s { loop = run s.loop; listeners = set_at s.listeners me ready })
  unfolding tcp_listen register_accept set_ip_and_port set_new_connect_callback listen
  listen_lost full =
      rw
        (
          started,
          add_req_full (run s.loop) EventType.tcp_listen (Request.server_listen_start me)
              run_running full,
        )
        refl

  module _ (env : Answers) (h : ℕ) (rest : List ℕ) where
    abbrev handle : ℕ
    handle = env.fresh s.calls

    -- The calls that make a listening socket.
    abbrev pub listening : List UvCall
    listening =
        UvCall.tcp_init handle ∷ UvCall.tcp_bind handle (some addr) ∷ UvCall.listen handle 1024 ∷ []

    -- `tcpListen` on a server whose loop runs or can be started, with a free handle: it returns true,
    -- and when the loop's thread has run the callback of that handle, a new socket was bound to the
    -- given address and libuv was asked to listen on it; the loop has its handle back. The conditions: uv_ip4_addr parses the
    -- address, and uv_tcp_init and uv_tcp_bind succeed.
    pub listens :
        IsFree (run s.loop) h rest
        → env.status s.calls 0 ≡ success
        → env.status s.calls 1 ≡ success
        → (m : System App) × (t : System App) × (tcp_listen (some addr) me s ≡ ok (true, m))
          × (async_callback env h m ≡ ok t)
          × (t.calls ≡ s.calls ++ listening)
          × ((t.listeners me).server ≡ some handle)
          × (t.loop
              ≡ served (run s.loop) h rest EventType.tcp_listen (Request.server_listen_start me))
    unfolding exec server_listen_start
    listens f init bound =
        let reached : System App = record s {
          loop = serving (run s.loop) h rest EventType.tcp_listen (Request.server_listen_start me);
          listeners =
              set_at (set_at s.listeners me ready) me (record ready { server = some handle });
          calls =
              ((s.calls ++ (UvCall.tcp_init handle ∷ []))
                ++ (UvCall.tcp_bind handle (some addr) ∷ []))
              ++ (UvCall.listen handle 1024 ∷ []);
        } in
        let ran =
          async_callback-posted env
            (record s { loop = run s.loop; listeners = set_at s.listeners me ready }) reached h rest
            EventType.tcp_listen (Request.server_listen_start me) f (λ e. cc)
            (rw (==_refl me, init, bound) refl) refl in
        (_, _, listen_requested h rest f, ran, simp append_assoc refl, rw (==_refl me) refl, refl)

-- A new TcpServer with an address that uv_ip4_addr parses: tcpListen returns true, and when the
-- loop's thread has run its request, a new socket was made and bound to that address, libuv was asked
-- to listen on it, and the listener has its handle. The condition: uv_tcp_init and uv_tcp_bind succeed.
-- What uv_listen returns is not tested, so whether the socket listens is not known.
pub new_server_listens :
    {App : Type 0} (env : Answers) (addr me : ℕ) (fresh : ℕ → ℕ) (junk_async : ℕ → Async Request)
    (junk : ℕ → SafeBuffer) (app : App)
    → env.status [] 0 ≡ success
    → env.status [] 1 ≡ success
    → (m : System App) × (t : System App) × (tcp_listen
          (some addr)
          me
          (new fresh junk_async junk app)
        ≡ ok (true, m))
      × (async_callback env (fresh 0) m ≡ ok t)
      × (t.calls
          ≡ UvCall.tcp_init (env.fresh [])
            ∷ UvCall.tcp_bind (env.fresh []) (some addr)
            ∷ UvCall.listen (env.fresh []) 1024
            ∷ [])
      × ((t.listeners me).server ≡ some (env.fresh []))
unfolding new
new_server_listens env addr me fresh junk_async junk app init bound =
    let (m, t, returned, ran, calls, server, _) =
      listens addr me (new fresh junk_async junk app) env (fresh 0) (new_asyncs fresh 1 4)
        (new-IsFree fresh junk_async) init bound in
    (m, t, returned, ran, calls, server)
