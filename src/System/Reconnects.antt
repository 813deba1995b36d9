-- ===== src/System/Reconnects.antt =====
-- A reconnection as a whole: `Reconnnect`, the two requests that go through the loop, and the callbacks
-- of uv_close and uv_tcp_connect between and after them.
use libuvwrapper.Base.{
  ℕ, ◌≡◌, refl, ap, ◌∙◌, true, false, ◌||◌, none, some, List, [], ◌∷◌, ◌++◌, ==_refl, Outcome, ok,
  fault, ◌>>=◌, count, if◌then◌else◌,
}
use libuvwrapper.Base.Assoc.{keys}
use libuvwrapper.Loop.{tcp_close, tcp_connect}
use libuvwrapper.Requests.{Request, UvCall, Status, is_success}
use libuvwrapper.Connect.{
  Connect, Event, released, reconnnect, run_close_connect, close_cb, run_connect, connect_cb,
  same_handle, drop_tcp, drop_stream,
}
use libuvwrapper.Connect
use libuvwrapper.Connect.Close.{or_true}
use libuvwrapper.System.{System, Answers, exec, async_callback, conn_world, put_conn}
use libuvwrapper.System.Dispatch.{
  IsFree, posted, served, serving, add_req-posted, async_callback-posted,
}
use libuvwrapper.System.Methods.{Method, invoke}

-- A connection that `Connect` has given a new handle.
abbrev pub redialled : Connect → ℕ → Connect
redialled c handle = record c {
  tcp = some handle;
  tcp_dead = false;
  freed = c.freed ++ released c.tcp;
  stream = if same_handle c.tcp c.stream then none else c.stream;
  stream_dead = c.stream_dead || same_handle c.tcp c.stream;
}

abbrev pub dialling : {App : Type 0} → Answers → ℕ → System App → Connect → System App
dialling env me s c = put_conn me s (record (conn_world me s) {
  conn = redialled c (env.fresh s.calls);
  calls =
      (s.calls ++ (UvCall.tcp_init (env.fresh s.calls) ∷ []))
      ++ (UvCall.tcp_connect (env.fresh s.calls) c.addr ∷ []);
})

module _ {App : Type 0} (env : Answers) (me stream : ℕ) where
  -- The connection at `me` as `c`.
  abbrev with_state : System App → Connect → System App
  with_state s c = put_conn me s (record (conn_world me s) { conn = c })

  asks_close :
      (s : System App) (c : Connect) (h : ℕ) (rest : List ℕ)
      → s.conns me ≡ c
      → c.has_loop ≡ true
      → IsFree s.loop h rest
      → invoke (Method.reconnect me) s
        ≡ ok (record (with_state s (record c { reconnect = true })) {
          loop = posted s.loop h rest tcp_close (Request.close_connect me);
        })
  unfolding invoke reconnnect Connect.request
  asks_close s c h rest e has f =
      simp (e, has, add_req-posted s.loop h rest tcp_close (Request.close_connect me) f)

  abbrev closing : System App → Connect → System App
  closing s c = put_conn me s (record (conn_world me s) {
    conn = record c { connected = false };
    calls = s.calls ++ (UvCall.close stream ∷ []);
  })

  exec-closing :
      (s : System App) (c : Connect)
      → s.conns me ≡ c
      → c.stream ≡ some stream
      → exec env (Request.close_connect me) s ≡ ok (closing s c)
  unfolding exec run_close_connect Connect.call
  exec-closing s c e open_stream = simp (e, open_stream)

  closes :
      (s : System App) (c : Connect) (h : ℕ) (rest : List ℕ)
      → s.conns me ≡ c
      → c.stream ≡ some stream
      → IsFree s.loop h rest
      → async_callback env h
          (record s { loop = posted s.loop h rest tcp_close (Request.close_connect me) })
        ≡ ok (record (closing s c) {
          loop = served s.loop h rest tcp_close (Request.close_connect me);
        })
  closes s c h rest e open_stream f =
      async_callback-posted env s
        (closing (record s { loop = serving s.loop h rest tcp_close (Request.close_connect me) }) c)
        h rest tcp_close (Request.close_connect me) f (λ e. cc) (exec-closing _ c e open_stream)
        refl

  asks_connect :
      (s : System App) (c : Connect) (h : ℕ) (rest : List ℕ)
      → s.conns me ≡ c
      → c.has_loop ≡ true
      → c.reconnect ≡ true
      → IsFree s.loop h rest
      → invoke (Method.closed me) s
        ≡ ok (record (with_state s (record c { reconnect = false })) {
          loop = posted s.loop h rest tcp_connect (Request.connect me);
        })
  unfolding invoke close_cb Connect.request
  asks_connect s c h rest e has again f =
      simp (e, again, has, add_req-posted s.loop h rest tcp_connect (Request.connect me) f)

  pub exec-dialling :
      (s : System App) (c : Connect)
      → s.conns me ≡ c
      → c.has_loop ≡ true
      → c.tcp_dead ≡ false
      → exec env (Request.connect me) s ≡ ok (dialling env me s c)
  unfolding exec run_connect drop_tcp Connect.call
  exec-dialling s c e has alive = simp (e, has, alive)

  connects :
      (s : System App) (c : Connect) (h : ℕ) (rest : List ℕ)
      → s.conns me ≡ c
      → c.has_loop ≡ true
      → c.tcp_dead ≡ false
      → IsFree s.loop h rest
      → async_callback env h
          (record s { loop = posted s.loop h rest tcp_connect (Request.connect me) })
        ≡ ok (record (dialling env me s c) {
          loop = served s.loop h rest tcp_connect (Request.connect me);
        })
  connects s c h rest e has alive f =
      async_callback-posted env s
        (dialling env me
          (record s { loop = serving s.loop h rest tcp_connect (Request.connect me) }) c)
        h rest tcp_connect (Request.connect me) f (λ e. cc) (exec-dialling _ c e has alive) refl

-- The connection after the callback of uv_tcp_connect.
abbrev greeted : ℕ → Status → Connect → Connect
greeted h status c = record c {
  stream = some h;
  connected = is_success status;
  freed = c.freed ++ released c.stream;
  tcp = if same_handle c.tcp c.stream then none else c.tcp;
  tcp_dead = c.tcp_dead || same_handle c.tcp c.stream;
}

module _ {App : Type 0} (env : Answers) (me stream : ℕ) (s : System App) (h k : ℕ) (rest : List ℕ)
    (status : Status) (f : IsFree s.loop h (k ∷ rest))
    (absent : count k (keys s.loop.map_async) ≡ 0) (unsent : count k s.loop.sent ≡ 0) where
  -- The handle of the new connection.
  abbrev handle : ℕ
  handle = env.fresh (s.calls ++ (UvCall.close stream ∷ []))

  -- The connection after each step, and the system.
  abbrev leaving : Connect
  leaving = record (s.conns me) { reconnect = true }

  abbrev gone : Connect
  gone = record (s.conns me) { reconnect = true; connected = false }

  abbrev again : Connect
  again = record (s.conns me) { reconnect = false; connected = false }

  abbrev flagged : System App
  flagged = with_state env me stream s leaving

  abbrev closed_one : System App
  closed_one = record (closing env me stream flagged leaving) {
    loop = served s.loop h (k ∷ rest) tcp_close (Request.close_connect me);
  }

  closed_one-IsFree : IsFree closed_one.loop k (rest ++ (h ∷ []))
  closed_one-IsFree = record { running = f.running; first = refl; absent = absent; unsent = unsent }

  abbrev unflagged : System App
  unflagged = with_state env me stream closed_one again

  abbrev dialled : System App
  dialled = record (dialling env me unflagged again) {
    loop = served closed_one.loop k (rest ++ (h ∷ [])) tcp_connect (Request.connect me);
  }

  dialled-conn : dialled.conns me ≡ redialled again handle
  dialled-conn = rw (==_refl me) refl

  -- The run up to the callback of uv_tcp_connect, and what follows it.
  ran :
      (after : System App → Outcome (System App))
      → (s.conns me).has_loop ≡ true
      → (s.conns me).stream ≡ some stream
      → (s.conns me).tcp_dead ≡ false
      → (invoke (Method.reconnect me) s >>= λ u. async_callback env h u >>= λ u.
          invoke (Method.closed me) u >>= λ u. async_callback env k u >>= after)
        ≡ after dialled
  ran after has open_stream alive =
      ap
        (λ m. m >>= λ u. async_callback env h u >>= λ u.
          invoke (Method.closed me) u >>= λ u. async_callback env k u >>= after)
        (asks_close env me stream s (s.conns me) h (k ∷ rest) refl has f)
      ∙ ap (λ m. m >>= λ u. invoke (Method.closed me) u >>= λ u. async_callback env k u >>= after)
          (closes env me stream flagged leaving h (k ∷ rest) (rw (==_refl me) refl) open_stream f)
      ∙ ap (λ m. m >>= λ u. async_callback env k u >>= after)
          (asks_connect env me stream closed_one gone k (rest ++ (h ∷ [])) (rw (==_refl me) refl)
            has refl closed_one-IsFree)
      ∙ ap (λ m. m >>= after)
          (connects env me stream unflagged again k (rest ++ (h ∷ [])) (rw (==_refl me) refl) has
            alive closed_one-IsFree)

  -- `Reconnnect` on a connection in which m_ptcp and m_pStream hold the same handle, the callback of its
  -- request, the callback of uv_close and the callback of the request that this makes, in this order and
  -- with nothing else between, delete that handle once; the callback of uv_tcp_connect is then undefined
  -- behaviour, whatever libuv says of the new connection: it deletes the handle again. The conditions:
  -- the connection has a loop, m_ptcp does not dangle, the loop runs, `h` and `k` are the first of its
  -- free handles, and neither is in the map or signalled.
  pub reconnect_double_frees :
      (s.conns me).has_loop ≡ true
      → (s.conns me).stream ≡ some stream
      → (s.conns me).tcp ≡ some stream
      → (s.conns me).tcp_dead ≡ false
      → (t : System App) × ((after : System App → Outcome (System App))
          → (invoke (Method.reconnect me) s >>= λ u. async_callback env h u >>= λ u.
              invoke (Method.closed me) u >>= λ u. async_callback env k u >>= after)
            ≡ after t)
        × ((t.conns me).freed ≡ (s.conns me).freed ++ (stream ∷ []))
        × (invoke (Method.connected me handle status) t ≡ fault)
  unfolding invoke connect_cb drop_stream
  reconnect_double_frees has open_stream open_tcp alive = (
    dialled,
    λ after. ran after has open_stream alive,
    ap (λ c. c.freed) dialled-conn ∙ ap (λ o. (s.conns me).freed ++ released o) open_tcp,
    simp (==_refl me, open_stream, open_tcp, ==_refl stream, or_true),
  )
