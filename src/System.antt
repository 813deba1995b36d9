-- ===== src/System.antt =====
-- The objects of libuvcpp/ that share one loop: what a callback bound in connect.cpp, timer.cpp or
-- accept.cpp does when the loop's thread runs it. `App` is the program's own state.
pub mod Dispatch
pub mod Chained
pub mod Timers
pub mod Touches
pub mod Methods
pub mod Reconnects
pub mod Runs
pub mod Failures
pub mod Completes
mod Tests
pub mod Example
use libuvwrapper.Base.{
  ℕ, ◌≡◌, refl, Bool, true, false, Option, none, some, List, [], ◌∷◌, ◌++◌, map, drop, length, ◌==◌,
  if◌then◌else◌, remove, Outcome, ok, fault, abort, ◌>>=◌,
}
use libuvwrapper.SafeBuffer.{SafeBuffer}
use libuvwrapper.Loop.{Loop, HasLoop}
use libuvwrapper.Loop
use libuvwrapper.Requests.{Request, UvCall, Status}
use libuvwrapper.Connect.{
  Connect, Event, run_connect, run_close_connect, run_read_start, run_read_stop, run_tcp_write,
}
use libuvwrapper.Connect
use libuvwrapper.Timer.{Timer, run_timer_start, run_timer_stop}
use libuvwrapper.Timer
use libuvwrapper.Accept.{Accept, Listener, server_listen_start, on_connection}

-- Connections, timers and listeners are held by address. An event comes with the connection that
-- its handler belongs to.
pub record System (App : Type 0) : Type 0 where
  pub loop : Loop Request
  pub conns : ℕ → Connect
  pub timers : ℕ → Timer
  pub listeners : ℕ → Accept
  pub calls : List UvCall
  pub events : List (ℕ × Event)
  pub app : App

-- What the environment answers after the calls that were made: the address of a new handle, and
-- the result of each further call in a callback.
pub record Answers : Type 0 where
  pub fresh : List UvCall → ℕ
  pub status : List UvCall → ℕ → Status

abbrev pub set_at {ℓ} : {A : Type ℓ} → (ℕ → A) → ℕ → A → ℕ → A
set_at f p a x = if p == x then a else f x

abbrev pub tagged : ℕ → List Event → List (ℕ × Event)
tagged me es = map (λ e. (me, e)) es

module _ {App : Type 0} where
  abbrev pub conn_world : ℕ → System App → Connect.World
  conn_world me s = record { conn = s.conns me; loop = s.loop; calls = s.calls; events = [] }

  abbrev pub put_conn : ℕ → System App → Connect.World → System App
  put_conn me s w = record s {
    conns = set_at s.conns me w.conn;
    loop = w.loop;
    calls = w.calls;
    events = s.events ++ tagged me w.events;
  }

  -- A method of the connection at `me`, with what it returns.
  abbrev pub on_conn :
      {A : Type 0}
      → ℕ
      → (Connect.World → Outcome (A × Connect.World))
      → System App
      → Outcome (A × System App)
  on_conn me f s = do r ← f (conn_world me s); ok (r.0, put_conn me s r.1)

  -- A callback of the connection at `me`.
  abbrev pub with_conn :
      ℕ → (Connect.World → Outcome Connect.World) → System App → Outcome (System App)
  with_conn me f s = do w ← f (conn_world me s); ok (put_conn me s w)

  abbrev pub timer_world : ℕ → System App → Timer.World
  timer_world me s = record { timer = s.timers me; loop = s.loop; calls = s.calls }

  abbrev pub put_timer : ℕ → System App → Timer.World → System App
  put_timer me s w = record s {
    timers = set_at s.timers me w.timer;
    loop = w.loop;
    calls = w.calls;
  }

  -- A method of the timer at `me`, with what it returns.
  abbrev pub on_timer :
      {A : Type 0}
      → ℕ
      → (Timer.World → Outcome (A × Timer.World))
      → System App
      → Outcome (A × System App)
  on_timer me f s = do r ← f (timer_world me s); ok (r.0, put_timer me s r.1)

  abbrev pub with_timer :
      ℕ → (Timer.World → Outcome Timer.World) → System App → Outcome (System App)
  with_timer me f s = do w ← f (timer_world me s); ok (put_timer me s w)

  abbrev pub listener_world : ℕ → System App → Listener
  listener_world me s = record { acceptor = s.listeners me; loop = s.loop; calls = s.calls }

  abbrev pub put_listener : ℕ → System App → Listener → System App
  put_listener me s w = record s {
    listeners = set_at s.listeners me w.acceptor;
    loop = w.loop;
    calls = w.calls;
  }

  abbrev pub with_listener : ℕ → (Listener → Outcome Listener) → System App → Outcome (System App)
  with_listener me f s = do w ← f (listener_world me s); ok (put_listener me s w)

  -- What the callback of a request does: the method that was bound, on its object.
  unfoldable pub exec : Answers → Request → System App → Outcome (System App)
  exec env (Request.connect me) s = with_conn me (run_connect (env.fresh s.calls)) s
  exec env (Request.close_connect me) s = with_conn me run_close_connect s
  exec env (Request.read_start me) s = with_conn me run_read_start s
  exec env (Request.read_stop me) s = with_conn me (run_read_stop (env.status s.calls 0)) s
  exec env (Request.tcp_write me p) s = with_conn me (run_tcp_write p (env.status s.calls 0)) s
  exec env (Request.timer_start me) s = with_timer me (run_timer_start me (env.status s.calls 0)) s
  exec env (Request.timer_stop me) s = with_timer me (run_timer_stop me) s
  exec env (Request.server_listen_start me) s =
      with_listener me
        (server_listen_start (env.fresh s.calls) (env.status s.calls 0) (env.status s.calls 1)) s

  abbrev pub has_loop : HasLoop Request (System App)
  has_loop = record { get = λ s. s.loop; put = λ l s. record s { loop = l }; get-put = λ l s. refl }

  -- libuv makes the callback of the async handle `h`: the signal is used up.
  unfoldable pub async_callback : Answers → ℕ → System App → Outcome (System App)
  unfolding exec
  async_callback env h s =
      Loop.on_async has_loop (exec env) h
        (record s { loop = record (s.loop) { sent = remove h s.loop.sent } })

  -- m_pConnectcb for the connections that a callback of uv_listen has made.
  unfoldable pub greet :
      (ℕ → System App → Outcome (System App))
      → List (ℕ × Connect)
      → System App
      → Outcome (System App)
  greet user [] s = ok s
  greet user ((k, c) ∷ rest) s =
      user k (record s { conns = set_at s.conns k c }) >>= greet user rest

  -- The callback of uv_listen of the listener at `me`, with the user's callback that it calls.
  unfoldable pub incoming :
      (ℕ → System App → Outcome (System App))
      → ℕ
      → ℕ
      → (ℕ → SafeBuffer)
      → ℕ
      → Bool
      → Status
      → Status
      → System App
      → Outcome (System App)
  unfolding greet
  incoming user me handle junk client failed init answer s = do
    w ← on_connection handle junk client failed init answer (listener_world me s)
    greet user (drop (length (s.listeners me).accepted) w.acceptor.accepted) (put_listener me s w)
