-- ===== src/System/Touches.antt =====
-- What the methods of libuvcpp/ do to the loop that they share: they call AddReq, and nothing else.
use libuvwrapper.Base.{
  ℕ, ◌≡◌, refl, Bool, false, not, ok, Yields, Yields-any, Yields-if, Yields-bind, Yields-deref,
  assert, require, ◌>>=◌,
}
use libuvwrapper.Loop.{Loop, EventType, add_req, stop, run}
use libuvwrapper.Requests.{Request, UvCall, Status, is_success}
use libuvwrapper.Connect.{
  run_connect, run_close_connect, run_read_start, run_read_stop, run_tcp_write,
}
use libuvwrapper.Connect
use libuvwrapper.Timer.{start_timer, run_timer_start, run_timer_stop}
use libuvwrapper.Timer
use libuvwrapper.Accept.{Listener, server_listen_start}
use libuvwrapper.System.{System, Answers, exec, timer_world, conn_world, listener_world}

-- Requests, orders to stop and starts, by any threads.
pub data Touches {Cb : Type 0} (l : Loop Cb) : Loop Cb → Type 0 where
  untouched : Touches l l
  request :
      {k m : Loop Cb} (e : EventType) (cb : Cb) → Touches l k → m ≡ (add_req k e cb).1 → Touches l m
  halt : {k m : Loop Cb} → Touches l k → m ≡ stop k → Touches l m
  start : {k m : Loop Cb} → Touches l k → m ≡ run k → Touches l m

abbrev ConnTouches : Connect.World → Connect.World → Type 0
ConnTouches w v = Touches w.loop v.loop

run_connect-Touches :
    (handle : ℕ) (w : Connect.World) → Yields (ConnTouches w) (run_connect handle w)
unfolding run_connect
run_connect-Touches handle w =
    Yields-bind (λ x. Unit) (ConnTouches w) (Connect.drop_tcp w.conn) _ (Yields-any _)
      λ c h.
        Yields-bind (λ x. Unit) (ConnTouches w) (require c.has_loop) _ (Yields-any _)
          (λ x h. untouched)

run_close_connect-Touches : (w : Connect.World) → Yields (ConnTouches w) (run_close_connect w)
unfolding run_close_connect
run_close_connect-Touches w = Yields-deref (ConnTouches w) w.conn.stream _ (λ s. untouched)

run_read_start-Touches : (w : Connect.World) → Yields (ConnTouches w) (run_read_start w)
unfolding run_read_start
run_read_start-Touches w =
    Yields-if (ConnTouches w) (not w.conn.connected) _ _ untouched
      (Yields-deref (ConnTouches w) w.conn.stream _ (λ s. untouched))

run_read_stop-Touches :
    (result : Status) (w : Connect.World) → Yields (ConnTouches w) (run_read_stop result w)
unfolding run_read_stop
run_read_stop-Touches result w = Yields-deref (ConnTouches w) w.conn.stream _ λ s.
    Yields-bind (λ x. Unit) (ConnTouches w) (assert (is_success result)) _ (Yields-any _)
      (λ x h. untouched)

run_tcp_write-Touches :
    (p : ℕ) (result : Status) (w : Connect.World)
    → Yields (ConnTouches w) (run_tcp_write p result w)
unfolding run_tcp_write
run_tcp_write-Touches p result w = Yields-if (ConnTouches w) (not w.conn.connected) _ _ untouched (
    Yields-deref (ConnTouches w) w.conn.stream _ λ s.
      Yields-bind (λ x. Unit) (ConnTouches w) (assert (is_success result)) _ (Yields-any _)
        (λ x h. untouched))

abbrev TimerTouches : Loop Request → Timer.World → Type 0
TimerTouches l v = Touches l v.loop

abbrev TimerTouchesToo : Loop Request → Bool × Timer.World → Type 0
TimerTouchesToo l r = Touches l r.1.loop

timer_request-Touches :
    (w : Timer.World) (e : EventType) (r : Request)
    → Yields (TimerTouchesToo w.loop) (Timer.request w e r)
unfolding Timer.request
timer_request-Touches w e r =
    Yields-if (TimerTouchesToo w.loop) w.timer.has_loop _ _ (request e r untouched refl) tt

-- `startTimer` as `timerStop` calls it.
start_timer-Touches :
    (me : ℕ) (w : Timer.World) → Yields (TimerTouchesToo w.loop) (start_timer me false w)
unfolding start_timer
start_timer-Touches me w =
    Yields-if (TimerTouchesToo w.loop) (not w.timer.started) _ _
      (timer_request-Touches w EventType.timer_start (Request.timer_start me)) untouched

run_timer_start-Touches :
    (me : ℕ) (result : Status) (w : Timer.World)
    → Yields (TimerTouches w.loop) (run_timer_start me result w)
unfolding run_timer_start
run_timer_start-Touches me result w =
    Yields-bind (λ x. Unit) (TimerTouches w.loop) (require w.timer.has_loop) _ (Yields-any _)
      λ x h.
        Yields-bind (λ x. Unit) (TimerTouches w.loop) (assert (is_success result)) _ (Yields-any _)
          (λ x h. untouched)

run_timer_stop-Touches :
    (me : ℕ) (w : Timer.World) → Yields (TimerTouches w.loop) (run_timer_stop me w)
unfolding run_timer_stop Timer.call
run_timer_stop-Touches me w =
    Yields-if (TimerTouches w.loop) w.timer.restart (start_timer me false cleared >>= λ r. ok r.1) _
      (Yields-bind (TimerTouchesToo w.loop) (TimerTouches w.loop) (start_timer me false cleared)
        (λ r. ok r.1) (start_timer-Touches me cleared) (λ r h. h))
      untouched
  where
    cleared : Timer.World
    cleared = record (Timer.call w (UvCall.stop_timer me)) {
      timer = record (w.timer) { started = false; restart = false };
    }

server_listen_start-Touches :
    (handle : ℕ) (init bind : Status) (w : Listener)
    → Yields (λ v. Touches w.loop v.loop) (server_listen_start handle init bind w)
unfolding server_listen_start
server_listen_start-Touches handle init bind w =
    Yields-bind (λ x. Unit) P (require w.acceptor.has_loop) _ (Yields-any _)
      λ x h.
        Yields-bind (λ x. Unit) P (assert (is_success init)) _ (Yields-any _)
          λ x h.
            Yields-bind (λ x. Unit) P (assert (is_success bind)) _ (Yields-any _) (λ x h. untouched)
  where
    P : Listener → Type 0
    P v = Touches w.loop v.loop

module _ {App : Type 0} where
  abbrev pub SystemTouches : Loop Request → System App → Type 0
  SystemTouches l t = Touches l t.loop

  -- The method that a request is bound to.
  pub exec-Touches :
      (env : Answers) (r : Request) (s : System App) → Yields (SystemTouches s.loop) (exec env r s)
  unfolding exec
  exec-Touches env (Request.connect me) s =
      Yields-bind (ConnTouches (conn_world me s)) (SystemTouches s.loop)
        (run_connect (env.fresh s.calls) (conn_world me s)) _
        (run_connect-Touches (env.fresh s.calls) (conn_world me s)) (λ w h. h)
  exec-Touches env (Request.close_connect me) s =
      Yields-bind (ConnTouches (conn_world me s)) (SystemTouches s.loop)
        (run_close_connect (conn_world me s)) _ (run_close_connect-Touches (conn_world me s))
        (λ w h. h)
  exec-Touches env (Request.read_start me) s =
      Yields-bind (ConnTouches (conn_world me s)) (SystemTouches s.loop)
        (run_read_start (conn_world me s)) _ (run_read_start-Touches (conn_world me s)) (λ w h. h)
  exec-Touches env (Request.read_stop me) s =
      Yields-bind (ConnTouches (conn_world me s)) (SystemTouches s.loop)
        (run_read_stop (env.status s.calls 0) (conn_world me s)) _
        (run_read_stop-Touches (env.status s.calls 0) (conn_world me s)) (λ w h. h)
  exec-Touches env (Request.tcp_write me p) s =
      Yields-bind (ConnTouches (conn_world me s)) (SystemTouches s.loop)
        (run_tcp_write p (env.status s.calls 0) (conn_world me s)) _
        (run_tcp_write-Touches p (env.status s.calls 0) (conn_world me s)) (λ w h. h)
  exec-Touches env (Request.timer_start me) s =
      Yields-bind (TimerTouches s.loop) (SystemTouches s.loop)
        (run_timer_start me (env.status s.calls 0) (timer_world me s)) _
        (run_timer_start-Touches me (env.status s.calls 0) (timer_world me s)) (λ w h. h)
  exec-Touches env (Request.timer_stop me) s =
      Yields-bind (TimerTouches s.loop) (SystemTouches s.loop)
        (run_timer_stop me (timer_world me s)) _ (run_timer_stop-Touches me (timer_world me s))
        (λ w h. h)
  exec-Touches env (Request.server_listen_start me) s =
      Yields-bind (λ v. Touches s.loop v.loop) (SystemTouches s.loop)
        (server_listen_start (env.fresh s.calls) (env.status s.calls 0) (env.status s.calls 1)
          (listener_world me s))
        _
        (server_listen_start-Touches (env.fresh s.calls) (env.status s.calls 0)
          (env.status s.calls 1) (listener_world me s))
        (λ w h. h)
