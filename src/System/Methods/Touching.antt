-- ===== src/System/Methods/Touching.antt =====
-- What those methods and callbacks do to the loop: they call AddReq, and nothing else.
use libuvwrapper.Base.{
  ℕ, refl, Bool, true, false, not, if◌then◌else◌, Option, none, some, List, Outcome, Yields,
  Yields-any, Yields-if, Yields-bind, Yields-deref,
}
use libuvwrapper.Base.Assoc.{find}
use libuvwrapper.Memory.{Allocator}
use libuvwrapper.Loop.{EventType}
use libuvwrapper.Requests.{Request, Status}
use libuvwrapper.Connect
use libuvwrapper.Timer
use libuvwrapper.Accept
use libuvwrapper.System.{
  System, on_conn, with_conn, conn_world, on_timer, timer_world, listener_world,
}
use libuvwrapper.System.Touches.{Touches, untouched, request, SystemTouches}
use libuvwrapper.System.Methods.{
  Method, connect, close, reconnect, stop_reading, start_reading, write, start_timer, stop_timer,
  listen, connected, written, closed, received, after, invoke,
}

abbrev ConnTouches : Connect.World → Connect.World → Type 0
ConnTouches w v = Touches w.loop v.loop

abbrev ConnTouchesToo : Connect.World → Bool × Connect.World → Type 0
ConnTouchesToo w r = Touches w.loop r.1.loop

conn_request-Touches :
    (w : Connect.World) (e : EventType) (r : Request)
    → Yields (ConnTouchesToo w) (Connect.request w e r)
unfolding Connect.request
conn_request-Touches w e r =
    Yields-if (ConnTouchesToo w) w.conn.has_loop _ _ (request e r untouched refl) tt

start_read_data-Touches :
    (me : ℕ) (w : Connect.World) → Yields (ConnTouchesToo w) (Connect.start_read_data me w)
unfolding Connect.start_read_data
start_read_data-Touches me w =
    Yields-if (ConnTouchesToo w) w.conn.connected _ _
      (conn_request-Touches w EventType.tcp_read_start (Request.read_start me)) untouched

wirte_data-Touches :
    (a : Allocator) (me fresh : ℕ) (pbuf : List ℕ) (len : ℕ) (w : Connect.World)
    → Yields (ConnTouchesToo w) (Connect.wirte_data a me fresh pbuf len w)
unfolding Connect.wirte_data
wirte_data-Touches a me fresh pbuf len w =
    Yields-if (ConnTouchesToo w) (not w.conn.connected) _ _ untouched (
      Yields-if (ConnTouchesToo w) (not w.conn.has_loop) _ _ untouched (
        Yields-bind (λ t. Unit) (ConnTouchesToo w) (Connect.load_send a fresh w.conn pbuf len) _
          (Yields-any _)
          λ t h.
            conn_request-Touches (record w { conn = t.1 }) EventType.tcp_write
              (Request.tcp_write me t.0)))

-- An event, told to a handler or not.
told :
    (w : Connect.World) (b : Bool) (x y : Connect.World)
    → ConnTouches w x
    → ConnTouches w y
    → ConnTouches w (if b then x else y)
told w true x y h k = h
told w false x y h k = k

connect_cb-Touches :
    (handle : ℕ) (status : Status) (w : Connect.World)
    → Yields (ConnTouches w) (Connect.connect_cb handle status w)
unfolding Connect.connect_cb
connect_cb-Touches handle status w =
    Yields-bind (λ c. Unit) (ConnTouches w) (Connect.drop_stream w.conn) _ (Yields-any _)
      (λ (c : Connect.Connect) h. told w c.handler _ _ untouched untouched)

write_cb-Touches :
    (req : ℕ) (status : Status) (w : Connect.World)
    → Yields (ConnTouches w) (Connect.write_cb req status w)
unfolding Connect.write_cb
write_cb-Touches req status w =
    Yields-bind (λ c. Unit) (ConnTouches w) (Connect.recycle w.conn req (find req w.conn.map_send))
      _ (Yields-any _) (λ (c : Connect.Connect) h. told w c.handler _ _ untouched untouched)

close_cb-Touches : (me : ℕ) (w : Connect.World) → Yields (ConnTouches w) (Connect.close_cb me w)
unfolding Connect.close_cb
close_cb-Touches me w =
    Yields-if (ConnTouches w) w.conn.reconnect _ _
      (Yields-bind (ConnTouchesToo cleared) (ConnTouches w) (Connect.connect_to_server me cleared) _
        (conn_request-Touches cleared EventType.tcp_connect (Request.connect me)) (λ r h. h))
      untouched
  where
    cleared : Connect.World
    cleared = record w { conn = record (w.conn) { reconnect = false } }

read_cb-Touches :
    (bytes : Option (List ℕ)) (w : Connect.World) → Yields (ConnTouches w) (Connect.read_cb bytes w)
unfolding Connect.read_cb
read_cb-Touches (some bytes) w = told w w.conn.handler _ _ untouched untouched
read_cb-Touches none w =
    Yields-deref (ConnTouches w) w.conn.stream _
      (λ s. told w w.conn.handler _ _ untouched untouched)

abbrev again : Connect.World → Connect.World
again w = record w { conn = record (w.conn) { reconnect = true } }

abbrev TimerTouchesToo : Timer.World → Bool × Timer.World → Type 0
TimerTouchesToo w r = Touches w.loop r.1.loop

timer_request-Touches :
    (w : Timer.World) (e : EventType) (r : Request)
    → Yields (TimerTouchesToo w) (Timer.request w e r)
unfolding Timer.request
timer_request-Touches w e r =
    Yields-if (TimerTouchesToo w) w.timer.has_loop _ _ (request e r untouched refl) tt

start_timer-Touches :
    (me : ℕ) (force : Bool) (w : Timer.World)
    → Yields (TimerTouchesToo w) (Timer.start_timer me force w)
unfolding Timer.start_timer
start_timer-Touches me force w =
    Yields-if (TimerTouchesToo w) (not w.timer.started) _ _
      (timer_request-Touches w EventType.timer_start (Request.timer_start me))
      (Yields-if (TimerTouchesToo w) force _ _
        (Yields-bind (TimerTouchesToo w) (TimerTouchesToo w)
          (Timer.stop_timer me (record w { timer = record (w.timer) { restart = true } })) _
          (timer_request-Touches (record w { timer = record (w.timer) { restart = true } })
            EventType.timer_stop (Request.timer_stop me))
          (λ r h. h))
        untouched)

listen-Touches :
    (me : ℕ) (w : Accept.Listener) → Yields (λ r. Touches w.loop r.1.loop) (Accept.listen me w)
unfolding Accept.listen
listen-Touches me w =
    Yields-if (λ r. Touches w.loop r.1.loop) w.acceptor.has_loop _ _
      (request EventType.tcp_listen (Request.server_listen_start me) untouched refl) tt

module _ {App : Type 0} where
  abbrev Touching : System App → System App → Type 0
  Touching s t = Touches s.loop t.loop

  on_conn-Touches :
      (me : ℕ) (f : Connect.World → Outcome (Bool × Connect.World)) (s : System App)
      → Yields (ConnTouchesToo (conn_world me s)) (f (conn_world me s))
      → Yields (Touching s) (after (on_conn me f s))
  on_conn-Touches me f s h =
      Yields-bind (λ r. Touching s r.1) (Touching s) (on_conn me f s) _
        (Yields-bind (ConnTouchesToo (conn_world me s)) (λ r. Touching s r.1) (f (conn_world me s))
          _ h (λ r k. k))
        (λ r k. k)

  with_conn-Touches :
      (me : ℕ) (f : Connect.World → Outcome Connect.World) (s : System App)
      → Yields (ConnTouches (conn_world me s)) (f (conn_world me s))
      → Yields (Touching s) (with_conn me f s)
  with_conn-Touches me f s h =
      Yields-bind (ConnTouches (conn_world me s)) (Touching s) (f (conn_world me s)) _ h (λ w k. k)

  on_timer-Touches :
      (me : ℕ) (f : Timer.World → Outcome (Bool × Timer.World)) (s : System App)
      → Yields (TimerTouchesToo (timer_world me s)) (f (timer_world me s))
      → Yields (Touching s) (after (on_timer me f s))
  on_timer-Touches me f s h =
      Yields-bind (λ r. Touching s r.1) (Touching s) (on_timer me f s) _
        (Yields-bind (TimerTouchesToo (timer_world me s)) (λ r. Touching s r.1)
          (f (timer_world me s)) _ h (λ r k. k))
        (λ r k. k)

  -- They touch the loop only by AddReq.
  pub invoke-Touches : (m : Method) (s : System App) → Yields (SystemTouches s.loop) (invoke m s)
  unfolding invoke Connect.connect_to_server Connect.close_connection Connect.reconnnect
      Connect.stop_read_data Timer.stop_timer
  invoke-Touches (connect me) s =
      on_conn-Touches me (Connect.connect_to_server me) s
        (conn_request-Touches (conn_world me s) EventType.tcp_connect (Request.connect me))
  invoke-Touches (close me) s =
      on_conn-Touches me (Connect.close_connection me) s
        (conn_request-Touches (conn_world me s) EventType.tcp_close (Request.close_connect me))
  invoke-Touches (reconnect me) s = on_conn-Touches me (Connect.reconnnect me) s (
      conn_request-Touches (again (conn_world me s)) EventType.tcp_close (Request.close_connect me))
  invoke-Touches (stop_reading me) s =
      on_conn-Touches me (Connect.stop_read_data me) s
        (conn_request-Touches (conn_world me s) EventType.tcp_read_stop (Request.read_stop me))
  invoke-Touches (start_reading me) s =
      on_conn-Touches me (Connect.start_read_data me) s
        (start_read_data-Touches me (conn_world me s))
  invoke-Touches (write a me fresh pbuf len) s =
      on_conn-Touches me (Connect.wirte_data a me fresh pbuf len) s
        (wirte_data-Touches a me fresh pbuf len (conn_world me s))
  invoke-Touches (start_timer me force) s =
      on_timer-Touches me (Timer.start_timer me force) s
        (start_timer-Touches me force (timer_world me s))
  invoke-Touches (stop_timer me) s =
      on_timer-Touches me (Timer.stop_timer me) s
        (timer_request-Touches (timer_world me s) EventType.timer_stop (Request.timer_stop me))
  invoke-Touches (listen me) s =
      Yields-bind (λ r. Touches s.loop r.1.loop) (Touching s)
        (Accept.listen me (listener_world me s)) _ (listen-Touches me (listener_world me s))
        (λ r h. h)
  invoke-Touches (connected me handle status) s =
      with_conn-Touches me (Connect.connect_cb handle status) s
        (connect_cb-Touches handle status (conn_world me s))
  invoke-Touches (written me req status) s =
      with_conn-Touches me (Connect.write_cb req status) s
        (write_cb-Touches req status (conn_world me s))
  invoke-Touches (closed me) s =
      with_conn-Touches me (Connect.close_cb me) s (close_cb-Touches me (conn_world me s))
  invoke-Touches (received me bytes) s =
      with_conn-Touches me (Connect.read_cb bytes) s (read_cb-Touches bytes (conn_world me s))
