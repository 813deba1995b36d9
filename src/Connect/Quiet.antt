-- ===== src/Connect/Quiet.antt =====
-- The methods and callbacks of libuvcpp/connect.cpp that leave the pool of stSend objects alone.
use libuvwrapper.Base.{
  ℕ, ◌≡◌, refl, sym, subst, Bool, false, not, Option, none, some, List, arith, ok, Yields,
  Yields-any, Yields-if, Yields-bind, Yields-deref, Yields-value, assert, require, ◌>>=◌,
}
use libuvwrapper.Loop.{Loop, EventType, tcp_close, tcp_read_start}
use libuvwrapper.Requests.{Request, Status, is_success}
use libuvwrapper.Connect.{
  Connect, World, Event, drop_tcp, drop_stream, emit, request, set_event_handler, register_connect,
  register_loop_and_stream, set_ip_and_addr, connect_to_server, close_connection, reconnnect,
  stop_read_data, start_read_data, run_connect, connect_cb, run_tcp_write, run_close_connect,
  close_cb, run_read_start, run_read_stop, read_cb,
}

-- The pool is as it was.
abbrev pub SamePool : Connect → Connect → Type 0
SamePool c d = (d.map_send ≡ c.map_send) × (d.d_send ≡ c.d_send) × (d.sends ≡ c.sends)

untouched : (c : Connect) → SamePool c c
untouched c = (refl, refl, refl)

abbrev Keeps : World → World → Type 0
Keeps w v = SamePool w.conn v.conn

abbrev KeepsToo : World → Bool × World → Type 0
KeepsToo w r = SamePool w.conn r.1.conn

pub emit-conn : (w : World) (e : Event) → (emit w e).conn ≡ w.conn
unfolding emit
emit-conn w e = ground arith

request-Keeps :
    (c : Connect) (w : World) (e : EventType) (r : Request)
    → SamePool c w.conn
    → Yields (λ x. SamePool c x.1.conn) (request w e r)
unfolding request
request-Keeps c w e r same =
    Yields-if (λ (x : Bool × World). SamePool c x.1.conn) w.conn.has_loop _ _ same tt

reconnnect-Keeps : (me : ℕ) (w : World) → Yields (KeepsToo w) (reconnnect me w)
unfolding reconnnect
reconnnect-Keeps me w =
    request-Keeps w.conn _ tcp_close (Request.close_connect me) (refl, refl, refl)

start_read_data-Keeps : (me : ℕ) (w : World) → Yields (KeepsToo w) (start_read_data me w)
unfolding start_read_data
start_read_data-Keeps me w =
    Yields-if (KeepsToo w) w.conn.connected _ _
      (request-Keeps w.conn w tcp_read_start (Request.read_start me) (untouched w.conn))
      (untouched w.conn)

set_ip_and_addr-Same :
    (parsed : Option ℕ) (c : Connect) → Yields (SamePool c) (set_ip_and_addr parsed c)
unfolding set_ip_and_addr
set_ip_and_addr-Same none c = tt
set_ip_and_addr-Same (some x) c = (refl, refl, refl)

drop_tcp-Same : (c : Connect) → Yields (SamePool c) (drop_tcp c)
unfolding drop_tcp
drop_tcp-Same c = Yields-if (SamePool c) c.tcp_dead _ _ tt (refl, refl, refl)

drop_stream-Same : (c : Connect) → Yields (SamePool c) (drop_stream c)
unfolding drop_stream
drop_stream-Same c = Yields-if (SamePool c) c.stream_dead _ _ tt (refl, refl, refl)

register_loop_and_stream-Same :
    (c : Connect) (s : ℕ) → Yields (λ r. SamePool c r.1) (register_loop_and_stream c s)
unfolding register_loop_and_stream
register_loop_and_stream-Same c s =
    Yields-bind (SamePool c) (λ r. SamePool c r.1) (drop_stream c) _ (drop_stream-Same c) (λ d h. h)

run_connect-Keeps : (handle : ℕ) (w : World) → Yields (Keeps w) (run_connect handle w)
unfolding run_connect
run_connect-Keeps handle w =
    Yields-bind (SamePool w.conn) (Keeps w) (drop_tcp w.conn) _ (drop_tcp-Same w.conn)
      λ c h. Yields-bind (λ x. Unit) (Keeps w) (require c.has_loop) _ (Yields-any _) (λ x k. h)

connect_cb-Keeps :
    (handle : ℕ) (status : Status) (w : World) → Yields (Keeps w) (connect_cb handle status w)
unfolding connect_cb
connect_cb-Keeps handle status w =
    Yields-bind (SamePool w.conn) (Keeps w) (drop_stream w.conn) _ (drop_stream-Same w.conn)
      (λ c h. subst (SamePool w.conn) (sym (emit-conn _ _)) h)

run_tcp_write-Keeps :
    (p : ℕ) (result : Status) (w : World) → Yields (Keeps w) (run_tcp_write p result w)
unfolding run_tcp_write
run_tcp_write-Keeps p result w = Yields-if (Keeps w) (not w.conn.connected) _ _ (untouched w.conn) (
    Yields-deref (Keeps w) w.conn.stream _ λ s.
      Yields-bind (λ x. Unit) (Keeps w) (assert (is_success result)) _ (Yields-any _)
        (λ x h. untouched w.conn))

run_close_connect-Keeps : (w : World) → Yields (Keeps w) (run_close_connect w)
unfolding run_close_connect
run_close_connect-Keeps w = Yields-deref (Keeps w) w.conn.stream _ (λ s. (refl, refl, refl))

close_cb-Keeps : (me : ℕ) (w : World) → Yields (Keeps w) (close_cb me w)
unfolding close_cb
close_cb-Keeps me w =
    Yields-if (Keeps w) w.conn.reconnect (connect_to_server me cleared >>= λ r. ok r.1) (ok w)
      (Yields-bind (KeepsToo w) (Keeps w) (connect_to_server me cleared) (λ r. ok r.1)
        (request-Keeps w.conn cleared EventType.tcp_connect (Request.connect me) (refl, refl, refl))
        (λ r h. h))
      (untouched w.conn)
  where
    cleared : World
    cleared = record w { conn = record (w.conn) { reconnect = false } }

run_read_start-Keeps : (w : World) → Yields (Keeps w) (run_read_start w)
unfolding run_read_start
run_read_start-Keeps w =
    Yields-if (Keeps w) (not w.conn.connected) _ _ (untouched w.conn)
      (Yields-deref (Keeps w) w.conn.stream _ (λ s. untouched w.conn))

run_read_stop-Keeps : (result : Status) (w : World) → Yields (Keeps w) (run_read_stop result w)
unfolding run_read_stop
run_read_stop-Keeps result w = Yields-deref (Keeps w) w.conn.stream _ λ s.
    Yields-bind (λ x. Unit) (Keeps w) (assert (is_success result)) _ (Yields-any _)
      (λ x h. untouched w.conn)

read_cb-Keeps : (bytes : Option (List ℕ)) (w : World) → Yields (Keeps w) (read_cb bytes w)
unfolding read_cb
read_cb-Keeps (some bytes) w = subst (SamePool w.conn) (sym (emit-conn w _)) (refl, refl, refl)
read_cb-Keeps none w =
    Yields-deref (Keeps w) w.conn.stream _
      λ s. subst (SamePool w.conn) (sym (emit-conn _ _)) (refl, refl, refl)

-- One method or callback of the connection, or a change of the loop by another thread.
pub data Quiet (w v : World) : Type 0 where
  handler : v ≡ record w { conn = set_event_handler w.conn } → Quiet w v
  register : v ≡ record w { conn = (register_connect w.conn).1 } → Quiet w v
  accepted :
      (s : ℕ) (r : Bool) (c : Connect)
      → register_loop_and_stream w.conn s ≡ ok (r, c)
      → v ≡ record w { conn = c }
      → Quiet w v
  address :
      (parsed : Option ℕ) (c : Connect)
      → set_ip_and_addr parsed w.conn ≡ ok c
      → v ≡ record w { conn = c }
      → Quiet w v
  connect : (me : ℕ) (r : Bool) → connect_to_server me w ≡ ok (r, v) → Quiet w v
  close : (me : ℕ) (r : Bool) → close_connection me w ≡ ok (r, v) → Quiet w v
  reconnect : (me : ℕ) (r : Bool) → reconnnect me w ≡ ok (r, v) → Quiet w v
  stop_reading : (me : ℕ) (r : Bool) → stop_read_data me w ≡ ok (r, v) → Quiet w v
  start_reading : (me : ℕ) (r : Bool) → start_read_data me w ≡ ok (r, v) → Quiet w v
  connecting : (handle : ℕ) → run_connect handle w ≡ ok v → Quiet w v
  connected : (handle : ℕ) (status : Status) → connect_cb handle status w ≡ ok v → Quiet w v
  writing : (p : ℕ) (result : Status) → run_tcp_write p result w ≡ ok v → Quiet w v
  closing : run_close_connect w ≡ ok v → Quiet w v
  closed : (me : ℕ) → close_cb me w ≡ ok v → Quiet w v
  reading : run_read_start w ≡ ok v → Quiet w v
  read_stopped : (result : Status) → run_read_stop result w ≡ ok v → Quiet w v
  read : (bytes : Option (List ℕ)) → read_cb bytes w ≡ ok v → Quiet w v
  elsewhere : (l : Loop Request) → v ≡ record w { loop = l } → Quiet w v

pub quiet-SamePool : {w v : World} → Quiet w v → SamePool w.conn v.conn
unfolding set_event_handler register_connect connect_to_server close_connection stop_read_data
quiet-SamePool {w} (handler e) = rw e (refl, refl, refl)
quiet-SamePool {w} (register e) = rw e (refl, refl, refl)
quiet-SamePool {w} (accepted s r c d e) = rw e (
    Yields-value (λ (x : Bool × Connect). SamePool w.conn x.1) _
      (register_loop_and_stream-Same w.conn s) d)
quiet-SamePool {w} (address parsed c d e) =
    rw e (Yields-value (SamePool w.conn) _ (set_ip_and_addr-Same parsed w.conn) d)
quiet-SamePool {w} (connect me r e) =
    Yields-value (KeepsToo w) _ (request-Keeps w.conn w _ _ (untouched w.conn)) e
quiet-SamePool {w} (close me r e) =
    Yields-value (KeepsToo w) _ (request-Keeps w.conn w _ _ (untouched w.conn)) e
quiet-SamePool {w} (reconnect me r e) = Yields-value (KeepsToo w) _ (reconnnect-Keeps me w) e
quiet-SamePool {w} (stop_reading me r e) =
    Yields-value (KeepsToo w) _ (request-Keeps w.conn w _ _ (untouched w.conn)) e
quiet-SamePool {w} (start_reading me r e) =
    Yields-value (KeepsToo w) _ (start_read_data-Keeps me w) e
quiet-SamePool {w} (connecting handle e) = Yields-value (Keeps w) _ (run_connect-Keeps handle w) e
quiet-SamePool {w} (connected handle status e) =
    Yields-value (Keeps w) _ (connect_cb-Keeps handle status w) e
quiet-SamePool {w} (writing p result e) =
    Yields-value (Keeps w) _ (run_tcp_write-Keeps p result w) e
quiet-SamePool {w} (closing e) = Yields-value (Keeps w) _ (run_close_connect-Keeps w) e
quiet-SamePool {w} (closed me e) = Yields-value (Keeps w) _ (close_cb-Keeps me w) e
quiet-SamePool {w} (reading e) = Yields-value (Keeps w) _ (run_read_start-Keeps w) e
quiet-SamePool {w} (read_stopped result e) =
    Yields-value (Keeps w) _ (run_read_stop-Keeps result w) e
quiet-SamePool {w} (read bytes e) = Yields-value (Keeps w) _ (read_cb-Keeps bytes w) e
quiet-SamePool {w} (elsewhere l e) = rw e (refl, refl, refl)
