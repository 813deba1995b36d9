-- ===== src/Connect.antt =====
-- libuvcpp/connect.h and libuvcpp/connect.cpp: the class `uvconnect`, a TCP connection driven by
-- a loop. The event handler is called last in every callback, so its calls are listed in
-- `events`, and what the handler itself does is what happens next.
pub mod Sends
pub mod Write
pub mod Close
pub mod Quiet
pub mod Runs
pub mod Example
mod Tests
use libuvwrapper.Base.{
  ℕ, zero, suc, ◌+◌, ◌≡◌, Bool, true, false, not, Option, none, some, List, [], ◌∷◌, ◌++◌, take,
  if◌then◌else◌, ◌==◌, ◌||◌, require, Outcome, ok, fault, abort, ◌>>=◌, ◌>>◌, assert, deref,
}
use libuvwrapper.Base.Assoc.{Assoc, find, insert, erase}
use libuvwrapper.Memory.{Allocator, bytes_at}
use libuvwrapper.SafeBuffer.{
  SafeBuffer, default_buffer_len, new_empty, clear_mem, readmem, get_memory, get_data_length,
}
use libuvwrapper.Loop.{
  Loop, LoopError, EventType, tcp_close, tcp_read_start, tcp_read_stop, is_ok, add_req,
}
use libuvwrapper.Loop
use libuvwrapper.Requests.{Request, UvCall, Status, success, failure, is_success}

-- evType with the arguments of the event handler's call.
pub data Event : Type 0 where
  ev_connect : Status → Event
  ev_read : List ℕ → Event
  ev_write : Status → Event
  ev_close : Event

-- uvconnect. An stSend begins with its uv_write_t, so one number is the address of both; `sends`
-- holds the tsafebuf of each. m_ptcp and m_pStream each own the handle that they point to: `freed`
-- lists the handles that they have deleted. Where the two hold one handle and one of them deletes
-- it, the other dangles: it is `none`, to be used by nothing, and `tcp_dead` or `stream_dead` says
-- that its reset would delete the handle again. `addr` stands for the bytes of m_addr, `none` before
-- they are set.
pub record Connect : Type 0 where
  pub connected : Bool
  pub reconnect : Bool
  pub handler : Bool
  pub has_loop : Bool
  pub map_send : Assoc
  pub d_send : List ℕ
  pub sends : ℕ → SafeBuffer
  pub tcp : Option ℕ
  pub stream : Option ℕ
  pub tcp_dead : Bool
  pub stream_dead : Bool
  pub freed : List ℕ
  pub addr : Option ℕ

-- The connection, its loop, and what was called.
pub record World : Type 0 where
  pub conn : Connect
  pub loop : Loop Request
  pub calls : List UvCall
  pub events : List Event

-- uvconnect()
unfoldable pub new : (ℕ → SafeBuffer) → Connect
new junk = record {
  connected = false;
  reconnect = false;
  handler = false;
  has_loop = false;
  map_send = [];
  d_send = [];
  sends = junk;
  tcp = none;
  stream = none;
  tcp_dead = false;
  stream_dead = false;
  freed = [];
  addr = none;
}

-- What shared_ptr::reset deletes.
abbrev pub released : Option ℕ → List ℕ
released none = []
released (some p) = p ∷ []

abbrev pub same_handle : Option ℕ → Option ℕ → Bool
same_handle none q = false
same_handle (some p) none = false
same_handle (some p) (some q) = p == q

-- m_ptcp lets go of its handle.
unfoldable pub drop_tcp : Connect → Outcome Connect
drop_tcp c =
    if c.tcp_dead
    then fault
    else ok (record c {
      tcp = none;
      freed = c.freed ++ released c.tcp;
      stream = if same_handle c.tcp c.stream then none else c.stream;
      stream_dead = c.stream_dead || same_handle c.tcp c.stream;
    })

-- m_pStream lets go of its handle.
unfoldable pub drop_stream : Connect → Outcome Connect
drop_stream c =
    if c.stream_dead
    then fault
    else ok (record c {
      stream = none;
      freed = c.freed ++ released c.stream;
      tcp = if same_handle c.tcp c.stream then none else c.tcp;
      tcp_dead = c.tcp_dead || same_handle c.tcp c.stream;
    })

-- ~uvconnect(): the members go in the reverse order of their declarations, so m_pStream before
-- m_ptcp.
unfoldable pub destroy : Connect → Outcome Connect
unfolding drop_tcp drop_stream
destroy c = drop_stream c >>= drop_tcp

abbrev pub put_send : (ℕ → SafeBuffer) → ℕ → SafeBuffer → ℕ → SafeBuffer
put_send sends p b x = if p == x then b else sends x

unfoldable pub emit : World → Event → World
emit w e = if w.conn.handler then record w { events = w.events ++ (e ∷ []) } else w

unfoldable pub call : World → UvCall → World
call w u = record w { calls = w.calls ++ (u ∷ []) }

-- m_ploop->AddReq(e, r), and whether the code is 0.
unfoldable pub request : World → EventType → Request → Outcome (Bool × World)
request w e r =
    if w.conn.has_loop
    then (let (code, l) = add_req w.loop e r in ok (is_ok code, record w { loop = l }))
    else fault

-- SetEventHandler
unfoldable pub set_event_handler : Connect → Connect
set_event_handler c = record c { handler = true }

-- IsConnected
unfoldable pub is_connected : Connect → Bool
is_connected c = c.connected

-- RegisterConnect
unfoldable pub register_connect : Connect → Bool × Connect
register_connect c = (true, record c { has_loop = true })

-- RegisterloopAndStream, for an accepted connection.
unfoldable pub register_loop_and_stream : Connect → ℕ → Outcome (Bool × Connect)
unfolding drop_stream
register_loop_and_stream c s = do
  d ← drop_stream c
  ok (true, record d { connected = true; has_loop = true; stream = some s })

-- SetIPAndAddr: `parsed` is what uv_ip4_addr makes of the address, `none` for an error.
unfoldable pub set_ip_and_addr : Option ℕ → Connect → Outcome Connect
set_ip_and_addr none c = abort
set_ip_and_addr (some a) c = ok (record c { addr = some a })

-- ConnectToServer, Reconnnect, CloseConnection, StopReadData
unfoldable pub connect_to_server : ℕ → World → Outcome (Bool × World)
connect_to_server me w = request w EventType.tcp_connect (Request.connect me)

unfoldable pub close_connection : ℕ → World → Outcome (Bool × World)
close_connection me w = request w tcp_close (Request.close_connect me)

unfoldable pub reconnnect : ℕ → World → Outcome (Bool × World)
reconnnect me w =
    request (record w { conn = record (w.conn) { reconnect = true } }) tcp_close
      (Request.close_connect me)

unfoldable pub stop_read_data : ℕ → World → Outcome (Bool × World)
stop_read_data me w = request w tcp_read_stop (Request.read_stop me)

unfoldable pub start_read_data : ℕ → World → Outcome (Bool × World)
start_read_data me w =
    if w.conn.connected then request w tcp_read_start (Request.read_start me) else ok (false, w)

-- Connect, in the loop's thread: `handle` is the address of the new uv_tcp_t. What uv_tcp_init
-- and uv_tcp_connect return is ignored.
unfoldable pub run_connect : ℕ → World → Outcome World
unfolding call drop_tcp
run_connect handle w = do
  c ← drop_tcp w.conn
  require c.has_loop
  ok (
      call
        (call (record w { conn = record c { tcp = some handle; tcp_dead = false } })
          (UvCall.tcp_init handle))
        (UvCall.tcp_connect handle c.addr))

-- Its callback: `handle` is `req->handle`, which m_pStream does not hold yet.
unfoldable pub connect_cb : ℕ → Status → World → Outcome World
unfolding emit drop_stream
connect_cb handle status w = do
  c ← drop_stream w.conn
  ok (
      emit (record w { conn = record c { stream = some handle; connected = is_success status } })
        (ev_connect status))

-- The stSend that `wirteData` takes: a new one at the address `fresh`, or the first that is free,
-- cleared.
unfoldable pub take_send : Allocator → ℕ → Connect → List ℕ → Outcome (ℕ × Connect)
take_send a fresh c [] = do
  b ← new_empty a default_buffer_len
  ok (fresh, record c { sends = put_send c.sends fresh b })
take_send a fresh c (p ∷ rest) = do
  b ← clear_mem (c.sends p)
  ok (p, record c { d_send = rest; sends = put_send c.sends p b })

-- The locked part of `wirteData`, and the copy of the data.
unfoldable pub load_send : Allocator → ℕ → Connect → List ℕ → ℕ → Outcome (ℕ × Connect)
unfolding take_send
load_send a fresh c pbuf len = do
  t ← take_send a fresh c c.d_send
  r ← readmem a (t.1.sends t.0) pbuf len
  ok (
    t.0,
    record (t.1) { map_send = insert t.0 t.0 t.1.map_send; sends = put_send t.1.sends t.0 r.1 },
  )

-- wirteData
unfoldable pub wirte_data : Allocator → ℕ → ℕ → List ℕ → ℕ → World → Outcome (Bool × World)
unfolding load_send request
wirte_data a me fresh pbuf len w =
    if not w.conn.connected
    then ok (false, w)
    else if not w.conn.has_loop
    then ok (false, w)
    else (do
      t ← load_send a fresh w.conn pbuf len
      request (record w { conn = t.1 }) EventType.tcp_write (Request.tcp_write me t.0))

-- tcpWrite: `result` is what uv_write returns. uv_write reads the buffer of the stSend.
unfoldable pub run_tcp_write : ℕ → Status → World → Outcome World
unfolding call
run_tcp_write p result w =
    if not w.conn.connected
    then ok w
    else deref w.conn.stream λ s. do
      assert (is_success result)
      ok (
          call w (
            UvCall.write s p
              (take (get_data_length (w.conn.sends p)) (bytes_at (get_memory (w.conn.sends p))))))

-- The callback of uv_write for the request at `req`. Where the map does not have it, the code
-- reads through the end iterator.
unfoldable pub recycle : Connect → ℕ → Option ℕ → Outcome Connect
recycle c req none = fault
recycle c req (some p) =
    ok (record c { d_send = c.d_send ++ (p ∷ []); map_send = erase req c.map_send })

unfoldable pub write_cb : ℕ → Status → World → Outcome World
unfolding recycle emit
write_cb req status w = do
  c ← recycle w.conn req (find req w.conn.map_send)
  ok (emit (record w { conn = c }) (ev_write status))

-- CloseConnect
unfoldable pub run_close_connect : World → Outcome World
unfolding call
run_close_connect w =
    deref w.conn.stream
      λ s. ok (call (record w { conn = record (w.conn) { connected = false } }) (UvCall.close s))

-- The callback of uv_close. What ConnectToServer returns is ignored.
unfoldable pub close_cb : ℕ → World → Outcome World
unfolding connect_to_server request
close_cb me w =
    if w.conn.reconnect
    then (do
      r ← connect_to_server me (record w { conn = record (w.conn) { reconnect = false } })
      ok r.1)
    else ok w

-- ReadStart
unfoldable pub run_read_start : World → Outcome World
unfolding call
run_read_start w =
    if not w.conn.connected
    then ok w
    else deref w.conn.stream λ s. ok (call w (UvCall.start_reading s))

-- ReadStop: `result` is what uv_read_stop returns.
unfoldable pub run_read_stop : Status → World → Outcome World
unfolding call
run_read_stop result w =
    deref w.conn.stream λ s. do assert (is_success result); ok (call w (UvCall.stop_reading s))

-- The read callback: `none` for a negative count, otherwise the bytes that were read.
unfoldable pub read_cb : Option (List ℕ) → World → Outcome World
unfolding call emit
read_cb (some bytes) w = ok (emit w (ev_read bytes))
read_cb none w = deref w.conn.stream λ s. ok (
    emit (record (call w (UvCall.stop_reading s)) { conn = record (w.conn) { connected = false } })
      ev_close)
