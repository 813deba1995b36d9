-- ===== src/Netlib.antt =====
-- util/netlib.h: the class template `netlibuv`, a TCP client that is one instance for each link
-- type. What a call of libuv returns is an argument. An Sendst begins with its uv_write_t and an
-- AsyncSendst with its uv_async_t, so one number is the address of both.
pub mod Connection
pub mod Untouched
pub mod AsyncSends
pub mod Reconnect
pub mod Relay
pub mod Instance
mod Tests
use libuvwrapper.Base.{
  ℕ, zero, suc, ◌+◌, ◌≡◌, Bool, true, false, not, Option, none, some, List, [], ◌∷◌, ◌++◌, take,
  if◌then◌else◌, ◌==◌, Outcome, ok, fault, abort, ◌>>=◌, ◌>>◌, assert, deref,
}
use libuvwrapper.Base.Assoc.{Assoc, find, insert, erase}
use libuvwrapper.Memory.{Allocator, bytes_at}
use libuvwrapper.SafeBuffer.{
  SafeBuffer, default_buffer_len, new_empty, clear_mem, readmem, get_memory, get_data_length,
}
use libuvwrapper.Requests.{Status, success, failure, is_success}

-- ASYNC_HANDLE_NUM
abbrev pub async_handle_num : ℕ
async_handle_num = 5

-- m_timer and m_tcpReconnectTimer
pub data NetTimer : Type 0 where
  user_timer tcp_timer : NetTimer

-- The calls of libuv and of the user's callbacks, in order.
pub data NetCall : Type 0 where
  init_loop init_tcp : NetCall
  init_timer : NetTimer → NetCall
  init_async send_async : ℕ → NetCall
  connect_tcp : Option ℕ → NetCall
  close_handle start_reading stop_reading : ℕ → NetCall
  write_to : ℕ → ℕ → List ℕ → NetCall
  start_timer : NetTimer → ℕ → ℕ → NetCall
  stop_timer : NetTimer → NetCall
  tell_connect : ℕ → Status → NetCall
  tell_read : ℕ → Option (List ℕ) → NetCall
  tell_timer : NetTimer → ℕ → NetCall
  run_loop : NetCall

-- netlibuv, with the static members of its link type. The user's callbacks are numbers that stand
-- for functions; 0 is the one that does nothing. `adder` is m_adder, `none` until it is set.
pub record Net : Type 0 where
  pub d_send : List ℕ
  pub map_send : Assoc
  pub sends : ℕ → SafeBuffer
  pub d_async_send : List ℕ
  pub map_async_send : Assoc
  pub async_sends : ℕ → SafeBuffer
  pub tcp_handle : Option ℕ
  pub tcp_closed : Bool
  pub adder : Option ℕ
  pub read_callback : ℕ
  pub write_callback : ℕ
  pub connect_callback : ℕ
  pub timer_callback : ℕ
  pub tcp_timer_callback : ℕ
  pub calls : List NetCall

abbrev pub log : Net → NetCall → Net
log n u = record n { calls = n.calls ++ (u ∷ []) }

abbrev pub put_buffer : (ℕ → SafeBuffer) → ℕ → SafeBuffer → ℕ → SafeBuffer
put_buffer sends p b x = if p == x then b else sends x

-- A call whose result is asserted to be 0.
abbrev pub checked : Status → NetCall → Net → Outcome Net
checked answer u n = do assert (is_success answer); ok (log n u)

-- The objects in which nothing is yet.
abbrev pub blank : (ℕ → SafeBuffer) → Net
blank junk = record {
  d_send = [];
  map_send = [];
  sends = junk;
  d_async_send = [];
  map_async_send = [];
  async_sends = junk;
  tcp_handle = none;
  tcp_closed = false;
  adder = none;
  read_callback = 0;
  write_callback = 0;
  connect_callback = 0;
  timer_callback = 0;
  tcp_timer_callback = 0;
  calls = [];
}

-- The loop of the constructor: a new AsyncSendst has the default buffer, and the address `i`.
unfoldable pub new_async_sends : Allocator → (NetCall → Status) → ℕ → ℕ → Net → Outcome Net
new_async_sends a answer i zero n = ok n
new_async_sends a answer i (suc rounds) n = do
  b ← new_empty a default_buffer_len
  n ← checked (answer (init_async i)) (init_async i) n
  new_async_sends a answer (suc i) rounds (record n {
    d_async_send = n.d_async_send ++ (i ∷ []);
    async_sends = put_buffer n.async_sends i b;
  })

-- netlibuv(). What uv_timer_init returns for the second timer is not tested.
unfoldable pub new : Allocator → (NetCall → Status) → (ℕ → SafeBuffer) → Outcome Net
unfolding new_async_sends
new a answer junk = do
  n ← checked (answer init_loop) init_loop (blank junk)
  n ← checked (answer init_tcp) init_tcp n
  n ← checked (answer (init_timer user_timer)) (init_timer user_timer) n
  new_async_sends a answer 0 async_handle_num (log n (init_timer tcp_timer))

-- net_AsyncSend with the free objects: what `readmem` returns is ignored.
unfoldable pub load_async : Allocator → List ℕ → ℕ → List ℕ → Net → Outcome (Bool × Net)
load_async a buf len [] n = ok (false, n)
load_async a buf len (p ∷ rest) n = do
  b ← clear_mem (n.async_sends p)
  r ← readmem a b buf len
  ok (
    true,
    log
        (record n {
          d_async_send = rest;
          map_async_send = insert p p n.map_async_send;
          async_sends = put_buffer n.async_sends p r.1;
        })
        (send_async p),
  )

-- net_AsyncSend
unfoldable pub net_async_send : Allocator → List ℕ → ℕ → Net → Outcome (Bool × Net)
unfolding load_async
net_async_send a buf len n = load_async a buf len n.d_async_send n

-- The Sendst that net_Send takes: a new one at the address `fresh`, or the first that is free,
-- cleared.
unfoldable pub take_net_send : Allocator → ℕ → List ℕ → Net → Outcome (ℕ × Net)
take_net_send a fresh [] n = do
  b ← new_empty a default_buffer_len
  ok (
    fresh,
    record n { map_send = insert fresh fresh n.map_send; sends = put_buffer n.sends fresh b },
  )
take_net_send a fresh (p ∷ rest) n = do
  b ← clear_mem (n.sends p)
  ok (
    p,
    record n { d_send = rest; map_send = insert p p n.map_send; sends = put_buffer n.sends p b },
  )

-- net_Send. uv_write goes through m_ptcpHandle.
unfoldable pub net_send : Allocator → Status → ℕ → List ℕ → ℕ → Net → Outcome (Bool × Net)
unfolding take_net_send
net_send a answer fresh buf len n = do
  t ← take_net_send a fresh n.d_send n
  r ← readmem a (t.1.sends t.0) buf len
  deref n.tcp_handle λ h. do
    n ←
        checked answer (write_to h t.0 (take (get_data_length r.1) (bytes_at (get_memory r.1))))
          (record (t.1) { sends = put_buffer t.1.sends t.0 r.1 })
    ok (true, n)

-- What async_cb does with the entry that it finds for its handle. The entry stays in the map, and
-- the AsyncSendst is not put back into the deque.
unfoldable pub relay : Allocator → Status → ℕ → Option ℕ → Net → Outcome Net
unfolding net_send
relay a answer fresh none n = ok n
relay a answer fresh (some p) n = do
  r ←
      net_send a answer fresh (bytes_at (get_memory (n.async_sends p)))
        (get_data_length (n.async_sends p)) n
  ok r.1

-- async_cb, which goes through the static m_pNetlibInst, whichever object the handle `h` is of: the
-- argument is the object that m_pNetlibInst points to, `none` for null.
unfoldable pub async_cb : Allocator → Status → ℕ → ℕ → Option Net → Outcome Net
unfolding relay
async_cb a answer fresh h instance_of =
    deref instance_of λ n. relay a answer fresh (find h n.map_async_send) n
