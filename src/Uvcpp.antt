-- ===== src/Uvcpp.antt =====
-- uvcppclient/uvcpp.h and uvcppclient/uvcpp.cpp: the class `uv::uvcpp`, a TCP client with one send
-- buffer and a map of work items for the loop's thread. `unsigned int` has 32 bits.
pub mod SendBuffer
pub mod Stream
pub mod Growth
pub mod Works
pub mod Lifecycle
pub mod Events
pub mod NetTest
mod Tests
use libuvwrapper.Base.{
  ℕ, zero, suc, ◌+◌, ◌-◌, ◌*◌, ◌%◌, ◌^◌, ◌≡◌, Bool, true, false, not, ◌&&◌, Option, none, some,
  List, [], ◌∷◌, ◌++◌, length, take, drop, ltb, leb, if◌then◌else◌, ◌==◌, Outcome, ok, fault, abort,
  ◌>>=◌, ◌>>◌, deref, require,
}
use libuvwrapper.Memory.{Pointer, Block, bytes_at, is_null, same_pointer, copy_range, Allocator}

abbrev pub uint_mod : ℕ
uint_mod = 2 ^ 32

abbrev pub add32 : ℕ → ℕ → ℕ
add32 a b = (a + b) % uint_mod

abbrev pub sub32 : ℕ → ℕ → ℕ
sub32 a b = (a + uint_mod - b) % uint_mod

-- DEFAULT_BUFFER_LEN and BUFFER_INCREASE_FACTOR
abbrev pub default_buffer_len : ℕ
default_buffer_len = 1024

abbrev pub buffer_increase_factor : ℕ
buffer_increase_factor = 2

-- event_type, the values that a work item can have.
pub data WorkEvent : Type 0 where
  send_data close_conn stop_loop : WorkEvent

-- priority_key
abbrev pub high : ℕ
high = 0

abbrev pub medium : ℕ
medium = 1

-- _sendBuf: a pointer that may be used, or one to a block that realloc has moved away.
pub data SendBuf : Type 0 where
  holds : Pointer → SendBuf
  dangling : SendBuf

-- The calls of libuv and of the read callback, in order.
pub data UvCall : Type 0 where
  init_tcp start_read stop_read start_thread : UvCall
  connect_tcp : Option ℕ → UvCall
  close_tcp : ℕ → UvCall
  init_async close_async end_loop wake : UvCall
  try_write : List ℕ → UvCall
  deliver : List ℕ → UvCall

-- `_async`: null, memory that uv_async_init has not seen, or a handle of the loop.
pub data AsyncHandle : Type 0 where
  unset raw ready : AsyncHandle

abbrev pub is_ready : AsyncHandle → Bool
is_ready unset = false
is_ready raw = false
is_ready ready = true

-- uvcpp. `_works` is ordered by its keys. `addr` stands for the bytes of `_addr`, `none` before
-- they are set. `data_set` is whether the member `data` of the TCP
-- handle points to the client.
pub record Client : Type 0 where
  pub works : List (ℕ × WorkEvent)
  pub async : AsyncHandle
  pub tcp_handle : Option ℕ
  pub data_set : Bool
  pub ex_stop_loop : Bool
  pub status_normal : Bool
  pub auto_reconnect : Bool
  pub addr : Option ℕ
  pub send_buf : SendBuf
  pub send_len : ℕ
  pub send_offset : ℕ
  pub calls : List UvCall

-- uvcpp(). What malloc returns is not tested.
unfoldable pub new : Allocator → Client
new a = record {
  works = [];
  async = raw;
  tcp_handle = none;
  data_set = false;
  ex_stop_loop = false;
  status_normal = false;
  auto_reconnect = true;
  addr = none;
  send_buf = holds (a.malloc default_buffer_len);
  send_len = default_buffer_len;
  send_offset = 0;
  calls = [];
}

abbrev pub log : Client → UvCall → Client
log c u = record c { calls = c.calls ++ (u ∷ []) }

-- connect()
unfoldable pub connect : Client → Client
connect c = log (log c init_tcp) (connect_tcp c.addr)

-- connect(host, port): `a` is what uv_ip4_addr writes. What it returns is ignored.
unfoldable pub connect_host : ℕ → Client → Client
unfolding connect
connect_host a c = connect (record c { addr = some a })

-- setAutoReconnect
unfoldable pub set_auto_reconnect : Bool → Client → Client
set_auto_reconnect b c = record c { auto_reconnect = b }

-- isAutoReconnect, isLoopStop, isStatusNormal, setStatusNormal and setStatusNonNormal
abbrev pub is_auto_reconnect : Client → Bool
is_auto_reconnect c = c.auto_reconnect

abbrev pub is_loop_stop : Client → Bool
is_loop_stop c = c.ex_stop_loop

abbrev pub is_status_normal : Client → Bool
is_status_normal c = c.status_normal

abbrev pub set_status_normal : Client → Client
set_status_normal c = record c { status_normal = true }

abbrev pub set_status_non_normal : Client → Client
set_status_non_normal c = record c { status_normal = false }

-- std::map::insert leaves an entry that is there.
unfoldable pub insert_work : ℕ → WorkEvent → List (ℕ × WorkEvent) → List (ℕ × WorkEvent)
insert_work k e [] = (k, e) ∷ []
insert_work k e ((j, f) ∷ m) =
    if ltb k j
    then (k, e) ∷ (j, f) ∷ m
    else if k == j
    then (j, f) ∷ m
    else (j, f) ∷ insert_work k e m

-- uv_async_send(_async.get())
unfoldable pub wake_loop : Client → Outcome Client
wake_loop c = do require (is_ready c.async); ok (log c wake)

-- A work item and the call that wakes the loop.
unfoldable pub post : ℕ → WorkEvent → Client → Outcome Client
unfolding wake_loop insert_work
post k e c = wake_loop (record c { works = insert_work k e c.works })

unfoldable pub stop : Client → Outcome Client
unfolding post
stop c = post high stop_loop c

unfoldable pub close : Client → Outcome Client
unfolding post
close c = post medium close_conn c

-- What becomes of `_sendBuf` when realloc succeeds and its result is thrown away: a block that
-- grew in place is still there.
unfoldable pub after_realloc : Pointer → Block → SendBuf
after_realloc p b =
    if same_pointer p (some b) then holds (some b) else if is_null p then holds none else dangling

-- The branch of allocSendBuf for a realloc that fails: malloc, memcpy, free.
unfoldable pub fresh_copy : Allocator → ℕ → ℕ → Pointer → Outcome SendBuf
fresh_copy a size offset p = do q ← copy_range (a.malloc size) 0 (bytes_at p) offset; ok (holds q)

unfoldable pub new_size : Client → ℕ → ℕ
new_size c need = add32 c.send_offset need * buffer_increase_factor % uint_mod

unfoldable pub reallocated : Allocator → ℕ → ℕ → SendBuf → Outcome SendBuf
unfolding after_realloc fresh_copy
reallocated a size offset dangling = fault
reallocated a size offset (holds p) = elim (a.realloc p size) [
  | none ↦ fresh_copy a size offset p
  | some b ↦ ok (after_realloc p b)
]

-- allocSendBuf
unfoldable pub alloc_send_buf : Allocator → ℕ → Client → Outcome Client
unfolding reallocated new_size
alloc_send_buf a need c = do
  b ← reallocated a (new_size c need) c.send_offset c.send_buf
  ok (record c { send_buf = b; send_len = new_size c need })

-- The growth at the head of `send`.
unfoldable pub grow : Allocator → ℕ → Client → Outcome Client
unfolding alloc_send_buf
grow a len c =
    if ltb c.send_len (add32 len c.send_offset)
    then alloc_send_buf a (sub32 (sub32 c.send_len len) c.send_offset) c
    else ok c

-- memcpy(_sendBuf + _sendOffset, buf, len)
unfoldable pub copy_in : SendBuf → ℕ → List ℕ → ℕ → Outcome SendBuf
copy_in dangling offset buf len = fault
copy_in (holds p) offset buf len = do q ← copy_range p offset buf len; ok (holds q)

unfoldable pub send : Allocator → List ℕ → ℕ → Client → Outcome (ℕ × Client)
unfolding grow copy_in post
send a buf len c = do
  c ← grow a len c
  b ← copy_in c.send_buf c.send_offset buf len
  c ←
      post (length c.works) send_data
        (record c { send_buf = b; send_offset = add32 c.send_offset len })
  ok (len, c)

-- memmove(_sendBuf, _sendBuf + n, _sendOffset - n) and `_sendOffset -= n`.
unfoldable pub shift : ℕ → Client → SendBuf → Outcome Client
shift n c dangling = fault
shift n c (holds p) = do
  q ← copy_range p 0 (drop n (bytes_at p)) (sub32 c.send_offset n)
  ok (record c { send_buf = holds q; send_offset = sub32 c.send_offset n })

-- The bytes that wait in the buffer, which uv_try_write is given.
abbrev pub pending_in : SendBuf → ℕ → List ℕ
pending_in (holds p) n = take n (bytes_at p)
pending_in dangling n = []

abbrev pub pending : Client → List ℕ
pending c = pending_in c.send_buf c.send_offset

-- What uv_try_write returns after the calls that were made, itself the last one: a number of
-- bytes, or `none` for an error.
abbrev pub Socket : Type 0
Socket = List UvCall → Option ℕ

-- The end of `write`: an error is ignored.
unfoldable pub written : Option ℕ → Client → Outcome Client
unfolding shift
written none c = ok c
written (some n) c = if n == 0 then ok c else shift n c c.send_buf

unfoldable pub write : Socket → Client → Outcome Client
unfolding written
write sock c =
    if c.send_offset == 0
    then ok c
    else deref c.tcp_handle
        λ h. let tried = log c (try_write (pending c)) in written (sock tried.calls) tried
