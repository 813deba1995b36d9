-- ===== src/Requests.antt =====
-- What the components of libuvcpp hand to the loop and to libuv.
use libuvwrapper.Base.{ℕ, Bool, true, false, Option, List}

-- The callbacks that connect.cpp, timer.cpp and accept.cpp bind for AddReq: the method, the
-- address of its object, and for tcpWrite the stSend.
pub data Request : Type 0 where
  connect close_connect read_start read_stop : ℕ → Request
  tcp_write : ℕ → ℕ → Request
  timer_start timer_stop : ℕ → Request
  server_listen_start : ℕ → Request

-- The calls of libuv, in order. Handles are addresses. The last argument of connecting and binding
-- stands for the bytes of the sockaddr, `none` for one that was never set.
pub data UvCall : Type 0 where
  tcp_init : ℕ → UvCall
  tcp_connect : ℕ → Option ℕ → UvCall
  tcp_bind : ℕ → Option ℕ → UvCall
  listen : ℕ → ℕ → UvCall
  accept : ℕ → ℕ → UvCall
  close : ℕ → UvCall
  start_reading stop_reading : ℕ → UvCall
  write : ℕ → ℕ → List ℕ → UvCall
  init_timer : ℕ → UvCall
  start_timer : ℕ → ℕ → ℕ → UvCall
  stop_timer : ℕ → UvCall

-- A status or return code of libuv: zero or an error.
pub data Status : Type 0 where
  success : Status
  failure : ℕ → Status

abbrev pub is_success : Status → Bool
is_success success = true
is_success (failure _) = false
