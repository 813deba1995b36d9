-- ===== src/Netlib/Connection.antt =====
-- The connection and the timers of util/netlib.h: what connects, closes and reads, the callbacks
-- of libuv but async_cb, and the two timers.
use libuvwrapper.Base.{
  ℕ, Bool, true, false, not, Option, none, some, List, [], ◌∷◌, ◌++◌, if◌then◌else◌, Outcome, ok,
  abort, ◌>>=◌, ◌>>◌, assert, deref,
}
use libuvwrapper.Base.Assoc.{find, erase}
use libuvwrapper.Requests.{Status, success, failure, is_success}
use libuvwrapper.Netlib.{
  Net, user_timer, tcp_timer, log, checked, connect_tcp, init_tcp, close_handle, start_reading,
  stop_reading, start_timer, stop_timer, tell_connect, tell_read, tell_timer,
}

-- A request that is not in the map is left alone.
unfoldable pub take_back : ℕ → Net → Net
take_back req n = elim (find req n.map_send) [
  | none ↦ n
  | some p ↦ record n { d_send = n.d_send ++ (p ∷ []); map_send = erase req n.map_send }
]

-- write_cb, which goes through the static m_pNetlibInst, whichever object the request is of: the
-- second argument is the object that m_pNetlibInst points to, `none` for null.
unfoldable pub net_write_cb : ℕ → Option Net → Outcome Net
unfolding take_back
net_write_cb req instance_of = deref instance_of λ n. ok (take_back req n)

-- net_SetIpAndPort: `parsed` is what uv_ip4_addr makes of the address, whose result is asserted.
unfoldable pub net_set_ip_and_port : Option ℕ → Net → Outcome Net
net_set_ip_and_port none n = abort
net_set_ip_and_port (some addr) n = ok (record n { adder = some addr })

-- netlibuv(phost, port), which makes the containers and sets the address only: of what the other
-- members hold, `memory` is what the static ones are.
unfoldable pub new_at : Option ℕ → Net → Outcome Net
unfolding net_set_ip_and_port
new_at parsed memory =
    net_set_ip_and_port parsed
      (record memory { d_send = []; map_send = []; d_async_send = []; map_async_send = [] })

-- net_SetReadCallBack, net_SetWriteCallBack and net_SetConnectCallBack
unfoldable pub net_set_read_callback : ℕ → Net → Net
net_set_read_callback f n = record n { read_callback = f }

unfoldable pub net_set_write_callback : ℕ → Net → Net
net_set_write_callback f n = record n { write_callback = f }

unfoldable pub net_set_connect_callback : ℕ → Net → Net
net_set_connect_callback f n = record n { connect_callback = f }

-- net_Connect
unfoldable pub net_connect : Status → Net → Outcome (Bool × Net)
net_connect answer n = do n ← checked answer (connect_tcp n.adder) n; ok (true, n)

-- The end of connect_cb, where the status is 0.
unfoldable pub net_connected : Status → Net → Outcome Net
net_connected reading n = deref n.tcp_handle λ h. do
  n ← checked reading (start_reading h) (record n { tcp_closed = false })
  ok (log n (tell_connect n.connect_callback success))

-- connect_cb: `handle` is `req->handle`; for a null one the user is told an error first.
unfoldable pub take_handle : Option ℕ → Net → Net
take_handle none n =
    log (record n { tcp_handle = none }) (tell_connect n.connect_callback (failure 1))
take_handle (some h) n = record n { tcp_handle = some h }

unfoldable pub net_connect_cb : Option ℕ → Status → Status → Net → Outcome Net
unfolding net_connected take_handle
net_connect_cb handle status reading n =
    if is_success status
    then net_connected reading (take_handle handle n)
    else ok (log (take_handle handle n) (tell_connect n.connect_callback status))

-- read_cb: `none` for a negative count.
unfoldable pub net_read_cb : Option (List ℕ) → Net → Outcome Net
net_read_cb none n =
    deref n.tcp_handle λ h. ok (log (log n (stop_reading h)) (tell_read n.read_callback none))
net_read_cb (some bytes) n = ok (log n (tell_read n.read_callback (some bytes)))

-- net_closeConnection
unfoldable pub net_close_connection : Net → Outcome (Bool × Net)
net_close_connection n = deref n.tcp_handle λ h. ok (true, log n (close_handle h))

-- net_reConnect. What uv_tcp_init returns is ignored.
unfoldable pub net_reconnect : Status → Net → Outcome (Bool × Net)
unfolding net_close_connection
net_reconnect answer n =
    if not n.tcp_closed
    then (do r ← net_close_connection n; ok (false, r.1))
    else ok (is_success answer, log (log n init_tcp) (connect_tcp n.adder))

-- close_cb: `closing` is whether uv_is_closing holds of m_ptcpHandle.
unfoldable pub net_close_cb : Bool → Net → Outcome Net
net_close_cb closing n = do assert closing; ok (record n { tcp_closed = true })

-- net_StartTimer and net_StartTcpTimer
unfoldable pub net_start_timer : Status → ℕ → ℕ → ℕ → Net → Outcome Net
net_start_timer answer time repeat callback n =
    checked answer (start_timer user_timer time repeat) (record n { timer_callback = callback })

unfoldable pub net_start_tcp_timer : Status → ℕ → ℕ → ℕ → Net → Outcome Net
net_start_tcp_timer answer time repeat callback n =
    checked answer (start_timer tcp_timer time repeat) (record n { tcp_timer_callback = callback })

-- net_stopTimer, net_stopTcpTimer and net_Stop
unfoldable pub net_stop_timer : Status → Net → Outcome Net
net_stop_timer answer n = checked answer (stop_timer user_timer) n

unfoldable pub net_stop_tcp_timer : Status → Net → Outcome Net
net_stop_tcp_timer answer n = checked answer (stop_timer tcp_timer) n

unfoldable pub net_stop : Status → Net → Outcome Net
unfolding net_stop_timer
net_stop answer n = net_stop_timer answer n

-- time_cb and tcptimer_cb
unfoldable pub time_cb : Net → Net
time_cb n = log n (tell_timer user_timer n.timer_callback)

unfoldable pub tcptimer_cb : Net → Net
tcptimer_cb n = log n (tell_timer tcp_timer n.tcp_timer_callback)
