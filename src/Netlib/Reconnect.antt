-- ===== src/Netlib/Reconnect.antt =====
-- net_reConnect of util/netlib.h.
use libuvwrapper.Base.{ℕ, ◌≡◌, refl, true, false, some, [], ◌∷◌, ◌++◌, ok, ◌>>=◌}
use libuvwrapper.Requests.{Status, success}
use libuvwrapper.Netlib.{Net, close_handle, init_tcp, connect_tcp, start_reading, tell_connect}
use libuvwrapper.Netlib.Connection.{
  net_reconnect, net_close_connection, net_close_cb, net_connect_cb, net_connected, take_handle,
}
use mathlib.Core.List.{append_assoc}

-- From an open connection: net_reConnect, the close callback, net_reConnect again and the callback of
-- a connection that succeeds close the old handle once, make one connection, start to read on the new
-- handle, tell the user once, and leave the object open.
pub reconnect_cycle :
    (first : Status) (old next : ℕ) (n : Net)
    → n.tcp_closed ≡ false
    → n.tcp_handle ≡ some old
    → (net_reconnect first n >>= λ r. net_close_cb true r.1 >>= λ m.
        net_reconnect success m >>= λ s. net_connect_cb (some next) success success s.1)
      ≡ ok (record n {
        tcp_handle = some next;
        tcp_closed = false;
        calls =
            n.calls
            ++ (close_handle old
                ∷ init_tcp
                ∷ connect_tcp n.adder
                ∷ start_reading next
                ∷ tell_connect n.connect_callback success
                ∷ []);
      })
unfolding net_reconnect net_close_connection net_close_cb net_connect_cb net_connected take_handle
reconnect_cycle first old next n opened handle = rw (opened, handle) (simp append_assoc refl)

-- From an open connection, two calls of net_reConnect with no close callback between them close the
-- same handle twice.
reconnect_closes_twice :
    (first second : Status) (h : ℕ) (n : Net)
    → n.tcp_closed ≡ false
    → n.tcp_handle ≡ some h
    → (net_reconnect first n >>= λ r. net_reconnect second r.1)
      ≡ ok (false, record n { calls = n.calls ++ (close_handle h ∷ close_handle h ∷ []) })
unfolding net_reconnect net_close_connection
reconnect_closes_twice first second h n opened handle = rw (opened, handle) (simp append_assoc refl)
