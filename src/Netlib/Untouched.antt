-- ===== src/Netlib/Untouched.antt =====
-- The operations and callbacks of util/netlib.h that leave the deque of free AsyncSendst alone.
use libuvwrapper.Base.{
  ℕ, ◌≡◌, refl, ◌∙◌, Bool, true, false, Option, none, some, List, [], ◌∷◌, ok, Yields, Yields-any,
  Yields-if, Yields-bind, Yields-deref, Yields-value, Yields-weaken, not, assert,
}
use libuvwrapper.Base.Assoc.{find}
use libuvwrapper.Memory.{Allocator, bytes_at}
use libuvwrapper.SafeBuffer.{
  new_empty, clear_mem, readmem, default_buffer_len, get_memory, get_data_length,
}
use libuvwrapper.Requests.{Status, is_success}
use libuvwrapper.Netlib.{
  Net, NetCall, net_send, take_net_send, async_cb, relay, checked, log, run_loop, connect_tcp,
}
use libuvwrapper.Netlib.Connection.{
  net_write_cb, net_connect_cb, net_connected, take_handle, net_read_cb, net_close_connection,
  net_reconnect, net_close_cb, take_back, net_connect, net_set_ip_and_port, net_set_read_callback,
  net_set_write_callback, net_set_connect_callback, net_start_timer, net_start_tcp_timer,
  net_stop_timer, net_stop_tcp_timer, net_stop, time_cb, tcptimer_cb,
}

-- The deque of free AsyncSendst objects is as it was.
abbrev pub Untouched : Net → Net → Type 0
Untouched n m = m.d_async_send ≡ n.d_async_send

checked-Untouched :
    (answer : Status) (u : NetCall) (n : Net) → Yields (Untouched n) (checked answer u n)
checked-Untouched answer u n =
    Yields-bind (λ x. Unit) (Untouched n) (assert (is_success answer)) _ (Yields-any _)
      (λ x h. refl)

take_net_send-Untouched :
    (a : Allocator) (fresh : ℕ) (free : List ℕ) (n : Net)
    → Yields (λ t. Untouched n t.1) (take_net_send a fresh free n)
unfolding take_net_send
take_net_send-Untouched a fresh [] n =
    Yields-bind (λ x. Unit) (λ t. Untouched n t.1) (new_empty a default_buffer_len) _ (Yields-any _)
      (λ x h. refl)
take_net_send-Untouched a fresh (p ∷ rest) n =
    Yields-bind (λ x. Unit) (λ t. Untouched n t.1) (clear_mem (n.sends p)) _ (Yields-any _)
      (λ x h. refl)

net_send-Untouched :
    (a : Allocator) (answer : Status) (fresh : ℕ) (buf : List ℕ) (len : ℕ) (n : Net)
    → Yields (λ r. Untouched n r.1) (net_send a answer fresh buf len n)
unfolding net_send
net_send-Untouched a answer fresh buf len n =
    Yields-bind (λ t. Untouched n t.1) (λ r. Untouched n r.1) (take_net_send a fresh n.d_send n) _
      (take_net_send-Untouched a fresh n.d_send n)
      λ t same.
        Yields-bind (λ x. Unit) (λ r. Untouched n r.1) (readmem a (t.1.sends t.0) buf len) _
          (Yields-any _)
          λ r h.
            Yields-deref (λ r. Untouched n r.1) n.tcp_handle _
              λ s.
                Yields-bind _ (λ r. Untouched n r.1) (checked answer _ _) _
                  (checked-Untouched answer _ _) (λ m k. k ∙ same)

relay-Untouched :
    (a : Allocator) (answer : Status) (fresh : ℕ) (found : Option ℕ) (n : Net)
    → Yields (Untouched n) (relay a answer fresh found n)
unfolding relay
relay-Untouched a answer fresh none n = refl
relay-Untouched a answer fresh (some p) n =
    Yields-bind (λ r. Untouched n r.1) (Untouched n)
      (net_send a answer fresh (bytes_at (get_memory (n.async_sends p)))
        (get_data_length (n.async_sends p)) n)
      _ (net_send-Untouched a answer fresh _ _ n) (λ r h. h)

take_back-Untouched : (req : ℕ) (n : Net) → Untouched n (take_back req n)
unfolding take_back
take_back-Untouched req n = go (find req n.map_send) refl
  where
    go : (o : Option ℕ) → find req n.map_send ≡ o → Untouched n (take_back req n)
    go none e = rw (e, take_back) refl
    go (some p) e = rw (e, take_back) refl

connected-Untouched : (reading : Status) (n : Net) → Yields (Untouched n) (net_connected reading n)
unfolding net_connected
connected-Untouched reading n = Yields-deref (Untouched n) n.tcp_handle _ λ h.
    Yields-bind (Untouched n) (Untouched n) (checked reading _ _) _ (checked-Untouched reading _ _)
      (λ m k. k)

take_handle-Untouched : (handle : Option ℕ) (n : Net) → Untouched n (take_handle handle n)
unfolding take_handle
take_handle-Untouched none n = refl
take_handle-Untouched (some h) n = refl

connect_cb-Untouched :
    (handle : Option ℕ) (status reading : Status) (n : Net)
    → Yields (Untouched n) (net_connect_cb handle status reading n)
unfolding net_connect_cb
connect_cb-Untouched handle status reading n =
    Yields-if (Untouched n) (is_success status) _ _
      (Yields-weaken (Untouched (take_handle handle n)) (Untouched n)
        (net_connected reading (take_handle handle n))
        (connected-Untouched reading (take_handle handle n))
        (λ m k. k ∙ take_handle-Untouched handle n))
      (take_handle-Untouched handle n)

read_cb-Untouched : (bytes : Option (List ℕ)) (n : Net) → Yields (Untouched n) (net_read_cb bytes n)
unfolding net_read_cb
read_cb-Untouched none n = Yields-deref (Untouched n) n.tcp_handle _ (λ h. refl)
read_cb-Untouched (some bytes) n = refl

close-Untouched : (n : Net) → Yields (λ r. Untouched n r.1) (net_close_connection n)
unfolding net_close_connection
close-Untouched n = Yields-deref (λ r. Untouched n r.1) n.tcp_handle _ (λ h. refl)

reconnect-Untouched :
    (answer : Status) (n : Net) → Yields (λ r. Untouched n r.1) (net_reconnect answer n)
unfolding net_reconnect
reconnect-Untouched answer n =
    Yields-if (λ r. Untouched n r.1) (not n.tcp_closed) _ _
      (Yields-bind (λ r. Untouched n r.1) (λ r. Untouched n r.1) (net_close_connection n) _
        (close-Untouched n) (λ r h. h))
      refl

close_cb-Untouched : (closing : Bool) (n : Net) → Yields (Untouched n) (net_close_cb closing n)
unfolding net_close_cb
close_cb-Untouched true n = refl
close_cb-Untouched false n = tt

address-Untouched :
    (parsed : Option ℕ) (n : Net) → Yields (Untouched n) (net_set_ip_and_port parsed n)
unfolding net_set_ip_and_port
address-Untouched none n = tt
address-Untouched (some addr) n = refl

-- One operation or callback that is not net_AsyncSend, or what the other objects do.
pub data Other (a : Allocator) (n : Net) : Net → Type 0 where
  send :
      (m : Net) (answer : Status) (fresh len : ℕ) (buf : List ℕ) (r : Bool)
      → net_send a answer fresh buf len n ≡ ok (r, m)
      → Other a n m
  async :
      (m : Net) (answer : Status) (fresh h : ℕ)
      → async_cb a answer fresh h (some n) ≡ ok m
      → Other a n m
  wrote : (m : Net) (req : ℕ) → net_write_cb req (some n) ≡ ok m → Other a n m
  connected :
      (m : Net) (handle : Option ℕ) (status reading : Status)
      → net_connect_cb handle status reading n ≡ ok m
      → Other a n m
  read : (m : Net) (bytes : Option (List ℕ)) → net_read_cb bytes n ≡ ok m → Other a n m
  close : (m : Net) (r : Bool) → net_close_connection n ≡ ok (r, m) → Other a n m
  reconnect :
      (m : Net) (answer : Status) (r : Bool) → net_reconnect answer n ≡ ok (r, m) → Other a n m
  closed : (m : Net) (closing : Bool) → net_close_cb closing n ≡ ok m → Other a n m
  connect : (m : Net) (answer : Status) (r : Bool) → net_connect answer n ≡ ok (r, m) → Other a n m
  address : (m : Net) (parsed : Option ℕ) → net_set_ip_and_port parsed n ≡ ok m → Other a n m
  set_read : (f : ℕ) → Other a n (net_set_read_callback f n)
  set_write : (f : ℕ) → Other a n (net_set_write_callback f n)
  set_connect : (f : ℕ) → Other a n (net_set_connect_callback f n)
  start_user :
      (m : Net) (answer : Status) (time repeat f : ℕ)
      → net_start_timer answer time repeat f n ≡ ok m
      → Other a n m
  start_tcp :
      (m : Net) (answer : Status) (time repeat f : ℕ)
      → net_start_tcp_timer answer time repeat f n ≡ ok m
      → Other a n m
  stop_user : (m : Net) (answer : Status) → net_stop_timer answer n ≡ ok m → Other a n m
  stop_tcp : (m : Net) (answer : Status) → net_stop_tcp_timer answer n ≡ ok m → Other a n m
  stop : (m : Net) (answer : Status) → net_stop answer n ≡ ok m → Other a n m
  user_fired : Other a n (time_cb n)
  tcp_fired : Other a n (tcptimer_cb n)
  -- net_Run, where this object is the instance.
  ran : Other a n (log n run_loop)
  -- What another object of the link type does to the static members.
  elsewhere :
      (handle : Option ℕ) (gone : Bool) (r w c t u : ℕ) (more : List NetCall)
      → Other a n (record n {
        tcp_handle = handle;
        tcp_closed = gone;
        read_callback = r;
        write_callback = w;
        connect_callback = c;
        timer_callback = t;
        tcp_timer_callback = u;
        calls = more;
      })

pub other-Untouched : (a : Allocator) {n m : Net} → Other a n m → Untouched n m
unfolding async_cb net_write_cb net_connect net_set_ip_and_port net_set_read_callback
    net_set_write_callback net_set_connect_callback net_start_timer net_start_tcp_timer
    net_stop_timer net_stop_tcp_timer net_stop time_cb tcptimer_cb
other-Untouched a {n} (send m answer fresh len buf r e) =
    Yields-value (λ r. Untouched n r.1) _ (net_send-Untouched a answer fresh buf len n) e
other-Untouched a {n} (async m answer fresh h e) =
    Yields-value (Untouched n) _ (relay-Untouched a answer fresh (find h n.map_async_send) n) e
other-Untouched a {n} (wrote m req e) =
    Yields-value (Untouched n) (net_write_cb req (some n)) (take_back-Untouched req n) e
other-Untouched a {n} (connected m handle status reading e) =
    Yields-value (Untouched n) _ (connect_cb-Untouched handle status reading n) e
other-Untouched a {n} (read m bytes e) = Yields-value (Untouched n) _ (read_cb-Untouched bytes n) e
other-Untouched a {n} (close m r e) = Yields-value (λ r. Untouched n r.1) _ (close-Untouched n) e
other-Untouched a {n} (reconnect m answer r e) =
    Yields-value (λ r. Untouched n r.1) _ (reconnect-Untouched answer n) e
other-Untouched a {n} (closed m closing e) =
    Yields-value (Untouched n) _ (close_cb-Untouched closing n) e
other-Untouched a {n} (connect m answer r e) =
    Yields-value (λ r. Untouched n r.1) (net_connect answer n)
      (Yields-bind (Untouched n) (λ r. Untouched n r.1) (checked answer (connect_tcp n.adder) n) _
        (checked-Untouched answer _ n) (λ m h. h))
      e
other-Untouched a {n} (address m parsed e) =
    Yields-value (Untouched n) _ (address-Untouched parsed n) e
other-Untouched a (set_read f) = refl
other-Untouched a (set_write f) = refl
other-Untouched a (set_connect f) = refl
other-Untouched a {n} (start_user m answer time repeat f e) =
    Yields-value (Untouched n) _ (checked-Untouched answer _ (record n { timer_callback = f })) e
other-Untouched a {n} (start_tcp m answer time repeat f e) =
    Yields-value (Untouched n) _ (checked-Untouched answer _ (record n { tcp_timer_callback = f }))
      e
other-Untouched a {n} (stop_user m answer e) =
    Yields-value (Untouched n) _ (checked-Untouched answer _ n) e
other-Untouched a {n} (stop_tcp m answer e) =
    Yields-value (Untouched n) _ (checked-Untouched answer _ n) e
other-Untouched a {n} (stop m answer e) =
    Yields-value (Untouched n) _ (checked-Untouched answer _ n) e
other-Untouched a user_fired = refl
other-Untouched a tcp_fired = refl
other-Untouched a ran = refl
other-Untouched a (elsewhere handle gone r w c t u more) = refl
