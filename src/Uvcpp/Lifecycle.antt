-- ===== src/Uvcpp/Lifecycle.antt =====
-- Connecting, losing and stopping a connection of uvcppclient/uvcpp.cpp.
use libuvwrapper.Base.{
  ℕ, ◌≡◌, refl, true, false, not, ◌&&◌, Option, none, some, List, [], ◌∷◌, ◌++◌, ==_refl,
  Bool-cases, inl, inr, if◌then◌else◌, ok, fault, ◌>>=◌,
}
use libuvwrapper.Memory.{Allocator}
use libuvwrapper.Uvcpp.{
  Client, new, connect, stop, post, wake_loop, insert_work, ready, UvCall, Socket, init_tcp,
  connect_tcp, stop_read, close_tcp, close_async, end_loop, wake,
}
use libuvwrapper.Uvcpp.Events.{
  async_init, async_deinit, inner_close, inner_stop, serve, on_work, on_connect, on_read, on_close,
}
use mathlib.Core.List.{append_assoc}

-- The calls that a new attempt makes.
abbrev pub attempt : Client → List UvCall
attempt c =
    if c.auto_reconnect && not c.ex_stop_loop then init_tcp ∷ connect_tcp c.addr ∷ [] else []

-- A connection that closed.
abbrev pub without_handle : Client → List UvCall → Client
without_handle c us = record c {
  tcp_handle = none;
  data_set = true;
  status_normal = false;
  calls = c.calls ++ us;
}

-- A read error on a connection whose handle knows its client closes it and, once it is closed, connects anew exactly if reconnecting is on and the loop was not stopped.
read_error_reconnects :
    (h : ℕ) (c : Client)
    → c.status_normal ≡ true
    → c.tcp_handle ≡ some h
    → c.data_set ≡ true
    → (on_read none c >>= on_close h) ≡ ok (without_handle c (stop_read ∷ close_tcp h ∷ attempt c))
unfolding on_read inner_close on_close connect
read_error_reconnects h c normal handle known =
    elim (Bool-cases (c.auto_reconnect && not c.ex_stop_loop)) [
      | inl again ↦ rw (normal, handle, known, ==_refl h, again) (simp append_assoc refl)
      | inr final ↦ rw (normal, handle, known, ==_refl h, final) (simp append_assoc refl)
    ]

-- A connection that fails is not tried again: its callback makes no call, and no close callback follows.
failed_connect_ends :
    (h : Option ℕ) (c : Client)
    → c.status_normal ≡ false
    → on_connect h true c ≡ ok (record c { tcp_handle = h })
unfolding on_connect inner_close
failed_connect_ends none c e = rw e refl
failed_connect_ends (some h) c e = rw e refl

-- After connecting a new client its first read callback goes through the `data` of its handle, which was
-- never set, if it comes with an error, the end or bytes; one that comes with no bytes changes nothing.
pub first_read_faults :
    (a : Allocator) (h x : ℕ) (xs : List ℕ)
    → ((on_connect (some h) false (async_init (connect (new a))) >>= on_read none) ≡ fault)
      × ((on_connect (some h) false (async_init (connect (new a))) >>= on_read (some (x ∷ xs)))
          ≡ fault)
      × ((on_connect (some h) false (async_init (connect (new a))) >>= on_read (some []))
          ≡ on_connect (some h) false (async_init (connect (new a))))
unfolding on_connect async_init connect new on_read
first_read_faults a h x xs = (refl, refl, refl)

-- Stopping a connected client without work items closes its connection and its async handle and ends
-- its loop; the close callback of the connection then connects anew exactly if reconnecting is on,
-- where _exStopLoop has the value that the constructor gives it, false.
pub stop_reconnects :
    (sock : Socket) (h : ℕ) (c : Client)
    → c.works ≡ []
    → c.async ≡ ready
    → c.status_normal ≡ true
    → c.tcp_handle ≡ some h
    → c.ex_stop_loop ≡ false
    → (stop c >>= on_work sock >>= on_close h)
      ≡ ok (
          without_handle c (
            wake
            ∷ close_tcp h
            ∷ close_async
            ∷ end_loop
            ∷ (if c.auto_reconnect then init_tcp ∷ connect_tcp c.addr ∷ [] else [])))
unfolding stop post wake_loop insert_work on_work serve inner_stop inner_close async_deinit on_close
    connect
stop_reconnects sock h c idle live normal handle running = elim (Bool-cases c.auto_reconnect) [
  | inl again ↦ rw (idle, live, normal, handle, running, ==_refl h, again) (simp append_assoc refl)
  | inr final ↦ rw (idle, live, normal, handle, running, ==_refl h, final) (simp append_assoc refl)
]
