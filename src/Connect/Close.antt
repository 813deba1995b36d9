-- ===== src/Connect/Close.antt =====
-- Connecting, losing the connection, closing and reconnecting.
use libuvwrapper.Base.{
  ℕ, ◌≡◌, refl, inl, inr, Bool, ◌||◌, true, false, none, some, List, [], ◌∷◌, ◌++◌, arith,
  Bool-cases, ==_refl, ◌⊎◌, ◌>>=◌, Yields, Yields-bind, Yields-value, if◌then◌else◌, ok, fault,
}
use libuvwrapper.Memory.{Allocator}
use libuvwrapper.Loop.{busy, EventType, is_ok, add_req}
use libuvwrapper.Requests.{Request, UvCall, Status}
use libuvwrapper.Connect.{
  Connect, World, Event, ev_close, request, wirte_data, start_read_data, reconnnect, run_connect,
  connect_cb, run_close_connect, close_cb, run_read_start, run_read_stop, run_tcp_write, read_cb,
  emit, call, destroy, drop_tcp, drop_stream, same_handle,
}

-- After a read error the connection has stopped reading and counts as lost; the handler, if one
-- is set, is told EV_CLOSE; and then neither `wirteData` nor `StartReadData` does anything but
-- return `false`.
lost_connection :
    (s : ℕ) (w : World) (a : Allocator) (me fresh : ℕ) (pbuf : List ℕ) (len : ℕ)
    → w.conn.stream ≡ some s
    → (w' : World) × (read_cb none w ≡ ok w')
      × (w'.conn ≡ record (w.conn) { connected = false })
      × (w'.calls ≡ w.calls ++ (UvCall.stop_reading s ∷ []))
      × (w'.events ≡ (if w.conn.handler then w.events ++ (ev_close ∷ []) else w.events))
      × (wirte_data a me fresh pbuf len w' ≡ ok (false, w'))
      × (start_read_data me w' ≡ ok (false, w'))
unfolding read_cb wirte_data start_read_data call emit
lost_connection s w a me fresh pbuf len open_stream = elim (Bool-cases w.conn.handler) [
  | inl told ↦ (
    record w { conn = lost; calls = stopped_calls; events = w.events ++ (ev_close ∷ []) },
    simp (open_stream, told),
    refl,
    refl,
    simp told,
    refl,
    refl,
  )
  | inr untold ↦ (
    record w { conn = lost; calls = stopped_calls },
    simp (open_stream, untold),
    refl,
    refl,
    simp untold,
    refl,
    refl,
  )
]
  where
    lost : Connect
    lost = record (w.conn) { connected = false }

    stopped_calls : List UvCall
    stopped_calls = w.calls ++ (UvCall.stop_reading s ∷ [])

-- `Reconnnect` and what follows from it in the loop's thread, whatever happens to the loop, the
-- calls and the events between: the request to close is handed to AddReq; CloseConnect closes the
-- stream and marks the connection as lost; and when it is closed, the flag is taken back and the
-- request to connect is handed to AddReq, once, whatever AddReq says to it.
reconnnect_sequence :
    (me s : ℕ) (w closing closed : World)
    → w.conn.has_loop ≡ true
    → w.conn.stream ≡ some s
    → closing.conn ≡ record (w.conn) { reconnect = true }
    → closed.conn ≡ record (w.conn) { reconnect = true; connected = false }
    → (reconnnect me w
        ≡ ok (
          is_ok (add_req w.loop EventType.tcp_close (Request.close_connect me)).0,
          record w {
            conn = record (w.conn) { reconnect = true };
            loop = (add_req w.loop EventType.tcp_close (Request.close_connect me)).1;
          },
        ))
      × (run_close_connect closing
          ≡ ok (record closing {
            conn = record (w.conn) { reconnect = true; connected = false };
            calls = closing.calls ++ (UvCall.close s ∷ []);
          }))
      × (close_cb me closed
          ≡ ok (record closed {
            conn = record (w.conn) { reconnect = false; connected = false };
            loop = (add_req closed.loop EventType.tcp_connect (Request.connect me)).1;
          }))
unfolding reconnnect request run_close_connect close_cb call
reconnnect_sequence me s w closing closed has open_stream e f =
    (simp has, simp (e, open_stream), simp (f, has))

-- A loop that is busy when the old connection is closed makes the reconnection come to nothing:
-- the flag is gone and no request is on its way.
reconnect_lost :
    (me : ℕ) (w : World)
    → w.conn.has_loop ≡ true
    → w.conn.reconnect ≡ true
    → add_req w.loop EventType.tcp_connect (Request.connect me) ≡ (busy, w.loop)
    → close_cb me w ≡ ok (record w { conn = record (w.conn) { reconnect = false } })
unfolding close_cb request
reconnect_lost me w has flag refused = simp (flag, has, refused)

pub emit-conn : (w : World) (e : Event) → (emit w e).conn ≡ w.conn
unfolding emit
emit-conn w e = ground arith

pub or_true : (b : Bool) → (b || true) ≡ true
or_true true = refl
or_true false = refl

-- One handle in both: the destructor deletes it twice.
shared-destroy :
    (handle : ℕ) (c : Connect)
    → c.stream ≡ some handle
    → (c.tcp_dead ≡ true) ⊎ (c.tcp ≡ some handle)
    → destroy c ≡ fault
unfolding destroy drop_tcp drop_stream
shared-destroy handle c open_stream shared = elim (Bool-cases c.stream_dead) [
  | inl gone ↦ simp gone
  | inr held ↦ elim shared [
    | inl dead ↦ simp (held, open_stream, dead)
    | inr open_tcp ↦ simp (held, open_stream, open_tcp, ==_refl handle, or_true)
  ]
]

run_connect-tcp :
    (handle : ℕ) (w : World) → Yields (λ v. v.conn.tcp ≡ some handle) (run_connect handle w)
unfolding run_connect drop_tcp call
run_connect-tcp handle w = ground arith

connect_cb-destroy :
    (handle : ℕ) (s : Status) (v : World)
    → v.conn.tcp ≡ some handle
    → Yields (λ u. destroy u.conn ≡ fault) (connect_cb handle s v)
unfolding connect_cb drop_stream
connect_cb-destroy handle s v open_tcp = elim (Bool-cases v.conn.stream_dead) [
  | inl dead ↦ rw dead tt
  | inr alive ↦
      rw (alive, emit-conn)
        (shared-destroy handle _ refl (elim (Bool-cases (same_handle v.conn.tcp v.conn.stream)) [
          | inl same ↦ inl (ground arith)
          | inr apart ↦ inr (rw apart open_tcp)
        ]))
]

-- A connection that was made once, whatever libuv says of it and whatever it deleted before, cannot be
-- destroyed: wherever `Connect` and its callback have run with one handle, m_ptcp and m_pStream both
-- own it, the destructor deletes it through m_pStream, and then again through m_ptcp, which is
-- undefined behaviour.
pub destroy_frees_twice :
    (handle : ℕ) (s : Status) (w u : World)
    → (run_connect handle w >>= connect_cb handle s) ≡ ok u
    → destroy u.conn ≡ fault
destroy_frees_twice handle s w u e =
    Yields-value (λ v. destroy v.conn ≡ fault) _
      (Yields-bind (λ v. v.conn.tcp ≡ some handle) (λ v. destroy v.conn ≡ fault)
        (run_connect handle w) (connect_cb handle s) (run_connect-tcp handle w)
        (connect_cb-destroy handle s))
      e

-- A connection that was never made has no stream. To start reading or to write is harmless;
-- to close it or to stop reading goes through a null pointer.
never_connected :
    (p : ℕ) (result : Status) (w : World)
    → w.conn.connected ≡ false
    → w.conn.stream ≡ none
    → (run_read_start w ≡ ok w)
      × (run_tcp_write p result w ≡ ok w)
      × (run_close_connect w ≡ fault)
      × (run_read_stop result w ≡ fault)
unfolding run_read_start run_tcp_write run_close_connect run_read_stop
never_connected p result w off no_stream = (simp off, simp off, simp no_stream, simp no_stream)
