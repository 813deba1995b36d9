-- ===== src/Loop/Delivery.antt =====
-- What libuv's callback of an async handle finds: the request that was sent with it, once.
use libuvwrapper.Base.{
  ℕ, ◌<◌, ◌≡◌, refl, sym, ◌⊎◌, inl, inr, ◌≢◌, Option, none, some, Bool-cases, ok, fault, count,
}
use libuvwrapper.Base.Assoc.{keys, find_absent}
use libuvwrapper.Loop.{
  EventType, loop_stop, tcp_connect, Async, Loop, Action, call, stop_loop, dispatch, action_of,
  run_callback, finish, give_back, unset_callback,
}
use libuvwrapper.Loop.Pool.{Sys, Armed}
use libuvwrapper.Loop.Callback.{finish_lem}
use libuvwrapper.Loop.Interleavings.{Reach, initial, IsInjective, handles, reachable-Inv}

module _ {Cb : Type 0} where
  -- The action that an object stands for: an order to stop, or its callback.
  abbrev pub Means : Async Cb → Action Cb → Type 0
  Means o a =
      ((o.event ≡ loop_stop) × (a ≡ stop_loop)) ⊎ ((cb : Cb) × (o.tcb ≡ some cb) × (a ≡ call cb))

  -- A request whose type is not E_LOOP_STOP.
  run_callback-Means :
      (o : Async Cb) (t : Option Cb)
      → (o.event ≡ loop_stop) ⊎ ((cb : Cb) × (t ≡ some cb))
      → o.event ≢ loop_stop
      → t ≡ o.tcb
      → (a : Action Cb) × (run_callback t ≡ ok a) × Means o a
  unfolding run_callback
  run_callback-Means o none (inl e) ne same = absurd (ne e)
  run_callback-Means o none (inr (cb, e)) ne same = cc
  run_callback-Means o (some cb) h ne same = (call cb, refl, inr (cb, sym same, refl))

  action_of-Means :
      (e : EventType) (o : Async Cb)
      → o.event ≡ e
      → Armed o
      → (a : Action Cb) × (action_of e o ≡ ok a) × Means o a
  unfolding action_of
  action_of-Means loop_stop o p r = (stop_loop, rw r.aimed, inl (p, refl))
  action_of-Means tcp_connect o p r = run_callback-Means o o.tcb r.loaded (λ q. cc) refl
  action_of-Means _ o p r = run_callback-Means o o.tcb r.loaded (λ q. cc) refl

  dispatch-Means :
      (l : Loop Cb) (h : ℕ)
      → Armed (l.asyncs h)
      → (a : Action Cb) × (dispatch l h ≡ ok a) × Means (l.asyncs h) a
  unfolding dispatch
  dispatch-Means l h r = action_of-Means (l.asyncs h).event (l.asyncs h) refl r

module _ {Cb : Type 0} (fresh : ℕ → ℕ) (junk : ℕ → Async Cb) {s : Sys Cb} where
  -- In every reachable state the callback of a signalled handle finds a callback to run, the one
  -- that was stored, or the order to stop, whatever the objects held at first: it does not call an
  -- empty function.
  pub callback_defined :
      IsInjective fresh
      → Reach (initial fresh junk) s
      → (h : ℕ) → 0 < count h s.loop.sent
      → (a : Action Cb) × (dispatch s.loop h ≡ ok a) × Means (s.loop.asyncs h) a
  callback_defined inj r h k =
      let v = reachable-Inv fresh junk inj r in dispatch-Means s.loop h (v.armed h k)

  -- In every reachable state the callback that is running can give its handle back: it does not read
  -- through an end iterator.
  pub handle_returns :
      IsInjective fresh
      → Reach (initial fresh junk) s
      → (h : ℕ) → 0 < count h s.current
      → (l : Loop Cb) × (finish s.loop h ≡ ok l)
  handle_returns inj r h k =
      let v = reachable-Inv fresh junk inj r in (_, finish_lem (handles fresh) s v h k)

module _ {Cb : Type 0} where
  -- A callback for a handle that is not in the map, which libuv does not make but the code
  -- provides for, reads through the end iterator.
  finish_unknown : (l : Loop Cb) (h : ℕ) → count h (keys l.map_async) ≡ 0 → finish l h ≡ fault
  unfolding finish give_back unset_callback
  finish_unknown l h e = elim (Bool-cases (l.asyncs h).ploop) [
    | inl aimed ↦ rw (aimed, find_absent h l.map_async e)
    | inr other ↦ rw other
  ]
