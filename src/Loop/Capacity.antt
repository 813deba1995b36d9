-- ===== src/Loop/Capacity.antt =====
-- When AddReq refuses, and when `stop` is lost.
use libuvwrapper.Base.{
  ◌==◌, false, ℕ, ◌+◌, ◌<◌, ◌≡◌, refl, sym, ap, subst, ◌∙◌, ◌⊎◌, inl, inr, true, false, some, List,
  [], ◌∷◌, ◌++◌, arith, length, Bool-cases, ==_refl, one_if, count,
}
use libuvwrapper.Base.Assoc.{keys, insert_absent}
use libuvwrapper.Loop.{
  EventType, loop_stop, LoopError, no_err, busy, stopped, Async, Loop, add_req, enqueue, stop,
  enqueue_stop, send_async, uv_async_hande,
}
use libuvwrapper.Loop.Pool.{update_other, Sys, Inv}
use libuvwrapper.Loop.Send.{add_req_on, add_req_off, stop_on, stop_off}
use libuvwrapper.Loop.Interleavings.{
  Reach, initial, IsInjective, handles, reachable-Inv, length-new_asyncs,
}

-- The requests on their way: signalled, or with their callback running.
abbrev pub in_flight : {Cb : Type 0} → Loop Cb → ℕ
in_flight l = length (keys l.map_async)

module _ {Cb : Type 0} where
  pub record Accepts (l : Loop Cb) (o : Async Cb) (l' : Loop Cb) : Type 0 where
    pub handle : ℕ
    pub was_free : count handle (keys l.map_async) ≡ 0
    pub signalled : l'.sent ≡ l.sent ++ (handle ∷ [])
    pub carries : l'.asyncs handle ≡ o
    pub one_more : in_flight l' ≡ in_flight l + 1
    pub running_kept : l'.running ≡ l.running
    pub stopping_kept : l'.stopping ≡ l.stopping
    pub others : (x : ℕ) → (x == handle) ≡ false → l.asyncs x ≡ l'.asyncs x

  module _ (hs : List ℕ) (s : Sys Cb) (v : Inv hs s) (full : length hs ≡ uv_async_hande) where
    send-Accepts :
        (h : ℕ) (rest : List ℕ) (o : Async Cb)
        → s.loop.d_async ≡ h ∷ rest
        → Accepts s.loop o (send_async s.loop h rest o)
    unfolding send_async
    send-Accepts h rest o first = record {
      handle = h;
      was_free = free;
      signalled = refl;
      carries = rw (==_refl h);
      one_more = ap (λ m. length (keys m)) (insert_absent h h s.loop.map_async free) ∙ omega arith;
      running_kept = refl;
      stopping_kept = refl;
      others = λ x e. update_other s.loop.asyncs h o x e;
    }
      where
        free : count h (keys s.loop.map_async) ≡ 0
        free = omega (arith, v.conserved h, v.unique h, ap (count h) first, ap one_if (==_refl h))

    abbrev Outcomes : EventType → Cb → LoopError × Loop Cb → Type 0
    Outcomes e cb r =
        ((s.loop.running ≡ false) × (r ≡ (stopped, s.loop)))
        ⊎ ((s.loop.running ≡ true) × (in_flight s.loop ≡ uv_async_hande) × (r ≡ (busy, s.loop)))
        ⊎ ((s.loop.running ≡ true)
            × (in_flight s.loop < uv_async_hande)
            × (r.0 ≡ no_err)
            × Accepts s.loop (record { event = e; ploop = true; tcb = some cb }) r.1)

    enqueue-Outcomes :
        (e : EventType) (cb : Cb) (d : List ℕ)
        → s.loop.d_async ≡ d
        → s.loop.running ≡ true
        → Outcomes e cb (enqueue s.loop e cb d)
    unfolding enqueue
    enqueue-Outcomes e cb [] first on =
        inr (inl (on, omega (arith, v.sized, full, ap length first), refl))
    enqueue-Outcomes e cb (h ∷ rest) first on =
        inr (
          inr
            (on, omega (arith, v.sized, full, ap length first), refl, send-Accepts h rest _ first))

    pub add_req-Outcomes : (e : EventType) (cb : Cb) → Outcomes e cb (add_req s.loop e cb)
    add_req-Outcomes e cb = elim (Bool-cases s.loop.running) [
      | inl on ↦
          subst (Outcomes e cb) (sym (add_req_on s.loop e cb on))
            (enqueue-Outcomes e cb s.loop.d_async refl on)
      | inr off ↦ inl (off, add_req_off s.loop e cb off)
    ]

    abbrev StopOutcomes : Loop Cb → Type 0
    StopOutcomes r =
        ((s.loop.running ≡ false) × (r ≡ s.loop))
        ⊎ ((s.loop.running ≡ true) × (in_flight s.loop ≡ uv_async_hande) × (r ≡ s.loop))
        ⊎ ((s.loop.running ≡ true)
            × (in_flight s.loop < uv_async_hande)
            × (o : Async Cb) × (o.event ≡ loop_stop)
            × Accepts s.loop o r)

    enqueue_stop-Outcomes :
        (d : List ℕ)
        → s.loop.d_async ≡ d
        → s.loop.running ≡ true
        → StopOutcomes (enqueue_stop s.loop d)
    unfolding enqueue_stop
    enqueue_stop-Outcomes [] first on =
        inr (inl (on, omega (arith, v.sized, full, ap length first), refl))
    enqueue_stop-Outcomes (h ∷ rest) first on = inr (
        inr
          (on, omega (arith, v.sized, full, ap length first), _, refl, send-Accepts h rest _ first))

    pub stop-Outcomes : StopOutcomes (stop s.loop)
    stop-Outcomes = elim (Bool-cases s.loop.running) [
      | inl on ↦
          subst StopOutcomes (sym (stop_on s.loop on))
            (enqueue_stop-Outcomes s.loop.d_async refl on)
      | inr off ↦ inl (off, stop_off s.loop off)
    ]

module _ {Cb : Type 0} (fresh : ℕ → ℕ) (junk : ℕ → Async Cb) (s : Sys Cb) (inj : IsInjective fresh)
    (r : Reach (initial fresh junk) s) where
  -- AddReq in a reachable state. A loop that does not run refuses with ERR_LOOP_STOP; a loop that
  -- runs refuses with ERR_LOOP_BUSY exactly when five requests are in flight; both leave the loop
  -- as it is. Otherwise it returns ERR_LOOP_NO_ERR: a handle that was free is signalled, its
  -- object holds the type and the callback, and one more request is in flight.
  pub add_req_cases :
      (e : EventType) (cb : Cb)
      → ((s.loop.running ≡ false) × (add_req s.loop e cb ≡ (stopped, s.loop)))
        ⊎ ((s.loop.running ≡ true)
            × (in_flight s.loop ≡ uv_async_hande)
            × (add_req s.loop e cb ≡ (busy, s.loop)))
        ⊎ ((s.loop.running ≡ true)
            × (in_flight s.loop < uv_async_hande)
            × ((add_req s.loop e cb).0 ≡ no_err)
            × Accepts s.loop
                (record { event = e; ploop = true; tcb = some cb })
                (add_req s.loop e cb).1)
  add_req_cases e cb =
      add_req-Outcomes (handles fresh) s (reachable-Inv fresh junk inj r)
        (length-new_asyncs fresh 0 uv_async_hande) e cb

  -- `stop` in a reachable state. Where the loop runs and fewer than five requests are in flight, a
  -- free handle is signalled with the order to stop. Where five are in flight, `stop` does
  -- nothing, as on a loop that does not run, and its caller is not told.
  pub stop_cases :
      ((s.loop.running ≡ false) × (stop s.loop ≡ s.loop))
      ⊎ ((s.loop.running ≡ true) × (in_flight s.loop ≡ uv_async_hande) × (stop s.loop ≡ s.loop))
      ⊎ ((s.loop.running ≡ true)
          × (in_flight s.loop < uv_async_hande)
          × (o : Async Cb) × (o.event ≡ loop_stop)
          × Accepts s.loop o (stop s.loop))
  stop_cases =
      stop-Outcomes (handles fresh) s (reachable-Inv fresh junk inj r)
        (length-new_asyncs fresh 0 uv_async_hande)
