-- ===== src/Loop/Send.antt =====
-- AddReq and `uvloop::stop` keep the pool's invariant.
use libuvwrapper.Base.{
  ℕ, ◌+◌, ◌<◌, ◌≡◌, refl, sym, ap, ◌∙◌, inl, inr, true, false, some, List, [], ◌∷◌, ◌++◌, map,
  arith, length, if◌then◌else◌, ◌==◌, ==_refl, Bool-cases, one_if, count, count-append, map-without,
}
use libuvwrapper.Base.Assoc.{keys, insert_absent}
use libuvwrapper.Loop.{
  EventType, loop_stop, LoopError, no_err, busy, stopped, Async, Loop, update, send_async, enqueue,
  add_req, enqueue_stop, stop,
}
use mathlib.Core.List.{Perm, append-nil, append_assoc, map-append}
use mathlib.Core.List.Perm
use libuvwrapper.Loop.Pool.{Sys, Armed, Inv, update_other, update_self}

module _ {Cb : Type 0} where
  -- What both AddReq and `stop` do with the first free handle.
  module _ (hs : List ℕ) (s : Sys Cb) (v : Inv hs s) (h : ℕ) (rest : List ℕ) (o : Async Cb)
      (first : s.loop.d_async ≡ h ∷ rest) (ready : Armed o) where
    abbrev l : Loop Cb
    l = s.loop

    abbrev l' : Loop Cb
    l' = record l {
      asyncs = update l.asyncs h o;
      d_async = rest;
      map_async = (h, h) ∷ l.map_async;
      sent = l.sent ++ (h ∷ []);
    }

    counts : (x : ℕ) → count x l.d_async ≡ one_if (h == x) + count x rest
    counts x = ap (count x) first

    free : count h (keys l.map_async) ≡ 0
    free = omega (arith, v.conserved h, v.unique h, counts h, ap one_if (==_refl h))

    unsent : count h l.sent ≡ 0
    unsent = omega (arith, v.signalled h, free)

    send_async_lem : send_async l h rest o ≡ l'
    unfolding send_async
    send_async_lem = rw (insert_absent h h l.map_async free)

    -- Every object but that at `h` is as it was.
    kept : (x : ℕ) → (h == x) ≡ false → l'.asyncs x ≡ l.asyncs x
    kept x e = rw e

    at_h : (x : ℕ) → (h == x) ≡ true → l'.asyncs x ≡ o
    at_h x e = rw e

    bound_after :
        (x : ℕ) → 0 < one_if (h == x) + count x (keys l.map_async) → (l'.asyncs x).ploop ≡ true
    bound_after x k = elim (Bool-cases (h == x)) [
      | inl e ↦ rw (at_h x e) ready.aimed
      | inr e ↦ rw (kept x e) (v.bound x (omega (arith, k, ap one_if e)))
    ]

    ready_after : (x : ℕ) → 0 < count x (l.sent ++ (h ∷ [])) → Armed (l'.asyncs x)
    ready_after x k = elim (Bool-cases (h == x)) [
      | inl e ↦ rw (at_h x e) ready
      | inr e ↦
          rw (kept x e) (v.armed x (omega (arith, k, count-append x l.sent (h ∷ []), ap one_if e)))
    ]

    pending_after : map l'.asyncs (l.sent ++ (h ∷ [])) ≡ map l.asyncs l.sent ++ (o ∷ [])
    pending_after =
        map-append _ l.sent (h ∷ [])
        ∙ ap (λ xs. xs ++ (l'.asyncs h ∷ []))
            (sym (
              map-without l.asyncs l'.asyncs h l.sent (λ x e. update_other l.asyncs h o x e)
                unsent))
        ∙ ap (λ a. map l.asyncs l.sent ++ (a ∷ [])) (update_self l.asyncs h o)

    once_after : Perm (s.accepted ++ (o ∷ [])) (s.executed ++ map l'.asyncs (l.sent ++ (h ∷ [])))
    once_after = rw (pending_after, ← append_assoc) (Perm.append v.once (Perm.refl (o ∷ [])))

    send-Inv : Inv hs (record s { loop = send_async l h rest o; accepted = s.accepted ++ (o ∷ []) })
    send-Inv = rw send_async_lem (record {
      unique = v.unique;
      conserved = λ x. omega (arith, v.conserved x, counts x);
      sized = omega (arith, v.sized, ap length first);
      signalled = λ x. omega (arith, v.signalled x, count-append x l.sent (h ∷ []));
      keyed = (refl, v.keyed);
      bound = bound_after;
      armed = ready_after;
      once = once_after;
    })

  -- What AddReq puts on its way.
  abbrev pub requested : LoopError → EventType → Cb → List (Async Cb)
  requested no_err e cb = record { event = e; ploop = true; tcb = some cb } ∷ []
  requested busy e cb = []
  requested stopped e cb = []

  -- What `stop` puts on its way.
  abbrev pub stop_object : Loop Cb → List ℕ → List (Async Cb)
  stop_object l [] = []
  stop_object l (h ∷ rest) = record (l.asyncs h) { event = loop_stop; ploop = true } ∷ []

  abbrev pub stop_requested : Loop Cb → List (Async Cb)
  stop_requested l = if l.running then stop_object l l.d_async else []

  pub add_req-Inv :
      (hs : List ℕ) (s : Sys Cb) (e : EventType) (cb : Cb)
      → Inv hs s
      → Inv hs (record s {
        loop = (add_req s.loop e cb).1;
        accepted = s.accepted ++ requested (add_req s.loop e cb).0 e cb;
      })
  unfolding add_req
  add_req-Inv hs s e cb v = elim (Bool-cases s.loop.running) [
    | inl on ↦ simp on (enqueued s.loop.d_async refl)
    | inr off ↦ simp (off, append-nil) v
  ]
    where
      enqueued :
          (d : List ℕ)
          → s.loop.d_async ≡ d
          → Inv hs (record s {
            loop = (enqueue s.loop e cb d).1;
            accepted = s.accepted ++ requested (enqueue s.loop e cb d).0 e cb;
          })
      enqueued [] first = simp append-nil v
      enqueued (h ∷ rest) first =
          send-Inv hs s v h rest _ first (record { aimed = refl; loaded = inr (cb, refl) })

  pub stop-Inv :
      (hs : List ℕ) (s : Sys Cb)
      → Inv hs s
      → Inv hs (record s { loop = stop s.loop; accepted = s.accepted ++ stop_requested s.loop })
  unfolding stop
  stop-Inv hs s v = elim (Bool-cases s.loop.running) [
    | inl on ↦ simp on (enqueued s.loop.d_async refl)
    | inr off ↦ simp (off, append-nil) v
  ]
    where
      enqueued :
          (d : List ℕ)
          → s.loop.d_async ≡ d
          → Inv hs (record s {
            loop = enqueue_stop s.loop d;
            accepted = s.accepted ++ stop_object s.loop d;
          })
      enqueued [] first = simp append-nil v
      enqueued (h ∷ rest) first =
          send-Inv hs s v h rest _ first (record { aimed = refl; loaded = inl refl })

  pub add_req_on :
      (l : Loop Cb) (e : EventType) (cb : Cb)
      → l.running ≡ true
      → add_req l e cb ≡ enqueue l e cb l.d_async
  unfolding add_req
  add_req_on l e cb on = simp on

  pub add_req_off :
      (l : Loop Cb) (e : EventType) (cb : Cb) → l.running ≡ false → add_req l e cb ≡ (stopped, l)
  unfolding add_req
  add_req_off l e cb off = simp off

  pub stop_on : (l : Loop Cb) → l.running ≡ true → stop l ≡ enqueue_stop l l.d_async
  unfolding stop
  stop_on l on = simp on

  pub stop_off : (l : Loop Cb) → l.running ≡ false → stop l ≡ l
  unfolding stop
  stop_off l off = simp off

  pub add_req_full :
      (l : Loop Cb) (e : EventType) (cb : Cb)
      → l.running ≡ true
      → l.d_async ≡ []
      → add_req l e cb ≡ (busy, l)
  unfolding enqueue
  add_req_full l e cb on full = add_req_on l e cb on ∙ ap (enqueue l e cb) full
