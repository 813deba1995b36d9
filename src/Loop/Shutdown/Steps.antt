-- ===== src/Loop/Shutdown/Steps.antt =====
-- Every step of the destructor and of the loop's thread keeps what m_bRunning says.
use libuvwrapper.Base.{
  ℕ, ◌<◌, ◌≡◌, ◌≢◌, ◌∙◌, refl, ok, sym, subst, true, false, count, remove, arith,
}
use libuvwrapper.Loop.{Loop, stop_loop, dispatch, stop, end_thread, uv_stop}
use libuvwrapper.Loop.Shutdown.{
  fresh_loop, spawned, started, looping, returned, cleared, ended, alive, testing, deciding, asleep,
  destroyed, Life, woken, Step, spawn, mark, destroy, deliver, work, leave, clear, notify, pass,
  test, sleep, Reach, here, next,
}
use libuvwrapper.Loop.Shutdown.Flags.{
  Inv, stopping-started, sent-started, unmarked-silent, stop_silent, stop-running, stop-stopping,
  moved,
}

module _ {Cb : Type 0} where
  mark-Inv :
      {s t : Life Cb}
      → Inv s
      → s.starter ≡ spawned
      → t ≡ record s { starter = started; loop = record (s.loop) { running = true } }
      → Inv t
  mark-Inv {s} i p e = subst Inv (sym e) (record {
    fresh_no_thread = λ h. cc;
    spawned_looping = λ h. cc;
    spawned_alive = λ h. cc;
    started_thread = λ h. ground (arith, i.spawned_looping p);
    unmarked_sent = λ h. absurd (h refl);
    unmarked_going = λ h. absurd (h refl);
    no_thread_silent = λ h. cc (i.spawned_looping p);
    cleared_silent = λ h. cc (i.spawned_looping p);
    ended_silent = λ h. cc (i.spawned_looping p);
    looping_marked = λ h k. refl;
    returned_marked = λ h. refl;
    destroyed_silent = λ h. cc (i.spawned_alive p);
  })

  spawn-Inv :
      {s t : Life Cb}
      → Inv s
      → s.starter ≡ fresh_loop
      → s.destroyer ≡ alive
      → t ≡ record s { starter = spawned; thread = looping }
      → Inv t
  spawn-Inv {s} i p q e = subst Inv (sym e) (record {
    fresh_no_thread = λ h. cc;
    spawned_looping = λ h. refl;
    spawned_alive = λ h. q;
    started_thread = λ h. cc;
    unmarked_sent = λ h. i.unmarked_sent (λ k. cc);
    unmarked_going = λ h. i.unmarked_going (λ k. cc);
    no_thread_silent = λ h. cc;
    cleared_silent = λ h. cc;
    ended_silent = λ h. cc;
    looping_marked = λ h k. cc;
    returned_marked = λ h. cc;
    destroyed_silent = λ h. cc;
  })

  leave-Inv :
      {s t : Life Cb}
      → Inv s
      → s.thread ≡ looping
      → s.loop.stopping ≡ true
      → t ≡ record s { thread = returned }
      → Inv t
  leave-Inv {s} i p q e = subst Inv (sym e) (record {
    fresh_no_thread = λ h. cc (i.fresh_no_thread h);
    spawned_looping = λ h. cc (stopping-started i q);
    spawned_alive = i.spawned_alive;
    started_thread = λ h. λ k. cc;
    unmarked_sent = i.unmarked_sent;
    unmarked_going = i.unmarked_going;
    no_thread_silent = λ h. cc;
    cleared_silent = λ h. cc;
    ended_silent = λ h. cc;
    looping_marked = λ h k. cc;
    returned_marked = λ h. i.looping_marked p (stopping-started i q);
    destroyed_silent = i.destroyed_silent;
  })

  clear-Inv :
      {s t : Life Cb}
      → Inv s
      → s.thread ≡ returned
      → t ≡ record s { loop = end_thread s.loop; thread = cleared }
      → Inv t
  unfolding end_thread
  clear-Inv {s} i p e = subst Inv (sym e) (record {
    fresh_no_thread = λ h. cc (i.fresh_no_thread h);
    spawned_looping = λ h. cc (i.spawned_looping h);
    spawned_alive = i.spawned_alive;
    started_thread = λ h. λ k. cc;
    unmarked_sent = i.unmarked_sent;
    unmarked_going = i.unmarked_going;
    no_thread_silent = λ h. cc;
    cleared_silent = λ h. refl;
    ended_silent = λ h. cc;
    looping_marked = λ h k. cc;
    returned_marked = λ h. cc;
    destroyed_silent = λ h. refl;
  })

  notify-Inv :
      {s t : Life Cb}
      → Inv s
      → s.thread ≡ cleared
      → t ≡ record s { thread = ended; destroyer = woken s.destroyer }
      → Inv t
  notify-Inv {s} i p e = subst Inv (sym e) (record {
    fresh_no_thread = λ h. cc (i.fresh_no_thread h);
    spawned_looping = λ h. cc (i.spawned_looping h);
    spawned_alive = λ h. cc (i.spawned_looping h);
    started_thread = λ h. λ k. cc;
    unmarked_sent = i.unmarked_sent;
    unmarked_going = i.unmarked_going;
    no_thread_silent = λ h. cc;
    cleared_silent = λ h. cc;
    ended_silent = λ h. i.cleared_silent p;
    looping_marked = λ h k. cc;
    returned_marked = λ h. cc;
    destroyed_silent = λ h. i.cleared_silent p;
  })

  destroy-Inv :
      {s t : Life Cb}
      → Inv s
      → s.destroyer ≡ alive
      → s.starter ≢ spawned
      → t ≡ record s { loop = stop s.loop; destroyer = testing }
      → Inv t
  destroy-Inv {s} i p q e = subst Inv (sym e) (record {
    fresh_no_thread = i.fresh_no_thread;
    spawned_looping = i.spawned_looping;
    spawned_alive = λ h. absurd (q h);
    started_thread = i.started_thread;
    unmarked_sent = λ h. cc (stop_silent s.loop (unmarked-silent i q h), i.unmarked_sent h);
    unmarked_going = λ h. stop-stopping s.loop ∙ i.unmarked_going h;
    no_thread_silent = λ h. stop-running s.loop ∙ i.no_thread_silent h;
    cleared_silent = λ h. stop-running s.loop ∙ i.cleared_silent h;
    ended_silent = λ h. stop-running s.loop ∙ i.ended_silent h;
    looping_marked = λ h k. stop-running s.loop ∙ i.looping_marked h k;
    returned_marked = λ h. stop-running s.loop ∙ i.returned_marked h;
    destroyed_silent = λ h. cc;
  })

  deliver-Inv :
      {s t : Life Cb}
      → Inv s
      → (h : ℕ) → s.thread ≡ looping
      → 0 < count h s.loop.sent
      → dispatch s.loop h ≡ ok stop_loop
      → t ≡ record s { loop = uv_stop (record (s.loop) { sent = remove h s.loop.sent }) }
      → Inv t
  unfolding uv_stop
  deliver-Inv {s} i x p q d e = subst Inv (sym e) (record {
    fresh_no_thread = i.fresh_no_thread;
    spawned_looping = i.spawned_looping;
    spawned_alive = i.spawned_alive;
    started_thread = i.started_thread;
    unmarked_sent = λ h. absurd (sent-started i x q h);
    unmarked_going = λ h. absurd (sent-started i x q h);
    no_thread_silent = i.no_thread_silent;
    cleared_silent = i.cleared_silent;
    ended_silent = i.ended_silent;
    looping_marked = i.looping_marked;
    returned_marked = i.returned_marked;
    destroyed_silent = i.destroyed_silent;
  })

  work-Inv :
      {s t : Life Cb}
      → Inv s
      → (l : Loop Cb) → s.starter ≡ started
      → l.running ≡ s.loop.running
      → l.stopping ≡ s.loop.stopping
      → t ≡ record s { loop = l }
      → Inv t
  work-Inv {s} i l p r q e = subst Inv (sym e) (record {
    fresh_no_thread = i.fresh_no_thread;
    spawned_looping = i.spawned_looping;
    spawned_alive = i.spawned_alive;
    started_thread = i.started_thread;
    unmarked_sent = λ h. absurd (h p);
    unmarked_going = λ h. absurd (h p);
    no_thread_silent = λ h. r ∙ i.no_thread_silent h;
    cleared_silent = λ h. r ∙ i.cleared_silent h;
    ended_silent = λ h. r ∙ i.ended_silent h;
    looping_marked = λ h k. r ∙ i.looping_marked h k;
    returned_marked = λ h. r ∙ i.returned_marked h;
    destroyed_silent = λ h. r ∙ i.destroyed_silent h;
  })

  pass-Inv :
      {s t : Life Cb}
      → Inv s
      → s.destroyer ≡ testing
      → s.loop.running ≡ false
      → t ≡ record s { destroyer = destroyed }
      → Inv t
  pass-Inv {s} i p q e =
      subst Inv (sym e) (moved i destroyed (λ h. cc (i.spawned_alive h)) (λ h. q))

  test-Inv :
      {s t : Life Cb}
      → Inv s
      → s.destroyer ≡ testing
      → s.loop.running ≡ true
      → t ≡ record s { destroyer = deciding }
      → Inv t
  test-Inv {s} i p q e =
      subst Inv (sym e) (moved i deciding (λ h. cc (i.spawned_alive h)) (λ h. cc))

  sleep-Inv :
      {s t : Life Cb} → Inv s → s.destroyer ≡ deciding → t ≡ record s { destroyer = asleep } → Inv t
  sleep-Inv {s} i p e = subst Inv (sym e) (moved i asleep (λ h. cc (i.spawned_alive h)) (λ h. cc))

  Step-Inv : {s t : Life Cb} → Inv s → Step s t → Inv t
  Step-Inv i (mark p e) = mark-Inv i p e
  Step-Inv i (spawn p q e) = spawn-Inv i p q e
  Step-Inv i (leave p q e) = leave-Inv i p q e
  Step-Inv i (clear p e) = clear-Inv i p e
  Step-Inv i (notify p e) = notify-Inv i p e
  Step-Inv i (destroy p q e) = destroy-Inv i p q e
  Step-Inv i (deliver x p q d e) = deliver-Inv i x p q d e
  Step-Inv i (work l p r q e) = work-Inv i l p r q e
  Step-Inv i (pass p q e) = pass-Inv i p q e
  Step-Inv i (test p q e) = test-Inv i p q e
  Step-Inv i (sleep p e) = sleep-Inv i p e

  pub Reach-Inv : {s t : Life Cb} → Inv s → Reach s t → Inv t
  Reach-Inv i here = i
  Reach-Inv i (next r st) = Step-Inv (Reach-Inv i r) st
