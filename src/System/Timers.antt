-- ===== src/System/Timers.antt =====
-- A timer's way through the loop that it shares: `startTimer`, what libuv is asked for, and the forced
-- restart.
use libuvwrapper.Base.{
  ℕ, ◌≡◌, refl, ap, ◌∙◌, Bool, true, false, List, [], ◌∷◌, ◌++◌, arith, ◌==◌, ==_refl, ok, ◌>>=◌,
  count, one_if,
}
use libuvwrapper.Base.Assoc.{keys}
use libuvwrapper.Loop.{Loop, EventType}
use libuvwrapper.Requests.{Request, UvCall, success}
use libuvwrapper.Timer.{Timer, World, start_timer, run_timer_start, run_timer_stop}
use libuvwrapper.Timer
use libuvwrapper.System.{System, Answers, exec, async_callback, timer_world, put_timer, on_timer}
use libuvwrapper.System.Dispatch.{
  IsFree, posted, served, serving, add_req-posted, async_callback-posted,
}
use libuvwrapper.System.Chained.{chained, chained-IsFree, async_callback-chained}

module _ {App : Type 0} (env : Answers) (me : ℕ)
    (taken : (us : List UvCall) → env.status us 0 ≡ success) where
  -- A system in which the timer at `me` was armed by the loop's thread.
  abbrev armed : System App → System App
  armed s = put_timer me s (record (timer_world me s) {
    timer = record (s.timers me) { started = true };
    calls =
        (s.calls ++ (UvCall.init_timer me ∷ []))
        ++ (UvCall.start_timer me (s.timers me).delay (s.timers me).repeat ∷ []);
  })

  exec-armed :
      (s : System App)
      → (s.timers me).has_loop ≡ true
      → exec env (Request.timer_start me) s ≡ ok (armed s)
  unfolding exec run_timer_start Timer.call
  exec-armed s has = rw (has, taken s.calls) refl

  -- The callback of a request to start the timer.
  arms :
      (s : System App) (h : ℕ) (rest : List ℕ)
      → (s.timers me).has_loop ≡ true
      → IsFree s.loop h rest
      → async_callback env h
          (record s { loop = posted s.loop h rest EventType.timer_start (Request.timer_start me) })
        ≡ ok (record (armed s) {
          loop = served s.loop h rest EventType.timer_start (Request.timer_start me);
        })
  arms s h rest has f =
      async_callback-posted env s
        (armed (record s {
          loop = serving s.loop h rest EventType.timer_start (Request.timer_start me);
        }))
        h rest EventType.timer_start (Request.timer_start me) f (λ e. cc) (exec-armed _ has) refl

  -- The system when `startTimer` has handed its request to the loop.
  abbrev base : System App → System App
  base s = put_timer me s (timer_world me s)

  started :
      (s : System App) (h : ℕ) (rest : List ℕ) (force : Bool)
      → (s.timers me).has_loop ≡ true
      → (s.timers me).started ≡ false
      → IsFree s.loop h rest
      → on_timer me (start_timer me force) s
        ≡ ok (
          true,
          record (base s) {
            loop = posted s.loop h rest EventType.timer_start (Request.timer_start me);
          },
        )
  unfolding start_timer
  started s h rest force has off f =
      simp (off, has, add_req-posted s.loop h rest EventType.timer_start (Request.timer_start me) f)

  -- `startTimer` of a timer that is registered and does not run, and then the callback of the handle
  -- that its request took: libuv is asked to arm the timer with the delay and the repeat that were set,
  -- once, the timer counts as started, and the handle is free again.
  timer_start_arms :
      (s : System App) (h : ℕ) (rest : List ℕ) (force : Bool)
      → (s.timers me).has_loop ≡ true
      → (s.timers me).started ≡ false
      → IsFree s.loop h rest
      → (t : System App) × ((on_timer me (start_timer me force) s >>= λ r. async_callback env h r.1)
          ≡ ok t)
        × (t.timers me ≡ record (s.timers me) { started = true })
        × (t.calls
            ≡ (s.calls ++ (UvCall.init_timer me ∷ []))
              ++ (UvCall.start_timer me (s.timers me).delay (s.timers me).repeat ∷ []))
        × (t.loop.d_async ≡ rest ++ (h ∷ []))
  timer_start_arms s h rest force has off f = (
    record (armed (base s)) {
      loop = served s.loop h rest EventType.timer_start (Request.timer_start me);
    },
    ap (λ m. m >>= λ r. async_callback env h r.1) (started s h rest force has off f)
        ∙ arms (base s) h rest (rw (==_refl me) has) f,
    rw (==_refl me) refl,
    rw (==_refl me) refl,
    refl,
  )

  -- `startTimer(true)` of a timer that runs.
  abbrev flagged : System App → System App
  flagged s =
      put_timer me s (record (timer_world me s) { timer = record (s.timers me) { restart = true } })

  restarting :
      (s : System App) (h : ℕ) (rest : List ℕ)
      → (s.timers me).has_loop ≡ true
      → (s.timers me).started ≡ true
      → IsFree s.loop h rest
      → on_timer me (start_timer me true) s
        ≡ ok (
          true,
          record (flagged s) {
            loop = posted s.loop h rest EventType.timer_stop (Request.timer_stop me);
          },
        )
  unfolding start_timer
  restarting s h rest has on f =
      simp (on, has, add_req-posted s.loop h rest EventType.timer_stop (Request.timer_stop me) f)

  -- The timer stopped, in the callback of that request, and its start asked for again.
  abbrev halted : System App → Loop Request → System App
  halted s l = put_timer me s (record (timer_world me s) {
    timer = record (s.timers me) { started = false; restart = false };
    loop = l;
    calls = s.calls ++ (UvCall.stop_timer me ∷ []);
  })

  exec-halted :
      (s : System App) (k : ℕ) (rest : List ℕ)
      → (s.timers me).has_loop ≡ true
      → (s.timers me).restart ≡ true
      → IsFree s.loop k rest
      → exec env (Request.timer_stop me) s
        ≡ ok (halted s (posted s.loop k rest EventType.timer_start (Request.timer_start me)))
  unfolding exec run_timer_stop
  exec-halted s k rest has again f =
      simp
        (again, has, add_req-posted s.loop k rest EventType.timer_start (Request.timer_start me) f)

  module _ (s : System App) (h k : ℕ) (rest : List ℕ) (apart : (h == k) ≡ false)
      (f : IsFree s.loop h (k ∷ rest)) (absent : count k (keys s.loop.map_async) ≡ 0)
      (unsent : count k s.loop.sent ≡ 0) where
    abbrev stopping : System App
    stopping = record (flagged s) {
      loop = serving s.loop h (k ∷ rest) EventType.timer_stop (Request.timer_stop me);
    }

    stopping-IsFree : IsFree stopping.loop k rest
    stopping-IsFree = record {
      running = f.running;
      first = refl;
      absent = omega (arith, ap one_if apart, absent);
      unsent = unsent;
    }

    abbrev waiting : System App
    waiting =
        halted stopping (posted stopping.loop k rest EventType.timer_start (Request.timer_start me))

    abbrev left : Loop Request
    left =
        chained s.loop h k rest EventType.timer_stop EventType.timer_start (Request.timer_stop me)
          (Request.timer_start me) apart

    stops :
        (s.timers me).has_loop ≡ true
        → async_callback env h (record (flagged s) {
          loop = posted s.loop h (k ∷ rest) EventType.timer_stop (Request.timer_stop me);
        })
          ≡ ok (record waiting {
            loop = posted left k (rest ++ (h ∷ [])) EventType.timer_start (Request.timer_start me);
          })
    stops has =
        async_callback-chained env (flagged s) waiting h k rest EventType.timer_stop
          EventType.timer_start (Request.timer_stop me) (Request.timer_start me) apart f (λ e. cc)
          (exec-halted stopping k rest (rw (==_refl me) has) (rw (==_refl me) refl) stopping-IsFree)
          refl

    -- `startTimer(true)` of a timer that is registered and runs, and the callbacks of the two handles
    -- that it takes, with nothing else between: the first is the order to stop, and asks for the start
    -- in its turn. libuv is asked to stop the timer and to arm it again with the delay and the repeat
    -- that were set; the timer counts as started, no restart is left to be made, and both handles are
    -- free again. The conditions: libuv's calls succeed, the loop runs, `h` and `k` are the first of
    -- its free handles, they differ, and neither is in the map or signalled.
    pub timer_restarts :
        (s.timers me).has_loop ≡ true
        → (s.timers me).started ≡ true
        → (t : System App) × ((on_timer me (start_timer me true) s >>= λ r.
              async_callback env h r.1 >>= λ u. async_callback env k u)
            ≡ ok t)
          × (t.timers me ≡ record (s.timers me) { started = true; restart = false })
          × (t.calls
              ≡ ((s.calls ++ (UvCall.stop_timer me ∷ [])) ++ (UvCall.init_timer me ∷ []))
                ++ (UvCall.start_timer me (s.timers me).delay (s.timers me).repeat ∷ []))
          × (t.loop.d_async ≡ (rest ++ (h ∷ [])) ++ (k ∷ []))
    timer_restarts has on = (
      record (armed (record waiting { loop = left })) {
        loop = served left k (rest ++ (h ∷ [])) EventType.timer_start (Request.timer_start me);
      },
      ap (λ m. m >>= λ r. async_callback env h r.1 >>= λ u. async_callback env k u)
            (restarting s h (k ∷ rest) has on f)
          ∙ ap (λ m. m >>= λ u. async_callback env k u) (stops has)
          ∙ arms (record waiting { loop = left }) k (rest ++ (h ∷ [])) (rw (==_refl me) has)
              (chained-IsFree s.loop h k rest EventType.timer_stop EventType.timer_start
                (Request.timer_stop me) (Request.timer_start me) apart f absent unsent),
      rw (==_refl me) refl,
      rw (==_refl me) refl,
      refl,
    )
