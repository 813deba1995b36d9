-- ===== src/Timer/Restart.antt =====
-- The restart of a timer that runs: `startTimer(true)` asks for a stop, and the stop for a start.
use libuvwrapper.Base.{ℕ, ◌≡◌, ◌⊎◌, inl, inr, true, false, [], ◌∷◌, ◌++◌, Bool-cases, ok}
use libuvwrapper.Loop.{Loop, LoopError, busy, EventType, add_req}
use libuvwrapper.Loop.Send.{add_req_full}
use libuvwrapper.Requests.{Request, UvCall}
use libuvwrapper.Timer.{World, start_timer, run_timer_stop}

abbrev pub ask_start : ℕ → Loop Request → LoopError × Loop Request
ask_start me l = add_req l EventType.timer_start (Request.timer_start me)

abbrev pub ask_stop : ℕ → Loop Request → LoopError × Loop Request
ask_stop me l = add_req l EventType.timer_stop (Request.timer_stop me)

-- The stop of a timer that waits for a restart asks the loop to start it again, the flag is taken
-- back, and the timer counts as not started until the loop does so. Without the flag it just
-- stops.
run_timer_stop_cases :
    (me : ℕ) (w : World)
    → w.timer.has_loop ≡ true
    → ((w.timer.restart ≡ true)
        × (run_timer_stop me w
            ≡ ok (record w {
              timer = record (w.timer) { started = false; restart = false };
              loop = (ask_start me w.loop).1;
              calls = w.calls ++ (UvCall.stop_timer me ∷ []);
            })))
      ⊎ ((w.timer.restart ≡ false)
          × (run_timer_stop me w
              ≡ ok (record w {
                timer = record (w.timer) { started = false };
                calls = w.calls ++ (UvCall.stop_timer me ∷ []);
              })))
unfolding run_timer_stop
run_timer_stop_cases me w has = elim (Bool-cases w.timer.restart) [
  | inl on ↦ inl (on, simp (on, has))
  | inr off ↦ inr (off, simp off)
]

-- In a loop with no free handle, and the handle of the stop itself is not free while it runs, the
-- restart is lost: the timer is stopped, its flag is gone, and no request is on its way.
restart_lost :
    (me : ℕ) (w : World)
    → w.timer.has_loop ≡ true
    → w.timer.restart ≡ true
    → w.loop.running ≡ true
    → w.loop.d_async ≡ []
    → run_timer_stop me w
      ≡ ok (record w {
        timer = record (w.timer) { started = false; restart = false };
        calls = w.calls ++ (UvCall.stop_timer me ∷ []);
      })
unfolding run_timer_stop
restart_lost me w has flag on full = simp (flag, has, refused)
  where
    refused : ask_start me w.loop ≡ (busy, w.loop)
    refused = add_req_full w.loop EventType.timer_start (Request.timer_start me) on full

-- A forced restart that the loop refuses returns `true` all the same, and leaves the flag: the
-- next time that the timer is stopped, for whatever reason, it is asked to start again.
stale_restart :
    (me : ℕ) (w later : World)
    → w.timer.has_loop ≡ true
    → w.timer.started ≡ true
    → ask_stop me w.loop ≡ (busy, w.loop)
    → later.timer ≡ record (w.timer) { restart = true }
    → (start_timer me true w ≡ ok (true, record w { timer = record (w.timer) { restart = true } }))
      × (run_timer_stop me later
          ≡ ok (record later {
            timer = record (w.timer) { started = false; restart = false };
            loop = (ask_start me later.loop).1;
            calls = later.calls ++ (UvCall.stop_timer me ∷ []);
          }))
unfolding start_timer run_timer_stop
stale_restart me w later has on refused e = (simp (on, has, refused), simp (e, has))
