-- ===== src/Timer.antt =====
-- libuvcpp/timer.h and libuvcpp/timer.cpp: the class `uvtimer`, a timer driven by a loop. What
-- the user's callback does is a parameter.
pub mod Restart
pub mod Firing
use libuvwrapper.Base.{
  ℕ, zero, ◌≡◌, Bool, true, false, not, Option, none, some, List, [], ◌∷◌, ◌++◌, if◌then◌else◌,
  ◌==◌, Outcome, ok, fault, abort, ◌>>=◌, ◌>>◌, assert, require,
}
use libuvwrapper.Loop.{Loop, LoopError, EventType, is_ok, add_req}
use libuvwrapper.Requests.{Request, UvCall, Status, is_success}

-- uvtimer. m_pTimer is the handle of the object itself; m_ploop and m_pTimercb are null or not.
pub record Timer : Type 0 where
  pub started : Bool
  pub restart : Bool
  pub has_loop : Bool
  pub has_callback : Bool
  pub delay : ℕ
  pub repeat : ℕ

pub record World : Type 0 where
  pub timer : Timer
  pub loop : Loop Request
  pub calls : List UvCall

-- uvtimer()
unfoldable pub new : Timer
new = record {
  started = false;
  restart = false;
  has_loop = false;
  has_callback = false;
  delay = 0;
  repeat = 0;
}

-- RegisterTimer
unfoldable pub register_timer : Timer → ℕ × Timer
register_timer t = (0, record t { has_loop = true })

-- SetTimer: `ticb` is whether the callback is callable.
unfoldable pub set_timer : Timer → Bool → ℕ → ℕ → Timer
set_timer t ticb delay repeat = record t { has_callback = ticb; delay = delay; repeat = repeat }

unfoldable pub call : World → UvCall → World
call w u = record w { calls = w.calls ++ (u ∷ []) }

-- m_ploop->AddReq(e, r), and whether the code is 0.
unfoldable pub request : World → EventType → Request → Outcome (Bool × World)
request w e r =
    if w.timer.has_loop
    then (let (code, l) = add_req w.loop e r in ok (is_ok code, record w { loop = l }))
    else fault

-- StopTimer
unfoldable pub stop_timer : ℕ → World → Outcome (Bool × World)
unfolding request
stop_timer me w = request w EventType.timer_stop (Request.timer_stop me)

-- The part of `startTimer` for a timer that is started: what StopTimer returns is ignored.
force_restart : ℕ → World → Outcome (Bool × World)
unfolding stop_timer
force_restart me w = do
  r ← stop_timer me (record w { timer = record (w.timer) { restart = true } })
  ok (true, r.1)

unfoldable pub start_timer : ℕ → Bool → World → Outcome (Bool × World)
unfolding request force_restart
start_timer me force w =
    if not w.timer.started
    then request w EventType.timer_start (Request.timer_start me)
    else if force
    then force_restart me w
    else ok (true, w)

-- timerStart, in the loop's thread: `result` is what uv_timer_start returns.
unfoldable pub run_timer_start : ℕ → Status → World → Outcome World
unfolding call
run_timer_start me result w = do
  require w.timer.has_loop
  assert (is_success result)
  let armed =
      call (call w (UvCall.init_timer me)) (UvCall.start_timer me w.timer.delay w.timer.repeat)
  ok (record armed { timer = record (w.timer) { started = true } })

-- timerStop, in the loop's thread. What `startTimer` returns is ignored.
unfoldable pub run_timer_stop : ℕ → World → Outcome World
unfolding call start_timer
run_timer_stop me w =
    let halted = record (call w (UvCall.stop_timer me)) {
      timer = record (w.timer) { started = false };
    } in
    if w.timer.restart
    then (do
      r ←
          start_timer me false
            (record halted { timer = record (w.timer) { started = false; restart = false } })
      ok r.1)
    else ok halted

-- The callback of uv_timer_start: the user's callback, which may use the timer, and then the end
-- of a timer that does not repeat.
expire : World → World
expire w =
    if w.timer.repeat == 0 then record w { timer = record (w.timer) { started = false } } else w

unfoldable pub timer_cb : (World → Outcome World) → World → Outcome World
unfolding expire
timer_cb user w = do require w.timer.has_callback; w' ← user w; ok (expire w')
