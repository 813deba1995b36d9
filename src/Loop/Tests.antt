-- ===== src/Loop/Tests.antt =====
-- Runs of `uvloop` with numbers for callbacks, and the theorems at concrete inputs.
use libuvwrapper.Base.{
  ℕ, ◌+◌, ◌<◌, ◌≡◌, refl, ◌⊎◌, true, false, none, some, List, [], ◌∷◌, ◌++◌, arith, ok,
}
use libuvwrapper.Loop.{
  tcp_write, loop_stop, no_err, busy, stopped, Async, Loop, call, new, add_req, run, dispatch,
  uv_async_hande,
}
use libuvwrapper.Loop.Pool.{Sys, Inv}
use libuvwrapper.Loop.Send.{requested}
use libuvwrapper.Loop.Callback.{delivered}
use libuvwrapper.Loop.Interleavings.{
  request, start, deliver, Reach, here, next, initial, IsInjective, handles, reachable-Inv,
}
use libuvwrapper.Loop.Capacity.{in_flight, Accepts, add_req_cases}

abbrev fresh : ℕ → ℕ
fresh i = i + 10

fresh-IsInjective : IsInjective fresh
fresh-IsInjective i j e = omega arith

abbrev junk : ℕ → Async ℕ
junk x = record { event = loop_stop; ploop = false; tcb = none }

abbrev born : Sys ℕ
born = initial fresh junk

abbrev started : Sys ℕ
started = record born { loop = run born.loop }

-- The request 77 is on its way.
abbrev asked : Sys ℕ
asked = record started {
  loop = (add_req started.loop tcp_write 77).1;
  accepted = started.accepted ++ requested (add_req started.loop tcp_write 77).0 tcp_write 77;
}

-- Its callback runs.
abbrev answered : Sys ℕ
answered = delivered asked 10 (call 77)

asked-Reach : Reach born asked
asked-Reach = next (next here (start refl)) (request tcp_write 77 refl)

abbrev asked_sent : List ℕ
asked_sent = asked.loop.sent

ten_is_sent : asked.loop.sent ≡ 10 ∷ []
unfolding new run add_req
ten_is_sent = refl

ten_dispatches : dispatch asked.loop 10 ≡ ok (call 77)
unfolding new run add_req dispatch
ten_dispatches = refl

answered-Reach : Reach born answered
answered-Reach =
    next asked-Reach (deliver 10 (call 77) (rw ten_is_sent (omega arith)) ten_dispatches refl)

-- A loop that does not run refuses.
refused_before_run : (add_req born.loop tcp_write 5).0 ≡ stopped
unfolding new add_req
refused_before_run = refl

-- The sixth of six requests is refused.
fill : ℕ → Loop ℕ → Loop ℕ
fill x l = (add_req l tcp_write x).1

sixth_is_busy :
    (add_req (fill 5 (fill 4 (fill 3 (fill 2 (fill 1 started.loop))))) tcp_write 6).0 ≡ busy
unfolding fill new run add_req
sixth_is_busy = refl

reachable-Inv_example : Inv (handles fresh) asked
reachable-Inv_example = reachable-Inv fresh junk fresh-IsInjective asked-Reach

add_req_cases_example :
    ((asked.loop.running ≡ false) × (add_req asked.loop tcp_write 8 ≡ (stopped, asked.loop)))
    ⊎ ((asked.loop.running ≡ true)
        × (in_flight asked.loop ≡ uv_async_hande)
        × (add_req asked.loop tcp_write 8 ≡ (busy, asked.loop)))
    ⊎ ((asked.loop.running ≡ true)
        × (in_flight asked.loop < uv_async_hande)
        × ((add_req asked.loop tcp_write 8).0 ≡ no_err)
        × Accepts asked.loop
            (record { event = tcp_write; ploop = true; tcb = some 8 })
            (add_req asked.loop tcp_write 8).1)
add_req_cases_example = add_req_cases fresh junk asked fresh-IsInjective asked-Reach tcp_write 8
