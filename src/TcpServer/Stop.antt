-- ===== src/TcpServer/Stop.antt =====
-- `TcpServer::tcpStop` and what the loop's thread then does.
use libuvwrapper.Base.{
  ℕ, ◌≡◌, refl, ◌⊎◌, inl, inr, Bool-cases, if◌then◌else◌, true, false, none, List, [], ◌∷◌, ◌++◌,
  ==_refl, ◌==◌, ok,
}
use libuvwrapper.Base.Assoc.{find, erase, insert_absent}
use libuvwrapper.Loop.{
  stop_loop, Loop, loop_stop, update, stop, enqueue_stop, send_async, dispatch, action_of, finish,
  give_back, unset_callback, on_async, perform, uv_stop,
}
use libuvwrapper.Requests.{Request}
use libuvwrapper.System.{System, Answers, async_callback}
use libuvwrapper.System.Dispatch.{IsFree, remove_last}
use libuvwrapper.TcpServer.{destroy, tcp_stop}

module _ {App : Type 0} (env : Answers) (s : System App) (h : ℕ) (rest : List ℕ) where
  -- The loop after `stop` has taken the handle `h`.
  abbrev halting : Loop Request
  halting = record (s.loop) {
    asyncs = update s.loop.asyncs h (record (s.loop.asyncs h) { event = loop_stop; ploop = true });
    d_async = rest;
    map_async = (h, h) ∷ s.loop.map_async;
    sent = s.loop.sent ++ (h ∷ []);
  }

  stop-halting : IsFree s.loop h rest → stop s.loop ≡ halting
  unfolding stop enqueue_stop send_async
  stop-halting f = rw (f.running, f.first, insert_absent h h s.loop.map_async f.absent) refl

  -- That loop, while the callback of `h` runs, and after it.
  abbrev stopping_loop : Loop Request
  stopping_loop = record halting { sent = s.loop.sent; stopping = true }

  abbrev stopped_loop : Loop Request
  stopped_loop = record stopping_loop {
    asyncs = update halting.asyncs h (record (halting.asyncs h) { tcb = none });
    d_async = rest ++ (h ∷ []);
    map_async = s.loop.map_async;
  }

  dispatch-halting : dispatch (record halting { sent = s.loop.sent }) h ≡ ok stop_loop
  unfolding dispatch action_of
  dispatch-halting = rw (==_refl h) refl

  erase_first : erase h ((h, h) ∷ s.loop.map_async) ≡ s.loop.map_async
  unfolding erase
  erase_first = rw (==_refl h) refl

  finish-stopping : finish stopping_loop h ≡ ok stopped_loop
  unfolding finish give_back unset_callback find
  finish-stopping = rw (==_refl h, erase_first) refl

  -- The destructor does to the loop what `tcpStop` does.
  destroy-tcp_stop : destroy s ≡ (tcp_stop s).1
  unfolding destroy tcp_stop
  destroy-tcp_stop = refl

  objects :
      (x : ℕ)
      → ((h == x) ≡ true) ⊎ ((h == x) ≡ false)
      → stopped_loop.asyncs x ≡ (
          if h == x
          then record { event = loop_stop; ploop = true; tcb = none }
          else s.loop.asyncs x)
  objects x (inl e) = rw (e, ==_refl h) refl
  objects x (inr e) = rw e refl

  -- `tcpStop` on a loop that runs with a free handle: when the loop's thread has run the callback of
  -- that handle, uv_stop was called on the loop, the handle is free again, at the end of the deque, and its
  -- object holds the order to stop and no callback; nothing else of the system has changed: not
  -- m_bRunning, the map, the signals that were sent, the objects of the other handles, or what is
  -- outside the loop.
  pub stop_reaches_loop :
      IsFree s.loop h rest
      → (t : System App) × (async_callback env h (tcp_stop s).1 ≡ ok t)
        × (t ≡ record s {
          loop = record (s.loop) {
            stopping = true;
            d_async = rest ++ (h ∷ []);
            asyncs = t.loop.asyncs;
          };
        })
        × ((x : ℕ)
            → t.loop.asyncs x ≡ (
                if h == x
                then record { event = loop_stop; ploop = true; tcb = none }
                else s.loop.asyncs x))
  unfolding tcp_stop async_callback on_async perform uv_stop
  stop_reaches_loop f = (
    record s { loop = stopped_loop },
    rw (stop-halting f, remove_last h s.loop.sent f.unsent, dispatch-halting, finish-stopping) refl,
    refl,
    λ x. objects x (Bool-cases (h == x)),
  )
