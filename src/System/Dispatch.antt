-- ===== src/System/Dispatch.antt =====
-- The way of one request: AddReq signals a free handle, and the callback of the handle runs what
-- was bound and gives the handle back.
use libuvwrapper.Base.{
  ℕ, ◌≡◌, ◌≢◌, refl, true, Option, none, some, List, [], ◌∷◌, ◌++◌, arith, ==_refl, ok, count,
  remove,
}
use libuvwrapper.Base.Assoc.{keys, find, erase, insert_absent}
use libuvwrapper.Loop.{
  EventType, loop_stop, tcp_connect, LoopError, no_err, Async, Loop, Action, call, update, add_req,
  enqueue, send_async, dispatch, action_of, run_callback, finish, give_back, unset_callback,
  on_async, perform, new_asyncs, run,
}
use libuvwrapper.Loop
use libuvwrapper.Requests.{Request}
use libuvwrapper.System.{System, Answers, exec, async_callback}

-- The loop runs, and `h` is the first of its free handles.
pub record IsFree (l : Loop Request) (h : ℕ) (rest : List ℕ) : Type 0 where
  pub running : l.running ≡ true
  pub first : l.d_async ≡ h ∷ rest
  pub absent : count h (keys l.map_async) ≡ 0
  pub unsent : count h l.sent ≡ 0

abbrev pub filled : EventType → Option Request → Async Request
filled e r = record { event = e; ploop = true; tcb = r }

-- The loop after AddReq has taken `h` for a request.
abbrev pub posted : Loop Request → ℕ → List ℕ → EventType → Request → Loop Request
posted l h rest e r = record l {
  asyncs = update l.asyncs h (filled e (some r));
  d_async = rest;
  map_async = (h, h) ∷ l.map_async;
  sent = l.sent ++ (h ∷ []);
}

-- The loop while the callback of `h` runs.
abbrev pub serving : Loop Request → ℕ → List ℕ → EventType → Request → Loop Request
serving l h rest e r = record (posted l h rest e r) { sent = l.sent }

-- The loop after that callback: as before the request, with `h` the last of the free handles.
abbrev pub served : Loop Request → ℕ → List ℕ → EventType → Request → Loop Request
served l h rest e r = record l {
  asyncs = update (update l.asyncs h (filled e (some r))) h (filled e none);
  d_async = rest ++ (h ∷ []);
}

pub add_req-posted :
    (l : Loop Request) (h : ℕ) (rest : List ℕ) (e : EventType) (r : Request)
    → IsFree l h rest
    → add_req l e r ≡ (no_err, posted l h rest e r)
unfolding add_req enqueue send_async
add_req-posted l h rest e r f = rw (f.running, f.first, insert_absent h h l.map_async f.absent) refl

pub remove_last : (h : ℕ) (xs : List ℕ) → count h xs ≡ 0 → remove h (xs ++ (h ∷ [])) ≡ xs
unfolding remove
remove_last h [] k = rw (==_refl h) refl
remove_last h (x ∷ xs) k = ground (arith, remove_last h xs)

action_of-request :
    (e : EventType) (o : Async Request) → e ≢ loop_stop → action_of e o ≡ run_callback o.tcb
unfolding action_of
action_of-request loop_stop o ne = absurd (ne refl)
action_of-request tcp_connect o ne = refl
action_of-request _ o ne = refl

module _ (l : Loop Request) (h : ℕ) (rest : List ℕ) (e : EventType) (r : Request)
    (f : IsFree l h rest) where
  pub dispatch-serving : e ≢ loop_stop → dispatch (serving l h rest e r) h ≡ ok (call r)
  unfolding dispatch run_callback
  dispatch-serving ne = rw (==_refl h) (action_of-request e (filled e (some r)) ne)

  erase_first : erase h ((h, h) ∷ l.map_async) ≡ l.map_async
  unfolding erase
  erase_first = rw (==_refl h) refl

  finish-serving : finish (serving l h rest e r) h ≡ ok (served l h rest e r)
  unfolding finish give_back unset_callback find
  finish-serving = rw (==_refl h, erase_first) refl

module _ {App : Type 0} (env : Answers) (s t : System App) (h : ℕ) (rest : List ℕ) (e : EventType)
    (r : Request) where
  -- The callback of a handle that AddReq has signalled for the request `r`: what was bound runs
  -- once, on the loop without the signal, and the handle is free again.
  pub async_callback-posted :
      IsFree s.loop h rest
      → e ≢ loop_stop
      → exec env r (record s { loop = serving s.loop h rest e r }) ≡ ok t
      → t.loop ≡ serving s.loop h rest e r
      → async_callback env h (record s { loop = posted s.loop h rest e r })
        ≡ ok (record t { loop = served s.loop h rest e r })
  unfolding async_callback on_async perform
  async_callback-posted f ne ran same =
      rw
        (
          remove_last h s.loop.sent f.unsent,
          dispatch-serving s.loop h rest e r f ne,
          ran,
          same,
          finish-serving s.loop h rest e r f,
        )
        refl

-- A loop that was just made and started has all its handles.
pub new-IsFree :
    (fresh : ℕ → ℕ) (junk : ℕ → Async Request)
    → IsFree (run (Loop.new fresh junk)) (fresh 0) (new_asyncs fresh 1 4)
unfolding Loop.new new_asyncs run
new-IsFree fresh junk = record { running = refl; first = refl; absent = refl; unsent = refl }
