-- ===== src/Loop/Promise.antt =====
-- What `uvloop` promises: it holds requests in no order that can be told, at most five at a time, and
-- hands each out once.
pub mod Kept
use libuvwrapper.Base.{
  suc, length, ℕ, ◌+◌, ◌≤◌, ◌<◌, ◌≡◌, refl, sym, subst, ap, ◌∙◌, ◌⊎◌, inl, inr, Bool, true, false,
  some, List, [], ◌∷◌, ◌++◌, map, ok, count, arith, remove, map-without, map-remove, length,
  length-remove, Bool-cases,
}
use libuvwrapper.Base.Assoc.{keys, erase, keys-erase}
use libuvwrapper.Loop.{
  EventType, loop_stop, LoopError, no_err, busy, stopped, Async, Loop, Action, call, stop_loop, new,
  add_req, enqueue, send_async, stop, enqueue_stop, run, end_thread, dispatch, finish, give_back,
  unset_callback, uv_async_hande, uv_stop,
}
use libuvwrapper.Loop.Pool.{Sys, Inv, update_other}
use libuvwrapper.Loop.Send.{requested, stop_requested}
use libuvwrapper.Loop.Callback.{delivered, finished, emptied, silent, in_map, finish_lem}
use libuvwrapper.Loop.Interleavings.{
  Step, request, halt, start, leave, deliver, complete, Reach, here, next, initial, IsInjective,
  handles, reachable-Inv, Step-Inv,
}
use libuvwrapper.Loop.Capacity.{in_flight, Accepts, add_req_cases, stop_cases}
use libuvwrapper.Loop.Delivery.{Means, callback_defined}
use mathlib.Core.List.{Perm, perm_append_singleton, map-append}
use mathlib.Core.List.Perm
use mathlib.Core.Quot
use mathlib.Core.Quot.{Quot, Quot-set}

-- Objects on their way, in no order.
abbrev pub Bag : Type 0 → Type 0
Bag Cb = Quot (λ (xs ys : List (Async Cb)). Perm xs ys)

-- The machine: whether it runs, whether uv_stop was called, what waits for a callback, how many
-- callbacks run, and how much of its room these and those take.
pub record Promise (Cb : Type 0) : Type 0 where
  pub running : Bool
  pub stopping : Bool
  pub waiting : Bag Cb
  pub serving : ℕ
  pub taken : ℕ

-- What is seen of a step: the code that AddReq returns for a request, that `stop` is called, what a
-- callback does, that one ends, and that the loop starts to run or its thread ends.
pub data Label (Cb : Type 0) : Type 0 where
  asked : LoopError → EventType → Cb → Label Cb
  ordered : Label Cb
  given : Action Cb → Label Cb
  ended begun left : Label Cb

module _ {Cb : Type 0} where
  unfoldable pub put : Async Cb → Bag Cb → Bag Cb
  put o = Quot.lift Quot-set (λ xs. Quot.mk (o ∷ xs)) (λ xs ys h. Quot.sound (Perm.cons o h))

  abbrev pub stopped_by : Action Cb → Bool → Bool
  stopped_by (call cb) b = b
  stopped_by stop_loop b = true

  pub data Move (p q : Promise Cb) : Label Cb → Type 0 where
    -- AddReq takes a request, with no error, where it runs and there is room.
    ask :
        (e : EventType) (cb : Cb)
        → p.running ≡ true
        → p.taken < uv_async_hande
        → q ≡ record p {
          waiting = put (record { event = e; ploop = true; tcb = some cb }) p.waiting;
          taken = p.taken + 1;
        }
        → Move p q (asked no_err e cb)
    -- It refuses one where it does not run, or there is no room.
    refuse_stopped :
        (e : EventType) (cb : Cb) → p.running ≡ false → q ≡ p → Move p q (asked stopped e cb)
    refuse_busy :
        (e : EventType) (cb : Cb)
        → p.running ≡ true
        → p.taken ≡ uv_async_hande
        → q ≡ p
        → Move p q (asked busy e cb)
    -- `stop` does the same with an order to stop.
    order :
        (o : Async Cb)
        → o.event ≡ loop_stop
        → p.running ≡ true
        → p.taken < uv_async_hande
        → q ≡ record p { waiting = put o p.waiting; taken = p.taken + 1 }
        → Move p q ordered
    refuse_order : (p.running ≡ false) ⊎ (p.taken ≡ uv_async_hande) → q ≡ p → Move p q ordered
    -- A callback is given any of what waits, and does what it was sent for.
    give :
        (o : Async Cb) (a : Action Cb) (rest : Bag Cb)
        → p.waiting ≡ put o rest
        → Means o a
        → q
          ≡ record p { waiting = rest; serving = suc p.serving; stopping = stopped_by a p.stopping }
        → Move p q (given a)
    -- One that runs ends, and there is room for one more.
    end :
        (n m : ℕ)
        → p.taken ≡ n + 1
        → p.serving ≡ suc m
        → q ≡ record p { taken = n; serving = m }
        → Move p q ended
    begin_run : q ≡ record p { running = true } → Move p q begun
    end_run : q ≡ record p { running = false } → Move p q left

  pub data Moves (p : Promise Cb) : Promise Cb → List (Label Cb) → Type 0 where
    still : Moves p p []
    also :
        {q r : Promise Cb} {xs : List (Label Cb)} {x : Label Cb}
        → Moves p q xs
        → Move q r x
        → Moves p r (xs ++ (x ∷ []))

  -- What is seen of a step of the loop, and of a run.
  unfoldable pub label : {s t : Sys Cb} → Step s t → Label Cb
  label {s} (request e cb p) = asked (add_req s.loop e cb).0 e cb
  label (halt p) = ordered
  label (start p) = begun
  label (leave p) = left
  label (deliver h a k d p) = given a
  label (complete h l k f p) = ended

  unfoldable pub trace : {s t : Sys Cb} → Reach s t → List (Label Cb)
  unfolding label
  trace here = []
  trace (next r step) = trace r ++ (label step ∷ [])

  -- What the loop is for the machine.
  abbrev pub promise : Sys Cb → Promise Cb
  promise s = record {
    running = s.loop.running;
    stopping = s.loop.stopping;
    waiting = Quot.mk (map s.loop.asyncs s.loop.sent);
    serving = length s.current;
    taken = in_flight s.loop;
  }

-- The machine with nothing in it.
abbrev pub empty : {Cb : Type 0} → Promise Cb
empty = record { running = false; stopping = false; waiting = Quot.mk []; serving = 0; taken = 0 }
