-- ===== src/Loop.antt =====
-- libuvcpp/loop.h and libuvcpp/loop.cpp: the class `uvloop`, which hands requests to the loop's
-- thread through a pool of five async handles. What a request's callback is, is a parameter `Cb`.
-- libuv is outside: `sent` lists the handles on which uv_async_send was called and whose callback
-- is still to come, and `stopping` says that uv_stop was called.
pub mod Pool
pub mod Send
pub mod Callback
pub mod Interleavings
pub mod Delivery
pub mod Capacity
pub mod Promise
pub mod Shutdown
mod Tests
use libuvwrapper.Base.{
  ℕ, zero, suc, ◌+◌, ◌≡◌, Bool, true, false, Option, none, some, List, [], ◌∷◌, ◌++◌, if◌then◌else◌,
  ◌==◌, Outcome, ok, fault, abort, ◌>>=◌, ◌>>◌, not,
}
use libuvwrapper.Base.Assoc.{Assoc, find, insert, erase}

-- UV_ASYNC_HANDE
abbrev pub uv_async_hande : ℕ
uv_async_hande = 5

-- eType
pub data EventType : Type 0 where
  loop_stop tcp_connect tcp_close tcp_write tcp_listen : EventType
  timer_start timer_stop tcp_read_start tcp_read_stop : EventType

-- elooperr
pub data LoopError : Type 0 where
  no_err busy stopped : LoopError

-- The code of an error, as AddReq returns it.
abbrev pub error_code : LoopError → ℕ
error_code no_err = 0
error_code busy = 1
error_code stopped = 2

-- `err == 0`
abbrev pub is_ok : LoopError → Bool
is_ok e = error_code e == 0

-- stAsync without its handle: the type of the event, whether `ploop` points to the loop, and the
-- callback, `none` for nullptr.
pub record Async (Cb : Type 0) : Type 0 where
  pub event : EventType
  pub ploop : Bool
  pub tcb : Option Cb

-- uvloop. An stAsync begins with its uv_async_t, so one number is the address of both;
-- `asyncs` holds the objects by address.
pub record Loop (Cb : Type 0) : Type 0 where
  pub running : Bool
  pub asyncs : ℕ → Async Cb
  pub map_async : Assoc
  pub d_async : List ℕ
  pub sent : List ℕ
  pub stopping : Bool

-- What the callback of an async handle has to do: run the request, or stop the loop.
pub data Action (Cb : Type 0) : Type 0 where
  call : Cb → Action Cb
  stop_loop : Action Cb

-- The `for` of the constructor: `n` objects, the i-th at address `fresh i`.
unfoldable pub new_asyncs : (ℕ → ℕ) → ℕ → ℕ → List ℕ
new_asyncs fresh i zero = []
new_asyncs fresh i (suc n) = fresh i ∷ new_asyncs fresh (i + 1) n

module _ {Cb : Type 0} where
  -- The object at address `h` is given anew.
  abbrev pub update : (ℕ → Async Cb) → ℕ → Async Cb → ℕ → Async Cb
  update asyncs h o x = if h == x then o else asyncs x

  -- uvloop(). The members of a new stAsync are not set: `junk` is what they hold.
  unfoldable pub new : (ℕ → ℕ) → (ℕ → Async Cb) → Loop Cb
  unfolding new_asyncs
  new fresh junk = record {
    running = false;
    asyncs = junk;
    map_async = [];
    d_async = new_asyncs fresh 0 uv_async_hande;
    sent = [];
    stopping = false;
  }

  -- The object that AddReq puts on its way, and the call of uv_async_send.
  unfoldable pub send_async : Loop Cb → ℕ → List ℕ → Async Cb → Loop Cb
  send_async l h rest o = record l {
    asyncs = update l.asyncs h o;
    d_async = rest;
    map_async = insert h h l.map_async;
    sent = l.sent ++ (h ∷ []);
  }

  -- The locked part of AddReq.
  unfoldable pub enqueue : Loop Cb → EventType → Cb → List ℕ → LoopError × Loop Cb
  unfolding send_async
  enqueue l e cb [] = (busy, l)
  enqueue l e cb (h ∷ rest) =
      (no_err, send_async l h rest (record { event = e; ploop = true; tcb = some cb }))

  -- AddReq
  unfoldable pub add_req : Loop Cb → EventType → Cb → LoopError × Loop Cb
  unfolding enqueue
  add_req l e cb = if l.running then enqueue l e cb l.d_async else (stopped, l)

  -- The locked part of `stop`. The object keeps the callback that it has.
  unfoldable pub enqueue_stop : Loop Cb → List ℕ → Loop Cb
  unfolding send_async
  enqueue_stop l [] = l
  enqueue_stop l (h ∷ rest) =
      send_async l h rest (record (l.asyncs h) { event = loop_stop; ploop = true })

  unfoldable pub stop : Loop Cb → Loop Cb
  unfolding enqueue_stop
  stop l = if l.running then enqueue_stop l l.d_async else l

  unfoldable pub is_running : Loop Cb → Bool
  is_running l = l.running

  -- `run`, for which the thread that it starts is `theadRun`.
  unfoldable pub run : Loop Cb → Loop Cb
  run l = if l.running then l else record l { running = true }

  -- The end of `theadRun`, when uv_run has returned.
  unfoldable pub end_thread : Loop Cb → Loop Cb
  end_thread l = record l { running = false }

  -- `pSt->tcb()`: an empty std::function throws.
  unfoldable pub run_callback : Option Cb → Outcome (Action Cb)
  run_callback none = fault
  run_callback (some cb) = ok (call cb)

  -- The `switch` of the async callback. To stop the loop it goes through `ploop`.
  unfoldable pub action_of : EventType → Async Cb → Outcome (Action Cb)
  unfolding run_callback
  action_of loop_stop o = if o.ploop then ok stop_loop else fault
  action_of tcp_connect o = run_callback o.tcb
  action_of tcp_close o = run_callback o.tcb
  action_of tcp_write o = run_callback o.tcb
  action_of tcp_listen o = run_callback o.tcb
  action_of timer_start o = run_callback o.tcb
  action_of timer_stop o = run_callback o.tcb
  action_of tcp_read_start o = run_callback o.tcb
  action_of tcp_read_stop o = run_callback o.tcb

  unfoldable pub dispatch : Loop Cb → ℕ → Outcome (Action Cb)
  unfolding action_of
  dispatch l h = action_of (l.asyncs h).event (l.asyncs h)

  -- What follows the `switch`'s call: `pSt->tcb = nullptr`, and the handle goes back to the deque.
  -- Where the map does not have it, the code reads through the end iterator.
  unfoldable pub give_back : Loop Cb → ℕ → Option ℕ → Outcome (Loop Cb)
  give_back l h none = fault
  give_back l h (some o) =
      ok (record l { d_async = l.d_async ++ (o ∷ []); map_async = erase h l.map_async })

  unfoldable pub unset_callback : Loop Cb → ℕ → Loop Cb
  unset_callback l h = record l { asyncs = update l.asyncs h (record (l.asyncs h) { tcb = none }) }

  unfoldable pub finish : Loop Cb → ℕ → Outcome (Loop Cb)
  unfolding give_back unset_callback
  finish l h =
      if (l.asyncs h).ploop then give_back (unset_callback l h) h (find h l.map_async) else fault

  -- uv_stop
  unfoldable pub uv_stop : Loop Cb → Loop Cb
  uv_stop l = record l { stopping = true }

-- A world that has a loop: how the components beside the loop see it.
pub record HasLoop (Cb W : Type 0) : Type 0 where
  pub get : W → Loop Cb
  pub put : Loop Cb → W → W
  pub get-put : (l : Loop Cb) (w : W) → get (put l w) ≡ l

module _ {Cb W : Type 0} (has : HasLoop Cb W) (exec : Cb → W → Outcome W) where
  unfoldable pub perform : Action Cb → W → Outcome W
  perform (call cb) w = exec cb w
  perform stop_loop w = ok (has.put (uv_stop (has.get w)) w)

  -- The callback that every handle is registered with, as a whole. `exec` runs a request's
  -- callback, which may itself use the loop.
  unfoldable pub on_async : ℕ → W → Outcome W
  unfolding perform
  on_async h w = do
    a ← dispatch (has.get w) h
    w ← perform a w
    l ← finish (has.get w) h
    ok (has.put l w)
