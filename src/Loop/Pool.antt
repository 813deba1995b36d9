-- ===== src/Loop/Pool.antt =====
-- The pool of async handles under every interleaving: AddReq and `stop` may come from any thread,
-- also while a callback runs, so the callback of a handle is two steps, its dispatch and the
-- return of the handle. libuv calls back only for a handle that was signalled.
use libuvwrapper.Base.{
  ℕ, ◌+◌, ◌≤◌, ◌<◌, ◌≡◌, ◌⊎◌, true, false, some, List, ◌++◌, map, arith, length, ◌==◌, ==_refl,
  count,
}
use libuvwrapper.Base.Assoc.{keys, IsKeyed}
use libuvwrapper.Loop.{loop_stop, Async, Loop, update}
use mathlib.Core.List.{Perm}

-- The loop, the handles whose callback is running, the objects that were sent with uv_async_send,
-- and those that a callback has found, in order.
pub record Sys (Cb : Type 0) : Type 0 where
  pub loop : Loop Cb
  pub current : List ℕ
  pub accepted : List (Async Cb)
  pub executed : List (Async Cb)

module _ {Cb : Type 0} where
  -- A callback finds a request to run, or the order to stop.
  pub record Armed (o : Async Cb) : Type 0 where
    pub aimed : o.ploop ≡ true
    pub loaded : (o.event ≡ loop_stop) ⊎ ((cb : Cb) × (o.tcb ≡ some cb))

  -- `hs` are the handles that the constructor registers.
  pub record Inv (hs : List ℕ) (s : Sys Cb) : Type 0 where
    pub unique : (x : ℕ) → count x hs ≤ 1
    pub conserved : (x : ℕ) → count x s.loop.d_async + count x (keys s.loop.map_async) ≡ count x hs
    pub sized : length s.loop.d_async + length (keys s.loop.map_async) ≡ length hs
    pub signalled :
        (x : ℕ) → count x s.current + count x s.loop.sent ≡ count x (keys s.loop.map_async)
    pub keyed : IsKeyed s.loop.map_async
    pub bound : (x : ℕ) → 0 < count x (keys s.loop.map_async) → (s.loop.asyncs x).ploop ≡ true
    pub armed : (x : ℕ) → 0 < count x s.loop.sent → Armed (s.loop.asyncs x)
    pub once : Perm s.accepted (s.executed ++ map s.loop.asyncs s.loop.sent)

  pub update_other :
      (f : ℕ → Async Cb) (h : ℕ) (o : Async Cb) (x : ℕ) → (x == h) ≡ false → f x ≡ update f h o x
  update_other f h o x e = ground arith

  pub update_self : (f : ℕ → Async Cb) (h : ℕ) (o : Async Cb) → update f h o h ≡ o
  update_self f h o = rw (==_refl h)
