-- ===== src/Loop/Promise/Kept.antt =====
-- Every step of the loop with its handles is one of the machine.
use libuvwrapper.Base.{ℕ, ◌<◌, List, count, length}
use libuvwrapper.Base.Assoc.{keys, erase}
use libuvwrapper.Loop.{Async, Loop}
use libuvwrapper.Loop.Pool.{Sys, Inv}
use libuvwrapper.Loop.Interleavings.{Reach, initial, IsInjective, handles, reachable-Inv}
use mathlib.Core.Quot
use mathlib.Core.Quot.{Quot, Quot-set}

module _ {Cb : Type 0} where
  -- The return of a handle.
  module _ (hs : List ℕ) (s : Sys Cb) (v : Inv hs s) (h : ℕ) (k : 0 < count h s.current) where
    abbrev less : ℕ
    less = length (keys (erase h s.loop.map_async))

module _ {Cb : Type 0} (fresh : ℕ → ℕ) (junk : ℕ → Async Cb) (s : Sys Cb) (inj : IsInjective fresh)
    (r : Reach (initial fresh junk) s) where
  v : Inv (handles fresh) s
  v = reachable-Inv fresh junk inj r
