-- ===== src/Loop/Callback.antt =====
-- The two halves of a handle's callback keep the pool's invariant, and the second never faults.
use libuvwrapper.Base.{
  ℕ, ◌+◌, ◌<◌, ◌≡◌, sym, ap, ◌∙◌, inl, inr, Bool, true, none, List, [], ◌∷◌, ◌++◌, map, arith,
  length, length-append, ◌==◌, ==_iff, Bool-cases, ok, one_if, count, remove, count-append,
  count-remove, length-remove, map-remove, map-without,
}
use libuvwrapper.Base.Assoc.{keys, erase, find_present, keys-erase, erase-IsKeyed}
use libuvwrapper.Loop.{Async, Loop, Action, call, stop_loop, update, finish, uv_stop}
use mathlib.Core.List.{Perm, append_assoc}
use mathlib.Core.List.Perm
use libuvwrapper.Loop.Pool.{Sys, Armed, Inv, update_other}

module _ {Cb : Type 0} where
  -- Effects of a dispatch on the loop itself.
  abbrev pub after_action : Action Cb → Loop Cb → Loop Cb
  after_action (call cb) l = l
  after_action stop_loop l = uv_stop l

  -- libuv makes the callback of the handle `h`: the signal is used up.
  abbrev pub delivered : Sys Cb → ℕ → Action Cb → Sys Cb
  delivered s h a = record s {
    loop = after_action a (record s.loop { sent = remove h s.loop.sent });
    current = h ∷ s.current;
    executed = s.executed ++ (s.loop.asyncs h ∷ []);
  }

  -- The two flags play no part in the invariant.
  pub flags-Inv :
      {hs : List ℕ} {s : Sys Cb}
      → Inv hs s
      → (b c : Bool) → Inv hs (record s { loop = record (s.loop) { running = b; stopping = c } })
  flags-Inv v b c = record {
    unique = v.unique;
    conserved = v.conserved;
    sized = v.sized;
    signalled = v.signalled;
    keyed = v.keyed;
    bound = v.bound;
    armed = v.armed;
    once = v.once;
  }

  abbrev taken : Sys Cb → ℕ → Sys Cb
  taken s h = record s {
    loop = record (s.loop) { sent = remove h s.loop.sent };
    current = h ∷ s.current;
    executed = s.executed ++ (s.loop.asyncs h ∷ []);
  }

  taken-Inv :
      (hs : List ℕ) (s : Sys Cb) (h : ℕ) → Inv hs s → 0 < count h s.loop.sent → Inv hs (taken s h)
  taken-Inv hs s h v k = record {
    unique = v.unique;
    conserved = v.conserved;
    sized = v.sized;
    signalled = λ x. omega (arith, v.signalled x, count-remove x h s.loop.sent k);
    keyed = v.keyed;
    bound = v.bound;
    armed = λ x j. v.armed x (omega (arith, count-remove x h s.loop.sent k, j));
    once = once_delivered;
  }
    where
      once_delivered :
          Perm s.accepted
            ((s.executed ++ (s.loop.asyncs h ∷ [])) ++ map s.loop.asyncs (remove h s.loop.sent))
      once_delivered = rw append_assoc (
          Perm.trans v.once
            (Perm.append_left s.executed (map-remove s.loop.asyncs h s.loop.sent k)))

  pub delivered-Inv :
      (hs : List ℕ) (s : Sys Cb) (h : ℕ) (a : Action Cb)
      → Inv hs s
      → 0 < count h s.loop.sent
      → Inv hs (delivered s h a)
  unfolding uv_stop
  delivered-Inv hs s h stop_loop v k = flags-Inv (taken-Inv hs s h v k) s.loop.running true
  delivered-Inv hs s h (call cb) v k = taken-Inv hs s h v k

  -- The handle whose callback ends is in the map, and not signalled again.
  module _ (hs : List ℕ) (s : Sys Cb) (v : Inv hs s) (h : ℕ) (k : 0 < count h s.current) where
    abbrev m : Loop Cb
    m = s.loop

    pub in_map : 0 < count h (keys m.map_async)
    in_map = omega (arith, v.signalled h)

    pub silent : count h m.sent ≡ 0
    silent = omega (arith, v.signalled h, v.conserved h, v.unique h)

    abbrev pub emptied : ℕ → Async Cb
    emptied = update m.asyncs h (record (m.asyncs h) { tcb = none })

    abbrev pub finished : Loop Cb
    finished = record m {
      asyncs = emptied;
      d_async = m.d_async ++ (h ∷ []);
      map_async = erase h m.map_async;
    }

    pub finish_lem : finish m h ≡ ok finished
    unfolding finish
    finish_lem = rw (v.bound h in_map, find_present h m.map_async v.keyed in_map)

    keys_after :
        (x : ℕ)
        → count x (keys m.map_async) ≡ one_if (h == x) + count x (keys (erase h m.map_async))
    keys_after x =
        count-remove x h (keys m.map_async) in_map
        ∙ ap (λ n. one_if (h == x) + count x n) (sym (keys-erase h m.map_async))

    ploop_kept : (x : ℕ) → (emptied x).ploop ≡ (m.asyncs x).ploop
    ploop_kept x = elim (Bool-cases (h == x)) [
      | inl e ↦ rw e (ap (λ y. (m.asyncs y).ploop) ((==_iff h x).0 e))
      | inr e ↦ rw e
    ]

    kept_ready : (x : ℕ) → 0 < count x m.sent → Armed (emptied x)
    kept_ready x j = elim (Bool-cases (h == x)) [
      | inl e ↦ absurd (omega (arith, silent, ap (λ y. count y m.sent) ((==_iff h x).0 e)))
      | inr e ↦ rw e (v.armed x j)
    ]

    pub finish-Inv : Inv hs (record s { loop = finished; current = remove h s.current })
    finish-Inv = record {
      unique = v.unique;
      conserved =
          λ x. omega (arith, v.conserved x, keys_after x, count-append x m.d_async (h ∷ []));
      sized = omega (
        arith,
        v.sized,
        length-append m.d_async (h ∷ []),
        length-remove h (keys m.map_async) in_map,
        ap length (keys-erase h m.map_async),
      );
      signalled = λ x. omega (arith, v.signalled x, keys_after x, count-remove x h s.current k);
      keyed = erase-IsKeyed h m.map_async v.keyed;
      bound = λ x j. ploop_kept x ∙ v.bound x (omega (arith, keys_after x, j));
      armed = kept_ready;
      once =
          rw (← map-without m.asyncs emptied h m.sent (λ x e. update_other m.asyncs h _ x e) silent)
            v.once;
    }
