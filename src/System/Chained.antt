-- ===== src/System/Chained.antt =====
-- A request whose method, while it runs in the loop's thread, hands the loop one more request.
use libuvwrapper.Base.{
  ℕ, ◌≡◌, ◌≢◌, refl, sym, ap, ◌∙◌, inl, inr, false, none, some, List, [], ◌∷◌, ◌++◌, arith, ◌==◌,
  ==_refl, ==_iff, Bool-cases, ok, count,
}
use libuvwrapper.Base.Assoc.{keys, find, erase}
use libuvwrapper.Loop.{
  Async, Loop, EventType, loop_stop, update, finish, give_back, unset_callback, on_async, perform,
}
use libuvwrapper.Requests.{Request}
use libuvwrapper.System.{System, Answers, exec, async_callback}
use libuvwrapper.System.Dispatch.{IsFree, posted, serving, filled, remove_last, dispatch-serving}
use mathlib.Core.Path.{fun_ext}

pub update_again : (f : ℕ → Async Request) (h : ℕ) (v : Async Request) → f h ≡ v → update f h v ≡ f
update_again f h v e = fun_ext λ x. elim (Bool-cases (h == x)) [
  | inl same ↦ rw same (sym e ∙ ap f ((==_iff h x).0 same))
  | inr other ↦ rw other refl
]

module _ (l : Loop Request) (h k : ℕ) (rest : List ℕ) (e d : EventType) (r q : Request)
    (apart : (h == k) ≡ false) where
  -- The loop when the method of `r` has asked for `q` at the handle `k`.
  abbrev pub both : Loop Request
  both = posted (serving l h (k ∷ rest) e r) k rest d q

  -- The loop after the callback of `h`, without the request `q`.
  abbrev pub chained : Loop Request
  chained = record l {
    asyncs = update both.asyncs h (filled e none);
    d_async = k ∷ (rest ++ (h ∷ []));
  }

  pub chained-IsFree :
      IsFree l h (k ∷ rest)
      → count k (keys l.map_async) ≡ 0
      → count k l.sent ≡ 0
      → IsFree chained k (rest ++ (h ∷ []))
  chained-IsFree f absent unsent = record {
    running = f.running;
    first = refl;
    absent = absent;
    unsent = unsent;
  }

  flipped : (k == h) ≡ false
  flipped = ground arith

  erase_second : erase h ((k, k) ∷ (h, h) ∷ l.map_async) ≡ (k, k) ∷ l.map_async
  unfolding erase
  erase_second = rw (flipped, ==_refl h) refl

  finish-both : finish both h ≡ ok (posted chained k (rest ++ (h ∷ [])) d q)
  unfolding finish give_back unset_callback find
  finish-both =
      rw (flipped, ==_refl h, erase_second)
        (ap (λ g. ok (record (posted chained k (rest ++ (h ∷ [])) d q) { asyncs = g }))
          (sym (update_again chained.asyncs k (filled d (some q)) (rw (apart, ==_refl k) refl))))

module _ {App : Type 0} (env : Answers) (s t : System App) (h k : ℕ) (rest : List ℕ)
    (e d : EventType) (r q : Request) (apart : (h == k) ≡ false) where
  -- The callback of `h` leaves its handle free, and the request `q` on its way.
  pub async_callback-chained :
      IsFree s.loop h (k ∷ rest)
      → e ≢ loop_stop
      → exec env r (record s { loop = serving s.loop h (k ∷ rest) e r }) ≡ ok t
      → t.loop ≡ both s.loop h k rest e d r q apart
      → async_callback env h (record s { loop = posted s.loop h (k ∷ rest) e r })
        ≡ ok (record t {
          loop = posted (chained s.loop h k rest e d r q apart) k (rest ++ (h ∷ [])) d q;
        })
  unfolding async_callback on_async perform
  async_callback-chained f ne ran same =
      rw
        (
          remove_last h s.loop.sent f.unsent,
          dispatch-serving s.loop h (k ∷ rest) e r f ne,
          ran,
          same,
          finish-both s.loop h k rest e d r q apart,
        )
        refl
