-- ===== src/Timer/Firing.antt =====
-- The timer fires.
use libuvwrapper.Base.{
  ℕ, ◌≡◌, ◌≢◌, refl, sym, ◌∙◌, inl, inr, ◌↔◌, true, false, [], ◌∷◌, ◌++◌, Bool-cases, ==_iff, ◌==◌,
  Outcome, ok, ◌>>=◌,
}
use libuvwrapper.Loop.{EventType, is_ok, add_req}
use libuvwrapper.Requests.{Request, UvCall, success}
use libuvwrapper.Timer.{World, start_timer, run_timer_start, timer_cb}

-- After a timer has fired it counts as started exactly if it repeats and the user's callback left
-- it started; the callback runs once, before that.
timer_cb_started :
    (user : World → Outcome World) (w w' : World)
    → w.timer.has_callback ≡ true
    → user w ≡ ok w'
    → (u : World) × (timer_cb user w ≡ ok u)
      × ((u.timer.started ≡ true) ↔ ((w'.timer.repeat ≢ 0) × (w'.timer.started ≡ true)))
      × (u.loop ≡ w'.loop)
      × (u.calls ≡ w'.calls)
unfolding timer_cb
timer_cb_started user w w' has ran = elim (Bool-cases (w'.timer.repeat == 0)) [
  | inl once ↦ (
    record w' { timer = record (w'.timer) { started = false } },
    simp (has, ran, once),
    (λ e. cc, λ h. absurd (h.0 ((==_iff w'.timer.repeat 0).0 once))),
    refl,
    refl,
  )
  | inr again ↦ (
    w',
    simp (has, ran, again),
    (λ e. (λ z. true_ne_false (sym ((==_iff w'.timer.repeat 0).1 z) ∙ again), e), λ h. h.1),
    refl,
    refl,
  )
]
  where
    true_ne_false : true ≡ false → ⊥
    true_ne_false e = cc

-- A timer that does not repeat, started by the loop and left alone by its callback, can be
-- started again once it has fired: `startTimer` asks the loop to.
one_shot_again :
    (me : ℕ) (w : World)
    → w.timer.has_callback ≡ true
    → w.timer.has_loop ≡ true
    → w.timer.repeat ≡ 0
    → (fired : World) × ((run_timer_start me success w >>= timer_cb (λ u. ok u)) ≡ ok fired)
      × (fired.calls
          ≡ (w.calls ++ (UvCall.init_timer me ∷ []))
            ++ (UvCall.start_timer me w.timer.delay 0 ∷ []))
      × (start_timer me false fired
          ≡ ok (
            is_ok (add_req w.loop EventType.timer_start (Request.timer_start me)).0,
            record fired {
              loop = (add_req w.loop EventType.timer_start (Request.timer_start me)).1;
            },
          ))
unfolding run_timer_start timer_cb start_timer
one_shot_again me w has loop once = (
  record w {
    timer = record (w.timer) { started = false };
    calls =
        (w.calls ++ (UvCall.init_timer me ∷ [])) ++ (UvCall.start_timer me w.timer.delay 0 ∷ []);
  },
  simp (loop, has, once),
  refl,
  simp loop,
)
