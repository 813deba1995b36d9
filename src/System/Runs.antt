-- ===== src/System/Runs.antt =====
-- Every run of a system: methods of its objects in any thread, and the callbacks of the loop's
-- thread. Such a run is one of the loop's, so what is proved of the pool of handles holds of it.
use libuvwrapper.Base.{
  ℕ, ◌<◌, ◌≡◌, refl, sym, subst, ap, ◌∙◌, List, [], ◌∷◌, arith, ==_refl, ok, count, remove,
  Yields-value,
}
use libuvwrapper.Loop.{
  Loop, Action, call, stop_loop, add_req, stop, run, dispatch, finish, perform, end_thread, uv_stop,
}
use libuvwrapper.Loop.Pool.{Sys}
use libuvwrapper.Loop.Callback.{delivered, after_action}
use libuvwrapper.Loop.Interleavings.{IsInjective, initial}
use libuvwrapper.Loop.Interleavings
use libuvwrapper.Requests.{Request}
use libuvwrapper.System.{System, Answers, exec, has_loop}
use libuvwrapper.System.Methods.{Method, invoke}
use libuvwrapper.System.Methods.Touching.{invoke-Touches}
use libuvwrapper.System.Touches.{
  Touches, untouched, request, halt, start, SystemTouches, exec-Touches,
}

module _ {App : Type 0} where
  -- The system when libuv calls back for `h`: the signal is used up.
  abbrev pub signalled : ℕ → System App → System App
  signalled h s = record s { loop = record (s.loop) { sent = remove h s.loop.sent } }

  pub data Step (env : Answers) (s t : System App) : Type 0 where
    -- A method of a connection, a timer or a listener, or a callback of libuv for a connection.
    method : (m : Method) → invoke m s ≡ ok t → Step env s t
    -- Whatever else the program does, in which it touches the loop only through AddReq, `stop` and
    -- `run`.
    others : Touches s.loop t.loop → Step env s t
    leave : t.loop ≡ end_thread s.loop → Step env s t
    -- The callback of a handle; while it runs other threads touch the loop.
    callback :
        (h : ℕ) (a : Action Request) (u : System App) (l m : Loop Request)
        → 0 < count h s.loop.sent
        → dispatch s.loop h ≡ ok a
        → perform has_loop (exec env) a (signalled h s) ≡ ok u
        → Touches u.loop l
        → finish l h ≡ ok m
        → t ≡ record u { loop = m }
        → Step env s t

  pub data Reach (env : Answers) (s : System App) : System App → Type 0 where
    here : Reach env s s
    next : {t u : System App} → Reach env s t → Step env t u → Reach env s u

-- A state of the loop's model in which no callback runs, and which has the given loop.
pub record Shadow (b : Sys Request) (current : List ℕ) (l : Loop Request) : Type 0 where
  pub sys : Sys Request
  pub reached : Interleavings.Reach b sys
  pub same : sys.loop ≡ l
  pub running : sys.current ≡ current

module _ {b : Sys Request} where
  pub touched :
      {current : List ℕ} {l m : Loop Request}
      → Shadow b current l
      → Touches l m
      → Shadow b current m
  touched x untouched = x
  touched x (request {k} e cb h p) =
      let y = touched x h in
      record {
        sys = _;
        reached = Interleavings.next y.reached (Interleavings.request e cb refl);
        same = ap (λ j. (add_req j e cb).1) y.same ∙ sym p;
        running = y.running;
      }
  touched x (halt h p) =
      let y = touched x h in
      record {
        sys = _;
        reached = Interleavings.next y.reached (Interleavings.halt refl);
        same = ap stop y.same ∙ sym p;
        running = y.running;
      }
  touched x (start h p) =
      let y = touched x h in
      record {
        sys = _;
        reached = Interleavings.next y.reached (Interleavings.start refl);
        same = ap run y.same ∙ sym p;
        running = y.running;
      }

  pub dispatched :
      {l : Loop Request} (h : ℕ) (a : Action Request)
      → Shadow b [] l
      → 0 < count h l.sent
      → dispatch l h ≡ ok a
      → Shadow b (h ∷ []) (after_action a (record l { sent = remove h l.sent }))
  dispatched {l} h a x k d = record {
    sys = delivered x.sys h a;
    reached = Interleavings.next x.reached (
        Interleavings.deliver h a (subst (λ j. 0 < count h j.sent) (sym x.same) k)
          (ap (λ j. dispatch j h) x.same ∙ d) refl);
    same = ap (λ j. after_action a (record j { sent = remove h j.sent })) x.same;
    running = ap (λ c. h ∷ c) x.running;
  }

  finished : {l m : Loop Request} (h : ℕ) → Shadow b (h ∷ []) l → finish l h ≡ ok m → Shadow b [] m
  unfolding remove
  finished {l} {m} h x e = record {
    sys = record (x.sys) { loop = m; current = remove h x.sys.current };
    reached = Interleavings.next x.reached (
        Interleavings.complete h m
          (subst (λ c. 0 < count h c) (sym x.running) (rw (==_refl h) (omega arith)))
          (ap (λ j. finish j h) x.same ∙ e) refl);
    same = refl;
    running = ap (remove h) x.running ∙ removed;
  }
    where
      removed : remove h (h ∷ []) ≡ []
      removed = rw (==_refl h) refl

module _ {App : Type 0} (env : Answers) where
  pub performed :
      (h : ℕ) (a : Action Request) (s u : System App)
      → perform has_loop (exec env) a (signalled h s) ≡ ok u
      → Touches (after_action a (record (s.loop) { sent = remove h s.loop.sent })) u.loop
  unfolding perform
  performed h (call r) s u e =
      Yields-value (SystemTouches (signalled h s).loop) _ (exec-Touches env r (signalled h s)) e
  performed h stop_loop s u e =
      Yields-value (SystemTouches (uv_stop (record (s.loop) { sent = remove h s.loop.sent })))
        (ok (record s { loop = uv_stop (record (s.loop) { sent = remove h s.loop.sent }) }))
        untouched e

  module _ {b : Sys Request} where
    Step-Shadow : {s t : System App} → Shadow b [] s.loop → Step env s t → Shadow b [] t.loop
    Step-Shadow {s} x (method m e) =
        touched x (Yields-value (SystemTouches s.loop) (invoke m s) (invoke-Touches m s) e)
    Step-Shadow x (others h) = touched x h
    Step-Shadow x (leave e) = record {
      sys = _;
      reached = Interleavings.next x.reached (Interleavings.leave refl);
      same = ap end_thread x.same ∙ sym e;
      running = x.running;
    }
    Step-Shadow {s} x (callback h a u l m k d p touch f e) =
        subst (λ v. Shadow b [] v.loop) (sym e)
          (finished h (touched (touched (dispatched h a x k d) (performed h a s u p)) touch) f)

    pub Reach-Shadow : {s t : System App} → Shadow b [] s.loop → Reach env s t → Shadow b [] t.loop
    Reach-Shadow x here = x
    Reach-Shadow x (next r st) = Step-Shadow (Reach-Shadow x r) st
