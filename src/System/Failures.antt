-- ===== src/System/Failures.antt =====
-- When the method that is bound to a request fails in the loop's thread.
use libuvwrapper.Base.{
  ℕ, ◌≡◌, refl, Bool, true, false, not, ◌&&◌, ◌||◌, Option, none, some, Outcome, ok, abort, fault,
  arith,
}
use libuvwrapper.Requests.{Request, is_success}
use libuvwrapper.Connect.{
  drop_tcp, run_connect, run_close_connect, run_read_start, run_read_stop, run_tcp_write,
}
use libuvwrapper.Timer.{run_timer_start, run_timer_stop, start_timer}
use libuvwrapper.Accept.{server_listen_start}
use libuvwrapper.System.{System, Answers, exec}
use libuvwrapper.System.Runs.{signalled}

abbrev pub succeeds {ℓ} : {A : Type ℓ} → Outcome A → Bool
succeeds (ok a) = true
succeeds abort = false
succeeds fault = false

abbrev is_null : Option ℕ → Bool
is_null none = true
is_null (some s) = false

module _ {App : Type 0} where
  -- What makes the method fail: a stream that was never made or is deleted, a handle to release that
  -- is already deleted, a call of libuv that fails, or a missing loop.
  pub fails : Answers → Request → System App → Bool
  fails env (Request.connect me) s = (s.conns me).tcp_dead || not (s.conns me).has_loop
  fails env (Request.close_connect me) s = is_null (s.conns me).stream
  fails env (Request.read_start me) s = (s.conns me).connected && is_null (s.conns me).stream
  fails env (Request.read_stop me) s =
      is_null (s.conns me).stream || not (is_success (env.status s.calls 0))
  fails env (Request.tcp_write me p) s =
      (s.conns me).connected
      && (is_null (s.conns me).stream || not (is_success (env.status s.calls 0)))
  fails env (Request.timer_start me) s =
      not (s.timers me).has_loop || not (is_success (env.status s.calls 0))
  fails env (Request.timer_stop me) s = (s.timers me).restart && not (s.timers me).has_loop
  fails env (Request.server_listen_start me) s =
      not (s.listeners me).has_loop
      || (not (is_success (env.status s.calls 0)) || not (is_success (env.status s.calls 1)))

module _ {App : Type 0} where
  -- The method that is bound to a request succeeds in the loop's thread exactly where none of this
  -- holds, for each of the eight kinds of request.
  pub succeeds-exec :
      (env : Answers) (r : Request) (s : System App) → succeeds (exec env r s) ≡ not (fails env r s)
  unfolding exec fails run_connect drop_tcp run_close_connect run_read_start run_read_stop
      run_tcp_write run_timer_start run_timer_stop start_timer server_listen_start
  succeeds-exec env (Request.connect me) s = ground arith
  succeeds-exec env (Request.close_connect me) s = ground arith
  succeeds-exec env (Request.read_start me) s = ground arith
  succeeds-exec env (Request.read_stop me) s = ground arith
  succeeds-exec env (Request.tcp_write me p) s = ground arith
  succeeds-exec env (Request.timer_start me) s = ground arith
  succeeds-exec env (Request.timer_stop me) s = ground arith
  succeeds-exec env (Request.server_listen_start me) s = ground arith

  -- The signal plays no part in it.
  pub fails-signalled :
      (env : Answers) (h : ℕ) (r : Request) (s : System App)
      → fails env r (signalled h s) ≡ fails env r s
  unfolding fails
  fails-signalled env h (Request.connect me) s = refl
  fails-signalled env h _ s = refl
