-- ===== src/TcpClient/Order.antt =====
-- Two calls of `TcpClient::WriteData`, and the order in which their bytes come to uv_write.
use libuvwrapper.Base.{
  ℕ, ◌≡◌, refl, sym, ap, ◌∙◌, true, false, some, List, [], ◌∷◌, ◌++◌, arith, take, ◌==◌, ==_refl,
  ok, ◌>>=◌, count, count-append, one_if,
}
use libuvwrapper.Base.Assoc.{keys}
use libuvwrapper.Memory.{Allocator}
use libuvwrapper.Loop.{Loop, EventType}
use libuvwrapper.Requests.{Request, UvCall, success}
use libuvwrapper.Connect.{Connect, run_tcp_write}
use libuvwrapper.Connect.Write.{Written, written_bytes}
use libuvwrapper.System.{System, Answers, exec, async_callback, conn_world, put_conn}
use libuvwrapper.System.Chained.{update_again}
use libuvwrapper.System.Dispatch.{IsFree, posted, served, serving, filled, async_callback-posted}

-- Two requests are on their way, and the callback of the second has run.
module _ (l : Loop Request) (h k : ℕ) (rest : List ℕ) (r q : Request) (apart : (h == k) ≡ false)
    (f : IsFree l h (k ∷ rest)) (absent : count k (keys l.map_async) ≡ 0)
    (unsent : count k l.sent ≡ 0) where
  abbrev pub one : Loop Request
  one = posted l h (k ∷ rest) EventType.tcp_write r

  pub one-IsFree : IsFree one k rest
  one-IsFree = record {
    running = f.running;
    first = refl;
    absent = omega (arith, ap one_if apart, absent);
    unsent = omega (arith, count-append k l.sent (h ∷ []), ap one_if apart, unsent);
  }

  -- The loop without the first request.
  abbrev pub without : Loop Request
  without = record l {
    asyncs = (served one k rest EventType.tcp_write q).asyncs;
    d_async = h ∷ (rest ++ (k ∷ []));
  }

  pub without-IsFree : IsFree without h (rest ++ (k ∷ []))
  without-IsFree = record {
    running = f.running;
    first = refl;
    absent = f.absent;
    unsent = f.unsent;
  }

  flipped : (k == h) ≡ false
  flipped = ground arith

  pub first_left :
      served one k rest EventType.tcp_write q
      ≡ posted without h (rest ++ (k ∷ [])) EventType.tcp_write r
  first_left =
      ap (λ g. record (served one k rest EventType.tcp_write q) { asyncs = g })
        (sym (
          update_again without.asyncs h (filled EventType.tcp_write (some r))
            (rw (flipped, ==_refl h) refl)))

module _ {App : Type 0} (a : Allocator) (env : Answers) (me fresh : ℕ) (xs : List ℕ) (n : ℕ)
    (s : System App) (h stream : ℕ) (rest : List ℕ) (c : Connect) (p : ℕ)
    (w : Written a me fresh xs n (conn_world me s) c p)
    (taken : (us : List UvCall) → env.status us 0 ≡ success) where
  -- A system in which the request is on its way: the connection has the object as `wirteData` left
  -- it, and stands.
  abbrev pub Waits : System App → Type 0
  Waits t =
      ((t.conns me).sends p ≡ c.sends p)
      × ((t.conns me).connected ≡ true)
      × ((t.conns me).stream ≡ some stream)

  -- What running it leaves.
  abbrev pub wrote : System App → System App
  wrote t =
      put_conn me t
        (record (conn_world me t) { calls = t.calls ++ (UvCall.write stream p (take n xs) ∷ []) })

  exec-wrote : (t : System App) → Waits t → exec env (Request.tcp_write me p) t ≡ ok (wrote t)
  unfolding exec
  exec-wrote t (same, on, open_stream) =
      ap (λ m. m >>= λ w. ok (put_conn me t w))
        (ap (λ st. run_tcp_write p st (conn_world me t)) (taken t.calls)
          ∙ written_bytes a me fresh xs n (conn_world me s) c p stream (conn_world me t) w same on
              open_stream)

  pub async_callback-wrote :
      (t : System App)
      → IsFree t.loop h rest
      → Waits t
      → async_callback env h
          (record t { loop = posted t.loop h rest EventType.tcp_write (Request.tcp_write me p) })
        ≡ ok (record (wrote t) {
          loop = served t.loop h rest EventType.tcp_write (Request.tcp_write me p);
        })
  async_callback-wrote t f waits =
      async_callback-posted env t
        (wrote
          (record t { loop = serving t.loop h rest EventType.tcp_write (Request.tcp_write me p) }))
        h rest EventType.tcp_write (Request.tcp_write me p) f (λ e. cc)
        (exec-wrote
          (record t { loop = serving t.loop h rest EventType.tcp_write (Request.tcp_write me p) })
          waits)
        refl
