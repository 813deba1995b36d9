-- ===== src/TcpClient/Swap.antt =====
-- Two calls of `TcpClient::WriteData` whose requests libuv serves in the other order.
use libuvwrapper.Base.{ℕ, ◌≡◌, true, false, some, List, [], ◌∷◌, ◌++◌, ◌==◌, count}
use libuvwrapper.Base.Assoc.{keys}
use libuvwrapper.Memory.{Allocator}
use libuvwrapper.Loop.{EventType}
use libuvwrapper.Requests.{Request, UvCall, success}
use libuvwrapper.Connect.{Connect}
use libuvwrapper.Connect.Sends.{Inv}
use libuvwrapper.Connect.Write.{Written}
use libuvwrapper.System.{System, Answers, conn_world}
use libuvwrapper.System.Dispatch.{IsFree, posted, served}
use libuvwrapper.TcpClient.Write.{base}
use libuvwrapper.TcpClient.Order.{without, wrote}

-- A connection that stands, with a sound pool.
pub record Stands (c : Connect) (stream : ℕ) : Type 0 where
  pub connected : c.connected ≡ true
  pub has_loop : c.has_loop ≡ true
  pub open_stream : c.stream ≡ some stream
  pub pool : Inv c

-- What stays out of the pool between the two calls, and what the calls need.
module _ {App : Type 0} (a : Allocator) (env : Answers) (me first second : ℕ) (xs : List ℕ) (n : ℕ)
    (ys : List ℕ) (m : ℕ) (s : System App) (h k stream : ℕ) (rest : List ℕ) where
  -- The system after the first call.
  abbrev asked : Connect → ℕ → System App
  asked c p = record (base a env me first xs n s h stream (k ∷ rest) c) {
    loop = posted s.loop h (k ∷ rest) EventType.tcp_write (Request.tcp_write me p);
  }

  module _ (c d : Connect) (p q : ℕ) (w : Written a me first xs n (conn_world me s) c p)
      (v : Written a me second ys m (conn_world me (asked c p)) d q) where
    module _ (f : IsFree s.loop h (k ∷ rest)) (apart : (h == k) ≡ false)
        (absent : count k (keys s.loop.map_async) ≡ 0) (unsent : count k s.loop.sent ≡ 0)
        (taken : (us : List UvCall) → env.status us 0 ≡ success)
        (on : (s.conns me).connected ≡ true) (open_stream : (s.conns me).stream ≡ some stream) where
      -- The system after the second call, and after each of the two callbacks.
      abbrev both : System App
      both = base a env me second ys m (asked c p) k stream rest d

      abbrev second_written : System App
      second_written = wrote a env me second ys m (asked c p) k stream rest d q v taken both

      abbrev before_first : System App
      before_first = record second_written {
        loop =
            without s.loop h k rest (Request.tcp_write me p) (Request.tcp_write me q) apart f absent
              unsent;
      }

      abbrev first_written : System App
      first_written =
          wrote a env me first xs n s h stream (rest ++ (k ∷ [])) c p w taken before_first

      abbrev reached : System App
      reached = record first_written {
        loop =
            served before_first.loop h (rest ++ (k ∷ [])) EventType.tcp_write
              (Request.tcp_write me p);
      }
