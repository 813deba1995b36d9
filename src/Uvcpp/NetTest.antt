-- ===== src/Uvcpp/NetTest.antt =====
-- uvcppclient_test/netTest.cpp: the program that tests `uvcpp`. Between its calls the loop's thread
-- runs; what it does there is a parameter. Waiting for input and sleeping do nothing else.
pub mod Delivered
pub mod Unserved
use libuvwrapper.Base.{ℕ, zero, suc, ◌+◌, true, List, [], ◌∷◌, Outcome, ok, ◌>>=◌}
use libuvwrapper.Memory.{Allocator}
use libuvwrapper.Uvcpp.{Client, new, connect_host, set_auto_reconnect, send, close, stop}
use libuvwrapper.Uvcpp.Events.{run}

-- "hello"
abbrev pub hello : List ℕ
hello = 104 ∷ 101 ∷ 108 ∷ 108 ∷ 111 ∷ []

-- What the loop's thread does while the program's own waits.
abbrev pub Meanwhile : Type 0
Meanwhile = Client → Outcome Client

-- The loop that sends. Its round `i` is followed by a wait.
unfoldable pub send_rounds : Allocator → (ℕ → Meanwhile) → ℕ → ℕ → Client → Outcome Client
send_rounds a between i zero c = ok c
send_rounds a between i (suc n) c = do
  r ← send a hello 5 c
  c ← between i r.1
  send_rounds a between (i + 1) n c

-- `i++ < 5000`
abbrev pub rounds : ℕ
rounds = 5000

-- _tmain. `addr` is what uv_ip4_addr writes for 127.0.0.1 and 50000.
unfoldable pub main : Allocator → ℕ → Meanwhile → (ℕ → Meanwhile) → Meanwhile → Outcome Client
main a addr starting between pausing = do
  c ← starting (run (set_auto_reconnect true (connect_host addr (new a))))
  c ← send_rounds a between 0 rounds c
  c ← close c
  c ← pausing c
  c ← send_rounds a between rounds rounds c
  stop c
