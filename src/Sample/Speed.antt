-- ===== src/Sample/Speed.antt =====
-- The two threads of uvwrapper.cpp that share `datalen`: the loop's thread adds to it, the thread
-- that prints the speed takes it. Both accesses are atomic, so they come in some order.
use libuvwrapper.Base.{ℕ, ◌+◌, ◌%◌, ◌≡◌, List, [], ◌∷◌, length, arith}
use libuvwrapper.Memory.{word_mod}
use libuvwrapper.Connect.{Event, ev_connect, ev_read, ev_write, ev_close}
use libuvwrapper.Sample.{App, on_handler_callback, take_speed}

-- One access.
pub data Tick : Type 0 where
  told : Event → Tick
  asked : Tick

-- The bytes that a tick stands for, with 40 for the headers of each read.
abbrev pub weight : Tick → ℕ
weight (told (ev_read bytes)) = length bytes + 40
weight (told (ev_write _)) = 0
weight (told ev_close) = 0
weight (told (ev_connect _)) = 0
weight asked = 0

abbrev pub weights : List Tick → ℕ
weights [] = 0
weights (t ∷ ts) = weight t + weights ts

-- The sum of what the second thread takes, and what is left.
unfoldable pub play : List Tick → App → ℕ × App
play [] a = (0, a)
play (told e ∷ ts) a = play ts (on_handler_callback e a)
play (asked ∷ ts) a =
    let (taken, rest) = take_speed a in let (sum, last) = play ts rest in (taken + sum, last)

callback_adds :
    (e : Event) (a : App)
    → (on_handler_callback e a).datalen % word_mod ≡ (a.datalen + weight (told e)) % word_mod
unfolding on_handler_callback
callback_adds (ev_read bytes) a = omega arith
callback_adds (ev_write _) a = omega arith
callback_adds ev_close a = omega arith
callback_adds (ev_connect _) a = omega arith

-- Nothing is counted twice and nothing is missed: in whatever order the two threads run, what the
-- second thread has taken and what is left add up to what was there and the bytes of the reads, with
-- 40 for each, modulo 2 ^ 64.
pub bytes_counted_once :
    (ts : List Tick) (a : App)
    → ((play ts a).0 + (play ts a).1.datalen) % word_mod ≡ (a.datalen + weights ts) % word_mod
unfolding play take_speed
bytes_counted_once [] a = omega arith
bytes_counted_once (told e ∷ ts) a =
    omega (arith, callback_adds e a, bytes_counted_once ts (on_handler_callback e a))
bytes_counted_once (asked ∷ ts) a = omega (arith, bytes_counted_once ts (record a { datalen = 0 }))
