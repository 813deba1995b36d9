-- ===== src/Connect/Example.antt =====
-- A concrete connection and loops, for the tests.
use libuvwrapper.Base.{ℕ, ◌≤◌, refl, true, false, none, some, [], ◌∷◌, arith}
use libuvwrapper.SafeBuffer.Example.{small}
use libuvwrapper.Loop.{Loop, loop_stop}
use libuvwrapper.Requests.{Request}
use libuvwrapper.Connect.{Connect}
use libuvwrapper.Connect.Sends.{Inv, held_in}

abbrev pub busy_loop : Loop Request
busy_loop = record {
  running = true;
  asyncs = λ x. record { event = loop_stop; ploop = true; tcb = none };
  map_async = [];
  d_async = [];
  sent = [];
  stopping = false;
}

abbrev pub free_loop : Loop Request
free_loop = record busy_loop { d_async = 1 ∷ 2 ∷ [] }

-- The object at 40 is free, that at 41 in use.
abbrev pub open_conn : Connect
open_conn = record {
  connected = true;
  reconnect = false;
  handler = true;
  has_loop = true;
  map_send = (41, 41) ∷ [];
  d_send = 40 ∷ [];
  sends = λ x. small;
  tcp = some 90;
  stream = some 90;
  tcp_dead = false;
  stream_dead = false;
  freed = [];
  addr = none;
}

pub open_conn-Inv : Inv open_conn
open_conn-Inv = record {
  unique = λ x. distinct x;
  keyed = (refl, tt);
  valid = λ x h. omega arith;
  zeroed = λ x h. refl;
}
  where
    distinct : (x : ℕ) → held_in open_conn x ≤ 1
    distinct x = ground arith
