-- ===== src/Connect/Tests.antt =====
-- Runs of `uvconnect`, and the theorems at concrete inputs.
use libuvwrapper.Base.{
  ℕ, ◌≡◌, refl, sym, ap, subst, true, false, none, some, [], ◌∷◌, arith, ok, fault, ◌>>=◌,
}
use libuvwrapper.SafeBuffer.Example.{small, heap, heap-IsAllocator, heap-NeverFails, message}
use libuvwrapper.Loop.{busy, EventType, add_req}
use libuvwrapper.Requests.{Request, UvCall, success}
use libuvwrapper.Connect.{
  Connect, World, new, register_loop_and_stream, run_connect, connect_cb, destroy,
}
use libuvwrapper.Connect.Sends.{Inv, held_in}
use libuvwrapper.Connect.Example.{busy_loop, free_loop, open_conn, open_conn-Inv}
use libuvwrapper.Connect.Write.{Written, wirte_data-Written}
use libuvwrapper.Connect.Quiet.{accepted}
use libuvwrapper.Connect.Runs.{take, other, Reach, here, next, born, runs-Inv}
use libuvwrapper.Connect.Close.{destroy_frees_twice}

abbrev linked : World
linked = record { conn = open_conn; loop = free_loop; calls = []; events = [] }

abbrev crowded : World
crowded = record linked { loop = busy_loop }

abbrev cut_off : World
cut_off = record linked { conn = record open_conn { connected = false; stream = none } }

-- A write of two bytes in a world that has the connection above.
written :
    (w : World)
    → w.conn ≡ open_conn
    → (c : Connect) × (p : ℕ) × Written (heap 24) 3 50 message 2 w c p
written w same =
    wirte_data-Written (heap 24) 3 50 message 2 w (heap-IsAllocator 24) (heap-NeverFails 24)
      (omega arith) (omega arith) (subst Inv (sym same) open_conn-Inv) (ap (λ c. held_in c 50) same)
      (ap (λ c. c.connected) same) (ap (λ c. c.has_loop) same)

abbrev object : ℕ
object = (written linked refl).1

abbrev after_write : Connect
after_write = (written linked refl).0

abbrev later : World
later = record linked { conn = after_write }

full_loop :
    (p : ℕ) → add_req busy_loop EventType.tcp_write (Request.tcp_write 3 p) ≡ (busy, busy_loop)
unfolding add_req
full_loop p = refl

abbrev closing : World
closing = record linked { conn = record open_conn { reconnect = true } }

abbrev closed : World
closed = record linked { conn = record open_conn { reconnect = true; connected = false } }

-- A connection that was accepted at 90, and a write of two bytes.
abbrev accepted_world : World
accepted_world = record {
  conn = record (new (λ x. small)) { connected = true; has_loop = true; stream = some 90 };
  loop = free_loop;
  calls = [];
  events = [];
}

accepted-Reach : Reach (heap 24) (born (λ x. small) free_loop) accepted_world
unfolding new register_loop_and_stream
accepted-Reach = next here (other (accepted 90 true _ refl refl))

first_write : (c : Connect) × (p : ℕ) × Written (heap 24) 3 50 message 2 accepted_world c p
unfolding new
first_write =
    wirte_data-Written (heap 24) 3 50 message 2 accepted_world (heap-IsAllocator 24)
      (heap-NeverFails 24) (omega arith) (omega arith)
      (runs-Inv (heap 24) (heap-IsAllocator 24) (heap-NeverFails 24) (λ x. small) free_loop
        accepted-Reach)
      refl refl refl

runs-Inv_example : Inv first_write.0
unfolding new
runs-Inv_example =
    runs-Inv (heap 24) (heap-IsAllocator 24) (heap-NeverFails 24) (λ x. small) free_loop
      (next accepted-Reach
        (take 3 50 2 message _ (omega arith) (omega arith) refl first_write.2.result))

-- A new connection with a loop, and what connecting makes of it.
abbrev unconnected : World
unconnected = record accepted_world { conn = record (new (λ x. small)) { has_loop = true } }

abbrev connected_once : World
connected_once = record accepted_world {
  conn = record (new (λ x. small)) {
    connected = true;
    has_loop = true;
    tcp = some 91;
    stream = some 91;
  };
  calls = UvCall.tcp_init 91 ∷ UvCall.tcp_connect 91 none ∷ [];
}

connects_once : (run_connect 91 unconnected >>= connect_cb 91 success) ≡ ok connected_once
unfolding run_connect connect_cb new
connects_once = refl

destroy_frees_twice_example : destroy connected_once.conn ≡ fault
destroy_frees_twice_example =
    destroy_frees_twice 91 success unconnected connected_once connects_once
