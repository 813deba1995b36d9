-- ===== src/Netlib/Tests.antt =====
-- Runs of `netlibuv`, and the theorems at concrete inputs.
use libuvwrapper.Base.{
  ℕ, ◌↔◌, ◌⊎◌, zero, suc, ◌≡◌, refl, Bool, true, false, none, some, [], ◌∷◌, Outcome, ok, abort,
  fault, ◌>>=◌, arith,
}
use libuvwrapper.SafeBuffer.{SafeBuffer, new_empty, clear_mem, readmem}
use libuvwrapper.SafeBuffer.Example.{
  heap-IsAllocator, heap-NeverFails, small-IsValid, heap, small, message, fresh_block,
}
use libuvwrapper.Memory.{clear_range, copy_range}
use libuvwrapper.Requests.{success}
use libuvwrapper.Netlib.{
  send_async, write_to, async_cb, Net, new, net_async_send, blank, close_handle, init_tcp,
  connect_tcp, start_reading, tell_connect,
}
use libuvwrapper.Netlib.Connection.{
  net_reconnect, net_close_cb, net_connect_cb, net_write_cb, take_back,
}
use libuvwrapper.Netlib.Untouched.{wrote}
use libuvwrapper.Netlib.AsyncSends.{Run, done, accepted, other, sixth_send_refused}
use libuvwrapper.Netlib.Relay.{relayed_bytes}
use libuvwrapper.Netlib.Instance.{Instances, destroy, freed, destroy_ends}
use libuvwrapper.Netlib.Reconnect.{reconnect_cycle}

abbrev junk : ℕ → SafeBuffer
junk x = small

abbrev value : Outcome Net → Net
value (ok n) = n
value abort = blank junk
value fault = blank junk

abbrev has_value : Outcome Net → Bool
has_value (ok n) = true
has_value abort = false
has_value fault = false

value_lem : (m : Outcome Net) → has_value m ≡ true → m ≡ ok (value m)
value_lem (ok n) e = refl
value_lem abort e = absurd cc
value_lem fault e = absurd cc

abbrev second : Outcome (Bool × Net) → Net
second (ok r) = r.1
second abort = blank junk
second fault = blank junk

abbrev is_sent : Outcome (Bool × Net) → Bool
is_sent (ok r) = r.0
is_sent abort = false
is_sent fault = false

second_lem : (m : Outcome (Bool × Net)) → is_sent m ≡ true → m ≡ ok (true, second m)
second_lem (ok (true, n)) e = refl
second_lem (ok (false, n)) e = absurd cc
second_lem abort e = absurd cc
second_lem fault e = absurd cc

abbrev made : Outcome Net
made = new (heap 64) (λ u. success) junk

abbrev sending : Net → Outcome (Bool × Net)
sending n = net_async_send (heap 64) message 3 n

-- The object after so many sends.
abbrev state : ℕ → Net
state zero = value made
state (suc k) = second (sending (state k))

made_runs : has_value made ≡ true
unfolding new new_empty clear_range fresh_block
made_runs = refl

sends_run :
    (k : ℕ) → is_sent (sending (state k)) ≡ true → sending (state k) ≡ ok (true, state (suc k))
sends_run k e = second_lem (sending (state k)) e

five_run :
    (is_sent (sending (state 0)) ≡ true)
    × (is_sent (sending (state 1)) ≡ true)
    × (is_sent (sending (state 2)) ≡ true)
    × (is_sent (sending (state 3)) ≡ true)
    × (is_sent (sending (state 4)) ≡ true)
unfolding new new_empty clear_range fresh_block net_async_send clear_mem readmem copy_range
five_run = (refl, refl, refl, refl, refl)

-- Five sends, and the callback of a write that is not known.
six_steps : Run (heap 64) 5 (state 0) (take_back 7 (state 5))
unfolding net_write_cb
six_steps = accepted message 3 (sends_run 0 five_run.0) (
    accepted message 3 (sends_run 1 five_run.1) (
      accepted message 3 (sends_run 2 five_run.2) (
        accepted message 3 (sends_run 3 five_run.3)
          (accepted message 3 (sends_run 4 five_run.4) (other (wrote _ 7 refl) done)))))

sixth_send_refused_example :
    net_async_send (heap 64) message 3 (take_back 7 (state 5)) ≡ ok (false, take_back 7 (state 5))
sixth_send_refused_example =
    sixth_send_refused (heap 64) (λ u. success) junk message 3 (value_lem made made_runs) six_steps

abbrev online : Net
online = record (blank junk) { tcp_handle = some 70 }

reconnect_cycle_example :
    (net_reconnect success online >>= λ r. net_close_cb true r.1 >>= λ m.
    net_reconnect success m >>= λ s. net_connect_cb (some 71) success success s.1)
    ≡ ok (record online {
      tcp_handle = some 71;
      calls =
          close_handle 70
          ∷ init_tcp
          ∷ connect_tcp none
          ∷ start_reading 71
          ∷ tell_connect 0 success
          ∷ [];
    })
reconnect_cycle_example = reconnect_cycle success 70 71 online refl refl

-- The object at 2 is free, and there is a free Sendst at 60.
abbrev ready : Net
ready = record (blank junk) { d_send = 60 ∷ []; d_async_send = 2 ∷ []; tcp_handle = some 70 }

relayed_bytes_example :
    (m : Net) × (o : Net) × (net_async_send (heap 64) message 2 ready ≡ ok (true, m))
    × (async_cb (heap 64) success 61 2 (some m) ≡ ok o)
    × (async_cb (heap 64) success 61 2 none ≡ fault)
    × (o.calls ≡ send_async 2 ∷ write_to 70 60 (5 ∷ 6 ∷ []) ∷ [])
relayed_bytes_example =
    relayed_bytes (heap 64) (heap-IsAllocator 64) (heap-NeverFails 64) 61 message 2 70 2 [] ready
      (omega arith) (omega arith) refl refl small-IsValid refl (small-IsValid, refl, tt) refl

-- An object at 5, the instance being that at 6.
abbrev linked : Instances
linked = record { instance_at = some 6; nets = λ x. ready; shutdown = λ x. true; wright = true }

destroy_ends_example :
    (((depth : ℕ) × (r : Outcome Instances) × (destroy depth success 5 linked ≡ some r))
      ↔ (linked.instance_at ≡ none))
    × (((linked.instance_at ≡ none)
          × ((depth : ℕ) → destroy (suc depth) success 5 linked ≡ some (ok (freed 5 linked))))
        ⊎ ((p : ℕ) × (linked.instance_at ≡ some p)
            × ((depth : ℕ) → destroy depth success 5 linked ≡ none)))
destroy_ends_example = destroy_ends 5 linked
