-- ===== src/Uvcpp/Tests.antt =====
-- Runs of `uvcpp`, and the theorems at concrete inputs.
use libuvwrapper.Base.{
  ℕ, ◌-◌, ◌≡◌, refl, sym, ◌∙◌, true, false, Option, none, some, List, [], ◌∷◌, ◌++◌, arith, length,
  ok, fault, ◌>>=◌,
}
use libuvwrapper.Memory.{Block, Allocator, IsAllocator, copy_range}
use libuvwrapper.SafeBuffer.Example.{heap, heap-IsAllocator, message, fresh_block, moved_block}
use libuvwrapper.Uvcpp.{
  Client, UvCall, try_write, wake, close_tcp, close_async, end_loop, init_tcp, connect_tcp, holds,
  ready, pending, send, stop, wake_loop, write, connect, new, send_data, default_buffer_len,
}
use libuvwrapper.Uvcpp.SendBuffer.{IsValid, IsSocket}
use libuvwrapper.Uvcpp.Stream.{Run, done, put, flush, stream_kept}
use libuvwrapper.Uvcpp.Growth.{growth_overruns}
use libuvwrapper.Uvcpp.Works.{queue, send_then_stop}
use libuvwrapper.Uvcpp.Events.{async_init, on_connect, on_read, on_close, on_work}
use libuvwrapper.Uvcpp.NetTest.{main, rounds}
use libuvwrapper.Uvcpp.NetTest.Delivered.{
  served, connected, reconnected, opening, reopening, main_delivers,
}
use libuvwrapper.Uvcpp.NetTest.Unserved.{nothing, Moves, main_unserved_faults}
use libuvwrapper.Uvcpp.Lifecycle.{without_handle, first_read_faults, stop_reconnects}

abbrev four_bytes : Block
four_bytes = record { addr = 8; bytes = 7 ∷ 9 ∷ 0 ∷ 0 ∷ [] }

-- Two bytes wait in a buffer of four.
abbrev filled : Client
filled = record {
  works = [];
  async = ready;
  tcp_handle = some 5;
  data_set = false;
  ex_stop_loop = false;
  status_normal = true;
  auto_reconnect = true;
  addr = some 40;
  send_buf = holds (some four_bytes);
  send_len = 4;
  send_offset = 2;
  calls = [];
}

filled-IsValid : IsValid filled
filled-IsValid = record {
  block = four_bytes;
  held = refl;
  sized = refl;
  within = omega arith;
  word = omega arith;
}

-- A socket that takes all but one byte.
abbrev all_but_one : UvCall → Option ℕ
all_but_one (try_write bytes) = some (length bytes - 1)
all_but_one _ = none

abbrev shy : List UvCall → Option ℕ
shy [] = none
shy (u ∷ []) = all_but_one u
shy (u ∷ w ∷ us) = shy (w ∷ us)

shy_last : (us : List UvCall) (u : UvCall) → shy (us ++ (u ∷ [])) ≡ all_but_one u
shy_last [] u = refl
shy_last (x ∷ []) u = refl
shy_last (x ∷ y ∷ us) u = shy_last (y ∷ us) u

same_number : {m n : ℕ} → some m ≡ some n → m ≡ n
same_number e = cc

shy-IsSocket : IsSocket shy
shy-IsSocket calls bytes n e =
    let same : length bytes - 1 ≡ n = same_number (sym (shy_last calls (try_write bytes)) ∙ e) in
    omega (arith, same)

abbrev after_put : Client
after_put = record filled {
  works = (0, send_data) ∷ [];
  send_buf = holds (some (record four_bytes { bytes = 7 ∷ 9 ∷ 5 ∷ 0 ∷ [] }));
  send_offset = 3;
  calls = wake ∷ [];
}

abbrev after_flush : Client
after_flush = record after_put {
  send_buf = holds (some (record four_bytes { bytes = 5 ∷ 9 ∷ 5 ∷ 0 ∷ [] }));
  send_offset = 1;
  calls = wake ∷ try_write (7 ∷ 9 ∷ 5 ∷ []) ∷ [];
}

put_runs : send (heap 64) message 1 filled ≡ ok (1, after_put)
unfolding send copy_range
put_runs = refl

flush_runs : write shy after_put ≡ ok after_flush
unfolding write copy_range
flush_runs = refl

-- One byte is sent behind the two, then the socket takes two.
two_steps : Run (heap 64) shy filled (5 ∷ []) (7 ∷ 9 ∷ []) after_flush
two_steps = put message 1 1 (omega arith) (omega arith) put_runs (flush flush_runs done)

stream_kept_example :
    (pending filled ++ (5 ∷ []) ≡ (7 ∷ 9 ∷ []) ++ pending after_flush) × IsValid after_flush
stream_kept_example = stream_kept (heap 64) shy 5 shy-IsSocket filled-IsValid refl refl two_steps

growth_overruns_example : send (heap 64) message 3 filled ≡ fault
growth_overruns_example =
    growth_overruns (heap 64) message 3 filled (heap-IsAllocator 64) filled-IsValid (omega arith)
      (omega arith) (omega arith) (omega arith) (omega arith)

send_then_stop_example :
    (d : Client) × (send (heap 64) message 2 filled ≡ ok (2, d))
    × (d.works ≡ queue 0 1)
    × (stop d ≡ wake_loop d)
send_then_stop_example =
    send_then_stop (heap 64) message 2 0 filled filled-IsValid refl (omega arith) (omega arith) refl

first_read_faults_example :
    ((on_connect (some 5) false (async_init (connect (new (heap 64)))) >>= on_read none) ≡ fault)
    × ((on_connect (some 5) false (async_init (connect (new (heap 64))))
          >>= on_read (some (7 ∷ [])))
        ≡ fault)
    × ((on_connect (some 5) false (async_init (connect (new (heap 64)))) >>= on_read (some []))
        ≡ on_connect (some 5) false (async_init (connect (new (heap 64)))))
first_read_faults_example = first_read_faults (heap 64) 5 7 []

stop_reconnects_example :
    (stop filled >>= on_work shy >>= on_close 5)
    ≡ ok (
        without_handle filled
          (wake ∷ close_tcp 5 ∷ close_async ∷ end_loop ∷ init_tcp ∷ connect_tcp (some 40) ∷ []))
stop_reconnects_example = stop_reconnects shy 5 filled refl refl refl refl refl

-- A socket that takes everything.
abbrev whole : UvCall → Option ℕ
whole (try_write bytes) = some (length bytes)
whole _ = none

abbrev eager : List UvCall → Option ℕ
eager [] = none
eager (u ∷ []) = whole u
eager (u ∷ w ∷ us) = eager (w ∷ us)

eager_last : (us : List UvCall) (u : UvCall) → eager (us ++ (u ∷ [])) ≡ whole u
eager_last [] u = refl
eager_last (x ∷ []) u = refl
eager_last (x ∷ y ∷ us) u = eager_last (y ∷ us) u

main_delivers_example :
    (d : Client) × (main (heap 24) 40 (connected 5) (λ i. on_work eager) (reconnected eager 5)
      ≡ ok d)
    × (d.calls
        ≡ (((opening 40 ++ served rounds) ++ reopening 5 40) ++ served rounds) ++ (wake ∷ []))
    × (d.send_offset ≡ 0)
main_delivers_example =
    main_delivers (heap 24) eager (λ us bytes. eager_last us (try_write bytes)) 5 40
      (fresh_block 24 default_buffer_len) (heap-IsAllocator 24) refl

-- malloc gives memory at 24, and realloc at 64.
abbrev mover : Allocator
mover = record { malloc = (heap 24).malloc; realloc = (heap 64).realloc }

mover-IsAllocator : IsAllocator mover
mover-IsAllocator = record {
  malloc_size = (heap-IsAllocator 24).malloc_size;
  realloc_size = (heap-IsAllocator 64).realloc_size;
  realloc_keeps = (heap-IsAllocator 64).realloc_keeps;
}

mover-Moves : Moves mover 24
unfolding moved_block
mover-Moves b n at = (moved_block 64 (some b) n, refl, rw at refl)

main_unserved_faults_example : main mover 40 nothing (λ i. nothing) nothing ≡ fault
unfolding fresh_block
main_unserved_faults_example =
    main_unserved_faults mover 24 mover-Moves 40 (fresh_block 24 default_buffer_len) nothing
      mover-IsAllocator refl refl
