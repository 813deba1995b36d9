-- ===== src/Uvcpp/NetTest/Delivered.antt =====
-- The test program when the loop's thread serves each message in time.
use libuvwrapper.Base.{
  ℕ, ==_refl, zero, suc, ◌+◌, ◌≤◌, ◌<◌, ◌≡◌, refl, ap, ◌∙◌, true, false, some, List, [], ◌∷◌, ◌++◌,
  arith, length, drop, ok, ◌>>=◌,
}
use libuvwrapper.Memory.{Block, overwrite, Allocator, IsAllocator}
use libuvwrapper.Memory.Laws.{copy_range_within, length-overwrite}
use libuvwrapper.Uvcpp.{
  uint_mod, Client, holds, UvCall, wake, try_write, init_tcp, connect_tcp, init_async, start_thread,
  start_read, close_tcp, stop_loop, ready, send, send_data, close, stop, Socket, write, written,
  shift, default_buffer_len, connect_host, set_auto_reconnect, new, insert_work,
}
use libuvwrapper.Uvcpp.SendBuffer.{send_steps}
use libuvwrapper.Uvcpp.Events.{on_work, on_connect, on_close, serve, run, inner_close}
use libuvwrapper.Uvcpp.NetTest.{hello, Meanwhile, send_rounds, rounds, main}
use mathlib.Core.List.{append_assoc, append-nil}

-- A connected client with nothing to do.
abbrev idle : ℕ → Block → Client → Client
idle h b c = record c {
  works = [];
  async = ready;
  tcp_handle = some h;
  send_buf = holds (some b);
  send_offset = 0;
}

-- The socket takes all that it is given.
abbrev TakesAll : Socket → Type 0
TakesAll sock =
    (calls : List UvCall) (bytes : List ℕ)
    → sock (calls ++ (try_write bytes ∷ [])) ≡ some (length bytes)

-- What `n` messages ask of libuv.
unfoldable pub served : ℕ → List UvCall
served zero = []
served (suc n) = wake ∷ try_write hello ∷ served n

-- libuv connects.
abbrev pub connected : ℕ → Meanwhile
connected h = on_connect (some h) false

-- The connection is closed, libuv says so, and it is made anew.
abbrev pub reconnected : Socket → ℕ → Meanwhile
reconnected sock h c = on_work sock c >>= λ c. on_close h c >>= connected h

abbrev pub opening : ℕ → List UvCall
opening addr = init_tcp ∷ connect_tcp (some addr) ∷ init_async ∷ start_thread ∷ start_read ∷ []

abbrev pub reopening : ℕ → ℕ → List UvCall
reopening h addr = wake ∷ close_tcp h ∷ init_tcp ∷ connect_tcp (some addr) ∷ start_read ∷ []

module _ (a : Allocator) (sock : Socket) (all : TakesAll sock) (h : ℕ) where
  -- What one message leaves in the buffer.
  abbrev sent : Block → Block
  sent b = record b { bytes = overwrite b.bytes 0 hello }

  abbrev shifted : Block → Block
  shifted b = record b { bytes = overwrite (overwrite b.bytes 0 hello) 0 [] }

  abbrev full : Block → Client → Client
  full b c = record (idle h (sent b) c) {
    works = (0, send_data) ∷ [];
    send_offset = 5;
    calls = c.calls ++ (wake ∷ []);
  }

  one_send :
      (b : Block) (c : Client)
      → length b.bytes ≡ c.send_len
      → 5 ≤ c.send_len
      → c.send_len < uint_mod
      → send a hello 5 (idle h b c) ≡ ok (5, full b c)
  unfolding insert_work
  one_send b c size room small =
      send_steps a hello 5 (idle h b c)
        (record { block = b; held = refl; sized = size; within = omega arith; word = small }) refl
        room (omega arith)

  abbrev after_one : Block → Client → Client
  after_one b c =
      idle h (shifted b) (record c { calls = (c.calls ++ (wake ∷ [])) ++ (try_write hello ∷ []) })

  one_write :
      (b : Block) (c : Client)
      → length b.bytes ≡ c.send_len
      → 5 ≤ c.send_len
      → on_work sock (full b c) ≡ ok (after_one b c)
  unfolding on_work serve write written shift
  one_write b c size room =
      rw
        (
          all (c.calls ++ (wake ∷ [])) hello,
          copy_range_within (sent b) 0 (drop 5 (sent b).bytes) 0 (omega arith) (omega arith),
        )
        refl

  length-shifted : (b : Block) → 5 ≤ length b.bytes → length (shifted b).bytes ≡ length b.bytes
  length-shifted b room =
      length-overwrite (overwrite b.bytes 0 hello) 0 [] (omega arith)
      ∙ length-overwrite b.bytes 0 hello room

  rounds_served :
      (n i : ℕ) (b : Block) (c : Client)
      → length b.bytes ≡ c.send_len
      → 5 ≤ c.send_len
      → c.send_len < uint_mod
      → (d : Block) × (send_rounds a (λ i. on_work sock) i n (idle h b c)
          ≡ ok (idle h d (record c { calls = c.calls ++ served n })))
        × (length d.bytes ≡ c.send_len)
  unfolding send_rounds served
  rounds_served zero i b c size room small = (b, rw append-nil refl, size)
  rounds_served (suc n) i b c size room small =
      let next : Client = record c { calls = (c.calls ++ (wake ∷ [])) ++ (try_write hello ∷ []) } in
      let (d, ran, still) =
        rounds_served n (i + 1) (shifted b) next (length-shifted b (omega (arith, size)) ∙ size)
          room small in
      (
        d,
        rw (one_send b c size room small, one_write b c size room, ran) (simp append_assoc refl),
        still,
      )

  -- The client before its first message, and before the second loop's first.
  abbrev opened : ℕ → Client
  opened addr = record (new a) { status_normal = true; addr = some addr; calls = opening addr }

  abbrev reopened : ℕ → Client
  reopened addr = record (opened addr) {
    data_set = true;
    calls = (opening addr ++ served rounds) ++ reopening h addr;
  }

  opens :
      (addr : ℕ) (b : Block)
      → a.malloc default_buffer_len ≡ some b
      → connected h (run (set_auto_reconnect true (connect_host addr (new a))))
        ≡ ok (idle h b (opened addr))
  unfolding on_connect run set_auto_reconnect connect_host new
  opens addr b e = rw e refl

  reopens :
      (addr : ℕ) (b : Block)
      → (after : Meanwhile)
      → (close (idle h b (record (opened addr) { calls = opening addr ++ served rounds })) >>= λ c.
          reconnected sock h c >>= after)
        ≡ after (idle h b (reopened addr))
  unfolding close on_work serve inner_close on_close on_connect new
  reopens addr b after = rw (==_refl h) (simp append_assoc refl)

  -- The test program from its first line to its last, for any allocator that has the first kilobyte,
  -- when libuv connects before the first message, the loop's thread serves each message before the next,
  -- the socket takes all that it is given, no byte is received, and the closed connection is made anew
  -- before the second loop: all ten thousand messages are handed to the socket, whole and in order,
  -- five thousand on each connection, and the program asks its loop to stop with nothing waiting.
  pub main_delivers :
      (addr : ℕ) (b : Block)
      → IsAllocator a
      → a.malloc default_buffer_len ≡ some b
      → (d : Client) × (main a addr (connected h) (λ i. on_work sock) (reconnected sock h) ≡ ok d)
        × (d.calls
            ≡ (((opening addr ++ served rounds) ++ reopening h addr) ++ served rounds)
              ++ (wake ∷ []))
        × (d.send_offset ≡ 0)
  unfolding main stop new
  main_delivers addr b laws e =
      let (c, ran, size) =
        rounds_served rounds 0 b (opened addr) (laws.malloc_size default_buffer_len b e)
          (omega arith) (omega arith) in
      let (d, again, _) =
        rounds_served rounds rounds c (reopened addr) size (omega arith) (omega arith) in
      (
        record (idle h d (reopened addr)) {
          works = (0, stop_loop) ∷ [];
          calls = ((reopened addr).calls ++ served rounds) ++ (wake ∷ []);
        },
        ap (λ m. m >>= λ c. send_rounds a (λ i. on_work sock) 0 rounds c >>= ending)
              (opens addr b e)
            ∙ ap (λ m. m >>= ending) ran
            ∙ reopens addr c (λ c. send_rounds a (λ i. on_work sock) rounds rounds c >>= stop)
            ∙ ap (λ m. m >>= stop) again,
        refl,
        refl,
      )
    where
      ending : Meanwhile
      ending c = close c >>= λ c.
          reconnected sock h c >>= λ c. send_rounds a (λ i. on_work sock) rounds rounds c >>= stop
