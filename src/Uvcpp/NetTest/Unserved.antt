-- ===== src/Uvcpp/NetTest/Unserved.antt =====
-- The test program when the loop's thread serves none of its messages.
use libuvwrapper.Base.{
  ℕ, zero, suc, ◌+◌, ◌-◌, ◌*◌, ◌%◌, ◌≤◌, ◌<◌, ◌≡◌, refl, ap, ◌∙◌, true, false, some, arith, ok,
  fault, ◌>>=◌,
}
use libuvwrapper.Memory.{Block, overwrite, Allocator, IsAllocator, same_pointer}
use libuvwrapper.Memory.Laws.{length-overwrite}
use libuvwrapper.Uvcpp.{
  uint_mod, Client, holds, ready, default_buffer_len, connect_host, set_auto_reconnect, new, close,
  stop,
}
use libuvwrapper.Uvcpp.SendBuffer.{IsValid, send_steps, with_sent}
use libuvwrapper.Uvcpp.Growth.{growth_moves}
use libuvwrapper.Uvcpp.Events.{run}
use libuvwrapper.Uvcpp.NetTest.{hello, Meanwhile, send_rounds, rounds, main}

abbrev pub nothing : Meanwhile
nothing c = ok c

-- realloc answers for the block at `p` with a block at another address.
abbrev pub Moves : Allocator → ℕ → Type 0
Moves a p =
    (b : Block) (n : ℕ)
    → b.addr ≡ p
    → (d : Block) × (a.realloc (some b) n ≡ some d) × (same_pointer (some b) (some d) ≡ false)

module _ (a : Allocator) (p : ℕ) (moves : Moves a p) where
  fills :
      (n k i : ℕ) (c : Client) (v : IsValid c)
      → v.block.addr ≡ p
      → c.async ≡ ready
      → c.send_len ≡ default_buffer_len
      → n < k
      → c.send_offset + 5 * n ≤ default_buffer_len
      → default_buffer_len < c.send_offset + 5 * suc n
      → send_rounds a (λ i. nothing) i k c ≡ fault
  unfolding send_rounds
  fills n zero i c v at live size more room tight = absurd (omega arith)
  fills zero (suc k) i c v at live size more room tight =
      let (b, answer, moved) = moves v.block (2 * (c.send_len - 5) % uint_mod) at in
      rw
        (growth_moves a hello 5 c v b (omega arith) (omega arith) (omega arith) (omega arith) answer
          moved)
        refl
  fills (suc n) (suc k) i c v at live size more room tight =
      rw (send_steps a hello 5 c v live (omega arith) (omega arith)) (
        fills n k (i + 1) (with_sent c v.block 5 hello) still at live size (omega arith)
          (omega arith) (omega arith))
    where
      still : IsValid (with_sent c v.block 5 hello)
      still = record {
        block = record v.block { bytes = overwrite v.block.bytes c.send_offset hello };
        held = refl;
        sized =
            length-overwrite v.block.bytes c.send_offset hello (omega (arith, v.sized)) ∙ v.sized;
        within = omega arith;
        word = v.word;
      }

  -- The test program from its first line, when malloc gives the first kilobyte, the loop's thread serves
  -- nothing while the first loop sends, as when the connection is never made, and realloc moves the
  -- block: it writes through the pointer to the old block, whatever the thread would do after the loop.
  pub main_unserved_faults :
      (addr : ℕ) (b : Block) (pausing : Meanwhile)
      → IsAllocator a
      → a.malloc default_buffer_len ≡ some b
      → b.addr ≡ p
      → main a addr nothing (λ i. nothing) pausing ≡ fault
  unfolding main run connect_host set_auto_reconnect new
  main_unserved_faults addr b pausing laws e at =
      ap (λ m. m >>= ending)
        (fills 204 rounds 0 (run (set_auto_reconnect true (connect_host addr (new a))))
          (record {
            block = b;
            held = ap holds e;
            sized = laws.malloc_size default_buffer_len b e;
            within = omega arith;
            word = omega arith;
          })
          at refl refl (omega arith) (omega arith) (omega arith))
    where
      ending : Meanwhile
      ending c =
          close c >>= λ c. pausing c >>= λ c. send_rounds a (λ i. nothing) rounds rounds c >>= stop
