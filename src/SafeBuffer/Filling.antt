-- ===== src/SafeBuffer/Filling.antt =====
-- How the senders of libuvcpp/connect.cpp and util/netlib.h use a `safebuffer`: a new one, or one
-- that is cleared, is filled once.
use libuvwrapper.Base.{
  ℕ, ◌+◌, ◌≤◌, ◌<◌, ◌≡◌, sym, ap, ◌∙◌, true, none, none-ne-some, List, [], ◌++◌, arith, length,
  take, ok, Ensures-weaken, Ensures-total,
}
use libuvwrapper.Memory.{Allocator, IsAllocator, NeverFails, word_mod, bytes_at}
use libuvwrapper.SafeBuffer.{SafeBuffer, default_buffer_len, new_empty, clear_mem, readmem}
use libuvwrapper.SafeBuffer.Valid.{IsValid, IsZeroed}
use libuvwrapper.SafeBuffer.Readmem.{readmem_total}
use libuvwrapper.SafeBuffer.Clear.{clear_mem-Clears, Holds}
use libuvwrapper.SafeBuffer.Construct.{Makes, new_empty-Makes}

module _ (a : Allocator) (laws : IsAllocator a) (always : NeverFails a) where
  pub new_total :
      (t : SafeBuffer) × (new_empty a default_buffer_len ≡ ok t) × Makes default_buffer_len [] t
  new_total = Ensures-total (Makes default_buffer_len []) (new_empty a default_buffer_len) (
      Ensures-weaken (Makes default_buffer_len []) (Makes default_buffer_len [])
        (a.malloc default_buffer_len ≡ none) ⊥ (new_empty a default_buffer_len)
        (new_empty-Makes a default_buffer_len laws (omega arith)) (λ t h. h) refused)
    where
      refused : a.malloc default_buffer_len ≡ none → ⊥
      refused e =
          let (b, given) = always.malloc_some default_buffer_len in none-ne-some (sym e ∙ given)

  module _ (pbuf : List ℕ) (len : ℕ) (enough : len ≤ length pbuf)
      (fits : len + 1024 < word_mod) where
    pub fill_empty :
        (t : SafeBuffer)
        → IsValid t
        → t.datalen ≡ 0
        → IsZeroed t
        → (u : SafeBuffer) × (readmem a t pbuf len ≡ ok (true, u)) × Holds (take len pbuf) u
    fill_empty t v e z =
        let (u, done, h) = readmem_total a t pbuf len laws always v enough (omega (arith, e)) in
        (
          u,
          done,
          record {
            valid = h.valid;
            held = h.appended ∙ ap (λ n. take n (bytes_at t.buffer) ++ take len pbuf) e;
            counted = omega (arith, h.counted, e);
            spare = h.spare;
            zeroed = h.zeroed z;
          },
        )

    -- A valid buffer is cleared and filled.
    pub refill_total :
        (s : SafeBuffer)
        → IsValid s
        → IsZeroed s
        → (t : SafeBuffer) × (u : SafeBuffer) × (clear_mem s ≡ ok t)
          × (readmem a t pbuf len ≡ ok (true, u))
          × Holds (take len pbuf) u
    refill_total s v z =
        let (t, cleared, c) = clear_mem-Clears s v in
        let (u, filled, h) = fill_empty t c.valid c.empty (c.zeroed z) in (t, u, cleared, filled, h)
