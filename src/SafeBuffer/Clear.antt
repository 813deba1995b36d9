-- ===== src/SafeBuffer/Clear.antt =====
-- `safebuffer::ClearMem`, and a buffer that is cleared and filled again, as the senders do.
use libuvwrapper.Base.{
  ℕ, ◌+◌, ◌-◌, ◌≤◌, ◌<◌, ◌≡◌, refl, sym, ap, ◌∙◌, ◌⊎◌, inl, inr, Bool, true, false, none, some,
  none-ne-some, List, ◌++◌, arith, length, take, drop, replicate, Option-cases, Ensures,
  Ensures-weaken, replicate-append, ok, ◌>>=◌,
}
use libuvwrapper.Memory.{Block, word_mod, bytes_at, Allocator, IsAllocator, overwrite, clear_range}
use libuvwrapper.Memory.Laws.{length-zeros, length-overwrite, clear_range_within}
use libuvwrapper.SafeBuffer.{SafeBuffer, clear_mem, readmem}
use libuvwrapper.SafeBuffer.Valid.{IsValid, contents, IsZeroed}
use libuvwrapper.SafeBuffer.Resize.{IsLost}
use libuvwrapper.SafeBuffer.Readmem.{Appended, MallocRefused, readmem-Appended}

-- `t` is `s` emptied: the block stays.
pub record Clears (s t : SafeBuffer) : Type 0 where
  pub valid : IsValid t
  pub empty : t.datalen ≡ 0
  pub rewound : t.offset ≡ 0
  pub same_room : t.bufferlen ≡ s.bufferlen
  pub null_iff : (t.buffer ≡ none) → (s.buffer ≡ none)
  pub zeroed : IsZeroed s → IsZeroed t

clear-block :
    (s : SafeBuffer)
    → IsValid s
    → (b : Block) → s.buffer ≡ some b
    → (t : SafeBuffer) × (clear_mem s ≡ ok t) × Clears s t
unfolding clear_mem
clear-block s v b e = (t, cleared, clears)
  where
    wiped : List ℕ
    wiped = overwrite b.bytes 0 (replicate s.datalen 0)

    t : SafeBuffer
    t = record s { buffer = some (record b { bytes = wiped }); datalen = 0; offset = 0 }

    size : length b.bytes ≡ s.bufferlen
    size = sym (ap (λ p. length (bytes_at p)) e) ∙ v.sized

    cleared : clear_mem s ≡ ok t
    cleared = rw (
        ap (λ p. clear_range p 0 s.datalen) e
        ∙ clear_range_within b 0 s.datalen (omega (arith, size, v.within)))

    all_zero : IsZeroed s → wiped ≡ replicate (s.bufferlen - 0) 0
    all_zero z =
        let e1 : 0 + length {A = ℕ} (replicate s.datalen 0) ≡ s.datalen =
          omega (arith, length-zeros s.datalen) in
        let e2 : s.datalen + (s.bufferlen - s.datalen) ≡ s.bufferlen - 0 =
          omega (arith, v.within) in
        ap (λ n. replicate s.datalen 0 ++ drop n b.bytes) e1
        ∙ ap (λ p. replicate s.datalen 0 ++ drop s.datalen (bytes_at p)) (sym e)
        ∙ ap (λ xs. replicate s.datalen 0 ++ xs) z
        ∙ replicate-append s.datalen (s.bufferlen - s.datalen) 0
        ∙ ap (λ n. replicate {A = ℕ} n 0) e2

    clears : Clears s t
    clears = record {
      valid = record {
        sized =
            length-overwrite b.bytes 0 (replicate s.datalen 0)
              (omega (arith, length-zeros s.datalen, size, v.within))
            ∙ size;
        within = omega arith;
        word = v.word;
      };
      empty = refl;
      rewound = refl;
      same_room = refl;
      null_iff = λ h. absurd (none-ne-some (sym h));
      zeroed = all_zero;
    }

clear-null :
    (s : SafeBuffer)
    → IsValid s
    → s.buffer ≡ none
    → (t : SafeBuffer) × (clear_mem s ≡ ok t) × Clears s t
unfolding clear_mem clear_range
clear-null s v e = (record s { buffer = none; datalen = 0; offset = 0 }, cleared, clears)
  where
    empty : s.datalen ≡ 0
    empty = omega (arith, v.sized, v.within, ap (λ p. length (bytes_at p)) e)

    cleared : clear_mem s ≡ ok (record s { buffer = none; datalen = 0; offset = 0 })
    cleared = rw (ap (λ p. clear_range p 0 s.datalen) e ∙ ap (clear_range none 0) empty)

    clears : Clears s (record s { buffer = none; datalen = 0; offset = 0 })
    clears = record {
      valid = record {
        sized = sym (ap (λ p. length (bytes_at p)) e) ∙ v.sized;
        within = omega arith;
        word = v.word;
      };
      empty = refl;
      rewound = refl;
      same_room = refl;
      null_iff = λ _. e;
      zeroed = λ _.
          let none_left : 0 ≡ s.bufferlen - 0 =
            omega (arith, v.sized, ap (λ p. length (bytes_at p)) e) in
          ap (λ n. replicate {A = ℕ} n 0) none_left;
    }

-- `ClearMem` of a valid buffer empties it, rewinds the read offset, keeps the block, and leaves
-- the block all zero if it was zero behind the data. It never goes out of bounds.
pub clear_mem-Clears :
    (s : SafeBuffer) → IsValid s → (t : SafeBuffer) × (clear_mem s ≡ ok t) × Clears s t
clear_mem-Clears s v = elim (Option-cases s.buffer) [
  | inl null ↦ clear-null s v null
  | inr (b, e) ↦ clear-block s v b e
]

-- The buffer holds the first `len` bytes of `mem` and nothing else.
pub record Holds (xs : List ℕ) (t : SafeBuffer) : Type 0 where
  pub valid : IsValid t
  pub held : contents t ≡ xs
  pub counted : t.datalen ≡ length xs
  pub spare : t.datalen < t.bufferlen
  pub zeroed : IsZeroed t

abbrev pub Refilled : Allocator → List ℕ → Bool × SafeBuffer → Type 0
Refilled a xs r = ((r.0 ≡ true) × Holds xs r.1) ⊎ ((r.0 ≡ false) × IsLost a r.1)

-- A valid buffer that is zero behind its data and is cleared and filled with `readmem` holds
-- exactly the first `len` bytes of `mem`, nothing of its old data, with zeros behind them; or
-- memory has run out: `readmem` returns `false` with the buffer null, or stops at its assertion
-- (only if the buffer was null).
refill-Refilled :
    (a : Allocator) (s : SafeBuffer) (mem : List ℕ) (len : ℕ)
    → IsAllocator a
    → IsValid s
    → IsZeroed s
    → len ≤ length mem
    → len + 1024 < word_mod
    → Ensures
        (Refilled a (take len mem))
        (s.buffer ≡ none)
        (clear_mem s >>= λ t. readmem a t mem len)
refill-Refilled a s mem len laws v z enough fits =
    let (t, cleared, c) = clear_mem-Clears s v in
    rw cleared (
      Ensures-weaken (Appended a t (take len mem)) (Refilled a (take len mem))
        (MallocRefused a t len) (s.buffer ≡ none) (readmem a t mem len)
        (readmem-Appended a t mem len laws c.valid enough (omega (arith, c.empty)))
        (λ r. refilled t c r) (λ refused. c.null_iff refused.0))
  where
    refilled :
        (t : SafeBuffer) (c : Clears s t) (r : Bool × SafeBuffer)
        → Appended a t (take len mem) r
        → Refilled a (take len mem) r
    refilled t c r (inr lost) = inr lost
    refilled t c r (inl (e, h)) = inl (
      e,
      record {
        valid = h.valid;
        held = h.appended ∙ ap (λ n. take n (bytes_at t.buffer) ++ take len mem) c.empty;
        counted = omega (arith, h.counted, c.empty);
        spare = h.spare;
        zeroed = h.zeroed (c.zeroed z);
      },
    )
