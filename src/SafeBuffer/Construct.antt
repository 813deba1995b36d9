-- ===== src/SafeBuffer/Construct.antt =====
-- The three constructors of `safebuffer`.
use libuvwrapper.Base.{
  ℕ, ◌+◌, ◌≤◌, ◌<◌, ◌≡◌, refl, sym, inl, inr, ap, ◌∙◌, none, some, List, [], arith, length, take,
  drop, replicate, Option-cases, Outcome, Ensures, ◌>>=◌, length-take, take_prefix, drop_prefix,
  drop-replicate, ok,
}
use libuvwrapper.Memory.{
  Block, word_mod, bytes_at, Allocator, IsAllocator, overwrite, malloc_asserted, clear_range,
  copy_range,
}
use libuvwrapper.Memory.Laws.{
  length-zeros, clear_range_within, clear_tail, copy_range_within, length-overwrite,
}
use libuvwrapper.SafeBuffer.{SafeBuffer, chunks, new_empty, new_copy, new_from}
use libuvwrapper.SafeBuffer.Valid.{IsValid, contents, IsZeroed}
use libuvwrapper.SafeBuffer.Append.{chunks_bounds}

-- A new buffer of `room` bytes that holds `xs`, zero behind them.
pub record Makes (room : ℕ) (xs : List ℕ) (t : SafeBuffer) : Type 0 where
  pub valid : IsValid t
  pub held : contents t ≡ xs
  pub counted : t.datalen ≡ length xs
  pub roomy : t.bufferlen ≡ room
  pub zeroed : IsZeroed t

-- The block that all three end with: zeros, and `xs` copied to the front.
abbrev filled : ℕ → List ℕ → List ℕ
filled room xs = overwrite (replicate room 0) 0 xs

abbrev made : ℕ → List ℕ → ℕ → ℕ → ℕ → SafeBuffer
made room xs n addr junk = record {
  buffer = some (record { addr = addr; bytes = filled room xs });
  bufferlen = room;
  datalen = n;
  offset = junk;
}

made-Makes :
    (room : ℕ) (xs : List ℕ) (n addr junk : ℕ)
    → length xs ≡ n
    → n ≤ room
    → room < word_mod
    → Makes room xs (made room xs n addr junk)
made-Makes room xs n addr junk e h k = record {
  valid = record {
    sized =
        length-overwrite (replicate room 0) 0 xs (omega (arith, length-zeros room, e))
        ∙ length-zeros room;
    within = h;
    word = k;
  };
  held = take_prefix n xs behind e;
  counted = sym e;
  roomy = refl;
  zeroed =
      let e' : 0 + length xs ≡ n = omega (arith, e) in
      drop_prefix n xs behind e ∙ ap (λ m. drop m (replicate room 0)) e' ∙ drop-replicate n room 0;
}
  where
    behind : List ℕ
    behind = drop (0 + length xs) (replicate room 0)

cleared_block :
    (b : Block) (room : ℕ)
    → length b.bytes ≡ room
    → clear_range (some b) 0 room ≡ ok (some (record b { bytes = replicate room 0 }))
cleared_block b room size =
    clear_range_within b 0 room (omega (arith, size))
    ∙ ap (λ xs. ok (some (record b { bytes = xs })))
        (clear_tail b.bytes 0 room (omega (arith, size)))

-- Clearing a new block and copying `n` bytes to its front.
module _ (a : Allocator) (laws : IsAllocator a) (room : ℕ) (fits : room < word_mod) (mem : List ℕ)
    (n : ℕ) (small : n ≤ room) (enough : n ≤ length mem) (junk : ℕ) where
  abbrev fill_new : Outcome SafeBuffer
  fill_new = malloc_asserted a room >>= λ p. clear_range p 0 room >>= λ p.
      copy_range p 0 mem n >>= λ p.
      ok (record { buffer = p; bufferlen = room; datalen = n; offset = junk })

  fill_new-Makes : Ensures (Makes room (take n mem)) (a.malloc room ≡ none) fill_new
  unfolding malloc_asserted
  fill_new-Makes = elim (Option-cases (a.malloc room)) [
    | inl e ↦ rw (e, malloc_asserted) refl
    | inr (b, e) ↦
        rw
          (
            e,
            malloc_asserted,
            cleared_block b room (laws.malloc_size room b e),
            copy_range_within (record b { bytes = replicate room 0 }) 0 mem n
                (omega (arith, length-zeros room)) enough,
          )
          (made-Makes room (take n mem) n b.addr junk (omega (arith, length-take n mem)) small fits)
  ]

-- `safebuffer(bufflen)` is an empty buffer of `bufflen` bytes, all zero, or stops at its
-- assertion because malloc failed.
pub new_empty-Makes :
    (a : Allocator) (bufflen : ℕ)
    → IsAllocator a
    → bufflen < word_mod
    → Ensures (Makes bufflen []) (a.malloc bufflen ≡ none) (new_empty a bufflen)
unfolding new_empty
new_empty-Makes a bufflen laws h = elim (Option-cases (a.malloc bufflen)) [
  | inl e ↦ rw (e, malloc_asserted) refl
  | inr (b, e) ↦
      rw (e, malloc_asserted, cleared_block b bufflen (laws.malloc_size bufflen b e))
        (made-Makes bufflen [] 0 b.addr 0 refl (omega arith) h)
]

-- The copy of a valid buffer is valid, has the same room and the same contents, and is zero
-- behind them; or the constructor stops at its assertion because malloc failed.
new_copy-Makes :
    (a : Allocator) (junk : ℕ) (other : SafeBuffer)
    → IsAllocator a
    → IsValid other
    → Ensures
        (Makes other.bufferlen (contents other))
        (a.malloc other.bufferlen ≡ none)
        (new_copy a junk other)
unfolding new_copy
new_copy-Makes a junk other laws v =
    fill_new-Makes a laws other.bufferlen v.word (bytes_at other.buffer) other.datalen v.within
      (omega (arith, v.sized, v.within)) junk

-- `safebuffer(pMem, len)` holds the first `len` bytes of `pMem`, in a whole number of kilobytes
-- with zeros behind them; or it stops at its assertion because malloc failed.
new_from-Makes :
    (a : Allocator) (junk : ℕ) (mem : List ℕ) (len : ℕ)
    → IsAllocator a
    → len ≤ length mem
    → len + 1024 < word_mod
    → Ensures
        (Makes (chunks len) (take len mem))
        (a.malloc (chunks len) ≡ none)
        (new_from a junk mem len)
unfolding new_from
new_from-Makes a junk mem len laws enough fits =
    fill_new-Makes a laws (chunks len) (omega arith) mem len (omega (arith, chunks_bounds len))
      enough junk
