-- ===== src/SafeBuffer/Resize.antt =====
-- `safebuffer::resize`: the buffer grows, keeps its bytes and clears the rest, or is lost.
use libuvwrapper.Base.{
  ℕ, ◌-◌, ◌≤◌, ◌<◌, ◌≡◌, refl, sym, ap, ◌∙◌, ◌⊎◌, inl, inr, Bool, true, false, none, some, List,
  ◌++◌, arith, length, take, replicate, leb, leb→le, leb→lt, Bool-cases, Ensures, length-append,
  length-take, take_prefix, drop_prefix, take-take, ok,
}
use libuvwrapper.Memory.{Block, Pointer, word_mod, sub64, bytes_at, Allocator, IsAllocator}
use libuvwrapper.Memory.Laws.{length-zeros, clear_range_within, clear_tail}
use libuvwrapper.SafeBuffer.{SafeBuffer, resize, resized}
use libuvwrapper.SafeBuffer.Valid.{IsValid, contents, IsZeroed}

-- `t` holds what `s` holds.
pub record Keeps (s t : SafeBuffer) : Type 0 where
  pub valid : IsValid t
  pub same_contents : contents t ≡ contents s
  pub same_datalen : t.datalen ≡ s.datalen
  pub zeroed : IsZeroed s → IsZeroed t

-- realloc has refused; the buffer is gone, with what it held.
pub record IsLost (a : Allocator) (t : SafeBuffer) : Type 0 where
  pub refused : (p : Pointer) × (n : ℕ) × (a.realloc p n ≡ none)
  pub no_buffer : t.buffer ≡ none
  pub no_room : t.bufferlen ≡ 0
  pub no_content : t.datalen ≡ 0

abbrev pub Resized : Allocator → SafeBuffer → ℕ → Bool × SafeBuffer → Type 0
Resized a s len r =
    ((r.0 ≡ true) × Keeps s r.1 × (len ≤ r.1.bufferlen) × (s.bufferlen ≤ r.1.bufferlen))
    ⊎ ((r.0 ≡ false) × IsLost a r.1)

module _ (s : SafeBuffer) (v : IsValid s) (len : ℕ) (grows : s.bufferlen < len)
    (fits : len < word_mod) where
  module _ (b : Block) (size : length b.bytes ≡ len)
      (kept : take (length (bytes_at s.buffer)) b.bytes ≡ bytes_at s.buffer) where
    abbrev cleared : List ℕ
    cleared = take s.datalen b.bytes ++ replicate (len - s.datalen) 0

    abbrev grown : SafeBuffer
    grown = record s { buffer = some (record b { bytes = cleared }); bufferlen = len }

    head_length : length (take s.datalen b.bytes) ≡ s.datalen
    head_length = omega (arith, length-take s.datalen b.bytes)

    resized-grown : resized s len (some b) ≡ ok (true, grown)
    unfolding resized
    resized-grown =
        let e : sub64 len s.datalen ≡ len - s.datalen = omega arith in
        rw (e, clear_range_within b s.datalen (len - s.datalen) (omega arith))
          (ap
            (λ xs. ok (true, record s { buffer = some (record b { bytes = xs }); bufferlen = len }))
            (clear_tail b.bytes s.datalen (len - s.datalen) (omega arith)))

    grown-Keeps : Keeps s grown
    grown-Keeps = record {
      valid = record {
        sized = omega (
          arith,
          length-append (take s.datalen b.bytes) (replicate (len - s.datalen) 0),
          head_length,
          length-zeros (len - s.datalen),
        );
        within = omega arith;
        word = fits;
      };
      same_contents =
          take_prefix s.datalen (take s.datalen b.bytes) (replicate (len - s.datalen) 0) head_length
          ∙ sym (take-take s.datalen (length (bytes_at s.buffer)) b.bytes (omega arith))
          ∙ ap (take s.datalen) kept;
      same_datalen = refl;
      zeroed = λ _.
          drop_prefix s.datalen (take s.datalen b.bytes) (replicate (len - s.datalen) 0)
            head_length;
    }

  resized-Resized :
      (a : Allocator)
      → IsAllocator a
      → (p : Pointer) → a.realloc s.buffer len ≡ p
      → Ensures (Resized a s len) ⊥ (resized s len p)
  unfolding resized
  resized-Resized a laws none e = inr (
    refl,
    record { refused = (s.buffer, len, e); no_buffer = refl; no_room = refl; no_content = refl },
  )
  resized-Resized a laws (some b) e =
      rw (resized-grown b size kept) (inl (refl, grown-Keeps b size kept, omega arith, omega arith))
    where
      size : length b.bytes ≡ len
      size = laws.realloc_size s.buffer len b e

      kept : take (length (bytes_at s.buffer)) b.bytes ≡ bytes_at s.buffer
      kept = laws.realloc_keeps s.buffer len b e (omega (arith, v.sized))

pub Keeps-refl : (s : SafeBuffer) → IsValid s → Keeps s s
Keeps-refl s v = record { valid = v; same_contents = refl; same_datalen = refl; zeroed = λ z. z }

-- A valid buffer is resized to at least `len` bytes with its contents kept, or, where realloc
-- fails, is left null and empty and `false` is returned. There is no access out of bounds.
pub resize-Resized :
    (a : Allocator) (s : SafeBuffer) (len : ℕ)
    → IsAllocator a
    → IsValid s
    → len < word_mod
    → Ensures (Resized a s len) ⊥ (resize a s len)
unfolding resize
resize-Resized a s len laws v fits = elim (Bool-cases (leb len s.bufferlen)) [
  | inl small ↦ rw small (inl (refl, Keeps-refl s v, leb→le len s.bufferlen small, omega arith))
  | inr large ↦ rw large (
      resized-Resized s v len (leb→lt s.bufferlen len large) fits a laws (a.realloc s.buffer len)
        refl)
]
