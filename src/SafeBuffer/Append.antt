-- ===== src/SafeBuffer/Append.antt =====
-- `safebuffer::readmem` appends: its three parts, one after the other.
use libuvwrapper.Base.{
  ℕ, ◌+◌, ◌≤◌, ◌<◌, ◌≡◌, refl, sym, ap, ◌∙◌, ◌⊎◌, inl, inr, Bool, true, false, none, some, arith,
  length, replicate, leb, leb→lt, Bool-cases, Option-cases, Ensures, Ensures-map, take_all,
  drop-replicate,
}
use libuvwrapper.Memory.{
  Pointer, word_mod, add64, sub64, bytes_at, is_null, Allocator, IsAllocator, malloc_asserted,
}
use libuvwrapper.Memory.Laws.{length-zeros, clear_range_within, clear_tail}
use libuvwrapper.SafeBuffer.{SafeBuffer, chunks, resize, reserve, fresh_buffer, make_room}
use libuvwrapper.SafeBuffer.Valid.{IsValid}
use libuvwrapper.SafeBuffer.Resize.{Keeps, Keeps-refl, IsLost, Resized, resize-Resized}

pub Keeps-trans : {s t u : SafeBuffer} → Keeps s t → Keeps t u → Keeps s u
Keeps-trans h k = record {
  valid = k.valid;
  same_contents = k.same_contents ∙ h.same_contents;
  same_datalen = k.same_datalen ∙ h.same_datalen;
  zeroed = λ z. k.zeroed (h.zeroed z);
}

pub chunks_bounds :
    (len : ℕ) → len + 1024 < word_mod → (len < chunks len) × (chunks len ≤ len + 1024)
chunks_bounds len h = omega arith

-- The block that `reserve` gives to a buffer that is null.
reserve-fresh :
    (a : Allocator) (s : SafeBuffer) (len : ℕ)
    → IsAllocator a
    → IsValid s
    → len + 1024 < word_mod
    → s.buffer ≡ none
    → (p : Pointer) → a.malloc (chunks len) ≡ p
    → Ensures (Keeps s) ((s.buffer ≡ none) × (a.malloc (chunks len) ≡ none)) (fresh_buffer a s len)
unfolding fresh_buffer
reserve-fresh a s len laws v h null none e = rw (e, malloc_asserted) (null, refl)
reserve-fresh a s len laws v h null (some b) e =
    rw
      (
        e,
        malloc_asserted,
        clear_range_within b 0 (chunks len) (omega (arith, size)),
        clear_tail b.bytes 0 (chunks len) (omega (arith, size)),
      )
      fresh
  where
    size : length b.bytes ≡ chunks len
    size = laws.malloc_size (chunks len) b e

    empty : s.datalen ≡ 0
    empty = omega (arith, v.sized, v.within, ap (λ p. length (bytes_at p)) null)

    fresh : Keeps s (record s {
      buffer = some (record b { bytes = replicate (chunks len) 0 });
      bufferlen = chunks len;
      datalen = 0;
    })
    fresh = record {
      valid = record {
        sized = length-zeros (chunks len);
        within = omega arith;
        word = omega arith;
      };
      same_contents = sym (
          take_all s.datalen (bytes_at s.buffer)
            (omega (arith, empty, v.sized, v.within, ap (λ p. length (bytes_at p)) null))
          ∙ ap bytes_at null);
      same_datalen = sym empty;
      zeroed = λ _. drop-replicate 0 (chunks len) 0;
    }

pub reserve-Keeps :
    (a : Allocator) (s : SafeBuffer) (len : ℕ)
    → IsAllocator a
    → IsValid s
    → len + 1024 < word_mod
    → Ensures (Keeps s) ((s.buffer ≡ none) × (a.malloc (chunks len) ≡ none)) (reserve a s len)
unfolding reserve
reserve-Keeps a s len laws v h = elim (Option-cases s.buffer) [
  | inl null ↦
      rw (ap is_null null) (reserve-fresh a s len laws v h null (a.malloc (chunks len)) refl)
  | inr (b, e) ↦ rw (ap is_null e) (Keeps-refl s v)
]

-- After `make_room` there is room for `len` bytes and one more.
abbrev pub Roomy : Allocator → SafeBuffer → ℕ → Bool × SafeBuffer → Type 0
Roomy a s len r =
    ((r.0 ≡ true) × Keeps s r.1 × (s.datalen + len < r.1.bufferlen))
    ⊎ ((r.0 ≡ false) × IsLost a r.1)

pub make_room-Roomy :
    (a : Allocator) (s : SafeBuffer) (len : ℕ)
    → IsAllocator a
    → IsValid s
    → s.datalen + len + 1024 < word_mod
    → Ensures (Roomy a s len) ⊥ (make_room a s len)
unfolding make_room
make_room-Roomy a s len laws v h = elim (Bool-cases (leb (sub64 s.bufferlen s.datalen) len)) [
  | inl tight ↦ rw tight (
      Ensures-map (Resized a s wanted) (Roomy a s len) ⊥ (resize a s wanted)
        (resize-Resized a s wanted laws v (omega (arith, chunks_bounds len))) resized_is_roomy)
  | inr roomy ↦
      rw roomy (inl (refl, Keeps-refl s v, omega (arith, leb→lt _ _ roomy, v.within, v.word)))
]
  where
    wanted : ℕ
    wanted = add64 s.datalen (chunks len)

    resized_is_roomy : (r : Bool × SafeBuffer) → Resized a s wanted r → Roomy a s len r
    resized_is_roomy r (inl (e, k, l, _)) = inl (e, k, omega (arith, chunks_bounds len))
    resized_is_roomy r (inr lost) = inr lost
