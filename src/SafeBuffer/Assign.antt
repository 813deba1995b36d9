-- ===== src/SafeBuffer/Assign.antt =====
-- `safebuffer::operator=` and `safebuffer::swap`.
use libuvwrapper.Base.{
  ◌+◌, ◌<◌, ◌≡◌, refl, sym, ap, ◌∙◌, ◌⊎◌, inl, inr, ◌↔◌, ◌≢◌, none-ne-some, Bool, true, false, none,
  ◌++◌, arith, length, take, Option-cases, Bool-cases, Ensures, Ensures-bind, Ensures-weaken,
  length-take, ok, ◌==◌, if◌then◌else◌, ==_iff, ◌>>=◌,
}
use libuvwrapper.Memory.{
  word_mod, bytes_at, is_null, same_pointer, Allocator, IsAllocator, malloc_asserted,
}
use libuvwrapper.SafeBuffer.{
  SafeBuffer, borrow_size, discard, prepare, assign, swap, readmem, get_memory, get_data_length,
}
use libuvwrapper.SafeBuffer.Valid.{IsValid, contents}
use libuvwrapper.SafeBuffer.Resize.{IsLost}
use libuvwrapper.SafeBuffer.Readmem.{Appended, readmem-Appended, MallocRefused}
use libuvwrapper.SafeBuffer.Clear.{clear_mem-Clears}

-- Ready to take a copy: valid and empty.
pub record IsReady (t : SafeBuffer) : Type 0 where
  pub valid : IsValid t
  pub empty : t.datalen ≡ 0
  pub present : t.buffer ≢ none

borrow_size-IsReady :
    (a : Allocator) (s other : SafeBuffer)
    → IsAllocator a
    → IsValid other
    → Ensures IsReady (a.malloc other.bufferlen ≡ none) (borrow_size a s other)
unfolding borrow_size malloc_asserted
borrow_size-IsReady a s other laws v = elim (Option-cases (a.malloc other.bufferlen)) [
  | inl e ↦ rw (e, malloc_asserted) refl
  | inr (b, e) ↦
      rw (e, malloc_asserted)
        (record {
          valid = record {
            sized = laws.malloc_size other.bufferlen b e;
            within = omega arith;
            word = v.word;
          };
          empty = refl;
          present = λ n. none-ne-some (sym n);
        })
]

discard-IsReady :
    (s : SafeBuffer)
    → IsValid s
    → s.buffer ≢ none
    → (t : SafeBuffer) × (discard s ≡ ok t) × IsReady t
unfolding discard
discard-IsReady s v full =
    let (t, cleared, c) = clear_mem-Clears s v in
    (
      record t { datalen = 0 },
      rw cleared,
      record {
        valid = record { sized = c.valid.sized; within = omega arith; word = c.valid.word };
        empty = refl;
        present = λ n. full (c.null_iff n);
      },
    )

-- malloc has refused the memory that `operator=` asks for when its buffer is null.
abbrev pub BorrowRefused : Allocator → SafeBuffer → SafeBuffer → Type 0
BorrowRefused a s other = (s.buffer ≡ none) × (a.malloc other.bufferlen ≡ none)

prepare-IsReady :
    (a : Allocator) (s other : SafeBuffer)
    → IsAllocator a
    → IsValid s
    → IsValid other
    → Ensures IsReady (BorrowRefused a s other) (prepare a s other)
unfolding prepare
prepare-IsReady a s other laws v w = elim (Option-cases s.buffer) [
  | inl null ↦ rw (ap is_null null) (
      Ensures-weaken IsReady IsReady (a.malloc other.bufferlen ≡ none) (BorrowRefused a s other)
        (borrow_size a s other) (borrow_size-IsReady a s other laws w) (λ t r. r) (λ e. (null, e)))
  | inr (b, full) ↦ rw (ap is_null full) (keep_or_discard (λ n. none-ne-some (sym n ∙ full)))
]
  where
    keep_or_discard :
        s.buffer ≢ none
        → Ensures IsReady (BorrowRefused a s other) (if s.datalen == 0 then ok s else discard s)
    keep_or_discard full = elim (Bool-cases (s.datalen == 0)) [
      | inl e ↦ rw e (record { valid = v; empty = (==_iff s.datalen 0).0 e; present = full })
      | inr e ↦ let (t, done, r) = discard-IsReady s v full in rw (e, done) r
    ]

-- `t` has become a copy of `other`, or its buffer is lost.
abbrev pub Assigned : Allocator → SafeBuffer → SafeBuffer → Type 0
Assigned a other t =
    (IsValid t × (contents t ≡ contents other) × (t.datalen ≡ other.datalen)) ⊎ IsLost a t

-- Assigning one valid buffer to another, with another block, leaves it valid with exactly the
-- other's contents, whatever it held; or realloc has failed and it is null and empty. The
-- assertion stops it only if its buffer was null and malloc fails, and nothing is accessed out of
-- bounds.
pub assign-Assigned :
    (a : Allocator) (s other : SafeBuffer)
    → IsAllocator a
    → IsValid s
    → IsValid other
    → same_pointer other.buffer s.buffer ≡ false
    → other.datalen + 1024 < word_mod
    → Ensures (Assigned a other) (BorrowRefused a s other) (assign a s other)
unfolding assign get_memory get_data_length
assign-Assigned a s other laws v w distinct fits = rw distinct (
    Ensures-bind IsReady (Assigned a other) (BorrowRefused a s other) (prepare a s other) _
      (prepare-IsReady a s other laws v w) copy)
  where
    take_over :
        (t : SafeBuffer) (r : Bool × SafeBuffer)
        → IsReady t
        → Appended a t (contents other) r
        → Assigned a other r.1
    take_over t r e (inr (_, lost)) = inr lost
    take_over t r e (inl (_, h)) = inl (
      h.valid,
      h.appended ∙ ap (λ n. take n (bytes_at t.buffer) ++ contents other) e.empty,
      omega (
        arith,
        h.counted,
        e.empty,
        length-take other.datalen (bytes_at other.buffer),
        w.sized,
        w.within,
      ),
    )

    copy :
        (t : SafeBuffer)
        → IsReady t
        → Ensures
            (Assigned a other)
            (BorrowRefused a s other)
            (readmem a t (bytes_at other.buffer) other.datalen >>= λ r. ok r.1)
    copy t e =
        Ensures-bind (Appended a t (contents other)) (Assigned a other) (BorrowRefused a s other)
          (readmem a t (bytes_at other.buffer) other.datalen) _
          (Ensures-weaken (Appended a t (contents other)) (Appended a t (contents other))
            (MallocRefused a t other.datalen) (BorrowRefused a s other)
            (readmem a t (bytes_at other.buffer) other.datalen)
            (readmem-Appended a t (bytes_at other.buffer) other.datalen laws e.valid
              (omega (arith, w.sized, w.within)) (omega (arith, e.empty)))
            (λ r h. h) (λ refused. absurd (e.present refused.0)))
          (λ r h. take_over t r e h)

-- Self-assignment, and assignment between two null buffers, change nothing.
assign_self :
    (a : Allocator) (s other : SafeBuffer)
    → same_pointer other.buffer s.buffer ≡ true
    → assign a s other ≡ ok s
unfolding assign
assign_self a s other same = rw same

-- `swap` of two valid buffers gives the first the other's contents in a valid buffer exactly when
-- the two hold equally many bytes: the length of the other's data is lost.
pub swap_iff :
    (s other : SafeBuffer)
    → IsValid s
    → IsValid other
    → (IsValid (swap s other).0 × (contents (swap s other).0 ≡ contents other))
      ↔ (s.datalen ≡ other.datalen)
unfolding swap
swap_iff s other v w = (lengths_agree, exchanged)
  where
    lengths_agree :
        IsValid (swap s other).0 × (contents (swap s other).0 ≡ contents other)
        → s.datalen ≡ other.datalen
    lengths_agree h = omega (
      arith,
      ap length h.1,
      length-take s.datalen (bytes_at other.buffer),
      length-take other.datalen (bytes_at other.buffer),
      h.0.within,
      h.0.sized,
      w.sized,
      w.within,
    )

    exchanged :
        s.datalen ≡ other.datalen
        → IsValid (swap s other).0 × (contents (swap s other).0 ≡ contents other)
    exchanged e = (
      record { sized = w.sized; within = omega (arith, e, w.within); word = w.word },
      ap (λ n. take n (bytes_at other.buffer)) e,
    )

-- The other buffer does take over what the first held, and the read offsets stay where they were.
swap_other :
    (s other : SafeBuffer)
    → IsValid s
    → IsValid (swap s other).1
      × (contents (swap s other).1 ≡ contents s)
      × ((swap s other).0.offset ≡ s.offset)
      × ((swap s other).1.offset ≡ other.offset)
unfolding swap
swap_other s other v =
    (record { sized = v.sized; within = v.within; word = v.word }, refl, refl, refl)
