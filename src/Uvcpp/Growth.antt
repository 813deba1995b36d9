-- ===== src/Uvcpp/Growth.antt =====
-- `allocSendBuf` of uvcppclient/uvcpp.cpp: the size that it computes, and what `send` then does.
use libuvwrapper.Base.{
  ℕ, ◌+◌, ◌-◌, ◌*◌, ◌%◌, ◌≤◌, ◌<◌, ◌≡◌, refl, sym, ap, ◌∙◌, ◌⊎◌, inl, inr, true, false, none, some,
  List, length, take, ltb, leb, ◌==◌, Bool-cases, arith, Outcome, ok, fault, subst, length-take,
  take-take, ◌++◌, leb→le, leb→lt, ==_iff,
}
use libuvwrapper.Memory.{Block, Pointer, same_pointer, Allocator, IsAllocator, copy_range}
use libuvwrapper.Memory.Laws.{
  copy_range_within, copy_range_beyond, copy_range_null, copy_nothing, length-overwrite,
}
use libuvwrapper.Uvcpp.{
  uint_mod, add32, sub32, Client, SendBuf, holds, dangling, grow, new_size, reallocated,
  after_realloc, fresh_copy, alloc_send_buf, copy_in, send, pending, pending_in, ready,
}
use libuvwrapper.Uvcpp.SendBuffer.{IsValid, send_appends}

-- A buffer too short for a write faults, and so does a dangling one.
abbrev IsShort : ℕ → SendBuf → Type 0
IsShort n (holds none) = Unit
IsShort n (holds (some b)) = length b.bytes < n
IsShort n dangling = Unit

short_copy :
    (b : SendBuf) (off : ℕ) (buf : List ℕ) (len : ℕ)
    → 0 < len
    → len ≤ length buf
    → IsShort (off + len) b
    → copy_in b off buf len ≡ fault
unfolding copy_in
short_copy dangling off buf len p h k = refl
short_copy (holds none) off buf len p h k = rw (copy_range_null off buf len p h) refl
short_copy (holds (some b)) off buf len p h k = rw (copy_range_beyond b off buf len k h) refl

-- The computed size when the buffer has no room for `len` bytes, although it is longer than that.
grown_size :
    (c : Client) (len : ℕ)
    → IsValid c
    → len ≤ c.send_len
    → new_size c (sub32 (sub32 c.send_len len) c.send_offset) ≡ 2 * (c.send_len - len) % uint_mod
unfolding new_size
grown_size c len v h = omega (arith, v.within, v.word)

-- A copy keeps the block's length, or faults.
copy_range-length :
    (b : Block) (off : ℕ) (src : List ℕ) (n : ℕ)
    → n ≤ length src
    → (copy_range (some b) off src n ≡ fault)
      ⊎ ((d : Block) × (copy_range (some b) off src n ≡ ok (some d))
          × (length d.bytes ≡ length b.bytes))
copy_range-length b off src n h = elim (Bool-cases (leb (off + n) (length b.bytes))) [
  | inl fits ↦ inr (
    _,
    copy_range_within b off src n (leb→le _ _ fits) h,
    length-overwrite b.bytes off (take n src) (omega (arith, leb→le _ _ fits, length-take n src)),
  )
  | inr beyond ↦ inl (copy_range_beyond b off src n (leb→lt _ _ beyond) h)
]

-- The outcome of an allocation that leaves no room for `n` bytes.
abbrev EndsShort : ℕ → Outcome SendBuf → Type 0
EndsShort n m = (m ≡ fault) ⊎ ((b : SendBuf) × (m ≡ ok b) × IsShort n b)

fresh_copy_short :
    (a : Allocator) (size off need : ℕ) (old : Block) (q : Pointer)
    → IsAllocator a
    → a.malloc size ≡ q
    → size < need
    → off ≤ length old.bytes
    → EndsShort need (fresh_copy a size off (some old))
unfolding fresh_copy
fresh_copy_short a size off need old none laws e h k = elim (Bool-cases (off == 0)) [
  | inl z ↦ rw (e, (==_iff off 0).0 z, copy_nothing old.bytes) (inr (holds none, refl, tt))
  | inr p ↦ rw (e, copy_range_null 0 old.bytes off (ground arith) k) (inl refl)
]
fresh_copy_short a size off need old (some b) laws e h k =
    elim (copy_range-length b 0 old.bytes off k) [
      | inl f ↦ rw (e, f) (inl refl)
      | inr (d, g, l) ↦
          rw (e, g) (inr (holds (some d), refl, omega (arith, l, laws.malloc_size size b e)))
    ]

reallocated_short :
    (a : Allocator) (size off need : ℕ) (old : Block) (q : Pointer)
    → IsAllocator a
    → a.realloc (some old) size ≡ q
    → size < need
    → off ≤ length old.bytes
    → EndsShort need (reallocated a size off (holds (some old)))
unfolding reallocated after_realloc
reallocated_short a size off need old none laws e h k =
    rw (e, reallocated) (fresh_copy_short a size off need old (a.malloc size) laws refl h k)
reallocated_short a size off need old (some b) laws e h k =
    elim (Bool-cases (same_pointer (some old) (some b))) [
      | inl same ↦
          rw (e, reallocated, same)
            (inr (holds (some b), refl, omega (arith, laws.realloc_size (some old) size b e)))
      | inr moved ↦ rw (e, reallocated, moved) (inr (dangling, refl, tt))
    ]

-- `send` when there is no room, after the reallocation.
send_grown :
    (a : Allocator) (buf : List ℕ) (len size : ℕ) (c : Client)
    → c.send_len < c.send_offset + len
    → c.send_offset + len < uint_mod
    → 0 < len
    → len ≤ length buf
    → new_size c (sub32 (sub32 c.send_len len) c.send_offset) ≡ size
    → EndsShort (c.send_offset + len) (reallocated a size c.send_offset c.send_buf)
    → send a buf len c ≡ fault
unfolding send grow alloc_send_buf
send_grown a buf len size c tight small p enough e (inl f) = rw (full, e, f) refl
  where
    full : ltb c.send_len (add32 len c.send_offset) ≡ true
    full = ground arith
send_grown a buf len size c tight small p enough e (inr (b, f, short)) =
    rw (full, e, f, short_copy b c.send_offset buf len p enough short) refl
  where
    full : ltb c.send_len (add32 len c.send_offset) ≡ true
    full = ground arith

old_length : {c : Client} (v : IsValid c) → c.send_offset ≤ length v.block.bytes
old_length v = omega (arith, v.within, v.sized)

-- A `send` for which the buffer has no room, with a message no longer than the buffer, writes out of
-- bounds or through null if twice the difference of the buffer's length and the message's is less
-- than what waits and the message, whatever the allocator answers. The conditions: the buffer is
-- sound, the allocator is the C library's, the message can be read, and the sum fits 32 bits.
pub growth_overruns :
    (a : Allocator) (buf : List ℕ) (len : ℕ) (c : Client)
    → IsAllocator a
    → IsValid c
    → len ≤ length buf
    → len ≤ c.send_len
    → c.send_len < c.send_offset + len
    → c.send_offset + len < uint_mod
    → 2 * (c.send_len - len) < c.send_offset + len
    → send a buf len c ≡ fault
growth_overruns a buf len c laws v enough below tight small short =
    let size : ℕ = 2 * (c.send_len - len) % uint_mod in
    let ends : EndsShort (c.send_offset + len) (reallocated a size c.send_offset c.send_buf) =
      subst (λ b. EndsShort (c.send_offset + len) (reallocated a size c.send_offset b)) (sym v.held)
        (reallocated_short a size c.send_offset (c.send_offset + len) v.block
          (a.realloc (some v.block) size) laws refl (omega arith) (old_length v)) in
    send_grown a buf len size c tight small (omega (arith, v.within)) enough
      (grown_size c len v below) ends

dangles :
    (a : Allocator) (size off need : ℕ) (old b : Block)
    → a.realloc (some old) size ≡ some b
    → same_pointer (some old) (some b) ≡ false
    → EndsShort need (reallocated a size off (holds (some old)))
unfolding reallocated after_realloc
dangles a size off need old b e moved = rw (e, reallocated, moved) (inr (dangling, refl, tt))

-- A `send` for which the buffer has no room, with a message no longer than the buffer, writes through
-- the pointer to the old block if realloc answers with a block at another address. The conditions:
-- the buffer is sound, the message can be read, and what waits and the message fit 32 bits.
pub growth_moves :
    (a : Allocator) (buf : List ℕ) (len : ℕ) (c : Client) (v : IsValid c) (b : Block)
    → len ≤ length buf
    → len ≤ c.send_len
    → c.send_len < c.send_offset + len
    → c.send_offset + len < uint_mod
    → a.realloc (some v.block) (2 * (c.send_len - len) % uint_mod) ≡ some b
    → same_pointer (some v.block) (some b) ≡ false
    → send a buf len c ≡ fault
growth_moves a buf len c v b enough below tight small answer moved =
    let size : ℕ = 2 * (c.send_len - len) % uint_mod in
    send_grown a buf len size c tight small (omega (arith, v.within)) enough
      (grown_size c len v below)
      (subst (λ p. EndsShort (c.send_offset + len) (reallocated a size c.send_offset p))
        (sym v.held) (dangles a size c.send_offset (c.send_offset + len) v.block b answer moved))

stays :
    (a : Allocator) (size off : ℕ) (old b : Block)
    → a.realloc (some old) size ≡ some b
    → same_pointer (some old) (some b) ≡ true
    → reallocated a size off (holds (some old)) ≡ ok (holds (some b))
unfolding reallocated after_realloc
stays a size off old b e same = rw (e, reallocated, same) refl

-- `send` when realloc grows the block where it is: as if the block had been that long.
grown_in_place :
    (a : Allocator) (buf : List ℕ) (len size : ℕ) (c : Client) (old b : Block)
    → c.send_buf ≡ holds (some old)
    → c.send_len < c.send_offset + len
    → c.send_offset + len ≤ size
    → size < uint_mod
    → new_size c (sub32 (sub32 c.send_len len) c.send_offset) ≡ size
    → a.realloc (some old) size ≡ some b
    → same_pointer (some old) (some b) ≡ true
    → send a buf len c ≡ send a buf len (record c { send_buf = holds (some b); send_len = size })
unfolding send grow alloc_send_buf
grown_in_place a buf len size c old b held tight room small e answer same =
    rw (full, enough, e, held, stays a size c.send_offset old b answer same) refl
  where
    full : ltb c.send_len (add32 len c.send_offset) ≡ true
    full = ground arith

    enough : ltb size (add32 len c.send_offset) ≡ false
    enough = ground arith

-- When realloc grows the block where it is and the new length suffices, `send` appends as usual.
growth_in_place :
    (a : Allocator) (buf : List ℕ) (len : ℕ) (c : Client) (v : IsValid c) (b : Block)
    → IsAllocator a
    → c.async ≡ ready
    → len ≤ length buf
    → 2 * len ≤ c.send_len
    → c.send_len < c.send_offset + len
    → c.send_offset + len ≤ 2 * (c.send_len - len)
    → 2 * (c.send_len - len) < uint_mod
    → a.realloc (some v.block) (2 * (c.send_len - len)) ≡ some b
    → same_pointer (some v.block) (some b) ≡ true
    → (d : Client) × (send a buf len c ≡ ok (len, d))
      × IsValid d
      × (pending d ≡ pending c ++ take len buf)
growth_in_place a buf len c v b laws live enough half tight room small answer same =
    let (d, ran, w, more, _, _, _) = send_appends a buf len grown valid live room enough in
    (
      d,
      grown_in_place a buf len size c v.block b v.held tight room small sized answer same ∙ ran,
      w,
      more ∙ ap (λ xs. xs ++ take len buf) same_bytes,
    )
  where
    size : ℕ
    size = 2 * (c.send_len - len)

    sized : new_size c (sub32 (sub32 c.send_len len) c.send_offset) ≡ size
    sized = grown_size c len v (omega arith) ∙ omega arith

    grown : Client
    grown = record c { send_buf = holds (some b); send_len = size }

    valid : IsValid grown
    valid = record {
      block = b;
      held = refl;
      sized = laws.realloc_size (some v.block) size b answer;
      within = omega (arith, v.within);
      word = small;
    }

    same_bytes : take c.send_offset b.bytes ≡ pending c
    same_bytes =
        sym (take-take c.send_offset (length v.block.bytes) b.bytes (old_length v))
        ∙ ap (take c.send_offset)
            (laws.realloc_keeps (some v.block) size b answer (omega (arith, v.sized)))
        ∙ ap (λ p. pending_in p c.send_offset) (sym v.held)
