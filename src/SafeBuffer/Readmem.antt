-- ===== src/SafeBuffer/Readmem.antt =====
-- `safebuffer::readmem` as a whole: it appends, or loses the buffer when memory runs out.
use libuvwrapper.Base.{
  ℕ, suc, ◌+◌, ◌-◌, ◌≤◌, ◌<◌, ◌≡◌, refl, sym, ap, subst, ◌∙◌, ◌⊎◌, inl, inr, Bool, true, false,
  none, some, List, ◌∷◌, ◌++◌, arith, none-ne-some, length, take, drop, replicate, get_elem?,
  Option-cases, Outcome, Ensures, Ensures-bind, length-take, drop-replicate, drop-drop,
  get_elem?-drop, ok, fault, abort,
}
use libuvwrapper.Memory.{
  copy_range, Block, word_mod, add64, bytes_at, Allocator, IsAllocator, NeverFails, overwrite,
}
use libuvwrapper.Memory.Laws.{copy_range_within, take-overwrite, drop-overwrite, length-overwrite}
use libuvwrapper.SafeBuffer.{SafeBuffer, chunks, reserve, make_room, append_bytes, readmem}
use libuvwrapper.SafeBuffer.Valid.{IsValid, contents, IsZeroed}
use libuvwrapper.SafeBuffer.Resize.{Keeps, IsLost}
use libuvwrapper.SafeBuffer.Append.{Keeps-trans, Roomy, reserve-Keeps, make_room-Roomy}

-- `t` holds what `s` holds and `xs` behind it, with at least one byte to spare.
pub record Appends (s : SafeBuffer) (xs : List ℕ) (t : SafeBuffer) : Type 0 where
  pub valid : IsValid t
  pub appended : contents t ≡ contents s ++ xs
  pub counted : t.datalen ≡ s.datalen + length xs
  pub spare : t.datalen < t.bufferlen
  pub zeroed : IsZeroed s → IsZeroed t

abbrev pub Appended : Allocator → SafeBuffer → List ℕ → Bool × SafeBuffer → Type 0
Appended a s xs r = ((r.0 ≡ true) × Appends s xs r.1) ⊎ ((r.0 ≡ false) × IsLost a r.1)

-- The copy into a buffer that is large enough.
append_within :
    (s : SafeBuffer) (mem : List ℕ) (len : ℕ)
    → IsValid s
    → s.datalen + len < s.bufferlen
    → len ≤ length mem
    → (b : Block) → s.buffer ≡ some b
    → (t : SafeBuffer) × (append_bytes s mem len true ≡ ok (true, t)) × Appends s (take len mem) t
unfolding append_bytes
append_within s mem len v room enough b e = (
  record s { buffer = some (record b { bytes = written }); datalen = add64 s.datalen len },
  copied,
  appends,
)
  where
    size : length b.bytes ≡ s.bufferlen
    size = sym (ap (λ p. length (bytes_at p)) e) ∙ v.sized

    ys : List ℕ
    ys = take len mem

    length_ys : length ys ≡ len
    length_ys = omega (arith, length-take len mem)

    written : List ℕ
    written = overwrite b.bytes s.datalen ys

    copied :
        append_bytes s mem len true
        ≡ ok (
          true,
          record s { buffer = some (record b { bytes = written }); datalen = add64 s.datalen len },
        )
    copied = rw (
        ap (λ p. copy_range p s.datalen mem len) e
        ∙ copy_range_within b s.datalen mem len (omega (arith, size)) enough)

    no_wrap : add64 s.datalen len ≡ s.datalen + length ys
    no_wrap = omega (arith, length_ys, v.word)

    inside : s.datalen + length ys ≤ length b.bytes
    inside = omega (arith, length_ys, size)

    still_zero :
        IsZeroed s
        → drop (add64 s.datalen len) written ≡ replicate (s.bufferlen - add64 s.datalen len) 0
    still_zero z =
        let fewer : s.bufferlen - s.datalen - length ys ≡ s.bufferlen - add64 s.datalen len =
          omega (arith, no_wrap) in
        ap (λ n. drop n written) no_wrap
        ∙ drop-overwrite b.bytes s.datalen ys inside
        ∙ sym (drop-drop (length ys) s.datalen b.bytes)
        ∙ ap (λ p. drop (length ys) (drop s.datalen (bytes_at p))) (sym e)
        ∙ ap (drop (length ys)) z
        ∙ drop-replicate (length ys) (s.bufferlen - s.datalen) 0
        ∙ ap (λ n. replicate n 0) fewer

    appends :
        Appends s ys
          (record s { buffer = some (record b { bytes = written }); datalen = add64 s.datalen len })
    appends = record {
      valid = record {
        sized = length-overwrite b.bytes s.datalen ys inside ∙ size;
        within = omega (arith, no_wrap, length_ys);
        word = v.word;
      };
      appended =
          ap (λ n. take n written) no_wrap
          ∙ take-overwrite b.bytes s.datalen ys inside
          ∙ ap (λ p. take s.datalen (bytes_at p) ++ ys) (sym e);
      counted = no_wrap;
      spare = omega (arith, no_wrap, length_ys);
      zeroed = still_zero;
    }

-- A buffer with room is not null.
append_roomy :
    (s : SafeBuffer) (mem : List ℕ) (len : ℕ)
    → IsValid s
    → s.datalen + len < s.bufferlen
    → len ≤ length mem
    → (t : SafeBuffer) × (append_bytes s mem len true ≡ ok (true, t)) × Appends s (take len mem) t
append_roomy s mem len v room enough = elim (Option-cases s.buffer) [
  | inl null ↦ absurd (omega (arith, v.sized, ap (λ p. length (bytes_at p)) null))
  | inr (b, e) ↦ append_within s mem len v room enough b e
]

Appends-Keeps : {s t u : SafeBuffer} {xs : List ℕ} → Keeps s t → Appends t xs u → Appends s xs u
Appends-Keeps {xs = xs} k h = record {
  valid = h.valid;
  appended = h.appended ∙ ap (λ ys. ys ++ xs) k.same_contents;
  counted = omega (arith, h.counted, k.same_datalen);
  spare = h.spare;
  zeroed = λ z. h.zeroed (k.zeroed z);
}

IsLost-append :
    (a : Allocator) (s : SafeBuffer) (mem : List ℕ) (len : ℕ) (r : Bool × SafeBuffer)
    → r.0 ≡ false
    → IsLost a r.1
    → Ensures (Appended a s (take len mem)) ⊥ (append_bytes r.1 mem len r.0)
unfolding append_bytes
IsLost-append a s mem len (b, t) e lost = rw e (inr (refl, lost))

Roomy-append :
    (a : Allocator) (s : SafeBuffer) (mem : List ℕ) (len : ℕ)
    → len ≤ length mem
    → (r : Bool × SafeBuffer) → Roomy a s len r
    → Ensures (Appended a s (take len mem)) ⊥ (append_bytes r.1 mem len r.0)
Roomy-append a s mem len enough r (inr (e, lost)) = IsLost-append a s mem len r e lost
Roomy-append a s mem len enough (b, t) (inl (e, k, room)) =
    let (u, done, h) = append_roomy t mem len k.valid (omega (arith, k.same_datalen)) enough in
    rw (e, done) (inl (refl, Appends-Keeps k h))

-- The first malloc of a buffer that is null has failed.
abbrev pub MallocRefused : Allocator → SafeBuffer → ℕ → Type 0
MallocRefused a s len = (s.buffer ≡ none) × (a.malloc (chunks len) ≡ none)

no_assertion :
    {A : Type 0} (P : A → Type 0) (Q : Type 0) (m : Outcome A) → Ensures P ⊥ m → Ensures P Q m
no_assertion P Q (ok a) h = h
no_assertion P Q abort h = elim h [ ]
no_assertion P Q fault h = h

-- From a valid buffer `readmem` either returns `true` and has appended exactly the first `len`
-- bytes of `pMem`, with a byte to spare and the bytes behind the data still zero if they were
-- before; or it returns `false`, realloc has failed, and the buffer is null and empty. It stops at the
-- assertion only if the buffer was null and malloc fails, and makes no access out of bounds. The conditions: the allocator
-- is the C library's, `len` bytes can be read at `pMem`, and the size asked for fits a word.
pub readmem-Appended :
    (a : Allocator) (s : SafeBuffer) (mem : List ℕ) (len : ℕ)
    → IsAllocator a
    → IsValid s
    → len ≤ length mem
    → s.datalen + len + 1024 < word_mod
    → Ensures (Appended a s (take len mem)) (MallocRefused a s len) (readmem a s mem len)
unfolding readmem
readmem-Appended a s mem len laws v enough fits =
    Ensures-bind (Keeps s) (Appended a s (take len mem)) (MallocRefused a s len) (reserve a s len) _
      (reserve-Keeps a s len laws v (omega arith))
      λ t k.
        Ensures-bind (Roomy a t len) (Appended a s (take len mem)) (MallocRefused a s len)
          (make_room a t len) _
          (no_assertion _ _ (make_room a t len)
            (make_room-Roomy a t len laws k.valid (omega (arith, k.same_datalen))))
          λ r h.
            no_assertion _ _ (append_bytes r.1 mem len r.0)
              (Roomy-append a s mem len enough r (through k h))
  where
    through :
        {t : SafeBuffer} {r : Bool × SafeBuffer} → Keeps s t → Roomy a t len r → Roomy a s len r
    through k (inl (e, k', room)) = inl (e, Keeps-trans k k', omega (arith, k.same_datalen))
    through k (inr lost) = inr lost

-- Where memory never runs out, `readmem` on a valid buffer returns `true` and has appended exactly
-- the first `len` bytes of `pMem`, with a byte to spare. The conditions: `len` bytes can be read, and
-- the size asked for fits a word.
pub readmem_total :
    (a : Allocator) (s : SafeBuffer) (mem : List ℕ) (len : ℕ)
    → IsAllocator a
    → NeverFails a
    → IsValid s
    → len ≤ length mem
    → s.datalen + len + 1024 < word_mod
    → (t : SafeBuffer) × (readmem a s mem len ≡ ok (true, t)) × Appends s (take len mem) t
readmem_total a s mem len laws always v enough fits =
    go (readmem a s mem len) (readmem-Appended a s mem len laws v enough fits)
  where
    go :
        (m : Outcome (Bool × SafeBuffer))
        → Ensures (Appended a s (take len mem)) (MallocRefused a s len) m
        → (t : SafeBuffer) × (m ≡ ok (true, t)) × Appends s (take len mem) t
    go (ok (b, t)) (inl (e, h)) = (t, rw e, h)
    go (ok (b, t)) (inr (e, lost)) =
        let (p, n, refused) = lost.refused in
        let (block, given) = always.realloc_some p n in absurd (none-ne-some (sym refused ∙ given))
    go abort (null, refused) =
        let (block, given) = always.malloc_some (chunks len) in
        absurd (none-ne-some (sym refused ∙ given))
    go fault h = elim h [ ]

one_more_zero : (n m : ℕ) → m < n → replicate {A = ℕ} (n - m) 0 ≡ 0 ∷ replicate (n - m - 1) 0
one_more_zero n m h =
    let e : n - m ≡ suc (n - m - 1) = omega arith in ap (λ k. replicate {A = ℕ} k 0) e

-- When `readmem` returns `true` on a buffer that was zero behind its data, the data end in a zero
-- byte of the block: they can be read as a C string.
terminated-readmem :
    (a : Allocator) (s : SafeBuffer) (mem : List ℕ) (len : ℕ) (t : SafeBuffer)
    → IsAllocator a
    → IsValid s
    → IsZeroed s
    → len ≤ length mem
    → s.datalen + len + 1024 < word_mod
    → readmem a s mem len ≡ ok (true, t)
    → get_elem? (bytes_at t.buffer) t.datalen ≡ some 0
terminated-readmem a s mem len t laws v z enough fits done = go (
    subst (Ensures (Appended a s (take len mem)) (MallocRefused a s len)) done
      (readmem-Appended a s mem len laws v enough fits))
  where
    go : Appended a s (take len mem) (true, t) → get_elem? (bytes_at t.buffer) t.datalen ≡ some 0
    go (inl (_, h)) =
        get_elem?-drop t.datalen (bytes_at t.buffer)
          (h.zeroed z ∙ one_more_zero t.bufferlen t.datalen h.spare)
    go (inr (e, _)) = cc
