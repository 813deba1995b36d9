-- ===== src/Memory/Laws.antt =====
-- What a write leaves of a block.
use libuvwrapper.Base.{
  ℕ, zero, ◌+◌, ◌≤◌, ◌≡◌, sym, ap, ◌∙◌, some, List, ◌++◌, arith, length, take, drop, replicate,
  drop_all, [], length-append, length-take, length-drop, length-replicate, take_prefix, drop_prefix,
  ok, le→leb, ◌<◌, fault, none,
}
use libuvwrapper.Memory.{Block, overwrite, store, clear_range, copy_range}
use mathlib.Core.List.{append_assoc, append-nil}

pub length-overwrite :
    (xs : List ℕ) (off : ℕ) (ys : List ℕ)
    → off + length ys ≤ length xs
    → length (overwrite xs off ys) ≡ length xs
length-overwrite xs off ys h = omega (
  arith,
  length-append (take off xs) (ys ++ drop (off + length ys) xs),
  length-append ys (drop (off + length ys) xs),
  length-take off xs,
  length-drop (off + length ys) xs,
)

pub length-zeros : (n : ℕ) → length {A = ℕ} (replicate n 0) ≡ n
length-zeros n = length-replicate n zero

take-length : (xs : List ℕ) (off : ℕ) → off ≤ length xs → length (take off xs) ≡ off
take-length xs off h = omega (arith, length-take off xs)

length_written :
    (xs : List ℕ) (off : ℕ) (ys : List ℕ)
    → off + length ys ≤ length xs
    → length (take off xs ++ ys) ≡ off + length ys
length_written xs off ys h = omega (arith, length-append (take off xs) ys, length-take off xs)

-- Up to the end of the write: what stood before it, then what was written.
pub take-overwrite :
    (xs : List ℕ) (off : ℕ) (ys : List ℕ)
    → off + length ys ≤ length xs
    → take (off + length ys) (overwrite xs off ys) ≡ take off xs ++ ys
take-overwrite xs off ys h =
    ap (take (off + length ys)) (sym (append_assoc (take off xs) ys _))
    ∙ take_prefix (off + length ys) (take off xs ++ ys) _ (length_written xs off ys h)

-- Behind the write nothing changes.
pub drop-overwrite :
    (xs : List ℕ) (off : ℕ) (ys : List ℕ)
    → off + length ys ≤ length xs
    → drop (off + length ys) (overwrite xs off ys) ≡ drop (off + length ys) xs
drop-overwrite xs off ys h =
    ap (drop (off + length ys)) (sym (append_assoc (take off xs) ys _))
    ∙ drop_prefix (off + length ys) (take off xs ++ ys) _ (length_written xs off ys h)

-- Before the write nothing changes.
pub take-overwrite_before :
    (xs : List ℕ) (off : ℕ) (ys : List ℕ)
    → off ≤ length xs
    → take off (overwrite xs off ys) ≡ take off xs
take-overwrite_before xs off ys h = take_prefix off (take off xs) _ (take-length xs off h)

-- A write within the block is made.
pub store_within :
    (b : Block) (off : ℕ) (ys : List ℕ)
    → off + length ys ≤ length b.bytes
    → store (some b) off ys ≡ ok (some (record b { bytes = overwrite b.bytes off ys }))
unfolding store
store_within b off ys h = rw (le→leb (off + length ys) (length b.bytes) h)

pub clear_range_within :
    (b : Block) (off n : ℕ)
    → off + n ≤ length b.bytes
    → clear_range (some b) off n
      ≡ ok (some (record b { bytes = overwrite b.bytes off (replicate n 0) }))
unfolding clear_range
clear_range_within b off n h = store_within b off (replicate n 0) (omega (arith, length-zeros n))

pub copy_range_within :
    (b : Block) (off : ℕ) (src : List ℕ) (n : ℕ)
    → off + n ≤ length b.bytes
    → n ≤ length src
    → copy_range (some b) off src n
      ≡ ok (some (record b { bytes = overwrite b.bytes off (take n src) }))
unfolding copy_range
copy_range_within b off src n h k =
    rw (le→leb n (length src) k)
      (store_within b off (take n src) (omega (arith, length-take n src)))

-- Clearing everything behind index `d`.
pub clear_tail :
    (xs : List ℕ) (d n : ℕ)
    → d + n ≡ length xs
    → overwrite xs d (replicate n 0) ≡ take d xs ++ replicate n 0
clear_tail xs d n e =
    ap (λ ys. take d xs ++ (replicate n 0 ++ ys)) nothing_left
    ∙ ap (λ ys. take d xs ++ ys) (append-nil (replicate n 0))
  where
    nothing_left : drop (d + length {A = ℕ} (replicate n 0)) xs ≡ []
    nothing_left = drop_all _ xs (omega (arith, length-zeros n))

-- A copy past the end of the block, or to null, faults.
pub copy_range_beyond :
    (b : Block) (off : ℕ) (src : List ℕ) (n : ℕ)
    → length b.bytes < off + n
    → n ≤ length src
    → copy_range (some b) off src n ≡ fault
unfolding copy_range store
copy_range_beyond b off src n h k = ground (arith, length-take n src)

pub copy_range_null :
    (off : ℕ) (src : List ℕ) (n : ℕ) → 0 < n → n ≤ length src → copy_range none off src n ≡ fault
unfolding copy_range store
copy_range_null off src n h k = ground (arith, length-take n src)

pub copy_nothing : (src : List ℕ) → copy_range none 0 src 0 ≡ ok none
unfolding copy_range store
copy_nothing src = ground arith
