-- ===== src/Memory.antt =====
-- The C memory functions that util/safebuffer.cpp and uvcppclient/uvcpp.cpp call: blocks of
-- bytes, memset, memcpy, and an allocator that is a parameter. `unsigned long` and `size_t` have
-- 64 bits (the LP64 build of sample/CMakeLists.txt).
pub mod Laws
use libuvwrapper.Base.{
  ℕ, ◌+◌, ◌-◌, ◌*◌, ◌/◌, ◌%◌, ◌^◌, ◌≤◌, ◌≡◌, Bool, true, false, Option, none, some, List, [], ◌++◌,
  length, take, drop, replicate, leb, ◌==◌, if◌then◌else◌, Outcome, ok, fault, abort,
}

abbrev pub word_mod : ℕ
word_mod = 2 ^ 64

abbrev pub add64 : ℕ → ℕ → ℕ
add64 a b = (a + b) % word_mod

abbrev pub sub64 : ℕ → ℕ → ℕ
sub64 a b = (a + word_mod - b) % word_mod

-- An allocated block: its address, which only tells blocks apart, and its bytes. A pointer is an
-- `Option Block`, `none` for null.
pub record Block : Type 0 where
  pub addr : ℕ
  pub bytes : List ℕ

abbrev pub Pointer : Type 0
Pointer = Option Block

abbrev pub bytes_at : Pointer → List ℕ
bytes_at none = []
bytes_at (some b) = b.bytes

abbrev pub address : Pointer → ℕ
address none = 0
address (some b) = b.addr

abbrev pub is_null : Pointer → Bool
is_null none = true
is_null (some b) = false

-- `p == q`
abbrev pub same_pointer : Pointer → Pointer → Bool
same_pointer p q = address p == address q

-- `ys` written over `xs` from index `off` on.
abbrev pub overwrite : List ℕ → ℕ → List ℕ → List ℕ
overwrite xs off ys = take off xs ++ (ys ++ drop (off + length ys) xs)

-- A write of `ys` at `p + off`. Writing nothing is harmless, also through null.
pub store : Pointer → ℕ → List ℕ → Outcome Pointer
store none off ys = if length ys == 0 then ok none else fault
store (some b) off ys =
    if leb (off + length ys) (length b.bytes)
    then ok (some (record b { bytes = overwrite b.bytes off ys }))
    else fault

-- memset(p + off, 0x00, n)
unfoldable pub clear_range : Pointer → ℕ → ℕ → Outcome Pointer
unfolding store
clear_range p off n = store p off (replicate n 0)

-- memcpy(p + off, src, n): it reads `n` bytes of `src`.
unfoldable pub copy_range : Pointer → ℕ → List ℕ → ℕ → Outcome Pointer
unfolding store
copy_range p off src n = if leb n (length src) then store p off (take n src) else fault

-- What malloc and realloc answer; null is `none`.
pub record Allocator : Type 0 where
  pub malloc : ℕ → Pointer
  pub realloc : Pointer → ℕ → Pointer

-- The C standard: a block has the size that was asked for, lies at an address of its own, which
-- is not null's, and `realloc` to a larger size keeps the bytes.
pub record IsAllocator (a : Allocator) : Type 0 where
  pub malloc_size : (n : ℕ) (b : Block) → a.malloc n ≡ some b → length b.bytes ≡ n
  pub realloc_size : (p : Pointer) (n : ℕ) (b : Block) → a.realloc p n ≡ some b → length b.bytes ≡ n
  pub realloc_keeps :
      (p : Pointer) (n : ℕ) (b : Block)
      → a.realloc p n ≡ some b
      → length (bytes_at p) ≤ n
      → take (length (bytes_at p)) b.bytes ≡ bytes_at p

-- Memory never runs out.
pub record NeverFails (a : Allocator) : Type 0 where
  pub malloc_some : (n : ℕ) → (b : Block) × (a.malloc n ≡ some b)
  pub realloc_some : (p : Pointer) (n : ℕ) → (b : Block) × (a.realloc p n ≡ some b)

-- `p = (char *)malloc(n); assert(p != nullptr);`
unfoldable pub malloc_asserted : Allocator → ℕ → Outcome Pointer
malloc_asserted a n = elim (a.malloc n) [ none ↦ abort | some b ↦ ok (some b) ]
