-- ===== src/SafeBuffer/Example.antt =====
-- A concrete allocator and small buffers, for the tests.
use libuvwrapper.Base.{
  ℕ, ◌-◌, ◌≡◌, refl, sym, ap, ◌∙◌, none, some, List, [], ◌∷◌, ◌++◌, arith, length, take, replicate,
  length-append, length-take, length-replicate, take_prefix, take_all,
}
use libuvwrapper.Memory.{Block, Pointer, bytes_at, Allocator, IsAllocator, NeverFails}
use libuvwrapper.SafeBuffer.{SafeBuffer}
use libuvwrapper.SafeBuffer.Valid.{IsValid}

-- Fresh memory holds 205 everywhere.
abbrev pub junk_byte : ℕ
junk_byte = 205

unfoldable pub fresh_block : ℕ → ℕ → Block
fresh_block addr n = record { addr = addr; bytes = replicate n junk_byte }

unfoldable pub moved_block : ℕ → Pointer → ℕ → Block
moved_block addr p n = record {
  addr = addr;
  bytes = take n (bytes_at p) ++ replicate (n - length (bytes_at p)) junk_byte;
}

abbrev pub heap : ℕ → Allocator
heap addr = record {
  malloc = λ n. some (fresh_block addr n);
  realloc = λ p n. some (moved_block addr p n);
}

moved_size : (addr : ℕ) (p : Pointer) (n : ℕ) → length (moved_block addr p n).bytes ≡ n
unfolding moved_block
moved_size addr p n = omega (
  arith,
  length-append (take n (bytes_at p)) (replicate (n - length (bytes_at p)) junk_byte),
  length-take n (bytes_at p),
  length-replicate (n - length (bytes_at p)) junk_byte,
)

pub heap-IsAllocator : (addr : ℕ) → IsAllocator (heap addr)
unfolding fresh_block moved_block
heap-IsAllocator addr = record {
  malloc_size = λ n b e. sym (ap length_at (some_block e)) ∙ length-replicate n junk_byte;
  realloc_size = λ p n b e. sym (ap length_at (some_block e)) ∙ moved_size addr p n;
  realloc_keeps = λ p n b e h.
      sym (ap (λ c. take (length (bytes_at p)) c.bytes) (some_block e))
      ∙ ap (λ xs. take (length (bytes_at p)) (xs ++ replicate (n - length (bytes_at p)) junk_byte))
          (take_all n (bytes_at p) h)
      ∙ take_prefix (length (bytes_at p)) (bytes_at p) _ refl;
}
  where
    length_at : Block → ℕ
    length_at b = length b.bytes

    some_block : {a b : Block} → some a ≡ some b → a ≡ b
    some_block e = cc

pub heap-NeverFails : (addr : ℕ) → NeverFails (heap addr)
heap-NeverFails addr = record {
  malloc_some = λ n. (fresh_block addr n, refl);
  realloc_some = λ p n. (moved_block addr p n, refl);
}

-- Four bytes, two of them used.
abbrev pub small : SafeBuffer
small = record {
  buffer = some (record { addr = 8; bytes = 7 ∷ 9 ∷ 0 ∷ 0 ∷ [] });
  bufferlen = 4;
  datalen = 2;
  offset = 1;
}

abbrev pub three : SafeBuffer
three = record {
  buffer = some (record { addr = 16; bytes = 1 ∷ 2 ∷ 3 ∷ 0 ∷ [] });
  bufferlen = 4;
  datalen = 3;
  offset = 0;
}

abbrev pub message : List ℕ
message = 5 ∷ 6 ∷ 7 ∷ []

abbrev pub nowhere : SafeBuffer
nowhere = record { buffer = none; bufferlen = 0; datalen = 0; offset = 0 }

pub small-IsValid : IsValid small
small-IsValid = omega arith

pub three-IsValid : IsValid three
three-IsValid = omega arith
