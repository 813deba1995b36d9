-- ===== src/SafeBuffer.antt =====
-- util/SafeBuffer.h and util/safebuffer.cpp: the class `safebuffer`, a growing byte buffer over
-- malloc and realloc. A method returns the new object, beside what it returns in C++.
pub mod Valid
pub mod Resize
pub mod Append
pub mod Readmem
pub mod Clear
pub mod Construct
pub mod Filling
pub mod Assign
mod Destroy
pub mod Example
mod Tests
use libuvwrapper.Base.{
  ℕ, ◌+◌, ◌-◌, ◌*◌, ◌/◌, ◌%◌, ◌^◌, ◌≡◌, Bool, true, false, Option, none, some, List, [], ◌∷◌, ◌++◌,
  length, take, drop, leb, ◌==◌, if◌then◌else◌, Outcome, ok, fault, abort, ◌>>=◌, ◌>>◌,
}
use libuvwrapper.Memory.{
  Pointer, Block, word_mod, add64, sub64, bytes_at, address, is_null, same_pointer, clear_range,
  copy_range, Allocator, malloc_asserted,
}

-- DEFAULT_BUFFER_LEN
abbrev pub default_buffer_len : ℕ
default_buffer_len = 1024

-- The members m_pbuffer, m_bufferlen, m_datalen and m_offset.
pub record SafeBuffer : Type 0 where
  pub buffer : Pointer
  pub bufferlen : ℕ
  pub datalen : ℕ
  pub offset : ℕ

-- (len / DEFAULT_BUFFER_LEN + 1) * DEFAULT_BUFFER_LEN
abbrev pub chunks : ℕ → ℕ
chunks len = (len / default_buffer_len + 1) * default_buffer_len % word_mod

-- safebuffer(unsigned long bufflen)
unfoldable pub new_empty : Allocator → ℕ → Outcome SafeBuffer
unfolding malloc_asserted
new_empty a bufflen = do
  p ← malloc_asserted a bufflen
  p ← clear_range p 0 bufflen
  ok (record { buffer = p; bufferlen = bufflen; datalen = 0; offset = 0 })

-- safebuffer(safebuffer &other). The constructor does not set m_offset: `junk` is what it holds.
unfoldable pub new_copy : Allocator → ℕ → SafeBuffer → Outcome SafeBuffer
unfolding malloc_asserted
new_copy a junk other = do
  p ← malloc_asserted a other.bufferlen
  p ← clear_range p 0 other.bufferlen
  p ← copy_range p 0 (bytes_at other.buffer) other.datalen
  ok (record { buffer = p; bufferlen = other.bufferlen; datalen = other.datalen; offset = junk })

-- safebuffer(char *pMem, unsigned long len). Nor does this one.
unfoldable pub new_from : Allocator → ℕ → List ℕ → ℕ → Outcome SafeBuffer
unfolding malloc_asserted
new_from a junk mem len = do
  p ← malloc_asserted a (chunks len)
  p ← clear_range p 0 (chunks len)
  p ← copy_range p 0 mem len
  ok (record { buffer = p; bufferlen = chunks len; datalen = len; offset = junk })

-- ~safebuffer(), with the addresses of the blocks that it frees.
unfoldable pub destroy : SafeBuffer → List ℕ × SafeBuffer
destroy s =
    if is_null s.buffer then ([], s) else (address s.buffer ∷ [], record s { buffer = none })

unfoldable pub get_mem_length : SafeBuffer → ℕ
get_mem_length s = s.bufferlen

unfoldable pub get_memory : SafeBuffer → Pointer
get_memory s = s.buffer

unfoldable pub get_data_length : SafeBuffer → ℕ
get_data_length s = s.datalen

-- GetoffsetMemory: the address, by `unsigned long` arithmetic.
unfoldable pub get_offset_memory : SafeBuffer → ℕ → ℕ
get_offset_memory s offset = add64 (address s.buffer) offset

unfoldable pub get_current_read_offset : SafeBuffer → ℕ
get_current_read_offset s = s.offset

unfoldable pub step_offset : SafeBuffer → ℕ → SafeBuffer
step_offset s step = record s { offset = add64 s.offset step }

-- ClearMem
unfoldable pub clear_mem : SafeBuffer → Outcome SafeBuffer
clear_mem s = do
  p ← clear_range s.buffer 0 s.datalen
  ok (record s { buffer = p; datalen = 0; offset = 0 })

-- What `resize` does with realloc's answer: null loses the buffer, a block has its tail cleared.
pub resized : SafeBuffer → ℕ → Pointer → Outcome (Bool × SafeBuffer)
resized s len none = ok (false, record s { buffer = none; bufferlen = 0; datalen = 0 })
resized s len (some b) = do
  p ← clear_range (some b) s.datalen (sub64 len s.datalen)
  ok (true, record s { buffer = p; bufferlen = len })

unfoldable pub resize : Allocator → SafeBuffer → ℕ → Outcome (Bool × SafeBuffer)
unfolding resized
resize a s len =
    if leb len s.bufferlen then ok (true, s) else resized s len (a.realloc s.buffer len)

-- The first part of `readmem`: a buffer that is null is allocated and cleared.
pub fresh_buffer : Allocator → SafeBuffer → ℕ → Outcome SafeBuffer
unfolding malloc_asserted
fresh_buffer a s len = do
  p ← malloc_asserted a (chunks len)
  p ← clear_range p 0 (chunks len)
  ok (record s { buffer = p; bufferlen = chunks len; datalen = 0 })

pub reserve : Allocator → SafeBuffer → ℕ → Outcome SafeBuffer
unfolding fresh_buffer
reserve a s len = if is_null s.buffer then fresh_buffer a s len else ok s

-- The second: it grows unless more than `len` bytes are free.
pub make_room : Allocator → SafeBuffer → ℕ → Outcome (Bool × SafeBuffer)
unfolding resize
make_room a s len =
    if leb (sub64 s.bufferlen s.datalen) len
    then resize a s (add64 s.datalen (chunks len))
    else ok (true, s)

-- The third: the copy, if there is room.
pub append_bytes : SafeBuffer → List ℕ → ℕ → Bool → Outcome (Bool × SafeBuffer)
append_bytes s mem len false = ok (false, s)
append_bytes s mem len true = do
  p ← copy_range s.buffer s.datalen mem len
  ok (true, record s { buffer = p; datalen = add64 s.datalen len })

unfoldable pub readmem : Allocator → SafeBuffer → List ℕ → ℕ → Outcome (Bool × SafeBuffer)
unfolding reserve make_room append_bytes
readmem a s mem len = do t ← reserve a s len; r ← make_room a t len; append_bytes r.1 mem len r.0

-- The first part of `operator=`: a buffer that is null gets memory as large as the other's, and
-- one that holds data is cleared.
pub borrow_size : Allocator → SafeBuffer → SafeBuffer → Outcome SafeBuffer
unfolding malloc_asserted
borrow_size a s other = do
  p ← malloc_asserted a other.bufferlen
  ok (record s { buffer = p; datalen = 0; bufferlen = other.bufferlen })

pub discard : SafeBuffer → Outcome SafeBuffer
unfolding clear_mem
discard s = do t ← clear_mem s; ok (record t { datalen = 0 })

pub prepare : Allocator → SafeBuffer → SafeBuffer → Outcome SafeBuffer
unfolding borrow_size discard
prepare a s other =
    if is_null s.buffer then borrow_size a s other else if s.datalen == 0 then ok s else discard s

-- operator=. What `readmem` returns is ignored.
unfoldable pub assign : Allocator → SafeBuffer → SafeBuffer → Outcome SafeBuffer
unfolding prepare
assign a s other = if same_pointer other.buffer s.buffer then ok s else (do
  t ← prepare a s other
  r ← readmem a t (bytes_at (get_memory other)) (get_data_length other)
  ok r.1)

-- swap. The last of the three exchanges reads the member that it has just written.
unfoldable pub swap : SafeBuffer → SafeBuffer → SafeBuffer × SafeBuffer
swap s other =
    let other' = record other { buffer = s.buffer; bufferlen = s.bufferlen; datalen = s.datalen } in
    (
      record s { buffer = other.buffer; bufferlen = other.bufferlen; datalen = other'.datalen },
      other',
    )
