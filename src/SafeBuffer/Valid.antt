-- ===== src/SafeBuffer/Valid.antt =====
-- The representation invariant of `safebuffer`, and the operations that do not append.
use libuvwrapper.Base.{ℕ, ◌-◌, ◌≤◌, ◌<◌, ◌≡◌, List, length, take, drop, replicate}
use libuvwrapper.Memory.{word_mod, bytes_at}
use libuvwrapper.SafeBuffer.{SafeBuffer}

-- m_bufferlen is the size of the block, and m_datalen does not exceed it.
pub record IsValid (s : SafeBuffer) : Type 0 where
  pub sized : length (bytes_at s.buffer) ≡ s.bufferlen
  pub within : s.datalen ≤ s.bufferlen
  pub word : s.bufferlen < word_mod

-- The bytes that the buffer holds.
abbrev pub contents : SafeBuffer → List ℕ
contents s = take s.datalen (bytes_at s.buffer)

-- Behind the data stand zero bytes only.
abbrev pub IsZeroed : SafeBuffer → Type 0
IsZeroed s = drop s.datalen (bytes_at s.buffer) ≡ replicate (s.bufferlen - s.datalen) 0
