-- ===== src/SafeBuffer/Tests.antt =====
-- Runs of `safebuffer` on small buffers, and the theorems at concrete inputs.
use libuvwrapper.Base.{
  ℕ, ◌≡◌, refl, ◌↔◌, true, some, List, [], ◌∷◌, arith, take, map_outcome, ok, Ensures,
}
use libuvwrapper.Memory.{bytes_at, clear_range, copy_range}
use libuvwrapper.SafeBuffer.{SafeBuffer, resize, readmem, assign, swap}
use libuvwrapper.SafeBuffer.Valid.{IsValid, contents}
use libuvwrapper.SafeBuffer.Readmem.{
  Appends, Appended, MallocRefused, readmem-Appended, readmem_total,
}
use libuvwrapper.SafeBuffer.Example.{
  moved_block, heap, small, three, message, small-IsValid, three-IsValid, heap-IsAllocator,
  heap-NeverFails,
}
use libuvwrapper.SafeBuffer.Assign.{Assigned, BorrowRefused, assign-Assigned, swap_iff}

-- One byte fits in place.
readmem_in_place :
    readmem (heap 24) small message 1
    ≡ ok (
      true,
      record small { buffer = some (record { addr = 8; bytes = 7 ∷ 9 ∷ 5 ∷ 0 ∷ [] }); datalen = 3 },
    )
unfolding readmem copy_range resize
readmem_in_place = refl

-- Two would leave no spare byte, so the buffer moves.
readmem_moves :
    map_outcome {B = ℕ × List ℕ}
      (λ r. (r.1.bufferlen, take 6 (bytes_at r.1.buffer)))
      (readmem (heap 24) small message 2)
    ≡ ok (1026, 7 ∷ 9 ∷ 5 ∷ 6 ∷ 0 ∷ 0 ∷ [])
unfolding readmem copy_range clear_range resize moved_block
readmem_moves = refl

swap_loses_length :
    ((swap three small).0.datalen ≡ 3) × (contents (swap three small).0 ≡ 7 ∷ 9 ∷ 0 ∷ [])
unfolding swap
swap_loses_length = (refl, refl)

readmem-Appended_example :
    Ensures
      (Appended (heap 24) small (take 3 message))
      (MallocRefused (heap 24) small 3)
      (readmem (heap 24) small message 3)
readmem-Appended_example =
    readmem-Appended (heap 24) small message 3 (heap-IsAllocator 24) small-IsValid (omega arith)
      (omega arith)

three_appended :
    (t : SafeBuffer) × (readmem (heap 24) small message 3 ≡ ok (true, t))
    × Appends small (take 3 message) t
three_appended =
    readmem_total (heap 24) small message 3 (heap-IsAllocator 24) (heap-NeverFails 24) small-IsValid
      (omega arith) (omega arith)

assign-Assigned_example :
    Ensures
      (Assigned (heap 24) three)
      (BorrowRefused (heap 24) small three)
      (assign (heap 24) small three)
assign-Assigned_example =
    assign-Assigned (heap 24) small three (heap-IsAllocator 24) small-IsValid three-IsValid refl
      (omega arith)

swap_iff_example :
    (IsValid (swap small three).0 × (contents (swap small three).0 ≡ contents three))
    ↔ (2 ≡ three.datalen)
swap_iff_example = swap_iff small three small-IsValid three-IsValid
