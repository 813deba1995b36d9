-- ===== src/SafeBuffer/Destroy.antt =====
-- `~safebuffer`: which blocks the destructors of two buffers free after the other methods.
use libuvwrapper.Base.{◌≡◌, refl, [], Bool-cases, inl, inr}
use libuvwrapper.Memory.{is_null}
use libuvwrapper.SafeBuffer.{SafeBuffer, destroy, swap}

-- A buffer that was destroyed has nothing left to free.
destroyed_once : (s : SafeBuffer) → (destroy (destroy s).1).0 ≡ []
unfolding destroy
destroyed_once s = elim (Bool-cases (is_null s.buffer)) [
  | inl empty ↦ rw (empty, empty) refl
  | inr full ↦ rw full refl
]

-- Whatever `swap` does to the lengths, each block is still freed once, by the other destructor.
swap_frees_once :
    (s other : SafeBuffer)
    → ((destroy (swap s other).0).0 ≡ (destroy other).0)
      × ((destroy (swap s other).1).0 ≡ (destroy s).0)
unfolding destroy swap
swap_frees_once s other = elim (Bool-cases (is_null s.buffer)) [
  | inl e ↦ elim (Bool-cases (is_null other.buffer)) [
    | inl f ↦ (rw f refl, rw e refl)
    | inr f ↦ (rw f refl, rw e refl)
  ]
  | inr e ↦ elim (Bool-cases (is_null other.buffer)) [
    | inl f ↦ (rw f refl, rw e refl)
    | inr f ↦ (rw f refl, rw e refl)
  ]
]
