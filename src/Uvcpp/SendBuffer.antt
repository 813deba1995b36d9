-- ===== src/Uvcpp/SendBuffer.antt =====
-- The send buffer of uvcppclient/uvcpp.cpp while there is room: `send` appends to what waits in
-- it, `write` takes from its front.
use libuvwrapper.Base.{
  ℕ, ◌+◌, ◌-◌, ◌≤◌, ◌<◌, ◌≡◌, refl, sym, ap, ◌∙◌, inl, inr, Option, none, some, List, [], ◌∷◌, ◌++◌,
  arith, length, take, drop, ◌==◌, if◌then◌else◌, Bool-cases, ==_iff, Outcome, ok, deref, drop-take,
  length-take, length-drop,
}
use libuvwrapper.Memory.{Block, overwrite, Allocator}
use libuvwrapper.Memory.Laws.{copy_range_within, length-overwrite, take-overwrite}
use libuvwrapper.Uvcpp.{
  uint_mod, add32, sub32, Client, holds, pending, pending_in, UvCall, wake, try_write, log, ready,
  wake_loop, insert_work, post, grow, copy_in, send, send_data, Socket, shift, written, write,
}

-- The buffer is a live block of `_sendLen` bytes, and what waits lies in it.
pub record IsValid (c : Client) : Type 0 where
  pub block : Block
  pub held : c.send_buf ≡ holds (some block)
  pub sized : length block.bytes ≡ c.send_len
  pub within : c.send_offset ≤ c.send_len
  pub word : c.send_len < uint_mod

-- The client after `send`.
abbrev pub with_sent : Client → Block → ℕ → List ℕ → Client
with_sent c b len new = record c {
  works = insert_work (length c.works) send_data c.works;
  send_buf = holds (some (record b { bytes = overwrite b.bytes c.send_offset new }));
  send_offset = c.send_offset + len;
  calls = c.calls ++ (wake ∷ []);
}

grow_room :
    (a : Allocator) (len : ℕ) (c : Client)
    → c.send_offset + len ≤ c.send_len
    → c.send_len < uint_mod
    → grow a len c ≡ ok c
unfolding grow
grow_room a len c h k = ground arith

copied :
    (b : Block) (off : ℕ) (buf : List ℕ) (len : ℕ)
    → off + len ≤ length b.bytes
    → len ≤ length buf
    → copy_in (holds (some b)) off buf len
      ≡ ok (holds (some (record b { bytes = overwrite b.bytes off (take len buf) })))
unfolding copy_in
copied b off buf len h k = rw (copy_range_within b off buf len h k) refl

pub send_steps :
    (a : Allocator) (buf : List ℕ) (len : ℕ) (c : Client) (v : IsValid c)
    → c.async ≡ ready
    → c.send_offset + len ≤ c.send_len
    → len ≤ length buf
    → send a buf len c ≡ ok (len, with_sent c v.block len (take len buf))
unfolding send post wake_loop
send_steps a buf len c v live room enough =
    let offset : add32 c.send_offset len ≡ c.send_offset + len = omega (arith, v.word) in
    rw
      (
        grow_room a len c room v.word,
        v.held,
        copied v.block c.send_offset buf len (omega (arith, v.sized)) enough,
        live,
        offset,
      )
      refl

-- With room in the buffer `send` succeeds: its bytes stand behind those that waited, and the loop is woken.
pub send_appends :
    (a : Allocator) (buf : List ℕ) (len : ℕ) (c : Client)
    → IsValid c
    → c.async ≡ ready
    → c.send_offset + len ≤ c.send_len
    → len ≤ length buf
    → (d : Client) × (send a buf len c ≡ ok (len, d))
      × IsValid d
      × (pending d ≡ pending c ++ take len buf)
      × (d.calls ≡ c.calls ++ (wake ∷ []))
      × (d.tcp_handle ≡ c.tcp_handle)
      × (d.async ≡ c.async)
send_appends a buf len c v live room enough = (
  with_sent c v.block len (take len buf),
  send_steps a buf len c v live room enough,
  record {
    block = record v.block { bytes = overwrite v.block.bytes c.send_offset (take len buf) };
    held = refl;
    sized = length-overwrite v.block.bytes c.send_offset (take len buf) fits ∙ v.sized;
    within = room;
    word = v.word;
  },
  kept,
  refl,
  refl,
  refl,
)
  where
    size : length (take len buf) ≡ len
    size = omega (arith, length-take len buf)

    fits : c.send_offset + length (take len buf) ≤ length v.block.bytes
    fits = omega (arith, size, v.sized)

    kept :
        take (c.send_offset + len) (overwrite v.block.bytes c.send_offset (take len buf))
        ≡ pending c ++ take len buf
    kept =
        ap (λ n. take (c.send_offset + n) (overwrite v.block.bytes c.send_offset (take len buf)))
          (sym size)
        ∙ take-overwrite v.block.bytes c.send_offset (take len buf) fits
        ∙ ap (λ b. pending_in b c.send_offset ++ take len buf) (sym v.held)

-- uv_try_write takes at most the bytes that it is given.
abbrev pub IsSocket : Socket → Type 0
IsSocket sock =
    (calls : List UvCall) (bytes : List ℕ) (n : ℕ)
    → sock (calls ++ (try_write bytes ∷ [])) ≡ some n
    → n ≤ length bytes

abbrev pub accepted : Option ℕ → ℕ
accepted none = 0
accepted (some n) = n

-- How many bytes one `write` hands over.
abbrev pub taken : Socket → Client → ℕ
taken sock c =
    if c.send_offset == 0 then 0 else accepted (sock (c.calls ++ (try_write (pending c) ∷ [])))

shifted :
    (b : Block) (n : ℕ) (c : Client)
    → n ≤ c.send_offset
    → c.send_offset ≤ length b.bytes
    → c.send_offset < uint_mod
    → shift n c (holds (some b))
      ≡ ok (record c {
        send_buf = holds (
            some (record b {
              bytes = overwrite b.bytes 0 (take (c.send_offset - n) (drop n b.bytes));
            }));
        send_offset = c.send_offset - n;
      })
unfolding shift
shifted b n c h k l =
    let e : sub32 c.send_offset n ≡ c.send_offset - n = omega arith in
    rw
      (
        e,
        copy_range_within b 0 (drop n b.bytes) (c.send_offset - n) (omega arith)
            (omega (arith, length-drop n b.bytes)),
      )
      refl

shifted_pending :
    (xs : List ℕ) (n off : ℕ)
    → off ≤ length xs
    → take (off - n) (overwrite xs 0 (take (off - n) (drop n xs))) ≡ drop n (take off xs)
shifted_pending xs n off h =
    ap (λ k. take k (overwrite xs 0 (take (off - n) (drop n xs)))) (sym size)
    ∙ take-overwrite xs 0 (take (off - n) (drop n xs)) (omega (arith, size))
    ∙ sym (drop-take n off xs)
  where
    size : 0 + length (take (off - n) (drop n xs)) ≡ off - n
    size = omega (arith, length-take (off - n) (drop n xs), length-drop n xs)

-- The end of `write`, whatever uv_try_write answers.
written_takes :
    (answer : Option ℕ) (c : Client) (v : IsValid c)
    → accepted answer ≤ c.send_offset
    → (d : Client) × (written answer c ≡ ok d)
      × IsValid d
      × (pending d ≡ drop (accepted answer) (pending c))
      × (d.tcp_handle ≡ c.tcp_handle)
      × (d.async ≡ c.async)
unfolding written
written_takes none c v h = (c, refl, v, refl, refl, refl)
written_takes (some n) c v h = elim (Bool-cases (n == 0)) [
  | inl z ↦ rw (z, (==_iff n 0).0 z) (c, refl, v, refl, refl, refl)
  | inr p ↦
      rw
        (
          p,
          v.held,
          shifted v.block n c h (omega (arith, v.within, v.sized))
              (omega (arith, v.within, v.word)),
        )
        (
          _,
          refl,
          record {
            block = record v.block {
              bytes = overwrite v.block.bytes 0 (take (c.send_offset - n) (drop n v.block.bytes));
            };
            held = refl;
            sized =
                length-overwrite v.block.bytes 0 (take (c.send_offset - n) (drop n v.block.bytes)) (
                  omega (
                    arith,
                    v.sized,
                    v.within,
                    length-take (c.send_offset - n) (drop n v.block.bytes),
                  ))
                ∙ v.sized;
            within = omega (arith, v.within);
            word = v.word;
          },
          shifted_pending v.block.bytes n c.send_offset (omega (arith, v.within, v.sized)),
          refl,
          refl,
        )
]

length-pending : (c : Client) → IsValid c → length (pending c) ≡ c.send_offset
length-pending c v =
    rw v.held (omega (arith, v.sized, v.within, length-take c.send_offset v.block.bytes))

through : {h : ℕ} (o : Option ℕ) (m : Outcome Client) → o ≡ some h → deref o (λ _. m) ≡ m
through o m e = rw e refl

-- On an open connection `write` succeeds: what uv_try_write took goes from the front of the buffer, the rest stays in order.
pub write_takes :
    (sock : Socket) (c : Client) (h : ℕ)
    → IsSocket sock
    → IsValid c
    → c.tcp_handle ≡ some h
    → (d : Client) × (write sock c ≡ ok d)
      × IsValid d
      × (pending d ≡ drop (taken sock c) (pending c))
      × (d.tcp_handle ≡ c.tcp_handle)
      × (d.async ≡ c.async)
unfolding write
write_takes sock c h bounded v attached = elim (Bool-cases (c.send_offset == 0)) [
  | inl z ↦ rw z (c, refl, v, refl, refl, refl)
  | inr p ↦
      rw (p, through c.tcp_handle (written answer tried) attached)
        (written_takes answer tried still (few answer refl))
]
  where
    tried : Client
    tried = log c (try_write (pending c))

    answer : Option ℕ
    answer = sock tried.calls

    still : IsValid tried
    still = record {
      block = v.block;
      held = v.held;
      sized = v.sized;
      within = v.within;
      word = v.word;
    }

    few : (o : Option ℕ) → answer ≡ o → accepted o ≤ c.send_offset
    few none e = omega arith
    few (some n) e = omega (arith, bounded c.calls (pending c) n e, length-pending c v)
