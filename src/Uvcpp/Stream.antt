-- ===== src/Uvcpp/Stream.antt =====
-- Runs of `send` and `write` of uvcppclient/uvcpp.cpp, in any order.
use libuvwrapper.Base.{
  ℕ, ◌+◌, ◌≤◌, ◌≡◌, sym, ap, ◌∙◌, subst, some, List, [], ◌++◌, length, take, drop, take-append-drop,
  ok,
}
use libuvwrapper.Memory.{Allocator}
use libuvwrapper.Uvcpp.{Client, ready, pending, Socket, send, write}
use libuvwrapper.Uvcpp.SendBuffer.{IsValid, IsSocket, taken, send_appends, write_takes}
use mathlib.Core.List.{append_assoc, append-nil}

-- A run from one client to another: the bytes that `send` was given, and those that uv_try_write
-- took. Each `send` has room for its bytes.
pub data Run (a : Allocator) (sock : Socket) : Client → List ℕ → List ℕ → Client → Type 0 where
  done : {c : Client} → Run a sock c [] [] c
  put :
      {c d e : Client} (buf : List ℕ) (len r : ℕ) {given sent : List ℕ}
      → c.send_offset + len ≤ c.send_len
      → len ≤ length buf
      → send a buf len c ≡ ok (r, d)
      → Run a sock d given sent e
      → Run a sock c (take len buf ++ given) sent e
  flush :
      {c d e : Client} {given sent : List ℕ}
      → write sock c ≡ ok d
      → Run a sock d given sent e
      → Run a sock c given (take (taken sock c) (pending c) ++ sent) e

same_value {ℓ} : {A : Type ℓ} {x y : A} → ok x ≡ ok y → x ≡ y
same_value e = cc

-- An open connection.
abbrev IsOpen : ℕ → Client → Type 0
IsOpen h c = IsValid c × (c.async ≡ ready) × (c.tcp_handle ≡ some h)

put_step :
    (a : Allocator) (buf : List ℕ) (len h : ℕ) {r : ℕ} {c d : Client}
    → IsOpen h c
    → c.send_offset + len ≤ c.send_len
    → len ≤ length buf
    → send a buf len c ≡ ok (r, d)
    → IsOpen h d × (pending d ≡ pending c ++ take len buf)
put_step a buf len h {r} {c} {d} (v, live, attached) room enough step =
    let (f, ran, w, more, _, handle, async) = send_appends a buf len c v live room enough in
    subst (λ x. IsOpen h x × (pending x ≡ pending c ++ take len buf))
      (ap (λ p. p.1) (same_value (sym ran ∙ step))) ((w, async ∙ live, handle ∙ attached), more)

flush_step :
    (sock : Socket) (h : ℕ) {c d : Client}
    → IsSocket sock
    → IsOpen h c
    → write sock c ≡ ok d
    → IsOpen h d × (pending d ≡ drop (taken sock c) (pending c))
flush_step sock h {c} {d} bounded (v, live, attached) step =
    let (f, ran, w, less, handle, async) = write_takes sock c h bounded v attached in
    subst (λ x. IsOpen h x × (pending x ≡ drop (taken sock c) (pending c)))
      (same_value (sym ran ∙ step)) ((w, async ∙ live, handle ∙ attached), less)

stream :
    (a : Allocator) (sock : Socket) (h : ℕ) {c e : Client} {given sent : List ℕ}
    → IsSocket sock
    → IsOpen h c
    → Run a sock c given sent e
    → (pending c ++ given ≡ sent ++ pending e) × IsValid e
stream a sock h bounded o done = (append-nil _, o.0)
stream a sock h bounded o (put {c} {d} {e} buf len r {given} room enough step rest) =
    let (open_d, more) = put_step a buf len h o room enough step in
    let (same, w) = stream a sock h bounded open_d rest in
    (
      sym (append_assoc (pending c) (take len buf) given)
          ∙ ap (λ xs. xs ++ given) (sym more)
          ∙ same,
      w,
    )
stream a sock h bounded o (flush {c} {d} {e} {given} {sent} step rest) =
    let (open_d, less) = flush_step sock h bounded o step in
    let (same, w) = stream a sock h bounded open_d rest in
    (
      ap (λ xs. xs ++ given) (sym (take-append-drop (taken sock c) (pending c)))
          ∙ append_assoc (take (taken sock c) (pending c)) (drop (taken sock c) (pending c)) given
          ∙ ap (λ xs. take (taken sock c) (pending c) ++ (xs ++ given)) (sym less)
          ∙ ap (λ xs. take (taken sock c) (pending c) ++ xs) same
          ∙ sym (append_assoc (take (taken sock c) (pending c)) sent (pending e)),
      w,
    )

-- Over any run of `send` and `write` on an open connection, what uv_try_write took followed by what
-- still waits is what had waited followed by what was sent, in order, and the buffer is sound. The
-- conditions: the buffer is sound at the start, the async handle is ready, every `send` has room for
-- its bytes, and uv_try_write takes at most what it is given.
pub stream_kept :
    (a : Allocator) (sock : Socket) (h : ℕ) {c e : Client} {given sent : List ℕ}
    → IsSocket sock
    → IsValid c
    → c.async ≡ ready
    → c.tcp_handle ≡ some h
    → Run a sock c given sent e
    → (pending c ++ given ≡ sent ++ pending e) × IsValid e
stream_kept a sock h bounded v live attached run = stream a sock h bounded (v, live, attached) run
