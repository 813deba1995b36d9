-- ===== src/Netlib/Relay.antt =====
-- The way of the data of net_AsyncSend to uv_write.
use libuvwrapper.Base.{
  ℕ, ◌+◌, ◌≤◌, ◌<◌, ◌≡◌, refl, ap, ◌∙◌, true, none, some, List, [], ◌∷◌, ◌++◌, arith, length, count,
  length-take, take, ==_refl, ok, fault,
}
use libuvwrapper.Base.Assoc.{Assoc, keys, find, insert, insert_absent}
use libuvwrapper.Memory.{Allocator, IsAllocator, NeverFails, word_mod, bytes_at}
use libuvwrapper.SafeBuffer.{SafeBuffer, get_memory, get_data_length}
use libuvwrapper.SafeBuffer.Valid.{IsValid, IsZeroed}
use libuvwrapper.SafeBuffer.Clear.{clear_mem-Clears}
use libuvwrapper.SafeBuffer.Filling.{new_total, fill_empty, refill_total}
use libuvwrapper.Requests.{success}
use libuvwrapper.Netlib.{
  Net, send_async, write_to, net_async_send, load_async, net_send, take_net_send, async_cb, relay,
  put_buffer, log,
}
use mathlib.Core.List.{append_assoc}

-- The object that net_Send takes.
abbrev pub taken : ℕ → List ℕ → ℕ
taken fresh [] = fresh
taken fresh (p ∷ rest) = p

-- The free Sendst objects have sound buffers.
abbrev pub AllSound : (ℕ → SafeBuffer) → List ℕ → Type 0
AllSound sends [] = Unit {0}
AllSound sends (p ∷ rest) = IsValid (sends p) × IsZeroed (sends p) × AllSound sends rest

module _ (a : Allocator) (laws : IsAllocator a) (always : NeverFails a) (fresh : ℕ) where
  -- An empty buffer is at the address that is taken, and the connection and the calls are as they
  -- were.
  record Takes (free : List ℕ) (n m : Net) : Type 0 where
    at : SafeBuffer
    there : m.sends (taken fresh free) ≡ at
    valid : IsValid at
    empty : at.datalen ≡ 0
    zeroed : IsZeroed at
    same_handle : m.tcp_handle ≡ n.tcp_handle
    same_calls : m.calls ≡ n.calls

  take_total :
      (free : List ℕ) (n : Net)
      → AllSound n.sends free
      → (m : Net) × (take_net_send a fresh free n ≡ ok (taken fresh free, m)) × Takes free n m
  unfolding take_net_send
  take_total [] n sound =
      let (t, made, h) = new_total a laws always in
      (
        record n { map_send = insert fresh fresh n.map_send; sends = put_buffer n.sends fresh t },
        rw made refl,
        record {
          at = t;
          there = rw (==_refl fresh) refl;
          valid = h.valid;
          empty = h.counted;
          zeroed = h.zeroed;
          same_handle = refl;
          same_calls = refl;
        },
      )
  take_total (p ∷ rest) n (v, z, _) =
      let (t, cleared, h) = clear_mem-Clears (n.sends p) v in
      (
        record n {
          d_send = rest;
          map_send = insert p p n.map_send;
          sends = put_buffer n.sends p t;
        },
        rw cleared refl,
        record {
          at = t;
          there = rw (==_refl p) refl;
          valid = h.valid;
          empty = h.empty;
          zeroed = h.zeroed z;
          same_handle = refl;
          same_calls = refl;
        },
      )

  -- net_Send hands the first `len` bytes of the memory to uv_write.
  net_send_total :
      (buf : List ℕ) (len h : ℕ) (n : Net)
      → len ≤ length buf
      → len + 1024 < word_mod
      → AllSound n.sends n.d_send
      → n.tcp_handle ≡ some h
      → (o : Net) × (net_send a success fresh buf len n ≡ ok (true, o))
        × (o.calls ≡ n.calls ++ (write_to h (taken fresh n.d_send) (take len buf) ∷ []))
  unfolding net_send get_memory get_data_length
  net_send_total buf len h n enough fits sound open_handle =
      let (m, took, k) = take_total n.d_send n sound in
      let (u, filled, holds) =
        fill_empty a laws always buf len enough fits k.at k.valid k.empty k.zeroed in
      let o : Net =
        log (record m { sends = put_buffer m.sends (taken fresh n.d_send) u })
          (write_to h (taken fresh n.d_send) (take u.datalen (bytes_at u.buffer))) in
      (
        o,
        rw (took, k.there, filled, k.same_handle, open_handle) refl,
        rw (k.same_calls, holds.held) refl,
      )

  find_first : (p : ℕ) (xs : Assoc) → find p ((p, p) ∷ xs) ≡ some p
  unfolding find
  find_first p xs = rw (==_refl p) refl

  relay_total :
      (p : ℕ) (m o : Net) (u : SafeBuffer)
      → m.async_sends p ≡ u
      → net_send a success fresh (bytes_at u.buffer) u.datalen m ≡ ok (true, o)
      → relay a success fresh (some p) m ≡ ok o
  unfolding relay get_memory get_data_length
  relay_total p m o u e sent = rw (e, sent) refl

  -- net_AsyncSend with a free object returns true. If m_pNetlibInst then points to this object, the
  -- callback of the async handle hands exactly the first `len` bytes of the caller's memory to uv_write, on the connection that stands;
  -- if m_pNetlibInst is null, since net_GetInstance was not called, the callback dereferences it.
  -- The conditions: memory does not run out, `len` bytes can be read, the free objects have sound
  -- buffers, the object is not in the map, and libuv takes the write.
  pub relayed_bytes :
      (buf : List ℕ) (len h p : ℕ) (rest : List ℕ) (n : Net)
      → len ≤ length buf
      → len + 1024 < word_mod
      → n.d_async_send ≡ p ∷ rest
      → count p (keys n.map_async_send) ≡ 0
      → IsValid (n.async_sends p)
      → IsZeroed (n.async_sends p)
      → AllSound n.sends n.d_send
      → n.tcp_handle ≡ some h
      → (m : Net) × (o : Net) × (net_async_send a buf len n ≡ ok (true, m))
        × (async_cb a success fresh p (some m) ≡ ok o)
        × (async_cb a success fresh p none ≡ fault)
        × (o.calls
            ≡ n.calls ++ (send_async p ∷ write_to h (taken fresh n.d_send) (take len buf) ∷ []))
  unfolding net_async_send load_async async_cb
  relayed_bytes buf len h p rest n enough fits first out v z sound open_handle =
      let (t, u, cleared, filled, holds) =
        refill_total a laws always buf len enough fits (n.async_sends p) v z in
      let m : Net =
        log
          (record n {
            d_async_send = rest;
            map_async_send = (p, p) ∷ n.map_async_send;
            async_sends = put_buffer n.async_sends p u;
          })
          (send_async p) in
      let size : u.datalen ≤ len = omega (arith, holds.counted, length-take len buf) in
      let (o, sent, calls) =
        net_send_total (bytes_at u.buffer) u.datalen h m
          (omega (arith, holds.valid.within, holds.valid.sized)) (omega (arith, size)) sound
          open_handle in
      (
        m,
        o,
        rw (first, cleared, filled, insert_absent p p n.map_async_send out) refl,
        ap (λ f. relay a success fresh f m) (find_first p n.map_async_send)
            ∙ relay_total p m o u (rw (==_refl p) refl) sent,
        refl,
        calls
            ∙ append_assoc n.calls (send_async p ∷ []) _
            ∙ ap (λ xs. n.calls ++ (send_async p ∷ write_to h (taken fresh n.d_send) xs ∷ []))
                holds.held,
      )
