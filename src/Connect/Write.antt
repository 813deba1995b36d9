-- ===== src/Connect/Write.antt =====
-- `wirteData`, `tcpWrite` and the callback of uv_write: the way of the data to uv_write, and of
-- the stSend back to the pool.
use libuvwrapper.Base.{
  ℕ, ◌+◌, ◌≤◌, ◌<◌, ◌≡◌, ◌≢◌, sym, refl, ap, ◌∙◌, ◌⊎◌, inl, inr, true, false, some, List, [], ◌∷◌,
  ◌++◌, arith, length, take, Bool-cases, ==_refl, ok, fault, one_if, count, remove, count-append,
  count-remove,
}
use libuvwrapper.Base.Assoc.{
  keys, find, erase, find_present, find_absent, keys-erase, erase-IsKeyed,
}
use libuvwrapper.Memory.{Allocator, IsAllocator, NeverFails, word_mod}
use libuvwrapper.SafeBuffer.{get_memory, get_data_length}
use libuvwrapper.Loop.{busy, EventType, is_ok, add_req}
use libuvwrapper.Requests.{Request, UvCall, Status, success}
use libuvwrapper.Connect.{
  Connect, World, ev_write, wirte_data, run_tcp_write, write_cb, recycle, emit,
}
use libuvwrapper.Connect.Sends.{Inv, held_in, Loaded, load_send-Loaded}

module _ (a : Allocator) (me fresh : ℕ) (pbuf : List ℕ) (len : ℕ) (w : World) where
  -- What `wirteData` leaves, when it has taken the object `p` from the pool: AddReq is called
  -- once, for the write of `p`, and its code decides the result.
  pub record Written (c' : Connect) (p : ℕ) : Type 0 where
    pub loaded : Loaded w.conn fresh p (take len pbuf) c'
    pub result :
        wirte_data a me fresh pbuf len w
        ≡ ok (
          is_ok (add_req w.loop EventType.tcp_write (Request.tcp_write me p)).0,
          record w {
            conn = c';
            loop = (add_req w.loop EventType.tcp_write (Request.tcp_write me p)).1;
          },
        )

  pub wirte_data_cases :
      IsAllocator a
      → NeverFails a
      → len ≤ length pbuf
      → len + 1024 < word_mod
      → Inv w.conn
      → held_in w.conn fresh ≡ 0
      → ((w.conn.connected ≡ false) × (wirte_data a me fresh pbuf len w ≡ ok (false, w)))
        ⊎ ((w.conn.has_loop ≡ false) × (wirte_data a me fresh pbuf len w ≡ ok (false, w)))
        ⊎ ((c' : Connect) × (p : ℕ) × Written c' p)
  unfolding wirte_data
  wirte_data_cases laws always enough fits v unused = elim (Bool-cases w.conn.connected) [
    | inr off ↦ inl (off, simp off)
    | inl on ↦ elim (Bool-cases w.conn.has_loop) [
      | inr bare ↦ inr (inl (bare, simp (on, bare)))
      | inl has ↦
          let (p, c', done, h) =
            load_send-Loaded a laws always pbuf len enough fits w.conn fresh v unused in
          inr (inr (c', p, record { loaded = h; result = simp (on, has, done, h.same_has_loop) }))
    ]
  ]

true-ne-false : true ≢ false
true-ne-false e = cc

-- On a connection that stands `wirteData` takes the data.
pub wirte_data-Written :
    (a : Allocator) (me fresh : ℕ) (pbuf : List ℕ) (len : ℕ) (w : World)
    → IsAllocator a
    → NeverFails a
    → len ≤ length pbuf
    → len + 1024 < word_mod
    → Inv w.conn
    → held_in w.conn fresh ≡ 0
    → w.conn.connected ≡ true
    → w.conn.has_loop ≡ true
    → (c : Connect) × (p : ℕ) × Written a me fresh pbuf len w c p
wirte_data-Written a me fresh pbuf len w laws always enough fits v unused on has =
    elim (wirte_data_cases a me fresh pbuf len w laws always enough fits v unused) [
      | inl (off, _) ↦ absurd (true-ne-false (sym on ∙ off))
      | inr (inl (bare, _)) ↦ absurd (true-ne-false (sym has ∙ bare))
      | inr (inr (c, p, h)) ↦ (c, p, h)
    ]

-- The bytes that `tcpWrite` hands to uv_write are those that were given to `wirteData`, whatever
-- has happened to the connection between, as long as the object is untouched, and the connection
-- stands; libuv is called once.
pub written_bytes :
    (a : Allocator) (me fresh : ℕ) (pbuf : List ℕ) (len : ℕ) (w : World) (c' : Connect) (p s : ℕ)
    (later : World)
    → Written a me fresh pbuf len w c' p
    → later.conn.sends p ≡ c'.sends p
    → later.conn.connected ≡ true
    → later.conn.stream ≡ some s
    → run_tcp_write p success later
      ≡ ok (record later { calls = later.calls ++ (UvCall.write s p (take len pbuf) ∷ []) })
unfolding run_tcp_write get_memory get_data_length
written_bytes a me fresh pbuf len w c' p s later h same on open_stream =
    simp (on, open_stream, same)
      (ap (λ xs. ok (record later { calls = later.calls ++ (UvCall.write s p xs ∷ []) }))
        h.loaded.holds.held)

-- `o` has gone from the map to the end of the free objects.
pub record Recycles (c : Connect) (p : ℕ) (c' : Connect) : Type 0 where
  pub freed_last : c'.d_send ≡ c.d_send ++ (p ∷ [])
  pub out_of_map : keys c'.map_send ≡ remove p (keys c.map_send)
  pub conserved : (x : ℕ) → held_in c' x ≡ held_in c x
  pub inv : Inv c'

recycle-Recycles :
    (c : Connect) (p : ℕ)
    → Inv c
    → 0 < count p (keys c.map_send)
    → (c' : Connect) × (recycle c p (find p c.map_send) ≡ ok c') × Recycles c p c'
unfolding recycle
recycle-Recycles c p v k = (
  after,
  rw (find_present p c.map_send v.keyed k),
  record {
    freed_last = refl;
    out_of_map = keys-erase p c.map_send;
    conserved = balance;
    inv = record {
      unique = λ x. omega (arith, balance x, v.unique x);
      keyed = erase-IsKeyed p c.map_send v.keyed;
      valid = λ x h. v.valid x (omega (arith, balance x, h));
      zeroed = λ x h. v.zeroed x (omega (arith, balance x, h));
    };
  },
)
  where
    after : Connect
    after = record c { d_send = c.d_send ++ (p ∷ []); map_send = erase p c.map_send }

    balance : (x : ℕ) → held_in after x ≡ held_in c x
    balance x = omega (
      arith,
      count-append x c.d_send (p ∷ []),
      ap (count x) (keys-erase p c.map_send),
      count-remove x p (keys c.map_send) k,
    )

pub write_cb_lem :
    (p : ℕ) (status : Status) (w : World)
    → Inv w.conn
    → 0 < count p (keys w.conn.map_send)
    → (c' : Connect) × (write_cb p status w ≡ ok (emit (record w { conn = c' }) (ev_write status)))
      × Recycles w.conn p c'
unfolding write_cb
write_cb_lem p status w v k = let (c', done, h) = recycle-Recycles w.conn p v k in (c', rw done, h)

-- For a request that is not in the map the callback reads through the end iterator.
write_cb_unknown :
    (p : ℕ) (status : Status) (w : World)
    → count p (keys w.conn.map_send) ≡ 0
    → write_cb p status w ≡ fault
unfolding write_cb recycle
write_cb_unknown p status w e = rw (find_absent p w.conn.map_send e)

-- When AddReq refuses, `wirteData` returns `false` but the object stays in m_mapSend: the loop is
-- as it was, the free objects are no more than before, and one more object counts as in use.
refused_write_leaks :
    (a : Allocator) (me fresh : ℕ) (pbuf : List ℕ) (len : ℕ) (w : World) (c' : Connect) (p : ℕ)
    → Written a me fresh pbuf len w c' p
    → add_req w.loop EventType.tcp_write (Request.tcp_write me p) ≡ (busy, w.loop)
    → (wirte_data a me fresh pbuf len w ≡ ok (false, record w { conn = c' }))
      × (length c'.map_send ≡ length w.conn.map_send + 1)
      × (0 < count p (keys c'.map_send))
refused_write_leaks a me fresh pbuf len w c' p h refused = (
  h.result ∙ ap (λ r. ok (is_ok r.0, record w { conn = c'; loop = r.1 })) refused,
  omega (arith, ap length h.loaded.in_map),
  omega (arith, ap (λ m. count p (keys m)) h.loaded.in_map, ap one_if (==_refl p)),
)
