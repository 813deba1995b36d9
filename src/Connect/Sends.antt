-- ===== src/Connect/Sends.antt =====
-- The pool of stSend objects of a connection: free ones in m_dSend, those in use in m_mapSend.
use libuvwrapper.Base.{
  ℕ, ◌+◌, ◌≤◌, ◌<◌, ◌≡◌, refl, sym, ap, subst, ◌∙◌, inl, inr, true, false, List, [], ◌∷◌, arith,
  length, take, Bool-cases, ==_refl, ==_iff, ◌==◌, ok, one_if, count,
}
use libuvwrapper.Base.Assoc.{keys, IsKeyed, insert_absent}
use libuvwrapper.Memory.{Allocator, IsAllocator, NeverFails, word_mod}
use libuvwrapper.SafeBuffer.{SafeBuffer, default_buffer_len, new_empty, clear_mem}
use libuvwrapper.SafeBuffer.Valid.{IsValid, IsZeroed}
use libuvwrapper.SafeBuffer.Filling.{new_total, fill_empty, refill_total}
use libuvwrapper.SafeBuffer.Clear.{Holds}
use libuvwrapper.Connect.{Connect, put_send, take_send, load_send}

abbrev pub held_in : Connect → ℕ → ℕ
held_in c x = count x c.d_send + count x (keys c.map_send)

-- No object stands in the pool twice, and each has a sound buffer.
pub record Inv (c : Connect) : Type 0 where
  pub unique : (x : ℕ) → held_in c x ≤ 1
  pub keyed : IsKeyed c.map_send
  pub valid : (x : ℕ) → 0 < held_in c x → IsValid (c.sends x)
  pub zeroed : (x : ℕ) → 0 < held_in c x → IsZeroed (c.sends x)

-- The address of the object that is new, if one is.
abbrev pub newcomer : List ℕ → ℕ → List ℕ
newcomer [] fresh = fresh ∷ []
newcomer (_ ∷ _) fresh = []

-- `p` has been taken from the pool, or is new, and holds `xs`; all else is as it was.
pub record Loaded (c : Connect) (fresh p : ℕ) (xs : List ℕ) (c' : Connect) : Type 0 where
  pub holds : Holds xs (c'.sends p)
  pub was_out : count p (keys c.map_send) ≡ 0
  pub in_map : c'.map_send ≡ (p, p) ∷ c.map_send
  pub conserved : (x : ℕ) → held_in c' x ≡ held_in c x + count x (newcomer c.d_send fresh)
  pub inv : Inv c'
  pub same_connected : c'.connected ≡ c.connected
  pub same_stream : c'.stream ≡ c.stream
  pub same_handler : c'.handler ≡ c.handler
  pub same_has_loop : c'.has_loop ≡ c.has_loop
  pub same_others : (x : ℕ) → (p == x) ≡ false → c'.sends x ≡ c.sends x

module _ (a : Allocator) (laws : IsAllocator a) (always : NeverFails a) (pbuf : List ℕ) (len : ℕ)
    (enough : len ≤ length pbuf) (fits : len + 1024 < word_mod) where
  abbrev xs : List ℕ
  xs = take len pbuf

  -- The pool after an object `p` with the buffer `u` has gone into the map.
  abbrev loaded : Connect → List ℕ → ℕ → (ℕ → SafeBuffer) → SafeBuffer → Connect
  loaded c rest p sends u = record c {
    d_send = rest;
    map_send = (p, p) ∷ c.map_send;
    sends = put_send sends p u;
  }

  module _ (c : Connect) (v : Inv c) (fresh p : ℕ) (rest : List ℕ) (b u : SafeBuffer)
      (h : Holds xs u) (out : count p (keys c.map_send) ≡ 0)
      (source : (x : ℕ)
        → one_if (p == x) + count x rest ≡ count x c.d_send + count x (newcomer c.d_send fresh))
      (fresh_is_new : (x : ℕ) → held_in c x + count x (newcomer c.d_send fresh) ≤ 1)
      (others : (x : ℕ)
        → (p == x) ≡ false
        → 0 < held_in c x + count x (newcomer c.d_send fresh)
        → 0 < held_in c x) where
    abbrev c' : Connect
    c' = loaded c rest p (put_send c.sends p b) u

    balance : (x : ℕ) → held_in c' x ≡ held_in c x + count x (newcomer c.d_send fresh)
    balance x = omega (arith, source x)

    sends_at : (x : ℕ) → (p == x) ≡ true → c'.sends x ≡ u
    sends_at x e = rw e

    sends_off : (x : ℕ) → (p == x) ≡ false → c'.sends x ≡ c.sends x
    sends_off x e = rw e

    loaded-Loaded : Loaded c fresh p xs c'
    loaded-Loaded = record {
      holds = rw (sends_at p (==_refl p)) h;
      was_out = out;
      in_map = refl;
      conserved = balance;
      inv = record {
        unique = λ x. omega (arith, balance x, fresh_is_new x);
        keyed = (refl, v.keyed);
        valid = λ x k. elim (Bool-cases (p == x)) [
          | inl e ↦ rw (sends_at x e) h.valid
          | inr e ↦ rw (sends_off x e) (v.valid x (others x e (omega (arith, balance x, k))))
        ];
        zeroed = λ x k. elim (Bool-cases (p == x)) [
          | inl e ↦ subst IsZeroed (sym (sends_at x e)) h.zeroed
          | inr e ↦
              subst IsZeroed (sym (sends_off x e))
                (v.zeroed x (others x e (omega (arith, balance x, k))))
        ];
      };
      same_connected = refl;
      same_stream = refl;
      same_handler = refl;
      same_has_loop = refl;
      same_others = sends_off;
    }

  load_send-fresh :
      (c : Connect) (fresh : ℕ)
      → Inv c
      → held_in c fresh ≡ 0
      → c.d_send ≡ []
      → (p : ℕ) × (c' : Connect) × (load_send a fresh c pbuf len ≡ ok (p, c'))
        × Loaded c fresh p xs c'
  unfolding load_send
  load_send-fresh c fresh v unused none_free =
      let (t, made, m) = new_total a laws always in
      let (u, filled, h) =
        fill_empty a laws always pbuf len enough fits t m.valid m.counted m.zeroed in
      let out : count fresh (keys c.map_send) ≡ 0 = omega (arith, unused) in
      (
        fresh,
        loaded c c.d_send fresh (put_send c.sends fresh t) u,
        rw (taken t made, ==_refl fresh, filled, insert_absent fresh fresh c.map_send out),
        loaded-Loaded c v fresh fresh c.d_send t u h out (λ x. omega (arith, is_new x))
            (λ x. elim (Bool-cases (fresh == x)) [
              | inl e ↦
                  omega
                    (arith, is_new x, ap one_if e, unused, ap (held_in c) ((==_iff fresh x).0 e))
              | inr e ↦ omega (arith, is_new x, ap one_if e, v.unique x)
            ])
            (λ x e k. omega (arith, is_new x, ap one_if e, k)),
      )
    where
      is_new : (x : ℕ) → count x (newcomer c.d_send fresh) ≡ one_if (fresh == x)
      is_new x = ap (λ d. count x (newcomer d fresh)) none_free ∙ omega arith

      taken :
          (t : SafeBuffer)
          → new_empty a default_buffer_len ≡ ok t
          → take_send a fresh c c.d_send ≡ ok (fresh, record c { sends = put_send c.sends fresh t })
      taken t made = ap (take_send a fresh c) none_free ∙ rw made

  load_send-reused :
      (c : Connect) (fresh p : ℕ) (rest : List ℕ)
      → Inv c
      → c.d_send ≡ p ∷ rest
      → (p : ℕ) × (c' : Connect) × (load_send a fresh c pbuf len ≡ ok (p, c'))
        × Loaded c fresh p xs c'
  unfolding load_send
  load_send-reused c fresh p rest v first =
      let free : 0 < held_in c p = omega (arith, counts p, ap one_if (==_refl p)) in
      let (t, u, cleared, filled, h) =
        refill_total a laws always pbuf len enough fits (c.sends p) (v.valid p free)
          (v.zeroed p free) in
      let out : count p (keys c.map_send) ≡ 0 =
        omega (arith, v.unique p, counts p, ap one_if (==_refl p)) in
      (
        p,
        loaded c rest p (put_send c.sends p t) u,
        rw (taken t cleared, ==_refl p, filled, insert_absent p p c.map_send out),
        loaded-Loaded c v fresh p rest t u h out (λ x. omega (arith, none_new x, counts x))
            (λ x. omega (arith, none_new x, v.unique x)) (λ x e k. omega (arith, none_new x, k)),
      )
    where
      counts : (x : ℕ) → count x c.d_send ≡ one_if (p == x) + count x rest
      counts x = ap (count x) first

      none_new : (x : ℕ) → count x (newcomer c.d_send fresh) ≡ 0
      none_new x = ap (λ d. count x (newcomer d fresh)) first

      taken :
          (t : SafeBuffer)
          → clear_mem (c.sends p) ≡ ok t
          → take_send a fresh c c.d_send
            ≡ ok (p, record c { d_send = rest; sends = put_send c.sends p t })
      taken t cleared = ap (take_send a fresh c) first ∙ rw cleared

  -- The locked part of `wirteData` and its copy succeed: an object from the pool, or a new one if
  -- none is free, holds exactly the data, and the rest of the pool is as it was.
  pub load_send-Loaded :
      (c : Connect) (fresh : ℕ)
      → Inv c
      → held_in c fresh ≡ 0
      → (p : ℕ) × (c' : Connect) × (load_send a fresh c pbuf len ≡ ok (p, c'))
        × Loaded c fresh p (take len pbuf) c'
  load_send-Loaded c fresh v unused = go c.d_send refl
    where
      go :
          (d : List ℕ)
          → c.d_send ≡ d
          → (p : ℕ) × (c' : Connect) × (load_send a fresh c pbuf len ≡ ok (p, c'))
            × Loaded c fresh p (take len pbuf) c'
      go [] e = load_send-fresh c fresh v unused e
      go (p ∷ rest) e = load_send-reused c fresh p rest v e
