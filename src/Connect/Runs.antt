-- ===== src/Connect/Runs.antt =====
-- The pool of a connection in every run of its methods and callbacks.
use libuvwrapper.Base.{
  ℕ, ◌+◌, ◌≤◌, ◌<◌, ◌≡◌, sym, subst, ap, inl, inr, Bool, List, [], arith, length, ok, count, Yields,
  Yields-value,
}
use libuvwrapper.Base.Assoc.{keys, IsKeyed}
use libuvwrapper.Memory.{Allocator, IsAllocator, NeverFails, word_mod}
use libuvwrapper.SafeBuffer.{SafeBuffer}
use libuvwrapper.SafeBuffer.Valid.{IsValid, IsZeroed}
use libuvwrapper.Loop.{Loop}
use libuvwrapper.Requests.{Request, Status}
use libuvwrapper.Connect.{Connect, World, new, wirte_data, write_cb, ev_write}
use libuvwrapper.Connect.Sends.{Inv, held_in}
use libuvwrapper.Connect.Write.{wirte_data_cases, write_cb_lem}
use libuvwrapper.Connect.Quiet.{SamePool, Quiet, quiet-SamePool, emit-conn}

-- A call of `wirteData`, the callback of a write that is under way, or something else.
pub data Step (a : Allocator) (w v : World) : Type 0 where
  take :
      (me fresh len : ℕ) (pbuf : List ℕ) (r : Bool)
      → len ≤ length pbuf
      → len + 1024 < word_mod
      → held_in w.conn fresh ≡ 0
      → wirte_data a me fresh pbuf len w ≡ ok (r, v)
      → Step a w v
  wrote :
      (p : ℕ) (status : Status)
      → 0 < count p (keys w.conn.map_send)
      → write_cb p status w ≡ ok v
      → Step a w v
  other : Quiet w v → Step a w v

pub data Reach (a : Allocator) (w : World) : World → Type 0 where
  here : Reach a w w
  next : {v u : World} → Reach a w v → Step a v u → Reach a w u

-- A connection that was just made.
abbrev pub born : (ℕ → SafeBuffer) → Loop Request → World
born junk l = record { conn = new junk; loop = l; calls = []; events = [] }

SamePool-Inv : {c d : Connect} → SamePool c d → Inv c → Inv d
SamePool-Inv {c} {d} same v = record {
  unique = λ x. omega (arith, held x, v.unique x);
  keyed = subst IsKeyed (sym same.0) v.keyed;
  valid = λ x k. subst IsValid (sym (buffer x)) (v.valid x (omega (arith, held x, k)));
  zeroed = λ x k. subst IsZeroed (sym (buffer x)) (v.zeroed x (omega (arith, held x, k)));
}
  where
    held : (x : ℕ) → held_in d x ≡ held_in c x
    held x = omega (arith, ap (count x) same.1, ap (λ m. count x (keys m)) same.0)

    buffer : (x : ℕ) → d.sends x ≡ c.sends x
    buffer x = ap (λ f. f x) same.2

module _ (a : Allocator) (laws : IsAllocator a) (always : NeverFails a) where
  take-Inv :
      (me fresh len : ℕ) (pbuf : List ℕ) (w : World)
      → len ≤ length pbuf
      → len + 1024 < word_mod
      → held_in w.conn fresh ≡ 0
      → Inv w.conn
      → Yields (λ r. Inv r.1.conn) (wirte_data a me fresh pbuf len w)
  take-Inv me fresh len pbuf w enough fits unused v =
      elim (wirte_data_cases a me fresh pbuf len w laws always enough fits v unused) [
        | inl (_, e) ↦ subst (Yields (λ r. Inv r.1.conn)) (sym e) v
        | inr (inl (_, e)) ↦ subst (Yields (λ r. Inv r.1.conn)) (sym e) v
        | inr (inr (c, p, h)) ↦ subst (Yields (λ r. Inv r.1.conn)) (sym h.result) h.loaded.inv
      ]

  wrote-Inv :
      (p : ℕ) (status : Status) (w : World)
      → 0 < count p (keys w.conn.map_send)
      → Inv w.conn
      → Yields (λ v. Inv v.conn) (write_cb p status w)
  wrote-Inv p status w k v =
      let (c, e, h) = write_cb_lem p status w v k in
      subst (Yields (λ v. Inv v.conn)) (sym e)
        (subst Inv (sym (emit-conn (record w { conn = c }) (ev_write status))) h.inv)

  Step-Inv : {w v : World} → Step a w v → Inv w.conn → Inv v.conn
  Step-Inv {w} (take me fresh len pbuf r enough fits unused e) v =
      Yields-value (λ r. Inv r.1.conn) _ (take-Inv me fresh len pbuf w enough fits unused v) e
  Step-Inv {w} (wrote p status k e) v =
      Yields-value (λ v. Inv v.conn) _ (wrote-Inv p status w k v) e
  Step-Inv (other q) v = SamePool-Inv (quiet-SamePool q) v

  new-Inv : (junk : ℕ → SafeBuffer) → Inv (new junk)
  unfolding new
  new-Inv junk = record {
    unique = λ x. omega arith;
    keyed = tt;
    valid = λ x k. absurd (omega arith);
    zeroed = λ x k. absurd (omega arith);
  }

  -- In every run of a connection's methods and callbacks, from its constructor on and whatever other
  -- threads do to the loop, no stSend stands in the pool twice, the map is keyed by the addresses of
  -- its objects, and every object of the pool has a sound buffer with zeros behind its data. The
  -- conditions, besides the allocator's laws: memory does not run out, the memory given to wirteData
  -- can be read, a new object has an address of its own, and libuv calls back for writes that are under
  -- way.
  pub runs-Inv :
      (junk : ℕ → SafeBuffer) (l : Loop Request) {v : World} → Reach a (born junk l) v → Inv v.conn
  runs-Inv junk l here = new-Inv junk
  runs-Inv junk l (next r st) = Step-Inv st (runs-Inv junk l r)
