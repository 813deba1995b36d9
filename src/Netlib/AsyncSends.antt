-- ===== src/Netlib/AsyncSends.antt =====
-- How often net_AsyncSend of util/netlib.h can succeed.
use libuvwrapper.Base.{
  ℕ, zero, suc, ◌+◌, ◌≡◌, refl, ap, ◌∙◌, Bool, true, false, List, [], ◌∷◌, arith, length,
  length-append, Outcome, ok, Yields, Yields-any, Yields-bind, Yields-value, Yields-weaken, assert,
  ◌>>=◌,
}
use libuvwrapper.Memory.{Allocator}
use libuvwrapper.SafeBuffer.{SafeBuffer, new_empty, clear_mem, readmem, default_buffer_len}
use libuvwrapper.Requests.{Status, is_success}
use libuvwrapper.Netlib.{
  Net, NetCall, new, new_async_sends, async_handle_num, net_async_send, load_async, checked, log,
  init_loop, init_tcp, init_timer, user_timer, blank, init_async, tcp_timer,
}
use libuvwrapper.Netlib.Untouched.{Other, other-Untouched}

-- A run, with the number of calls of net_AsyncSend that returned true.
pub data Run (a : Allocator) : ℕ → Net → Net → Type 0 where
  done : {n : Net} → Run a 0 n n
  accepted :
      {k : ℕ} {n m o : Net} (buf : List ℕ) (len : ℕ)
      → net_async_send a buf len n ≡ ok (true, m)
      → Run a k m o
      → Run a (suc k) n o
  refused :
      {k : ℕ} {n m o : Net} (buf : List ℕ) (len : ℕ)
      → net_async_send a buf len n ≡ ok (false, m)
      → Run a k m o
      → Run a k n o
  other : {k : ℕ} {n m o : Net} → Other a n m → Run a k m o → Run a k n o

-- A call that returns true takes one object, one that returns false takes none.
abbrev Takes : Net → Bool × Net → Type 0
Takes n (true, m) = length n.d_async_send ≡ suc (length m.d_async_send)
Takes n (false, m) = length n.d_async_send ≡ length m.d_async_send

load_async-Takes :
    (a : Allocator) (buf : List ℕ) (len : ℕ) (free : List ℕ) (n : Net)
    → n.d_async_send ≡ free
    → Yields (Takes n) (load_async a buf len free n)
unfolding load_async
load_async-Takes a buf len [] n e = refl
load_async-Takes a buf len (p ∷ rest) n e =
    Yields-bind (λ x. Unit) (Takes n) (clear_mem (n.async_sends p)) _ (Yields-any _)
      λ b h.
        Yields-bind (λ x. Unit) (Takes n) (readmem a b buf len) _ (Yields-any _)
          (λ r k. ap length e)

run_takes :
    (a : Allocator) {k : ℕ} {n o : Net}
    → Run a k n o
    → k + length o.d_async_send ≡ length n.d_async_send
unfolding net_async_send
run_takes a done = omega arith
run_takes a (accepted {n = n} buf len e r) = omega (
  arith,
  run_takes a r,
  Yields-value (Takes n) _ (load_async-Takes a buf len n.d_async_send n refl) e,
)
run_takes a (refused {n = n} buf len e r) = omega (
  arith,
  run_takes a r,
  Yields-value (Takes n) _ (load_async-Takes a buf len n.d_async_send n refl) e,
)
run_takes a (other {n = n} {m = m} e r) = run_takes a r ∙ ap length (other-Untouched a e)

constructed :
    (a : Allocator) (answer : NetCall → Status) (i rounds : ℕ) (n : Net)
    → Yields
        (λ m. length m.d_async_send ≡ length n.d_async_send + rounds)
        (new_async_sends a answer i rounds n)
unfolding new_async_sends
constructed a answer i zero n = omega arith
constructed a answer i (suc rounds) n =
    Yields-bind (λ x. Unit) Grown (new_empty a default_buffer_len) _ (Yields-any _)
      λ b h.
        Yields-bind (λ m. m.d_async_send ≡ n.d_async_send) Grown
          (checked (answer (init_async i)) (init_async i) n) _
          (Yields-bind (λ x. Unit) (λ m. m.d_async_send ≡ n.d_async_send)
            (assert (is_success (answer (init_async i)))) _ (Yields-any _) (λ x k. refl))
          λ m same.
            Yields-weaken _ Grown _ (constructed a answer (suc i) rounds _)
              λ o e. omega (arith, e, length-append m.d_async_send (i ∷ []), ap length same)
  where
    Grown : Net → Type 0
    Grown o = length o.d_async_send ≡ length n.d_async_send + suc rounds

new_has_five :
    (a : Allocator) (answer : NetCall → Status) (junk : ℕ → SafeBuffer)
    → Yields (λ m. length m.d_async_send ≡ 5) (new a answer junk)
unfolding new
new_has_five a answer junk = start init_loop (blank junk) _ refl λ n e. start init_tcp n _ e λ n e.
    start (init_timer user_timer) n _ e λ n e.
      Yields-weaken _ Five _
        (constructed a answer 0 async_handle_num (log n (init_timer tcp_timer)))
        (λ m k. omega (arith, k, ap length e))
  where
    Five : Net → Type 0
    Five m = length m.d_async_send ≡ 5

    start :
        (u : NetCall) (n : Net) (f : Net → Outcome Net)
        → n.d_async_send ≡ []
        → ((m : Net) → m.d_async_send ≡ [] → Yields Five (f m))
        → Yields Five (checked (answer u) u n >>= f)
    start u n f e k =
        Yields-bind (λ m. m.d_async_send ≡ []) Five (checked (answer u) u n) f
          (Yields-bind (λ x. Unit) (λ m. m.d_async_send ≡ []) (assert (is_success (answer u))) _
            (Yields-any _) (λ x h. e))
          k

-- A call of net_AsyncSend is refused when five calls have returned true since the object was made: no
-- object comes back. Between them may run, in any order and number, refused calls, every other public
-- operation of the object that returns, its callbacks, the loop of net_Run, and whatever changes other
-- objects of the link type make to the static members.
pub sixth_send_refused :
    (a : Allocator) (answer : NetCall → Status) (junk : ℕ → SafeBuffer) {n o : Net} (buf : List ℕ)
    (len : ℕ)
    → new a answer junk ≡ ok n
    → Run a 5 n o
    → net_async_send a buf len o ≡ ok (false, o)
unfolding net_async_send load_async
sixth_send_refused a answer junk {n} {o} buf len made run = refuse o.d_async_send (
    omega (
      arith,
      run_takes a run,
      Yields-value (λ m. length m.d_async_send ≡ 5) _ (new_has_five a answer junk) made,
    ))
  where
    refuse : (free : List ℕ) → length free ≡ 0 → load_async a buf len free o ≡ ok (false, o)
    refuse [] e = refl
    refuse (p ∷ rest) e = absurd (omega arith)
