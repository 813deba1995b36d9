-- ===== src/Uvcpp/Works.antt =====
-- The work items of uvcppclient/uvcpp.cpp: `send` takes the size of the map for its key, `stop`
-- and `close` have fixed keys, and an entry that is there is not replaced.
use libuvwrapper.Base.{
  ℕ, zero, suc, ◌+◌, ◌≤◌, ◌≡◌, refl, sym, ap, ◌∙◌, List, [], ◌∷◌, arith, length, take, ok, ◌>>=◌,
}
use libuvwrapper.Memory.{Allocator}
use libuvwrapper.Uvcpp.{
  Client, WorkEvent, send_data, close_conn, stop_loop, high, medium, insert_work, wake_loop, post,
  stop, close, send, Socket, write, ready,
}
use libuvwrapper.Uvcpp.SendBuffer.{IsValid, with_sent, send_steps}
use libuvwrapper.Uvcpp.Events.{inner_close, serve, on_work}

-- The items of `n` sends, with keys from `k` on.
abbrev pub queue : ℕ → ℕ → List (ℕ × WorkEvent)
queue k zero = []
queue k (suc n) = (k, send_data) ∷ queue (suc k) n

length-queue : (k n : ℕ) → length (queue k n) ≡ n
length-queue k zero = refl
length-queue k (suc n) = ap suc (length-queue (suc k) n)

insert-queue : (k n j : ℕ) → j ≡ k + n → insert_work j send_data (queue k n) ≡ queue k (suc n)
unfolding insert_work
insert-queue k zero j e = let same : j ≡ k = omega arith in ap (λ i. (i, send_data) ∷ []) same
insert-queue k (suc n) j e = ground (arith, insert-queue (suc k) n j (omega arith))

hidden_stop : (n : ℕ) → insert_work high stop_loop (queue 0 (suc n)) ≡ queue 0 (suc n)
unfolding insert_work
hidden_stop n = refl

hidden_close :
    (n : ℕ) → insert_work medium close_conn (queue 0 (suc (suc n))) ≡ queue 0 (suc (suc n))
unfolding insert_work
hidden_close n = refl

-- A work item that the map does not take leaves a wake-up.
not_taken :
    (k : ℕ) (e : WorkEvent) (c : Client)
    → insert_work k e c.works ≡ c.works
    → post k e c ≡ wake_loop c
unfolding post
not_taken k e c same = ap (λ w. wake_loop (record c { works = w })) same

stop_lost : (n : ℕ) (c : Client) → c.works ≡ queue 0 (suc n) → stop c ≡ wake_loop c
unfolding stop
stop_lost n c e =
    not_taken high stop_loop c (ap (insert_work high stop_loop) e ∙ hidden_stop n ∙ sym e)

-- A `send` with room in a sound buffer, while the items of `n` sends wait, adds its own item, and a
-- `stop` then does no more than wake the loop: its item is dropped.
pub send_then_stop :
    (a : Allocator) (buf : List ℕ) (len n : ℕ) (c : Client)
    → IsValid c
    → c.async ≡ ready
    → c.send_offset + len ≤ c.send_len
    → len ≤ length buf
    → c.works ≡ queue 0 n
    → (d : Client) × (send a buf len c ≡ ok (len, d))
      × (d.works ≡ queue 0 (suc n))
      × (stop d ≡ wake_loop d)
send_then_stop a buf len n c v live room enough e = (
  with_sent c v.block len (take len buf),
  send_steps a buf len c v live room enough,
  queued,
  stop_lost n _ queued,
)
  where
    queued : insert_work (length c.works) send_data c.works ≡ queue 0 (suc n)
    queued =
        ap (λ w. insert_work (length w) send_data w) e
        ∙ insert-queue 0 n (length (queue 0 n)) (omega (arith, length-queue 0 n))

-- With the items of two sends in the map, `close` does no more than wake the loop.
close_lost : (n : ℕ) (c : Client) → c.works ≡ queue 0 (suc (suc n)) → close c ≡ wake_loop c
unfolding close
close_lost n c e =
    not_taken medium close_conn c (ap (insert_work medium close_conn) e ∙ hidden_close n ∙ sym e)

-- With the item of one send in the map, `close` is served behind it: the loop writes, then closes.
close_behind_send :
    (sock : Socket) (c : Client)
    → c.works ≡ queue 0 1
    → c.async ≡ ready
    → (close c >>= on_work sock)
      ≡ (wake_loop (record c { works = [] }) >>= λ d. write sock d >>= inner_close)
unfolding close post wake_loop insert_work on_work serve
close_behind_send sock c e live = rw (e, live) refl
