-- ===== src/Accept.antt =====
-- libuvcpp/accept.h and libuvcpp/accept.cpp: the class `uvaccept`, a listener on a loop. The
-- connections that it makes are handed to a callback; they are listed in `accepted`.
pub mod Incoming
use libuvwrapper.Base.{
  ℕ, ◌≡◌, Bool, true, false, Option, none, some, List, [], ◌∷◌, ◌++◌, if◌then◌else◌, Outcome, ok,
  fault, abort, ◌>>=◌, ◌>>◌, assert, require, deref,
}
use libuvwrapper.SafeBuffer.{SafeBuffer}
use libuvwrapper.Loop.{Loop, EventType, is_ok, add_req}
use libuvwrapper.Requests.{Request, UvCall, Status, is_success}
use libuvwrapper.Connect.{Connect, register_loop_and_stream}
use libuvwrapper.Connect

-- uvaccept. `callback` is whether m_pConnectcb is set, `has_loop` whether m_ploop is. The first
-- component of an entry of `accepted` is the address of its handle.
pub record Accept : Type 0 where
  pub has_loop : Bool
  pub callback : Bool
  pub server : Option ℕ
  pub accepted : List (ℕ × Connect)
  pub addr : Option ℕ

-- The listener, its loop, and what was called.
pub record Listener : Type 0 where
  pub acceptor : Accept
  pub loop : Loop Request
  pub calls : List UvCall

-- uvaccept()
unfoldable pub new : Accept
new = record { has_loop = false; callback = false; server = none; accepted = []; addr = none }

-- RegisterAccept
unfoldable pub register_accept : Accept → Bool × Accept
register_accept c = (true, record c { has_loop = true })

-- SetIPAndPort: `parsed` is what uv_ip4_addr makes of the address, `none` for an error.
unfoldable pub set_ip_and_port : Option ℕ → Accept → Outcome Accept
set_ip_and_port none c = abort
set_ip_and_port (some a) c = ok (record c { addr = some a })

-- SetNewConnectCallback
unfoldable pub set_new_connect_callback : Accept → Accept
set_new_connect_callback c = record c { callback = true }

-- listen
unfoldable pub listen : ℕ → Listener → Outcome (Bool × Listener)
listen me w =
    if w.acceptor.has_loop
    then (let (code, l) = add_req w.loop EventType.tcp_listen (Request.server_listen_start me) in
        ok (is_ok code, record w { loop = l }))
    else fault

abbrev pub call : Listener → UvCall → Listener
call w u = record w { calls = w.calls ++ (u ∷ []) }

-- ServerListenStart, in the loop's thread: `handle` is the address of the new uv_tcp_t, and what
-- uv_tcp_init and uv_tcp_bind return is asserted. What uv_listen returns is not tested.
unfoldable pub server_listen_start : ℕ → Status → Status → Listener → Outcome Listener
server_listen_start handle init bind w = do
  require w.acceptor.has_loop
  assert (is_success init)
  assert (is_success bind)
  ok (
      call
        (call
          (call (record w { acceptor = record (w.acceptor) { server = some handle } })
            (UvCall.tcp_init handle))
          (UvCall.tcp_bind handle w.acceptor.addr))
        (UvCall.listen handle 1024))

-- A connection that uv_accept has made: registered, and handed to the callback. An empty
-- std::function throws, which nothing catches: the program ends.
unfoldable pub hand_over : ℕ → (ℕ → SafeBuffer) → Listener → Outcome Listener
hand_over client junk w = do
  r ← register_loop_and_stream (Connect.new junk) client
  assert w.acceptor.callback
  ok (record w {
    acceptor = record (w.acceptor) { accepted = w.acceptor.accepted ++ ((client, r.1) ∷ []) };
  })

-- The callback of uv_listen: `client` is the address of the new handle; `failed` is whether the
-- status is negative, and `init` and `answer` what uv_tcp_init and uv_accept return.
unfoldable pub on_connection :
    ℕ → (ℕ → SafeBuffer) → ℕ → Bool → Status → Status → Listener → Outcome Listener
unfolding hand_over
on_connection handle junk client failed init answer w = if failed then ok w else (do
  assert (is_success init)
  let asked = call (call w (UvCall.tcp_init client)) (UvCall.accept handle client) in
      if is_success answer then hand_over client junk asked else ok asked)
