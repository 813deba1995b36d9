-- ===== src/TcpClient/Write.antt =====
-- The whole way of the data of `TcpClient::WriteData`: through wirteData, AddReq, the loop's
-- thread and tcpWrite to uv_write, and the stSend back to its pool.
use libuvwrapper.Base.{ℕ, ◌<◌, ◌≡◌, refl, true, List, [], ◌∷◌, ◌++◌, take, ok, count}
use libuvwrapper.Base.Assoc.{keys}
use libuvwrapper.Memory.{Allocator}
use libuvwrapper.Loop.{EventType}
use libuvwrapper.Requests.{Request, UvCall}
use libuvwrapper.Connect.{Connect, World}
use libuvwrapper.Connect.Sends.{Inv}
use libuvwrapper.Connect.Write.{Written}
use libuvwrapper.System.{System, Answers, conn_world, put_conn, set_at}
use libuvwrapper.System.Dispatch.{IsFree, posted, served, serving, add_req-posted}
use libuvwrapper.TcpClient.{write_data}

module _ {App : Type 0} (a : Allocator) (env : Answers) (me fresh : ℕ) (pbuf : List ℕ) (len : ℕ)
    (s : System App) (h stream : ℕ) (rest : List ℕ) where
  -- What the write leaves: uv_write was called once, with the first `len` bytes of `pbuf`, for the
  -- object `p` of the connection's pool, which is in use; and the loop has its handle back.
  pub record Arrives (p : ℕ) (t : System App) : Type 0 where
    pub written : t.calls ≡ s.calls ++ (UvCall.write stream p (take len pbuf) ∷ [])
    pub loop_free : t.loop ≡ served s.loop h rest EventType.tcp_write (Request.tcp_write me p)
    pub pool : Inv (t.conns me)
    pub in_use : 0 < count p (keys (t.conns me).map_send)

  -- The system once `wirteData` has filled the object `p`.
  abbrev pub base : Connect → System App
  base c = record s { conns = set_at s.conns me c; events = s.events ++ [] }

  -- The system while the callback of the request runs, and the connection's part of it.
  abbrev running : Connect → ℕ → System App
  running c p = record (base c) {
    loop = serving s.loop h rest EventType.tcp_write (Request.tcp_write me p);
  }

  abbrev later : Connect → ℕ → World
  later c p = conn_world me (running c p)

  abbrev reached : Connect → ℕ → System App
  reached c p =
      put_conn me (running c p)
        (record (later c p) { calls = s.calls ++ (UvCall.write stream p (take len pbuf) ∷ []) })

  pub taken_over :
      (c : Connect) (p : ℕ)
      → IsFree s.loop h rest
      → Written a me fresh pbuf len (conn_world me s) c p
      → write_data a me fresh pbuf len s
        ≡ ok (
          true,
          record (base c) {
            loop = posted s.loop h rest EventType.tcp_write (Request.tcp_write me p);
          },
        )
  unfolding write_data
  taken_over c p f w =
      rw (w.result, add_req-posted s.loop h rest EventType.tcp_write (Request.tcp_write me p) f)
        refl
