-- ===== src/System/Methods.antt =====
-- The methods of connections, timers and listeners in a system of objects that share a loop, and
-- the callbacks that libuv makes for a connection.
pub mod Touching
use libuvwrapper.Base.{
  ℕ, refl, Bool, true, false, not, if◌then◌else◌, Option, none, some, List, Outcome, ok, Yields,
  Yields-any, Yields-if, Yields-bind, Yields-deref, ◌>>=◌,
}
use libuvwrapper.Base.Assoc.{find}
use libuvwrapper.Memory.{Allocator}
use libuvwrapper.Loop.{EventType}
use libuvwrapper.Requests.{Request, Status}
use libuvwrapper.Connect
use libuvwrapper.Timer
use libuvwrapper.Accept
use libuvwrapper.System.{
  System, on_conn, with_conn, conn_world, on_timer, timer_world, listener_world, put_listener,
}
use libuvwrapper.System.Touches.{Touches, untouched, request, SystemTouches}

-- A call on the object at an address.
pub data Method : Type 0 where
  connect close reconnect stop_reading start_reading : ℕ → Method
  write : Allocator → ℕ → ℕ → List ℕ → ℕ → Method
  start_timer : ℕ → Bool → Method
  stop_timer : ℕ → Method
  listen : ℕ → Method
  -- Of libuv.
  connected : ℕ → ℕ → Status → Method
  written : ℕ → ℕ → Status → Method
  closed : ℕ → Method
  received : ℕ → Option (List ℕ) → Method

module _ {App : Type 0} where
  -- The system after a method that returns a value.
  abbrev pub after : Outcome (Bool × System App) → Outcome (System App)
  after m = do r ← m; ok r.1

  unfoldable pub invoke : Method → System App → Outcome (System App)
  invoke (connect me) s = after (on_conn me (Connect.connect_to_server me) s)
  invoke (close me) s = after (on_conn me (Connect.close_connection me) s)
  invoke (reconnect me) s = after (on_conn me (Connect.reconnnect me) s)
  invoke (stop_reading me) s = after (on_conn me (Connect.stop_read_data me) s)
  invoke (start_reading me) s = after (on_conn me (Connect.start_read_data me) s)
  invoke (write a me fresh pbuf len) s =
      after (on_conn me (Connect.wirte_data a me fresh pbuf len) s)
  invoke (start_timer me force) s = after (on_timer me (Timer.start_timer me force) s)
  invoke (stop_timer me) s = after (on_timer me (Timer.stop_timer me) s)
  invoke (listen me) s = do r ← Accept.listen me (listener_world me s); ok (put_listener me s r.1)
  invoke (connected me handle status) s = with_conn me (Connect.connect_cb handle status) s
  invoke (written me req status) s = with_conn me (Connect.write_cb req status) s
  invoke (closed me) s = with_conn me (Connect.close_cb me) s
  invoke (received me bytes) s = with_conn me (Connect.read_cb bytes) s
