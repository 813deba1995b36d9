-- ===== src/Sample/Tests.antt =====
-- Runs of the sample programs, and the theorems at concrete inputs.
use libuvwrapper.Base.{◌≡◌, ◌+◌, ◌%◌, refl, true, false, [], ◌∷◌, ok, ◌>>=◌}
use libuvwrapper.Memory.{word_mod}
use libuvwrapper.SafeBuffer.Example.{small}
use libuvwrapper.Loop.{EventType}
use libuvwrapper.Requests.{Request, UvCall, success}
use libuvwrapper.Connect.{ev_read, ev_close}
use libuvwrapper.Connect.Example.{free_loop}
use libuvwrapper.System.{System, async_callback, incoming}
use libuvwrapper.System.Dispatch.{served}
use libuvwrapper.System.Example.{answers, system, free_loop-IsFree}
use libuvwrapper.Sample.{App, on_new_connection}
use libuvwrapper.Sample.Accepting.{accepted_is_read}
use libuvwrapper.Sample.Speed.{told, asked, play, bytes_counted_once}

abbrev begun : App
begun = record { received = 3 ∷ []; datalen = 5 }

accepted_is_read_example :
    (t : System App) × ((incoming on_new_connection 7 30
          (λ x. small)
          31
          false
          success
          success
          (system begun)
        >>= λ u. async_callback answers 1 u)
      ≡ ok t)
    × (t.calls ≡ UvCall.tcp_init 31 ∷ UvCall.accept 30 31 ∷ UvCall.start_reading 31 ∷ [])
    × (t.app.received ≡ 3 ∷ 31 ∷ [])
    × ((t.conns 31).handler ≡ true)
    × (t.loop ≡ served free_loop 1 (2 ∷ []) EventType.tcp_read_start (Request.read_start 31))
accepted_is_read_example =
    accepted_is_read 7 30 31 (λ x. small) (system begun) answers 1 (2 ∷ []) free_loop-IsFree refl

bytes_counted_once_example :
    ((play (told (ev_read (1 ∷ 2 ∷ [])) ∷ asked ∷ told ev_close ∷ []) begun).0
        + (play (told (ev_read (1 ∷ 2 ∷ [])) ∷ asked ∷ told ev_close ∷ []) begun).1.datalen)
      % word_mod
    ≡ 47
bytes_counted_once_example =
    bytes_counted_once (told (ev_read (1 ∷ 2 ∷ [])) ∷ asked ∷ told ev_close ∷ []) begun
