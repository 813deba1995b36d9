-- ===== src/System/Example.antt =====
-- A concrete system and answers of libuv, for the tests.
use libuvwrapper.Base.{refl, true, some, [], ◌∷◌, length, ◌+◌}
use libuvwrapper.SafeBuffer.Example.{small}
use libuvwrapper.Requests.{success}
use libuvwrapper.Connect
use libuvwrapper.Connect.Example.{free_loop, open_conn}
use libuvwrapper.Timer
use libuvwrapper.Accept
use libuvwrapper.System.{System, Answers, set_at}
use libuvwrapper.System.Dispatch.{IsFree}

-- Every call succeeds, and new handles lie from 100 on.
abbrev pub answers : Answers
answers = record { fresh = λ us. 100 + length us; status = λ us k. success }

-- The connection at 3 stands; the listener at 7 waits for connections at its handle 30.

module _ {App : Type 0} (app : App) where
  abbrev pub system : System App
  system = record {
    loop = free_loop;
    conns = set_at (λ _. Connect.new (λ x. small)) 3 open_conn;
    timers = λ _. Timer.new;
    listeners =
        set_at (λ _. Accept.new) 7
          (record {
            has_loop = true;
            callback = true;
            server = some 30;
            accepted = [];
            addr = some 44;
          });
    calls = [];
    events = [];
    app = app;
  }

pub free_loop-IsFree : IsFree free_loop 1 (2 ∷ [])
free_loop-IsFree = record { running = refl; first = refl; absent = refl; unsent = refl }
