-- ===== src/Loop/Shutdown/Tests.antt =====
-- The end of a `uvloop` at concrete loops.
use libuvwrapper.Base.{ℕ, ◌+◌, ◌≡◌, ◌↔◌, ◌⊎◌, refl, true, false, none}
use libuvwrapper.Loop.{Async, loop_stop, uv_stop}
use libuvwrapper.Loop.Shutdown.{Life, no_thread, cleared, ended, Reach, initial}
use libuvwrapper.Loop.Shutdown.Waiting.{CanEnd, Lost, ends_iff_awaited}
use libuvwrapper.Loop.Shutdown.Races.{
  life4, left, wakeup_can_be_lost, life6, quiet_order, destroyed_quiet,
}

abbrev fresh : ℕ → ℕ
fresh i = i + 10

abbrev junk : ℕ → Async ℕ
junk x = record { event = loop_stop; ploop = false; tcb = none }

ends_iff_awaited_example : CanEnd (life4 fresh junk) ↔ ¬ Lost (life4 fresh junk)
unfolding uv_stop
ends_iff_awaited_example = ends_iff_awaited fresh junk (left fresh junk) refl (λ h. cc)

wakeup_can_be_lost_example :
    (s : Life ℕ) × Reach (initial fresh junk) s
    × (s.loop.stopping ≡ true)
    × (s.loop.running ≡ false)
    × (s.thread ≡ ended)
    × ¬ CanEnd s
wakeup_can_be_lost_example = wakeup_can_be_lost fresh junk

destroyed_quiet_example :
    ((life6 fresh junk).loop.running ≡ false)
    × (((life6 fresh junk).thread ≡ no_thread)
        ⊎ ((life6 fresh junk).thread ≡ cleared)
        ⊎ ((life6 fresh junk).thread ≡ ended))
destroyed_quiet_example = destroyed_quiet fresh junk (quiet_order fresh junk) refl
