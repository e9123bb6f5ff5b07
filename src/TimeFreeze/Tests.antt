-- ===== src/TimeFreeze/Tests.antt =====
-- Runs of storage/TimeFreeze.ts.
use openodin.Prelude.{arith, ◌≡◌, ◌≤◌, refl, [], ◌∷◌, All}
use openodin.TimeFreeze.{read, freeze, new}
use openodin.TimeFreeze.Safety.{
  Storage, start, tick, begin, AreForward, Reach, here, next, read_is_safe, read_idle,
}

abbrev begun : Storage
unfolding freeze new
begun = record (start 10) { times = (freeze 10 (start 10).times).0; held = 10 ∷ [] }

abbrev waited : Storage
waited = record begun { clock = 15 }

at_begun : Reach (start 10) begun
unfolding freeze new
at_begun = next here (begin (start 10))

at_waited : Reach begun waited
unfolding freeze new
at_waited = next here (tick begun 15)

at_begun-AreForward : AreForward at_begun
unfolding at_begun
at_begun-AreForward = (tt, tt)

at_waited-AreForward : AreForward at_waited
unfolding at_waited begun
at_waited-AreForward = (tt, omega arith)

read_is_safe_example : All (λ time. read begun.clock begun.times ≤ time) waited.held
read_is_safe_example = read_is_safe 10 at_begun at_waited at_begun-AreForward at_waited-AreForward

-- When the clock is set back between two calls of `freeze`, the first time is not the oldest one.
set_back : read 95 (freeze 90 (freeze 100 new).0).0 ≡ 100
unfolding read freeze new
set_back = refl

idle : (start 10).held ≡ []
unfolding new
idle = refl

reads_the_clock : read (start 10).clock (start 10).times ≡ (start 10).clock
reads_the_clock = read_idle 10 here tt idle
