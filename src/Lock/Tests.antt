-- ===== src/Lock/Tests.antt =====
-- Runs of util/Lock.ts.
use openodin.Prelude.{ℕ, List, length, take, All, some, get_elem?, ◌≡◌, refl, true, false, [], ◌∷◌}
use openodin.Lock.{Mutex, InnerMutex, Lock, new, acquire, granted}
use openodin.Lock.Turns.{Call, acquiring, releasing, run, IsKeeping, HasPlace, held_until_released}
use openodin.Lock.Passing.{locks_of, Passes, done, turn, other, granted-run}
use openodin.Lock.Exclusion.{call_acquire, Reach, here, next}

abbrev lock_a : Mutex
lock_a = record { number = 0; name = "a" }

abbrev lock_b : Mutex
lock_b = record { number = 1; name = "a" }

abbrev holder : InnerMutex
holder = record { lock = lock_a; waits = false; resolved = false }

abbrev waiter : InnerMutex
waiter = record { lock = lock_b; waits = true; resolved = false }

abbrev once : Lock
unfolding acquire new
once = (acquire "a" new).0

abbrev twice : Lock
unfolding acquire new
twice = (acquire "a" once).0

two_acquired : Reach new twice
unfolding once acquire
two_acquired = next (next here (call_acquire new "a")) (call_acquire once "a")

abbrev second : ℕ
second = 1

found : get_elem? (twice.locks "a") second ≡ some waiter
unfolding twice
found = refl

-- A waiter that releases its own mutex has no effect on the holder; then others come.
abbrev busy : List Call
busy = releasing lock_b ∷ acquiring "a" ∷ acquiring "b" ∷ []

none_releases : All (IsKeeping (acquire "a" new).1.number) busy
unfolding acquire new
none_releases = (refl, (tt, (tt, tt)))

held_until_released_example :
    let u = run busy (run busy (acquire "a" new).0) in
    HasPlace
      (acquire "a" new).1
      (length (new.locks "a"))
      (λ j. HasPlace (acquire "a" new).1 j (λ k. Unit) (u.locks "a"))
      ((run busy (acquire "a" new).0).locks "a")
    × ((k : ℕ) (o : InnerMutex) → get_elem? (u.locks "a") k ≡ some o → granted o ≡ true → k ≡ 0)
held_until_released_example = held_until_released "a" busy busy here none_releases none_releases

-- The waiter releases out of turn and another comes, before the holder releases.
abbrev passing : List Call
passing = releasing lock_b ∷ acquiring "a" ∷ releasing lock_a ∷ []

passed_on : Passes (take second (locks_of (twice.locks "a"))) passing
unfolding twice once acquire
passed_on = other refl (other tt (turn done))

granted-run_example :
    (n : InnerMutex) × (get_elem? ((run passing twice).locks "a") 0 ≡ some n)
    × (n.lock ≡ waiter.lock)
    × (granted n ≡ true)
granted-run_example = granted-run "a" second passing two_acquired found passed_on
