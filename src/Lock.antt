-- ===== src/Lock.antt =====
-- util/Lock.ts. A `Mutex` object is known by the number of its creation (its identity under `===`).
-- The dictionary of queues is a function; a name without a queue has the empty queue (`?? []`).
pub mod Exclusion
pub mod Turns
pub mod Passing
mod Tests
use text.Mathlib.Text.{◌==◌ as str_eq}
use openodin.Prelude.{
  ℕ, suc, String, Bool, true, false, List, [], ◌∷◌, ◌++◌, ◌+◌, ltb, ◌==◌, length, if◌then◌else◌,
}

pub record Mutex : Type 0 where
  pub number : ℕ
  pub name : String

-- `waits` tells that `lock.p` is a promise, so that `resolve` is set; `resolved` that it was called.
pub record InnerMutex : Type 0 where
  pub lock : Mutex
  pub waits : Bool
  pub resolved : Bool

pub record Lock : Type 0 where
  pub created : ℕ
  pub locks : String → List InnerMutex

unfoldable pub new : Lock
new = record { created = 0; locks = λ name. [] }

abbrev pub update : (String → List InnerMutex) → String → List InnerMutex → String → List InnerMutex
update locks name queue other = if str_eq name other then queue else locks other

unfoldable pub acquire : String → Lock → Lock × Mutex
acquire name s =
    let lock : Mutex = record { number = s.created; name = name } in
    let inner : InnerMutex = record {
      lock = lock;
      waits = ltb 1 (length (s.locks name) + 1);
      resolved = false;
    } in
    (
      record { created = suc s.created; locks = update s.locks name (s.locks name ++ inner ∷ []) },
      lock,
    )

-- `if (locks[0].resolve) locks[0].resolve()`
resolve_first : List InnerMutex → List InnerMutex
resolve_first [] = []
resolve_first (m ∷ rest) = (if m.waits then record m { resolved = true } else m) ∷ rest

release_queue : ℕ → List InnerMutex → List InnerMutex
release_queue number [] = []
release_queue number (m ∷ rest) = if m.lock.number == number then resolve_first rest else m ∷ rest

unfoldable pub release : Mutex → Lock → Lock
unfolding release_queue resolve_first
release lock s = record s {
  locks = update s.locks lock.name (release_queue lock.number (s.locks lock.name));
}

-- The caller of `acquire` may go on: it got no promise, or its promise is resolved.
abbrev pub granted : InnerMutex → Bool
granted m = if m.waits then m.resolved else true
