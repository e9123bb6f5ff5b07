-- ===== src/Lock/Exclusion.antt =====
-- Any interleaving of `acquire` and `release` calls on util/Lock.ts: who may go on.
use text.Mathlib.Text.{◌==◌ as str_eq}
use openodin.Prelude.{
  ℕ, suc, ◌+◌, ◌≡◌, refl, true, false, String, List, [], ◌∷◌, ◌++◌, arith, All, All-append, ltb,
  Bool-cases, inl, inr, length, ◌==◌, get_elem?, some, ◌↔◌, zero,
}
use openodin.Lock.{
  Mutex, InnerMutex, Lock, new, acquire, release, release_queue, resolve_first, update, granted,
}

pub data Step : Lock → Lock → Type 0 where
  call_acquire : (s : Lock) (name : String) → Step s (acquire name s).0
  call_release : (s : Lock) (lock : Mutex) → Step s (release lock s)

pub data Reach (s : Lock) : Lock → Type 0 where
  here : Reach s s
  next : {t u : Lock} → Reach s t → Step t u → Reach s u

abbrev IsWaiting : InnerMutex → Type 0
IsWaiting m = (m.waits ≡ true) × (m.resolved ≡ false)

-- The first in the queue may go on, all others wait for their promise.
abbrev IsOrdered : List InnerMutex → Type 0
IsOrdered [] = Unit
IsOrdered (m ∷ rest) = (granted m ≡ true) × All IsWaiting rest

abbrev IsFair : Lock → Type 0
IsFair s = (name : String) → IsOrdered (s.locks name)

resolve_first-IsOrdered : (q : List InnerMutex) → All IsWaiting q → IsOrdered (resolve_first q)
unfolding resolve_first
resolve_first-IsOrdered [] h = tt
resolve_first-IsOrdered (m ∷ rest) h = (let w = h.0.0 in ground arith, h.1)

release_queue-IsOrdered :
    (n : ℕ) (q : List InnerMutex) → IsOrdered q → IsOrdered (release_queue n q)
unfolding release_queue
release_queue-IsOrdered n [] h = tt
release_queue-IsOrdered n (m ∷ rest) h = elim (Bool-cases (m.lock.number == n)) [
  | inl same ↦ rw same (resolve_first-IsOrdered rest h.1)
  | inr other ↦ rw other h
]

concat-IsOrdered :
    (q : List InnerMutex) (m : InnerMutex)
    → IsOrdered q
    → m.resolved ≡ false
    → m.waits ≡ (ltb 1 (length q + 1))
    → IsOrdered (q ++ m ∷ [])
concat-IsOrdered [] m h r w = (rw w, tt)
concat-IsOrdered (x ∷ q) m h r w =
    (h.0, All-append IsWaiting q (m ∷ []) h.1 ((rw w (ground arith), r), tt))

update-IsFair :
    (locks : String → List InnerMutex) (name other : String) (q : List InnerMutex)
    → IsOrdered q
    → IsOrdered (locks other)
    → IsOrdered (update locks name q other)
update-IsFair locks name other q h k = elim (Bool-cases (str_eq name other)) [
  | inl same ↦ rw same h
  | inr differ ↦ rw differ k
]

Step-IsFair : {s t : Lock} → Step s t → IsFair s → IsFair t
unfolding acquire release
Step-IsFair (call_acquire s name) h other =
    update-IsFair s.locks name other _ (concat-IsOrdered (s.locks name) _ (h name) refl refl)
      (h other)
Step-IsFair (call_release s lock) h other =
    update-IsFair s.locks lock.name other _
      (release_queue-IsOrdered lock.number (s.locks lock.name) (h lock.name)) (h other)

Reach-IsFair : {s : Lock} → Reach new s → IsFair s
unfolding new
Reach-IsFair here = λ name. tt
Reach-IsFair (next r st) = Step-IsFair st (Reach-IsFair r)

waiting_at :
    (q : List InnerMutex) (i : ℕ) {m : InnerMutex}
    → All IsWaiting q
    → get_elem? q i ≡ some m
    → granted m ≡ false
waiting_at [] i h e = cc
waiting_at (x ∷ q) zero h e = let (w, r) = h.0 in ground arith
waiting_at (x ∷ q) (suc i) h e = waiting_at q i h.1 e

first_iff_granted :
    (q : List InnerMutex) (i : ℕ) {m : InnerMutex}
    → IsOrdered q
    → get_elem? q i ≡ some m
    → (granted m ≡ true) ↔ (i ≡ 0)
first_iff_granted [] i h e = cc
first_iff_granted (x ∷ q) zero {m} h e = (λ g. refl, λ z. let g = h.0 in ground arith)
first_iff_granted (x ∷ q) (suc i) {m} h e =
    (λ g. cc (waiting_at q i h.1 e), λ z. absurd (omega arith))

-- Whatever calls were made, in whatever order: the first mutex in the queue of a name may go on, and
-- no other one may.
pub granted_iff_first :
    {s : Lock} (name : String) (i : ℕ) {m : InnerMutex}
    → Reach new s
    → get_elem? (s.locks name) i ≡ some m
    → (granted m ≡ true) ↔ (i ≡ 0)
granted_iff_first {s} name i r e = first_iff_granted (s.locks name) i (Reach-IsFair r name) e
