-- ===== src/Lock/Turns.antt =====
-- What a caller of util/Lock.ts may rely on from `acquire` to `release`.
use text.Mathlib.Text.{◌==◌ as str_eq}
use text.Mathlib.TextEquality.{eq_iff}
use openodin.Prelude.{
  ℕ, zero, suc, ◌≤◌, ◌≡◌, refl, sym, subst, ◌∙◌, ap, true, false, Bool, String, List, [], ◌∷◌, ◌++◌,
  arith, All, Bool-cases, inl, inr, length, if◌then◌else◌, ◌==◌, get_elem?, some, ◌↔◌,
}
use openodin.Lock.{
  Mutex, InnerMutex, Lock, new, acquire, release, release_queue, resolve_first, update, granted,
}
use openodin.Lock.Exclusion.{call_acquire, call_release, Reach, next, granted_iff_first}

pub data Call : Type 0 where
  acquiring : String → Call
  releasing : Mutex → Call

unfoldable pub run : List Call → Lock → Lock
run [] s = s
run (acquiring name ∷ calls) s = run calls (acquire name s).0
run (releasing lock ∷ calls) s = run calls (release lock s)

-- The call does not release the mutex of the number.
abbrev pub IsKeeping : ℕ → Call → Type 0
IsKeeping number (acquiring name) = Unit
IsKeeping number (releasing lock) = (lock.number == number) ≡ false

pub Reach-run : {s : Lock} (calls : List Call) (t : Lock) → Reach s t → Reach s (run calls t)
unfolding run
Reach-run [] t r = r
Reach-run (acquiring name ∷ calls) t r =
    Reach-run calls (acquire name t).0 (next r (call_acquire t name))
Reach-run (releasing lock ∷ calls) t r =
    Reach-run calls (release lock t) (next r (call_release t lock))

-- The mutex stands in the queue, at the index or before it.
abbrev pub StandsBy : Mutex → ℕ → List InnerMutex → Type 0
StandsBy lock i queue =
    (j : ℕ) × (n : InnerMutex) × (get_elem? queue j ≡ some n) × (n.lock ≡ lock) × (j ≤ i)

append-StandsBy :
    (lock : Mutex) (i : ℕ) (queue : List InnerMutex) (last : InnerMutex)
    → StandsBy lock i queue
    → StandsBy lock i (queue ++ last ∷ [])
append-StandsBy lock i queue last (j, n, at, same, le) = (j, n, still queue j at, same, le)
  where
    still :
        (queue : List InnerMutex) (j : ℕ)
        → get_elem? queue j ≡ some n
        → get_elem? (queue ++ last ∷ []) j ≡ some n
    still [] j at = cc
    still (x ∷ queue) zero at = at
    still (x ∷ queue) (suc j) at = still queue j at

resolve_first-StandsBy :
    (lock : Mutex) (j : ℕ) (n : InnerMutex) (queue : List InnerMutex)
    → get_elem? queue j ≡ some n
    → n.lock ≡ lock
    → StandsBy lock j (resolve_first queue)
unfolding resolve_first
resolve_first-StandsBy lock j n [] at same = cc
resolve_first-StandsBy lock zero n (m ∷ rest) at same =
    let e : m ≡ n = cc in (zero, _, refl, by_test m.waits ∙ ap (λ x. x.lock) e ∙ same, omega arith)
  where
    by_test : (b : Bool) → (if b then record m { resolved = true } else m).lock ≡ m.lock
    by_test true = refl
    by_test false = refl
resolve_first-StandsBy lock (suc j) n (m ∷ rest) at same = (suc j, n, at, same, omega arith)

release_queue-StandsBy :
    (number : ℕ) (lock : Mutex) (i : ℕ) (queue : List InnerMutex)
    → (number == lock.number) ≡ false
    → StandsBy lock i queue
    → StandsBy lock i (release_queue number queue)
unfolding release_queue
release_queue-StandsBy number lock i [] other (j, n, at, same, le) = cc
release_queue-StandsBy number lock i (m ∷ rest) other (zero, n, at, same, le) =
    let e : m.lock ≡ lock = cc in
    let stays : (m.lock.number == number) ≡ false = rw e (ground arith) in
    rw stays (zero, n, at, same, le)
release_queue-StandsBy number lock i (m ∷ rest) other (suc j, n, at, same, le) =
    elim (Bool-cases (m.lock.number == number)) [
      | inl gone ↦
          let (k, o, found, is, near) = resolve_first-StandsBy lock j n rest at same in
          rw gone (k, o, found, is, omega arith)
      | inr stays ↦ rw stays (suc j, n, at, same, le)
    ]

update-StandsBy :
    (locks : String → List InnerMutex) (name other : String) (queue : List InnerMutex)
    (lock : Mutex) (i : ℕ)
    → (name ≡ other → StandsBy lock i queue)
    → StandsBy lock i (locks other)
    → StandsBy lock i (update locks name queue other)
update-StandsBy locks name other queue lock i new_queue old =
    elim (Bool-cases (str_eq name other)) [
      | inl same ↦ rw same (new_queue ((eq_iff name other).0 same))
      | inr differ ↦ rw differ old
    ]

run-StandsBy :
    (calls : List Call) (s : Lock) (name : String) (lock : Mutex) (i : ℕ)
    → All (IsKeeping lock.number) calls
    → StandsBy lock i (s.locks name)
    → StandsBy lock i ((run calls s).locks name)
unfolding run acquire release
run-StandsBy [] s name lock i keep h = h
run-StandsBy (acquiring called ∷ calls) s name lock i keep h =
    run-StandsBy calls (acquire called s).0 name lock i keep.1 (
      update-StandsBy s.locks called name _ lock i
        (λ e.
          append-StandsBy lock i (s.locks called) _
            (subst (λ other. StandsBy lock i (s.locks other)) (sym e) h))
        h)
run-StandsBy (releasing gone ∷ calls) s name lock i keep h =
    run-StandsBy calls (release gone s) name lock i keep.1 (
      update-StandsBy s.locks gone.name name _ lock i
        (λ e.
          release_queue-StandsBy gone.number lock i (s.locks gone.name) keep.0
            (subst (λ other. StandsBy lock i (s.locks other)) (sym e) h))
        h)

last_stands :
    (queue : List InnerMutex) (m : InnerMutex) → get_elem? (queue ++ m ∷ []) (length queue) ≡ some m
last_stands [] m = refl
last_stands (x ∷ queue) m = last_stands queue m

acquire-StandsBy :
    (s : Lock) (name : String)
    → StandsBy (acquire name s).1 (length (s.locks name)) ((acquire name s).0.locks name)
unfolding acquire
acquire-StandsBy s name =
    rw ((eq_iff name name).1 refl)
      (length (s.locks name), _, last_stands (s.locks name) _, refl, omega arith)

-- The mutex stands in the queue, no further back than the index, and may go on exactly when it is the
-- first; and its place is as is said.
abbrev pub HasPlace : Mutex → ℕ → (ℕ → Type 0) → List InnerMutex → Type 0
HasPlace lock i IsSo queue =
    (j : ℕ) × (n : InnerMutex) × (get_elem? queue j ≡ some n)
    × (n.lock ≡ lock)
    × (j ≤ i)
    × ((granted n ≡ true) ↔ (j ≡ 0))
    × IsSo j

-- From any reachable state, `acquire` puts its mutex behind those of the name that are in the queue.
-- Whatever calls follow that do not release it, it stays in the queue at that place or nearer to the
-- front, and after further such calls nearer still or at the same place; it may go on exactly when it
-- is the first, and no mutex but the first may go on. So a mutex that may go on still may, alone
-- among those of its name, until it is released itself.
pub held_until_released :
    {s : Lock} (name : String) (calls later : List Call)
    → Reach new s
    → All (IsKeeping (acquire name s).1.number) calls
    → All (IsKeeping (acquire name s).1.number) later
    → let lock = (acquire name s).1 in
      let t = run calls (acquire name s).0 in
      let u = run later t in
      HasPlace lock
        (length (s.locks name))
        (λ j. HasPlace lock j (λ k. Unit) (u.locks name))
        (t.locks name)
      × ((k : ℕ) (o : InnerMutex) → get_elem? (u.locks name) k ≡ some o → granted o ≡ true → k ≡ 0)
held_until_released {s} name calls later r keep still =
    let lock = (acquire name s).1 in
    let t = run calls (acquire name s).0 in
    let reached = Reach-run calls (acquire name s).0 (next r (call_acquire s name)) in
    let last = Reach-run later t reached in
    let (j, n, at, same, le) =
      run-StandsBy calls (acquire name s).0 name lock (length (s.locks name)) keep
        (acquire-StandsBy s name) in
    let (k, o, found, is, near) =
      run-StandsBy later t name lock j still (j, n, at, same, omega arith) in
    (
      (
        j,
        n,
        at,
        same,
        le,
        granted_iff_first name j reached at,
        (k, o, found, is, near, granted_iff_first name k last found, tt),
      ),
      λ i p there. (granted_iff_first name i last there).0,
    )
