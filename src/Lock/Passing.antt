-- ===== src/Lock/Passing.antt =====
-- How util/Lock.ts passes a lock on from one caller to the next.
use text.Mathlib.Text.{◌==◌ as str_eq}
use text.Mathlib.TextEquality.{eq_iff}
use openodin.Prelude.{
  sym, ◌++◌, arith, ℕ, zero, suc, ◌≡◌, refl, subst, ◌∙◌, ap, true, false, Bool, String, List, [],
  ◌∷◌, All, All-append, Bool-cases, inl, inr, take, if◌then◌else◌, ◌==◌, get_elem?, ==-refl, some,
}
use openodin.Lock.{
  Mutex, InnerMutex, Lock, new, acquire, release, release_queue, resolve_first, update, granted,
}
use openodin.Lock.Exclusion.{Step, call_acquire, call_release, Reach, here, next, granted_iff_first}
use openodin.Lock.Turns.{Call, acquiring, releasing, run, IsKeeping, Reach-run}

abbrev IsNamed : String → InnerMutex → Type 0
IsNamed name m = m.lock.name ≡ name

abbrev AreNamed : Lock → Type 0
AreNamed s = (name : String) → All (IsNamed name) (s.locks name)

resolved_lock :
    (b : Bool) (m : InnerMutex) → (if b then record m { resolved = true } else m).lock ≡ m.lock
resolved_lock true m = refl
resolved_lock false m = refl

resolve_first-IsNamed :
    (name : String) (rest : List InnerMutex)
    → All (IsNamed name) rest
    → All (IsNamed name) (resolve_first rest)
unfolding resolve_first
resolve_first-IsNamed name [] k = tt
resolve_first-IsNamed name (n ∷ rest) k = (ap (λ l. l.name) (resolved_lock n.waits n) ∙ k.0, k.1)

release_queue-IsNamed :
    (number : ℕ) (name : String) (queue : List InnerMutex)
    → All (IsNamed name) queue
    → All (IsNamed name) (release_queue number queue)
unfolding release_queue
release_queue-IsNamed number name [] h = tt
release_queue-IsNamed number name (m ∷ rest) h = elim (Bool-cases (m.lock.number == number)) [
  | inl gone ↦ rw gone (resolve_first-IsNamed name rest h.1)
  | inr stays ↦ rw stays h
]

update-IsNamed :
    (locks : String → List InnerMutex) (name other : String) (queue : List InnerMutex)
    → All (IsNamed name) queue
    → All (IsNamed other) (locks other)
    → All (IsNamed other) (update locks name queue other)
update-IsNamed locks name other queue h k = elim (Bool-cases (str_eq name other)) [
  | inl same ↦ rw same (subst (λ n. All (IsNamed n) queue) ((eq_iff name other).0 same) h)
  | inr differ ↦ rw differ k
]

Step-AreNamed : {s t : Lock} → Step s t → AreNamed s → AreNamed t
unfolding acquire release
Step-AreNamed (call_acquire s name) h other =
    update-IsNamed s.locks name other _
      (All-append (IsNamed name) (s.locks name) _ (h name) (refl, tt)) (h other)
Step-AreNamed (call_release s lock) h other =
    update-IsNamed s.locks lock.name other _
      (release_queue-IsNamed lock.number lock.name (s.locks lock.name) (h lock.name)) (h other)

Reach-AreNamed : {s : Lock} → Reach new s → AreNamed s
unfolding new
Reach-AreNamed here = λ name. tt
Reach-AreNamed (next r st) = Step-AreNamed st (Reach-AreNamed r)

abbrev pub locks_of : List InnerMutex → List Mutex
locks_of [] = []
locks_of (m ∷ queue) = m.lock ∷ locks_of queue

-- Calls by which the mutexes are released one after the other. Between the releases anything else may
-- be called: others are acquired, or released out of turn.
pub data Passes : List Mutex → List Call → Type 0 where
  done : Passes [] []
  turn :
      {lock : Mutex} {ahead : List Mutex} {calls : List Call}
      → Passes ahead calls
      → Passes (lock ∷ ahead) (releasing lock ∷ calls)
  other :
      {lock : Mutex} {ahead : List Mutex} {call : Call} {calls : List Call}
      → IsKeeping lock.number call
      → Passes (lock ∷ ahead) calls
      → Passes (lock ∷ ahead) (call ∷ calls)

locks_of-resolve_first : (queue : List InnerMutex) → locks_of (resolve_first queue) ≡ locks_of queue
unfolding resolve_first
locks_of-resolve_first [] = refl
locks_of-resolve_first (m ∷ queue) = ap (λ l. l ∷ locks_of queue) (resolved_lock m.waits m)

locks_of-append :
    (queue : List InnerMutex) (m : InnerMutex)
    → locks_of (queue ++ m ∷ []) ≡ locks_of queue ++ m.lock ∷ []
locks_of-append [] m = refl
locks_of-append (x ∷ queue) m = ap (λ t. x.lock ∷ t) (locks_of-append queue m)

-- The release of the first, and one out of turn.
released_first :
    (queue : List InnerMutex) (lock : Mutex) (tail : List Mutex)
    → locks_of queue ≡ lock ∷ tail
    → locks_of (release_queue lock.number queue) ≡ tail
unfolding release_queue
released_first [] lock tail at = cc
released_first (m ∷ rest) lock tail at =
    let first : m.lock ≡ lock = cc in
    let same : (m.lock.number == lock.number) ≡ true = rw first (==-refl lock.number) in
    rw same (locks_of-resolve_first rest ∙ cc)

released_other :
    (queue : List InnerMutex) (number : ℕ) (lock : Mutex) (tail : List Mutex)
    → locks_of queue ≡ lock ∷ tail
    → (number == lock.number) ≡ false
    → release_queue number queue ≡ queue
unfolding release_queue
released_other [] number lock tail at keep = cc
released_other (m ∷ rest) number lock tail at keep =
    let first : m.lock ≡ lock = cc in
    let differs : (m.lock.number == number) ≡ false = rw first (ground arith) in rw differs refl

append_none : (xs : List Mutex) → xs ++ [] ≡ xs
append_none [] = refl
append_none (x ∷ xs) = ap (λ t. x ∷ t) (append_none xs)

-- A call that does not release the first only adds behind.
kept_ahead :
    (s : Lock) (name : String) (call : Call) (lock : Mutex) (tail : List Mutex)
    → IsKeeping lock.number call
    → locks_of (s.locks name) ≡ lock ∷ tail
    → (more : List Mutex) × (locks_of ((run (call ∷ []) s).locks name) ≡ lock ∷ (tail ++ more))
unfolding run acquire release
kept_ahead s name (acquiring called) lock tail keep at = elim (Bool-cases (str_eq called name)) [
  | inl same ↦
      let e : called ≡ name = (eq_iff called name).0 same in
      (
        (acquire called s).1 ∷ [],
        rw same (
            locks_of-append (s.locks called) _
            ∙ ap (λ q. q ++ (acquire called s).1 ∷ []) (ap (λ n. locks_of (s.locks n)) e ∙ at)),
      )
  | inr differs ↦ ([], rw differs (at ∙ ap (λ t. lock ∷ t) (sym (append_none tail))))
]
kept_ahead s name (releasing gone) lock tail keep at = (
  [],
  elim (Bool-cases (str_eq gone.name name)) [
    | inl same ↦
        let e : gone.name ≡ name = (eq_iff gone.name name).0 same in
        let here : locks_of (s.locks gone.name) ≡ lock ∷ tail =
          ap (λ n. locks_of (s.locks n)) e ∙ at in
        rw same (
          ap locks_of (released_other (s.locks gone.name) gone.number lock tail here keep)
          ∙ here
          ∙ ap (λ t. lock ∷ t) (sym (append_none tail)))
    | inr differs ↦ rw differs (at ∙ ap (λ t. lock ∷ t) (sym (append_none tail)))
  ],
)

release_turn :
    (s : Lock) (name : String) (lock : Mutex) (tail : List Mutex)
    → lock.name ≡ name
    → locks_of (s.locks name) ≡ lock ∷ tail
    → locks_of ((release lock s).locks name) ≡ tail
unfolding release
release_turn s name lock tail named at =
    rw (named, (eq_iff name name).1 refl) (released_first (s.locks name) lock tail at)

append_behind :
    (ahead more extra : List Mutex) (lock : Mutex)
    → ((ahead ++ lock ∷ more) ++ extra) ≡ ahead ++ lock ∷ (more ++ extra)
append_behind [] more extra lock = refl
append_behind (x ∷ ahead) more extra lock = ap (λ t. x ∷ t) (append_behind ahead more extra lock)

comes_first :
    (name : String) (lock : Mutex) {ahead : List Mutex} {calls : List Call}
    → Passes ahead calls
    → (s : Lock) (more : List Mutex) → All (λ l. l.name ≡ name) ahead
    → locks_of (s.locks name) ≡ ahead ++ lock ∷ more
    → (behind : List Mutex) × (locks_of ((run calls s).locks name) ≡ lock ∷ behind)
unfolding run
comes_first name lock done s more named at = (more, at)
comes_first name lock (turn {lock = first} {ahead = ahead} passes) s more named at =
    comes_first name lock passes (release first s) more named.1
      (release_turn s name first (ahead ++ lock ∷ more) named.0 at)
comes_first name lock (other {lock = first} {ahead = ahead} {call = acquiring called} keep passes) s
      more named at =
    let (extra, kept) = kept_ahead s name (acquiring called) first (ahead ++ lock ∷ more) keep at in
    comes_first name lock passes (acquire called s).0 (more ++ extra) named
      (kept ∙ ap (λ t. first ∷ t) (append_behind ahead more extra lock))
comes_first name lock (other {lock = first} {ahead = ahead} {call = releasing gone} keep passes) s
      more named at =
    let (extra, kept) = kept_ahead s name (releasing gone) first (ahead ++ lock ∷ more) keep at in
    comes_first name lock passes (release gone s) (more ++ extra) named
      (kept ∙ ap (λ t. first ∷ t) (append_behind ahead more extra lock))

take_named :
    (name : String) (i : ℕ) (queue : List InnerMutex)
    → All (IsNamed name) queue
    → All (λ l. l.name ≡ name) (take i (locks_of queue))
take_named name zero queue h = tt
take_named name (suc i) [] h = tt
take_named name (suc i) (m ∷ queue) h = (h.0, take_named name i queue h.1)

split_at :
    (i : ℕ) (queue : List InnerMutex) (m : InnerMutex)
    → get_elem? queue i ≡ some m
    → (more : List Mutex) × (locks_of queue ≡ take i (locks_of queue) ++ m.lock ∷ more)
split_at i [] m at = cc
split_at zero (x ∷ queue) m at = (locks_of queue, cc)
split_at (suc i) (x ∷ queue) m at =
    let (more, e) = split_at i queue m at in (more, ap (λ t. x.lock ∷ t) e)

first_found :
    (queue : List InnerMutex) (lock : Mutex) (behind : List Mutex)
    → locks_of queue ≡ lock ∷ behind
    → (n : InnerMutex) × (get_elem? queue 0 ≡ some n) × (n.lock ≡ lock)
first_found [] lock behind at = cc
first_found (n ∷ queue) lock behind at = (n, refl, cc)

-- A mutex in the queue of its name, however far back, may go on once those before it are released,
-- one after the other in the order of the queue, whatever else is called in between: acquire, and
-- release by others than the holder.
pub granted-run :
    {s : Lock} (name : String) (i : ℕ) {m : InnerMutex} (calls : List Call)
    → Reach new s
    → get_elem? (s.locks name) i ≡ some m
    → Passes (take i (locks_of (s.locks name))) calls
    → (n : InnerMutex) × (get_elem? ((run calls s).locks name) 0 ≡ some n)
      × (n.lock ≡ m.lock)
      × (granted n ≡ true)
granted-run {s} name i {m} calls r at passes =
    let (more, split) = split_at i (s.locks name) m at in
    let (behind, front) =
      comes_first name m.lock passes s more
        (take_named name i (s.locks name) (Reach-AreNamed r name)) split in
    let (n, found, same) = first_found ((run calls s).locks name) m.lock behind front in
    (n, found, same, (granted_iff_first name 0 (Reach-run calls s r) found).1 refl)
