-- ===== src/TimeFreeze/Safety.antt =====
-- The writers and readers of storage/TimeFreeze.ts as an interleaving of steps, and what a reader
-- may rely on.
use openodin.Prelude.{
  ℕ, ◌≤◌, ◌<◌, ◌≡◌, refl, List, [], ◌∷◌, ◌++◌, arith, All, All-append, All-map, ap,
}
use openodin.TimeFreeze.{TimeFreeze, new, freeze, index_of, unfreeze, first_or, read}
use openodin.TimeFreeze.Times.{
  count, IsSorted, SameTimes, count-append, index_of-found, count-splice_one, All-splice_one,
  IsSorted-concat, count_zero, All-of_counts, splice_one-IsSorted, splice_one-All_le,
  first_or_bounds, first_or_unheld,
}

-- The storage with its clock, and the timestamps that its ongoing writers hold.
pub record Storage : Type 0 where
  pub clock : ℕ
  pub times : TimeFreeze
  pub held : List ℕ

abbrev pub start : ℕ → Storage
start now = record { clock = now; times = new; held = [] }

-- The clock may be set to any time, also back.
pub data Step : Storage → Storage → Type 0 where
  tick : (s : Storage) (now : ℕ) → Step s (record s { clock = now })
  begin :
      (s : Storage)
      → Step s (record s {
        times = (freeze s.clock s.times).0;
        held = (freeze s.clock s.times).1 ∷ s.held;
      })
  finish :
      (s : Storage) (before after : List ℕ) (timestamp : ℕ)
      → s.held ≡ before ++ timestamp ∷ after
      → Step s (record s { times = unfreeze timestamp s.times; held = before ++ after })

pub data Reach (s : Storage) : Storage → Type 0 where
  here : Reach s s
  next : {t u : Storage} → Reach s t → Step t u → Reach s u

-- The clock is not set back.
abbrev pub IsForward : {s t : Storage} → Step s t → Type 0
IsForward (tick s now) = s.clock ≤ now
IsForward _ = Unit

abbrev pub AreForward : {s t : Storage} → Reach s t → Type 0
AreForward here = Unit
AreForward (next r st) = AreForward r × IsForward st

Reach-trans : {s t u : Storage} → Reach s t → Reach t u → Reach s u
Reach-trans r here = r
Reach-trans r (next q st) = next (Reach-trans r q) st

AreForward-trans :
    {s t u : Storage} (r : Reach s t) (q : Reach t u)
    → AreForward r
    → AreForward q
    → AreForward (Reach-trans r q)
unfolding Reach-trans
AreForward-trans r here f g = f
AreForward-trans r (next q st) f g = (AreForward-trans r q f g.0, g.1)

-- What every step keeps: the frozen times are those held, in order, none later than the clock.
pub record IsConsistent (s : Storage) : Type 0 where
  pub sorted : IsSorted s.times.frozen_time
  pub past : All (λ t. t ≤ s.clock) s.times.frozen_time
  pub same : SameTimes s.held s.times.frozen_time

held_is_frozen :
    (s : Storage) (before after : List ℕ) (t : ℕ)
    → IsConsistent s
    → s.held ≡ before ++ t ∷ after
    → 0 < count t s.times.frozen_time
held_is_frozen s before after t c e =
    let k : count t s.held ≡ count t (before ++ t ∷ after) = ap (count t) e in
    ground (arith, k, c.same t, count-append t before (t ∷ after))

Step-IsConsistent : {s t : Storage} (st : Step s t) → IsForward st → IsConsistent s → IsConsistent t
unfolding freeze unfreeze
Step-IsConsistent (tick s now) f c = record {
  sorted = c.sorted;
  past = All-map _ (λ t. t ≤ now) s.times.frozen_time (λ x h. omega arith) c.past;
  same = c.same;
}
Step-IsConsistent (begin s) f c = record {
  sorted = IsSorted-concat s.times.frozen_time s.clock c.sorted c.past;
  past = All-append _ s.times.frozen_time (s.clock ∷ []) c.past (omega arith);
  same = λ a. omega (arith, c.same a, count-append a s.times.frozen_time (s.clock ∷ []));
}
Step-IsConsistent (finish s before after t e) f c =
    let pos = held_is_frozen s before after t c e in
    let (i, found, _) = index_of-found t s.times.frozen_time pos in
    record {
      sorted =
          splice_one-IsSorted (index_of t s.times.frozen_time) s.times.frozen_time i found c.sorted;
      past =
          splice_one-All_le (index_of t s.times.frozen_time) s.clock s.times.frozen_time i found
            c.past;
      same = λ a. omega (
        arith,
        c.same a,
        ap (count a) e,
        count-append a before (t ∷ after),
        count-append a before after,
        count-splice_one t s.times.frozen_time pos a,
      );
    }

-- In every storage that is reached without setting the clock back, the frozen times are, in order and as often, the times that ongoing
-- writers hold, and none is later than the clock.
pub Reach-IsConsistent :
    (now : ℕ) {s : Storage} (r : Reach (start now) s) → AreForward r → IsConsistent s
unfolding new
Reach-IsConsistent now here f = record { sorted = tt; past = tt; same = λ a. refl }
Reach-IsConsistent now (next r st) f = Step-IsConsistent st f.1 (Reach-IsConsistent now r f.0)

-- Nothing earlier than `b` is frozen now or can be frozen later.
record IsAfter (b : ℕ) (s : Storage) : Type 0 where
  now_after : b ≤ s.clock
  frozen_after : All (λ t. b ≤ t) s.times.frozen_time

Step-IsAfter : {s t : Storage} (b : ℕ) (st : Step s t) → IsForward st → IsAfter b s → IsAfter b t
unfolding freeze unfreeze
Step-IsAfter b (tick s now) f h = record { now_after = omega arith; frozen_after = h.frozen_after }
Step-IsAfter b (begin s) f h = record {
  now_after = h.now_after;
  frozen_after = All-append _ s.times.frozen_time (s.clock ∷ []) h.frozen_after (h.now_after, tt);
}
Step-IsAfter b (finish s before after t e) f h = record {
  now_after = h.now_after;
  frozen_after =
      All-splice_one b (index_of t s.times.frozen_time) s.times.frozen_time h.frozen_after;
}

Reach-IsAfter : {s t : Storage} (b : ℕ) (r : Reach s t) → AreForward r → IsAfter b s → IsAfter b t
Reach-IsAfter b here f h = h
Reach-IsAfter b (next r st) f h = Step-IsAfter b st f.1 (Reach-IsAfter b r f.0 h)

read-IsAfter : (s : Storage) → IsConsistent s → IsAfter (read s.clock s.times) s
unfolding read
read-IsAfter s c =
    let (low, all) = first_or_bounds s.clock s.times.frozen_time c.sorted c.past in
    record { now_after = low; frozen_after = all }

-- As long as the clock is not set back, before and after, what a reader gets from `read` is a safe
-- cutoff: whatever writers begin and finish afterwards, every time under which data is then being
-- written is no earlier.
pub read_is_safe :
    (now : ℕ) {s t : Storage} (r : Reach (start now) s) (later : Reach s t)
    → AreForward r
    → AreForward later
    → All (λ time. read s.clock s.times ≤ time) t.held
read_is_safe now {s} {t} r later f g =
    let h =
      Reach-IsAfter (read s.clock s.times) later g (read-IsAfter s (Reach-IsConsistent now r f)) in
    let c = Reach-IsConsistent now (Reach-trans r later) (AreForward-trans r later f g) in
    All-of_counts (read s.clock s.times) t.held
      λ a lt. omega (arith, c.same a, count_zero _ a t.times.frozen_time h.frozen_after lt)

-- Without ongoing writers the cutoff is the present time.
pub read_idle :
    (now : ℕ) {s : Storage} (r : Reach (start now) s)
    → AreForward r
    → s.held ≡ []
    → read s.clock s.times ≡ s.clock
unfolding read first_or
read_idle now {s} r f e =
    first_or_unheld s.clock s.times.frozen_time
      λ a. let c = Reach-IsConsistent now r f in omega (arith, c.same a, ap (count a) e)
