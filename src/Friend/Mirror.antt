-- ===== src/Friend/Mirror.antt =====
-- The hash of a pair of friend certificates, seen from either side.
use openodin.Prelude.{
  ℕ, ◌≡◌, refl, sym, ◌∙◌, ap, ap₂, Bool, true, false, not, Option, none, some, List, [], ◌∷◌, ◌++◌,
  map, String, Bool-cases, inl, inr, arith, ==→eq, ==-refl,
}
use mathlib.Core.Bool.{false≢true}
use openodin.Prelude.Int.{ℤ, pos, negsuc}
use openodin.Prelude.Buffer.{Buffer, equals, equals→eq, equals_refl}
use openodin.Prelude.Compare.{compare_bytes, is_gt, gt-swap, not_gt_trans, not_gt_antisym}
use openodin.Prelude.Result.{ok, assert, >>=-eq-ok}
use openodin.Model.HashList.{hash_list}
use openodin.Friend.Props.{FriendCertProps, hashes_extender_public_key}
use openodin.Friend.Hash.{
  hash_friend_constraints, same_time, same_number, same_text, insert_bytes, sort_bytes,
  sorted_values, assert_same, times, extender, expect, optional_text,
}

above :
    (a b c : Buffer)
    → is_gt (compare_bytes b c) ≡ true
    → is_gt (compare_bytes a c) ≡ false
    → is_gt (compare_bytes b a) ≡ true
above a b c gt le = elim (Bool-cases (is_gt (compare_bytes b a))) [
  | inl e ↦ e
  | inr e ↦ absurd (false≢true (sym (not_gt_trans b a c e le) ∙ gt))
]

-- The order of insertion does not matter.
insert_comm :
    (a b : Buffer) (values : List Buffer)
    → insert_bytes a (insert_bytes b values) ≡ insert_bytes b (insert_bytes a values)
unfolding insert_bytes
insert_comm a b [] = elim (Bool-cases (is_gt (compare_bytes a b))) [
  | inl gt ↦ rw (gt, gt-swap a b gt) refl
  | inr le ↦ elim (Bool-cases (is_gt (compare_bytes b a))) [
    | inl gt ↦ rw (gt, le) refl
    | inr ge ↦
        rw (le, ge)
          (ap₂ (λ x y. x ∷ y ∷ []) (not_gt_antisym a b le ge) (sym (not_gt_antisym a b le ge)))
  ]
]
insert_comm a b (c ∷ values) = elim (Bool-cases (is_gt (compare_bytes b c))) [
  | inl bc ↦ elim (Bool-cases (is_gt (compare_bytes a c))) [
    | inl ac ↦ simp (bc, ac, insert_comm a b values)
    | inr ac ↦ simp (bc, ac, above a b c bc ac)
  ]
  | inr bc ↦ elim (Bool-cases (is_gt (compare_bytes a c))) [
    | inl ac ↦ simp (bc, ac, above b a c ac bc)
    | inr ac ↦
        rw (bc, ac)
          (elim (Bool-cases (is_gt (compare_bytes a b))) [
            | inl gt ↦ simp (gt, gt-swap a b gt, ac, bc)
            | inr le ↦ elim (Bool-cases (is_gt (compare_bytes b a))) [
              | inl gt ↦ simp (gt, le, bc, ac)
              | inr ge ↦
                  let same = not_gt_antisym a b le ge in
                  rw (le, ge) (ap₂ (λ x y. x ∷ y ∷ c ∷ values) same (sym same))
            ]
          ])
  ]
]

sort_bytes-swap :
    (front : List Buffer) (a b c d : Buffer) (back : List Buffer)
    → sort_bytes (front ++ a ∷ b ∷ c ∷ d ∷ back) ≡ sort_bytes (front ++ b ∷ a ∷ d ∷ c ∷ back)
unfolding sort_bytes
sort_bytes-swap [] a b c d back =
    insert_comm a b (insert_bytes c (insert_bytes d (sort_bytes back)))
    ∙ ap (λ rest. insert_bytes b (insert_bytes a rest)) (insert_comm c d (sort_bytes back))
sort_bytes-swap (x ∷ front) a b c d back = ap (insert_bytes x) (sort_bytes-swap front a b c d back)

sorted_values-mirror :
    (ts : List Buffer) (owner friend_owner salt friend_salt : Buffer)
    (region jurisdiction : Option Buffer)
    → sorted_values ts owner friend_owner salt friend_salt region jurisdiction
      ≡ sorted_values ts friend_owner owner friend_salt salt region jurisdiction
unfolding sorted_values
sorted_values-mirror ts owner friend_owner salt friend_salt region jurisdiction =
    sort_bytes-swap ts owner friend_owner salt friend_salt
      (optional_text region ++ optional_text jurisdiction)

-- Equal by the tests of the assertions.
same_time→eq : (a b : Option ℤ) → same_time a b ≡ true → a ≡ b
same_time→eq none none h = refl
same_time→eq none (some b) h = absurd cc
same_time→eq (some a) none h = absurd cc
same_time→eq (some (pos a)) (some (pos b)) h = ap (λ n. some (pos n)) (ground arith)
same_time→eq (some (pos a)) (some (negsuc b)) h = absurd (ground arith)
same_time→eq (some (negsuc a)) (some (pos b)) h = absurd (ground arith)
same_time→eq (some (negsuc a)) (some (negsuc b)) h = ap (λ n. some (negsuc n)) (ground arith)

same_number→eq : (a b : Option ℕ) → same_number a b ≡ true → a ≡ b
same_number→eq none none h = refl
same_number→eq none (some b) h = absurd cc
same_number→eq (some a) none h = absurd cc
same_number→eq (some a) (some b) h = ap some (==→eq a b h)

same_text→eq : (a b : Option Buffer) → same_text a b ≡ true → a ≡ b
same_text→eq none none h = refl
same_text→eq none (some b) h = absurd cc
same_text→eq (some a) none h = absurd cc
same_text→eq (some a) (some b) h = ap some (equals→eq a b h)

asserted : (t : Bool) (message : String) {u : Unit {0}} → assert t message ≡ ok u → t ≡ true
asserted true message h = refl
asserted false message h = absurd cc

-- What the assertions on two certificates say.
abbrev Agree : FriendCertProps → FriendCertProps → Type 0
Agree p q =
    (p.creation_time ≡ q.creation_time)
    × ((p.expire_time ≡ q.expire_time)
        × ((p.license_max_expire_time ≡ q.license_max_expire_time)
            × ((p.friend_level ≡ q.friend_level)
                × ((p.region ≡ q.region) × (p.jurisdiction ≡ q.jurisdiction)))))

assert_same-Agree : (p q : FriendCertProps) {u : Unit {0}} → assert_same p q ≡ ok u → Agree p q
unfolding assert_same
assert_same-Agree p q h =
    let (_, h5, t6) = >>=-eq-ok _ _ h in
    let (_, h4, t5) = >>=-eq-ok _ _ h5 in
    let (_, h3, t4) = >>=-eq-ok _ _ h4 in
    let (_, h2, t3) = >>=-eq-ok _ _ h3 in
    let (_, t1, t2) = >>=-eq-ok _ _ h2 in
    (
      same_time→eq p.creation_time q.creation_time (asserted _ _ t1),
      (
        same_time→eq p.expire_time q.expire_time (asserted _ _ t2),
        (
          same_time→eq p.license_max_expire_time q.license_max_expire_time (asserted _ _ t3),
          (
            same_number→eq p.friend_level q.friend_level (asserted _ _ t4),
            (
              same_text→eq p.region q.region (asserted _ _ t5),
              same_text→eq p.jurisdiction q.jurisdiction (asserted _ _ t6),
            ),
          ),
        ),
      ),
    )

same_time_refl : (a b : Option ℤ) → a ≡ b → same_time b a ≡ true
same_time_refl none b e = rw (← e) refl
same_time_refl (some (pos a)) b e = rw (← e) (ground arith)
same_time_refl (some (negsuc a)) b e = rw (← e) (ground arith)

same_number_refl : (a b : Option ℕ) → a ≡ b → same_number b a ≡ true
same_number_refl none b e = rw (← e) refl
same_number_refl (some a) b e = rw (← e) (==-refl a)

same_text_refl : (a b : Option Buffer) → a ≡ b → same_text b a ≡ true
same_text_refl none b e = rw (← e) refl
same_text_refl (some a) b e = rw (← e) (equals_refl a)

assert_same-swap : (p q : FriendCertProps) → Agree p q → assert_same q p ≡ ok tt
unfolding assert_same
assert_same-swap p q (t1, (t2, (t3, (t4, (t5, t6))))) = simp (
  same_time_refl p.creation_time q.creation_time t1,
  same_time_refl p.expire_time q.expire_time t2,
  same_time_refl p.license_max_expire_time q.license_max_expire_time t3,
  same_number_refl p.friend_level q.friend_level t4,
  same_text_refl p.region q.region t5,
  same_text_refl p.jurisdiction q.jurisdiction t6,
)

expected :
    {A : Type 0} (o : Option A) (message : String) {a : A} → expect o message ≡ ok a → o ≡ some a
unfolding expect
expected none message h = absurd cc
expected (some b) message h = cc

equals_comm : (a b : Buffer) → equals a b ≡ equals b a
unfolding equals
equals_comm [] [] = refl
equals_comm [] (y ∷ ys) = refl
equals_comm (x ∷ xs) [] = refl
equals_comm (x ∷ xs) (y ∷ ys) = ground (arith, equals_comm xs ys)

mirrored :
    (blake2b : Buffer → Buffer) (p q : FriendCertProps) (key : Option Buffer)
    (salt friend_salt owner friend_owner : Buffer) (ts k : List Buffer) {hash : Buffer}
    → p.salt ≡ some salt
    → q.salt ≡ some friend_salt
    → not (equals salt friend_salt) ≡ true
    → p.owner ≡ some owner
    → q.owner ≡ some friend_owner
    → Agree p q
    → times p.creation_time p.expire_time p.license_max_expire_time p.friend_level ≡ ok ts
    → hashes_extender_public_key p ≡ hashes_extender_public_key q
    → extender (hashes_extender_public_key p) key ≡ ok k
    → ok (
        hash_list blake2b (
          map some
            (sorted_values ts owner friend_owner salt friend_salt p.region p.jurisdiction ++ k)))
      ≡ ok hash
    → hash_friend_constraints blake2b q p key ≡ ok hash
unfolding hash_friend_constraints expect
mirrored blake2b p q key salt friend_salt owner friend_owner ts k e1 e2 e3 e4 e5 agree e7 flags e8
      e9 =
    let (t1, (t2, (t3, (t4, (t5, t6))))) = agree in
    rw
      (
        e2,
        e1,
        equals_comm friend_salt salt,
        e3,
        e5,
        e4,
        assert_same-swap p q agree,
        ← t1,
        ← t2,
        ← t3,
        ← t4,
        ← t5,
        ← t6,
        e7,
        ← flags,
        e8,
        sorted_values-mirror ts friend_owner owner friend_salt salt p.region p.jurisdiction,
      )
      e9

-- When one friend's certificate gives a hash with the other's, the other's gives the same hash with
-- it, with the same key of an extender, when both or none are set to include that key: the two
-- friends can compute the constraints that each other's certificate must have.
pub hash_friend_constraints-mirror :
    (blake2b : Buffer → Buffer) (p q : FriendCertProps) (key : Option Buffer) {hash : Buffer}
    → hashes_extender_public_key p ≡ hashes_extender_public_key q
    → hash_friend_constraints blake2b p q key ≡ ok hash
    → hash_friend_constraints blake2b q p key ≡ ok hash
unfolding hash_friend_constraints
hash_friend_constraints-mirror blake2b p q key flags h =
    let (salt, e1, h1) = >>=-eq-ok _ _ h in
    let (friend_salt, e2, h2) = >>=-eq-ok _ _ h1 in
    let (_, e3, h3) = >>=-eq-ok _ _ h2 in
    let (owner, e4, h4) = >>=-eq-ok _ _ h3 in
    let (friend_owner, e5, h5) = >>=-eq-ok _ _ h4 in
    let (_, e6, h6) = >>=-eq-ok _ _ h5 in
    let (ts, e7, h7) = >>=-eq-ok _ _ h6 in
    let (k, e8, h8) = >>=-eq-ok _ _ h7 in
    mirrored blake2b p q key salt friend_salt owner friend_owner ts k (expected p.salt _ e1)
      (expected q.salt _ e2) (asserted _ _ e3) (expected p.owner _ e4) (expected q.owner _ e5)
      (assert_same-Agree p q e6) e7 flags e8 h8
