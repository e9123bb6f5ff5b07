-- ===== src/Friend/Hash.antt =====
-- `FriendCert.hashFriendConstraints` of datamodel/level3/friendcert/FriendCert.ts.
use openodin.Prelude.{
  ℕ, ◌^◌, Bool, true, false, not, Option, none, some, List, [], ◌∷◌, ◌++◌, map, String, ltb, leb,
  ◌==◌, ◌&&◌, if◌then◌else◌, length,
}
use openodin.Prelude.Int.{ℤ, pos, pos_part, neg_part, leb_ℤ}
use openodin.Prelude.Buffer.{Buffer, equals}
use openodin.Prelude.Result.{Result, ok, error, assert, ◌>>=◌, ◌>>◌}
use openodin.Model.HashList.{hash_list}
use openodin.Schema.Bytes.{write_be, to_word}
use openodin.Prelude.Compare.{compare_bytes, is_gt}
use openodin.Friend.Props.{FriendCertProps, hashes_extender_public_key}

-- `===` on values that may be undefined.
abbrev pub same_time : Option ℤ → Option ℤ → Bool
same_time none none = true
same_time (some a) (some b) = leb_ℤ a b && leb_ℤ b a
same_time _ _ = false

abbrev pub same_number : Option ℕ → Option ℕ → Bool
same_number none none = true
same_number (some a) (some b) = a == b
same_number _ _ = false

abbrev pub same_text : Option Buffer → Option Buffer → Bool
same_text none none = true
same_text (some a) (some b) = equals a b
same_text _ _ = false

-- `assert(value, message)`, and the value.
unfoldable pub expect : {A : Type 0} → Option A → String → Result A
expect none message = error message
expect (some a) message = ok a

-- `Buffer.alloc(8)` with `writeBigInt64BE`, which throws on what 64 bits do not hold.
unfoldable pub write_int64 : ℤ → Result Buffer
write_int64 n =
    if ltb (pos_part n) (2 ^ 63) && leb (neg_part n) (2 ^ 63)
    then ok (write_be 8 (to_word 8 n))
    else error "The value of \"value\" is out of range."

-- `if (text) { values.push(Buffer.from(text)); }`
unfoldable pub optional_text : Option Buffer → List Buffer
optional_text none = []
optional_text (some text) = if length text == 0 then [] else text ∷ []

-- `values.sort( (a, b) => a.compare(b) )`
unfoldable pub insert_bytes : Buffer → List Buffer → List Buffer
insert_bytes a [] = a ∷ []
insert_bytes a (b ∷ values) =
    let rest = insert_bytes a values in
    if is_gt (compare_bytes a b) then b ∷ rest else a ∷ b ∷ values

unfoldable pub sort_bytes : List Buffer → List Buffer
unfolding insert_bytes
sort_bytes [] = []
sort_bytes (a ∷ values) = insert_bytes a (sort_bytes values)

-- The values that are hashed before the key of the extender.
unfoldable pub sorted_values :
    List Buffer → Buffer → Buffer → Buffer → Buffer → Option Buffer → Option Buffer → List Buffer
unfolding sort_bytes optional_text
sorted_values ts owner friend_owner salt friend_salt region jurisdiction = sort_bytes (
    ts
    ++ owner
      ∷ friend_owner
      ∷ salt
      ∷ friend_salt
      ∷ (optional_text region ++ optional_text jurisdiction))

unfoldable pub extender : Bool → Option Buffer → Result (List Buffer)
unfolding expect
extender false key = ok []
extender true none =
    error "extenderPublicKey must be passed as argument when hashing friend constraints"
extender true (some key) = ok (key ∷ [])

-- The assertions that the two certificates agree.
unfoldable pub assert_same : FriendCertProps → FriendCertProps → Result (Unit {0})
assert_same p q =
    assert (same_time p.creation_time q.creation_time)
      "Expected creationTime to be equal in friend certs"
    >> assert (same_time p.expire_time q.expire_time)
        "Expected expireTime to be equal in friend certs"
    >> assert (same_time p.license_max_expire_time q.license_max_expire_time)
        "Expected licenseMaxExpireTime to be equal in friend certs"
    >> assert (same_number p.friend_level q.friend_level)
        "Expected friendLevel to be equal in friend certs"
    >> assert (same_text p.region q.region) "Expected region to be equal in friend certs"
    >> assert (same_text p.jurisdiction q.jurisdiction)
        "Expected jurisdiction to be equal in friend certs"

-- The bytes of the three times and the level.
unfoldable pub times : Option ℤ → Option ℤ → Option ℤ → Option ℕ → Result (List Buffer)
unfolding expect write_int64
times created expires license_max level =
    expect created "Expected creationTime be set in friend cert" >>= λ creation_time.
    expect expires "Expected expireTime be set in friend cert" >>= λ expire_time.
    expect license_max "Expected licenseMaxExpireTime be set in friend cert"
    >>= λ license_max_expire_time.
        expect level "Expected friendLevel be set in friend cert" >>= λ friend_level.
        write_int64 creation_time >>= λ a. write_int64 expire_time >>= λ b.
        write_int64 license_max_expire_time >>= λ c.
        write_int64 (pos friend_level) >>= λ d. ok (a ∷ b ∷ c ∷ d ∷ [])

unfoldable pub hash_friend_constraints :
    (Buffer → Buffer) → FriendCertProps → FriendCertProps → Option Buffer → Result Buffer
unfolding expect assert_same times sorted_values extender
hash_friend_constraints blake2b p q extender_public_key =
    expect p.salt "Expected salt to be set" >>= λ salt.
    expect q.salt "Expected friend cert salt to be set" >>= λ friend_salt.
    assert (not (equals salt friend_salt))
      "salt in both friend cert's are not allowed to be the same"
    >>= λ _. expect p.owner "Expected owner to be set" >>= λ owner.
        expect q.owner "Expected friend cert owner to be set" >>= λ friend_owner.
        assert_same p q >>= λ _.
        times p.creation_time p.expire_time p.license_max_expire_time p.friend_level >>= λ ts.
        extender (hashes_extender_public_key p) extender_public_key >>= λ key. ok (
          hash_list blake2b (
            map some (
              sorted_values ts owner friend_owner salt friend_salt p.region p.jurisdiction ++ key)))
