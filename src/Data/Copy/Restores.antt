-- ===== src/Data/Copy/Restores.antt =====
-- A copy of a data node holds what gives its original back.
use openodin.Prelude.{
  ◌≡◌, refl, sym, Bool, true, false, not, ◌&&◌, ◌||◌, Option, none, some, List, [], ◌∷◌, is_set,
  if◌then◌else◌, ap,
}
use openodin.Prelude.Int.{ℤ, negsuc, leb_ℤ}
use openodin.Prelude.Buffer.{equals_swap, Buffer, equals}
use openodin.Prelude.Result.{Result, ok}
use openodin.Data.Props.{SignatureObject, BufferOr, loaded, BaseDataNodeProps, DataNodeProps}
use openodin.Data.Copy.{
  time_or, has_copied, same_id, signature_at, load, is_older, get_copied_node, push_signature,
  copied, copy,
}

abbrev pub Signature : Type 0
Signature = Option (BufferOr SignatureObject)

-- The second is the first, decoded.
unfoldable pub IsDecoded : (Buffer → Result SignatureObject) → Signature → Signature → Type 0
IsDecoded unpack none s = s ≡ none
IsDecoded unpack (some x) s =
    (value : SignatureObject) × (load unpack x ≡ ok value) × (s ≡ some (loaded value))

-- The signatures fill their places from the first on, and there is one.
unfoldable pub is_signed : DataNodeProps → Bool
is_signed p = is_set p.signature1 && (is_set p.signature2 || not (is_set p.signature3))

collected :
    (unpack : Buffer → Result SignatureObject) (x y z s t u : Signature)
    → IsDecoded unpack x s
    → IsDecoded unpack y t
    → IsDecoded unpack z u
    → (is_set x && (is_set y || not (is_set z))) ≡ true
    → (signatures : List SignatureObject) × (push_signature unpack x
          (push_signature unpack y (push_signature unpack z (ok [])))
        ≡ ok signatures)
      × (has_copied (some (loaded signatures)) ≡ true)
      × (signature_at signatures 0 ≡ s)
      × (signature_at signatures 1 ≡ t)
      × (signature_at signatures 2 ≡ u)
unfolding IsDecoded push_signature signature_at has_copied
collected unpack (some x) none none s t u (a, e, k) k1 k2 h =
    (a ∷ [], simp (e) refl, refl, sym k, sym k1, sym k2)
collected unpack (some x) (some y) none s t u (a, e, k) (b, e1, k1) k2 h =
    (a ∷ b ∷ [], simp (e, e1) refl, refl, sym k, sym k1, sym k2)
collected unpack (some x) (some y) (some z) s t u (a, e, k) (b, e1, k1) (c, e2, k2) h =
    (a ∷ b ∷ c ∷ [], simp (e, e1, e2) refl, refl, sym k, sym k1, sym k2)
collected unpack (some x) none (some z) s t u d d1 d2 h = absurd cc
collected unpack none y z s t u d d1 d2 h = absurd cc

-- The creation time that the original gets back.
original_time : Option ℤ → Option ℤ → Option ℤ → Option ℤ
original_time given kept now =
    let held = if is_set given then now else kept in
    if is_set held then held else if is_set given then given else now

original_time_lem : (given : Option ℤ) (time : ℤ) → original_time given none (some time) ≡ some time
unfolding original_time
original_time_lem none time = refl
original_time_lem (some given) time = refl

not_before :
    (time : ℤ) (given : Option ℤ)
    → leb_ℤ time (time_or time given) ≡ true
    → leb_ℤ time (time_or (negsuc 0) (if is_set given then given else some time)) ≡ true
unfolding time_or
not_before time none h = h
not_before time (some given) h = h

not_older :
    (time : ℤ) (given : Option ℤ)
    → leb_ℤ time (time_or time given) ≡ true
    → is_older
        (if is_set given then some time else none)
        (if is_set given then given else some time)
      ≡ false
unfolding is_older time_or
not_older time none h = refl
not_older time (some given) h = ap not h

same_base :
    (base : BaseDataNodeProps) (creation_time : Option ℤ) (id2 parent_id : Option Buffer)
    → creation_time ≡ base.creation_time
    → id2 ≡ base.id2
    → parent_id ≡ base.parent_id
    → record base {
      node = record (base.node) {
        model = record (base.model) { creation_time = creation_time };
        id2 = id2;
        parent_id = parent_id;
      };
    }
      ≡ base
same_base base creation_time id2 parent_id e e1 e2 = rw e (rw e1 (rw e2 refl))

module _ (unpack : Buffer → Result SignatureObject)
    (unpack_copied : Buffer → Result (List SignatureObject)) (p : DataNodeProps)
    (parent parent_id : Buffer) (time : ℤ) (creation_time : Option ℤ) (s t u : Signature) where
  -- `copy` of a data node that is no copy, has no id2, is signed from the first place on and has a
  -- creation time not after the given one, if any is given, under another parent: it gives a node
  -- whose id2 is the id1 of the original, and `getCopiedNode` of that node gives the original back,
  -- with its signatures decoded.
  pub get_copied_node-copy :
      has_copied p.copied_signatures ≡ false
      → p.copied_creation_time ≡ none
      → p.id2 ≡ none
      → p.parent_id ≡ some parent
      → equals parent parent_id ≡ false
      → p.creation_time ≡ some time
      → leb_ℤ time (time_or time creation_time) ≡ true
      → is_signed p ≡ true
      → IsDecoded unpack p.signature1 s
      → IsDecoded unpack p.signature2 t
      → IsDecoded unpack p.signature3 u
      → (q : DataNodeProps) × (copy unpack p parent_id creation_time ≡ ok q)
        × (q.id2 ≡ p.id1)
        × (q.parent_id ≡ some parent_id)
        × (get_copied_node unpack_copied q
            ≡ ok (
                some (record p {
                  signature1 = s;
                  signature2 = t;
                  signature3 = u;
                  copied_signatures = none;
                  copied_parent_id = none;
                })))
  unfolding copy is_signed get_copied_node same_id original_time
  get_copied_node-copy e0 e1 e2 e3 e4 e5 e6 e7 d1 d2 d3 =
      let (l, k, kc, k1, k2, k3) =
        collected unpack p.signature1 p.signature2 p.signature3 s t u d1 d2 d3 e7 in
      (
        copied p parent_id creation_time l,
        simp (e0, e2, e3, e4, k, e5, not_before time creation_time e6) refl,
        refl,
        refl,
        simp
            (
              kc,
              k1,
              k2,
              k3,
              e1,
              e3,
              e5,
              equals_swap parent parent_id e4,
              not_older time creation_time e6,
              original_time_lem creation_time time,
            )
            (ap with_base
              (same_base p.base (some time) none (some parent) (sym e5) (sym e2) (sym e3))),
      )
    where
      with_base : BaseDataNodeProps → Result (Option DataNodeProps)
      with_base base = ok (
          some (record {
            base = base;
            signature1 = s;
            signature2 = t;
            signature3 = u;
            copied_signatures = none;
            copied_parent_id = none;
            copied_creation_time = none;
          }))
