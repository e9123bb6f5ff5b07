-- ===== src/Data/Validate/Copied.antt =====
-- What an accepted copy guarantees.
use openodin.Prelude.{
  ◌≡◌, refl, Bool, true, false, Option, none, some, List, [], ◌∷◌, is_set, if◌then◌else◌,
}
use openodin.Prelude.Int.{ℤ}
use openodin.Prelude.Buffer.{Buffer}
use openodin.Prelude.Verdict.{
  Verdict, accepted, thrown, wrap, ◌>>◌, both_accepted, not_refused, passes, when-eq-accepted,
  wrap-eq-accepted,
}
use openodin.Prelude.Result.{Result, ok, error}
use openodin.Cert.Props.{SignCert, load, loads}
use openodin.Cert.Validate.{validate_sign_cert}
use openodin.Node.Props.{BaseNodeProps}
use openodin.Node.Validate.{validate_node}
use openodin.Data.Props.{SignatureObject, DataNodeProps}
use openodin.Data.Copy.{has_copied, same_id, get_copied_node}
use openodin.Data.Validate.{
  DataNode, match_unpacked, validate_unpacked, validate_base_original, check_original,
  validate_with, validate_data_node,
}

-- The constraints of the certificate that a node holds.
abbrev pub held_constraints : List SignCert → Option Buffer
held_constraints [] = none
held_constraints (c ∷ issuers) = c.props.constraints

match_unpacked-accepted :
    (p : BaseNodeProps) (c : SignCert)
    → match_unpacked p (load c).props ≡ accepted
    → is_set c.props.constraints ≡ false
unfolding match_unpacked load
match_unpacked-accepted p c h = unset (is_set c.props.constraints) (both_accepted _ _ h).1
  where
    unset :
        (t : Bool)
        → (if t then thrown "Expected to been packed before calling hashConstraints" else accepted)
          ≡ accepted
        → t ≡ false
    unset true e = cc
    unset false e = refl

module _ (blake2b : Buffer → Buffer) (time : Option ℤ) where
  validate_unpacked-accepted :
      (p : BaseNodeProps) (certs : List SignCert)
      → validate_unpacked blake2b true time p certs ≡ accepted
      → is_set (held_constraints certs) ≡ false
  unfolding validate_unpacked
  validate_unpacked-accepted p [] h = refl
  validate_unpacked-accepted p (c ∷ issuers) h =
      let cert =
        wrap "Could not validate signCert: "
          (validate_sign_cert blake2b true time (load c) issuers) in
      let match = wrap "Could not match signCert: " (match_unpacked p (load c).props) in
      let (_, h1) = both_accepted (validate_node p time) (loads c >> (cert >> match)) h in
      let (_, h2) = both_accepted (loads c) (cert >> match) h1 in
      let (_, h3) = both_accepted cert match h2 in
      match_unpacked-accepted p c (wrap-eq-accepted "Could not match signCert: " _ h3)

  unconstrained :
      (deep : Bool) (q : DataNodeProps) (certs : List SignCert)
      → validate_base_original blake2b deep time q certs ≡ accepted
      → deep ≡ true
      → is_set (held_constraints certs) ≡ false
  unfolding validate_base_original
  unconstrained true q certs h e = validate_unpacked-accepted q.node certs (both_accepted _ _ h).0
  unconstrained false q certs h e = absurd cc

module _ (blake2b : Buffer → Buffer) (deep : Bool) (time : Option ℤ)
    (unpack_copied : Buffer → Result (List SignatureObject)) where
  -- The node holds an original that is itself valid, under another parent and by its id, and no
  -- certificate with constraints when it was validated deeply.
  pub record IsCopy (n : DataNode) : Type 0 where
    pub original : DataNodeProps
    pub held : get_copied_node unpack_copied n.props ≡ ok (some original)
    pub valid : validate_base_original blake2b deep time original n.certs ≡ accepted
    pub moved : same_id original.parent_id n.props.parent_id ≡ false
    pub named : is_set n.props.id2 ≡ true
    pub free : deep ≡ true → is_set (held_constraints n.certs) ≡ false

  check_original-accepted :
      (n : DataNode) (check_embedded : DataNodeProps → Verdict)
      (found : Result (Option DataNodeProps))
      → get_copied_node unpack_copied n.props ≡ found
      → check_original blake2b deep time unpack_copied n check_embedded found ≡ accepted
      → is_set n.props.id2 ≡ true
      → IsCopy n
  unfolding check_original
  check_original-accepted n check_embedded (error message) e h id2 = absurd cc
  check_original-accepted n check_embedded (ok none) e h id2 = absurd cc
  check_original-accepted n check_embedded (ok (some q)) e h id2 =
      let (moved, h1) = both_accepted _ _ h in
      let (valid, _) = both_accepted _ _ h1 in
      record {
        original = q;
        held = e;
        valid = valid;
        moved = not_refused _ _ moved;
        named = id2;
        free = unconstrained blake2b time deep q n.certs valid;
      }

  validate_with-IsCopy :
      (n : DataNode) (check_embedded : DataNodeProps → Verdict)
      → has_copied n.props.copied_signatures ≡ true
      → validate_with blake2b deep time unpack_copied n check_embedded ≡ accepted
      → IsCopy n
  unfolding validate_with
  validate_with-IsCopy n check_embedded copied h =
      let (_, h1) = both_accepted _ _ h in
      let (found, h2) = both_accepted _ _ h1 in
      let (id2, _) = both_accepted _ _ h2 in
      check_original-accepted n check_embedded (get_copied_node unpack_copied n.props) refl
        ((when-eq-accepted _ _).0 found copied) (passes _ _ ((when-eq-accepted _ _).0 id2 copied))

  -- A data node with copied signatures is accepted only if it has an id2 and holds an original that
  -- is under another parent and passes the checks of a base data node. With constraints on its
  -- certificate no copy is accepted by deep validation, since the original is not packed.
  pub validate_data_node-IsCopy :
      (n : DataNode) (stack : List (Result DataNode))
      → has_copied n.props.copied_signatures ≡ true
      → validate_data_node blake2b deep time unpack_copied n stack ≡ accepted
      → IsCopy n
  unfolding validate_data_node
  validate_data_node-IsCopy n [] copied h = validate_with-IsCopy n _ copied h
  validate_data_node-IsCopy n (error message ∷ rest) copied h = validate_with-IsCopy n _ copied h
  validate_data_node-IsCopy n (ok e ∷ rest) copied h = validate_with-IsCopy n _ copied h
