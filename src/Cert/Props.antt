-- ===== src/Cert/Props.antt =====
-- SignCertProps of datamodel/level3/signcert/types.ts with what it inherits from BaseSignCertProps and
-- BaseCertProps. The `signCert` that a certificate may hold is not a field here: a certificate stands
-- with the list of those that issued it, its own `signCert` first, that one's `signCert` next.
use openodin.Prelude.{ℕ, Bool, true, false, Option, none, some, List, [], ◌∷◌, String}
use openodin.Prelude.Int.{ℤ}
use openodin.Prelude.Buffer.{Buffer, equals}
use openodin.Prelude.Verdict.{Verdict, accepted, thrown}
use openodin.Model.Props.{BaseModelProps}
use openodin.Model.Constraints.{Packed, FlagMapping}

abbrev pub base_sign_cert_type : Buffer
base_sign_cert_type = 2 ∷ 1 ∷ []

abbrev pub sign_cert_type : Buffer
sign_cert_type = 2 ∷ 1 ∷ 1 ∷ []

pub record SignCertProps : Type 0 where
  pub model : BaseModelProps
  pub open model use *
  pub constraints : Option Buffer
  pub target_max_expire_time : Option ℤ
  pub target_type : Option Buffer
  pub base_sign_cert_config : Option ℕ
  pub countdown : Option ℕ
  pub locked_config : Option ℕ
  pub target_public_keys : Option (List Buffer)
  pub multisig_threshold : Option ℕ

-- A SignCert object: `packed` is set if it was made from a buffer, and unset if its props were set.
pub record SignCert : Type 0 where
  pub props : SignCertProps
  pub packed : Option Packed

-- `modelType.slice(0, 2).equals([2, 1])`
has_base_prefix : Buffer → Bool
has_base_prefix (a ∷ b ∷ rest) = equals (a ∷ b ∷ []) base_sign_cert_type
has_base_prefix _ = false

-- The check of the static field when a packed certificate is unpacked.
check_static : String → (Buffer → Bool) → Option Packed → Option Buffer → Verdict
check_static error fits none model_type = accepted
check_static error fits (some packed) none = accepted
check_static error fits (some packed) (some b) = elim (fits b) [
  | true ↦ accepted
  | false ↦ thrown error
]

-- `setProps` sets a missing model type in the props that it is given.
default_type : Buffer → Option Packed → Option Buffer → Option Buffer
default_type type none none = some type
default_type type _ model_type = model_type

with_type : Option Buffer → SignCertProps → SignCertProps
with_type type props = record props { model = record (props.model) { model_type = type } }

-- `loadSignCert` of BaseSignCert, which makes a level 2 certificate.
unfoldable pub base_loads : SignCert → Verdict
unfolding check_static has_base_prefix
base_loads c =
    check_static "static value must be prefix to packed value" has_base_prefix c.packed
      c.props.model_type

unfoldable pub load_base : SignCert → SignCertProps
unfolding with_type default_type
load_base c = with_type (default_type base_sign_cert_type c.packed c.props.model_type) c.props

-- The same at level 3, in `SignCert.validate` and in `BaseNode.loadSignCert`.
unfoldable pub loads : SignCert → Verdict
unfolding check_static
loads c =
    check_static "static value must exactly match packed value" (λ b. equals b sign_cert_type)
      c.packed c.props.model_type

unfoldable pub load : SignCert → SignCert
unfolding with_type default_type
load c = record {
  props = with_type (default_type sign_cert_type c.packed c.props.model_type) c.props;
  packed = c.packed;
}

-- SignCertLockedConfigFieldsMapping: the key of a locked field and its index.
abbrev pub fields_mapping : List (ℕ × ℕ)
fields_mapping = (0, 50) ∷ (1, 7) ∷ (2, 6) ∷ (3, 48) ∷ (4, 65) ∷ (5, 32) ∷ []

-- SignCertLockedConfigFlagsMapping.
abbrev pub flags_mapping : List FlagMapping
flags_mapping = record { bit = 6; config_type = "basesigncert"; config_index = 0 } ∷ []
