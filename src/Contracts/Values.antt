-- ===== src/Contracts/Values.antt =====
-- `_identifier`, `_positive_int`, `_opaque_bytes` and the limits of
-- prototype_final/locus/contracts.py. A `str` is the list of its code points, `bytes` the list of
-- its bytes; an `int` below 0 is refused as 0 is, and has no value here. The text of an error is
-- its constructor, without the label.
use locus_v.Prelude.{ℕ, ◌≤◌, Bool, true, false, not, ◌||◌, Option, none, some, List, [], ◌∷◌, ltb}
use locus_v.Prelude.Eq.{◌==◌, nat_eq}
use locus_v.Prelude.Lists.{length, All}
use locus_v.Prelude.Results.{Result, ok, raise, ◌>>=◌, ◌>>◌, raise_if}

abbrev pub Text : Type 0
Text = List ℕ

abbrev pub Bytes : Type 0
Bytes = List ℕ

-- ContractError and its subclasses EnrollmentStateError and RecoveryStateError.
pub data ContractError : Type 0 where
  invalid incomplete_binding : ContractError
  complete_is_no_event event_reused stale_state : ContractError
  already_complete phase_out_of_order lacks_binding binding_changed : ContractError
  operation_binding_changed index_error : ContractError
  not_canonical threshold_exceeds_parties holder_is_no_authorizer : ContractError
  membership_mismatch no_party_state mixed_suites epoch_not_consecutive : ContractError

abbrev pub Checked : Type 0 → Type 0
Checked A = Result ContractError A

abbrev pub max_identifier_chars : ℕ
max_identifier_chars = 255

abbrev pub max_epoch : ℕ
max_epoch = 9223372036854775807

abbrev pub max_parties : ℕ
max_parties = 65535

abbrev pub any : (ℕ → Bool) → List ℕ → Bool
any test [] = false
any test (x ∷ xs) = test x || any test xs

abbrev pub is_ascii : Text → Bool
is_ascii value = not (any (ltb 127) value)

abbrev pub out_of_range : ℕ → Bool
out_of_range character = ltb character 33 || ltb 126 character

unfoldable pub identifier : Text → Checked Text
identifier value = do
  raise_if
      (length value == 0
        || ltb max_identifier_chars (length value)
        || not (is_ascii value)
        || any out_of_range value)
      invalid
  ok value

unfoldable pub positive_int : ℕ → ℕ → Checked ℕ
positive_int maximum value = do raise_if (ltb value 1 || ltb maximum value) invalid; ok value

unfoldable pub opaque_bytes : ℕ → Bytes → Checked Bytes
opaque_bytes maximum value = do
  raise_if (length value == 0 || ltb maximum (length value)) invalid
  ok value

-- One to 255 visible ASCII characters.
pub record IsIdentifier (value : Text) : Type 0 where
  pub nonempty : 1 ≤ length value
  pub short : length value ≤ 255
  pub visible : All (λ character. 33 ≤ character × character ≤ 126) value

pub record IsPositive (maximum value : ℕ) : Type 0 where
  pub positive : 1 ≤ value
  pub bounded : value ≤ maximum

-- value is None
abbrev pub is_none : {A : Type 0} → Option A → Bool
is_none none = true
is_none (some _) = false

-- _positive_int, of a value that may be None
abbrev pub required_int : Option ℕ → Checked ℕ
required_int none = raise invalid
required_int (some value) = positive_int max_epoch value

-- if backup_id is not None: _identifier(backup_id, ...); _positive_int(epoch, ...)
unfoldable pub check_binding : Option Text → Option ℕ → Checked (Unit {0})
check_binding none epoch = ok tt
check_binding (some backup_id) epoch = do _ ← identifier backup_id; _ ← required_int epoch; ok tt
