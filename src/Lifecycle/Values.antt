-- ===== src/Lifecycle/Values.antt =====
-- The values that the objects of prototype/locus/epoch_lifecycle.py are read from. _hex and _exact_dict
-- test what those of attempt_certificates.py test, and raise their own exception.
use Prim.Native.String.{String}
use locus_v.Prelude.{ℕ, Bool, ◌||◌, List, ltb}
use locus_v.Prelude.Results.{Result, ok, raise, ◌>>◌, raise_if}
use locus_v.Certificates.Values.{
  Text, Bytes, Value, integer, boolean, Members, CertificateError, Checked, get_hex, exact_dict,
}
use locus_v.Certificates.Hash.{Crypto, hash_bytes, to_hex}

-- LifecycleCertificateError by its messages, and the exceptions of other modules that pass through.
pub data LifecycleError : Type 0 where
  malformed not_consecutive count_exceeds_budget unsupported_object mismatch : LifecycleError
  reconfiguration unknown_signer bad_signature incomplete_package invalid_quorum : LifecycleError
  overflow : LifecycleError
  config_error : CertificateError → LifecycleError

abbrev pub Cycled : Type 0 → Type 0
Cycled A = Result LifecycleError A

-- A test of attempt_certificates.py that raises the exception of this module.
abbrev pub relabel : {A : Type 0} → Checked A → Cycled A
relabel (ok a) = ok a
relabel (raise e) = raise malformed

-- An exception of attempt_certificates.py.
abbrev pub from_config : {A : Type 0} → Checked A → Cycled A
from_config (ok a) = ok a
from_config (raise e) = raise (config_error e)

unfoldable pub cycle_integer : ℕ → Value → Cycled ℕ
cycle_integer minimum (integer n) = do
  raise_if (ltb n minimum || ltb 9223372036854775807 n) malformed
  ok n
cycle_integer minimum _ = raise malformed

unfoldable pub cycle_hex : ℕ → Value → Cycled Text
unfolding get_hex
cycle_hex bytes_length v = relabel (get_hex bytes_length v)

unfoldable pub cycle_dict : List String → Value → Cycled Members
unfolding exact_dict
cycle_dict fields v = relabel (exact_dict fields v)

unfoldable pub cycle_boolean : Value → Cycled Bool
cycle_boolean (boolean b) = ok b
cycle_boolean _ = raise malformed

unfoldable pub hash_text : Crypto → String → List Bytes → Text
unfolding hash_bytes to_hex
hash_text crypto tag parts = to_hex (hash_bytes crypto tag parts)
