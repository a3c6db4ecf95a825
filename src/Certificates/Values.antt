-- ===== src/Certificates/Values.antt =====
-- Python values as `json` gives them, and `_integer`, `_hex` and `_exact_dict` of
-- prototype_final/locus/attempt_certificates.py. A negative integer -(n + 1) is `negative n`; a value
-- of any other type is `other`. A `dict` lists its members, each key once.
use Prim.Native.Char.{code}
use Prim.Native.String.{String}
use text.Mathlib.Text.{◌==◌ as text_beq}
use locus_v.Prelude.{
  ℕ, ◌*◌, Bool, true, false, not, ◌&&◌, ◌||◌, List, [], ◌∷◌, ltb, leb, if◌then◌else◌,
}
use locus_v.Prelude.Eq.{◌==◌, nat_eq, list_eq}
use locus_v.Prelude.Lists.{length}
use locus_v.Prelude.Results.{Result, ok, raise, ◌>>◌, raise_if}

abbrev pub Text : Type 0
Text = List ℕ

abbrev pub Bytes : Type 0
Bytes = List ℕ

-- The code points of a literal.
abbrev pub codes : String → List ℕ
codes String.[] = []
codes (String.◌∷◌ c s) = code c ∷ codes s

mutual
  pub data Value : Type 0 where
    null other : Value
    boolean : Bool → Value
    integer : ℕ → Value
    negative : ℕ → Value
    string : Text → Value
    array : Values → Value
    object : Members → Value

  pub data Values : Type 0 where
    empty : Values
    item : Value → Values → Values

  pub data Members : Type 0 where
    last : Members
    member : String → Value → Members → Members

-- CertificateError, by its messages.
pub data CertificateError : Type 0 where
  invalid unsupported noncanonical_identifiers invalid_threshold unsafe_intersection :
      CertificateError
  budget_exhausted vote_mismatch configuration_mismatch : CertificateError
  duplicate_or_noncanonical_votes insufficient_quorum invalid_signature : CertificateError

abbrev pub Checked : Type 0 → Type 0
Checked A = Result CertificateError A

unfoldable pub get_integer : ℕ → Value → Checked ℕ
get_integer minimum (integer n) = do raise_if (ltb n minimum) invalid; ok n
get_integer minimum _ = raise invalid

-- character not in "0123456789abcdef"
abbrev pub is_no_hex : ℕ → Bool
is_no_hex c = not ((leb 48 c && leb c 57) || (leb 97 c && leb c 102))

abbrev pub has_no_hex : Text → Bool
has_no_hex [] = false
has_no_hex (c ∷ cs) = is_no_hex c || has_no_hex cs

abbrev pub is_hex : ℕ → Text → Bool
is_hex bytes_length t = length t == bytes_length * 2 && not (has_no_hex t)

unfoldable pub get_hex : ℕ → Value → Checked Text
get_hex bytes_length (string t) = do raise_if (not (is_hex bytes_length t)) invalid; ok t
get_hex bytes_length _ = raise invalid

abbrev pub has_key : String → Members → Bool
has_key k last = false
has_key k (member j v m) = text_beq j k || has_key k m

abbrev pub is_field : String → List String → Bool
is_field k [] = false
is_field k (j ∷ js) = text_beq j k || is_field k js

abbrev pub has_fields : List String → Members → Bool
has_fields [] m = true
has_fields (k ∷ ks) m = has_key k m && has_fields ks m

abbrev pub only_fields : List String → Members → Bool
only_fields ks last = true
only_fields ks (member k v m) = is_field k ks && only_fields ks m

unfoldable pub exact_dict : List String → Value → Checked Members
exact_dict expected (object m) = do
  raise_if (not (only_fields expected m && has_fields expected m)) invalid
  ok m
exact_dict expected _ = raise invalid

-- parsed[key]
abbrev pub field_of : Members → String → Value
field_of last k = null
field_of (member j v m) k = let older = field_of m k in if text_beq j k then v else older

-- value == literal
abbrev pub is_literal : Value → String → Bool
is_literal (string t) s = t == codes s
is_literal _ s = false
