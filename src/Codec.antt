-- ===== src/Codec.antt =====
-- prototype_final/locus/codec.py, over what it takes from Python's library: `str.strip`,
-- `unicodedata.normalize` and `json.dumps`. A `bytes` object and what `json.dumps` refuses are no values
-- here, and a key is a `str`.
use Prim.Native.String.{String}
use locus_v.Prelude.{ℕ, Bool, true, false, ◌≡◌, ◌&&◌, ◌||◌, List, [], ◌∷◌, ltb, if◌then◌else◌}
use locus_v.Prelude.Eq.{◌==◌, nat_eq}
use locus_v.Contracts.Values.{any, out_of_range}
use locus_v.Certificates.Values.{
  Text, Bytes, Value, null, other, boolean, integer, negative, string, array, object, Values, empty,
  item, Members, last, member, codes,
}
pub mod Events
pub mod Samples

pub record Codec : Type 0 where
  pub strip : Text → Text
  pub nfc : Text → Text
  pub dumps : Value → Bytes

abbrev pub normalize_text : Codec → Text → Text
normalize_text codec value = codec.nfc (codec.strip value)

-- The order of two `str`, by their code points.
abbrev pub text_below : Text → Text → Bool
text_below [] [] = false
text_below [] (d ∷ ds) = true
text_below (c ∷ cs) [] = false
text_below (c ∷ cs) (d ∷ ds) = ltb c d || (c == d && text_below cs ds)

abbrev pub insert_member : String → Value → Members → Members
insert_member k v last = member k v last
insert_member k v (member j w m) =
    let rest = insert_member k v m in
    if text_below (codes j) (codes k) then member j w rest else member k v (member j w m)

-- The members in the order of `sorted`.
abbrev pub sort_members : Members → Members
sort_members last = last
sort_members (member k v m) = insert_member k v (sort_members m)

abbrev mutual
  pub canonicalize : Codec → Value → Value
  canonicalize codec (string value) = string (normalize_text codec value)
  canonicalize codec (array vs) = array (canonicalize_values codec vs)
  canonicalize codec (object m) = object (sort_members (canonicalize_members codec m))
  canonicalize codec null = null
  canonicalize codec other = other
  canonicalize codec (boolean b) = boolean b
  canonicalize codec (integer n) = integer n
  canonicalize codec (negative n) = negative n

  pub canonicalize_values : Codec → Values → Values
  canonicalize_values codec empty = empty
  canonicalize_values codec (item v vs) = item (canonicalize codec v) (canonicalize_values codec vs)

  pub canonicalize_members : Codec → Members → Members
  canonicalize_members codec last = last
  canonicalize_members codec (member k v m) =
      member k (canonicalize codec v) (canonicalize_members codec m)

unfoldable pub encode : Codec → Value → Bytes
encode codec value = codec.dumps (canonicalize codec value)

-- Visible ASCII characters alone.
abbrev pub IsVisible : Text → Type 0
IsVisible t = any out_of_range t ≡ false

-- `None`, a number that is not negative, or a `str` of visible ASCII characters.
pub data IsFlat : Value → Type 0 where
  flat_null : IsFlat null
  flat_integer : (n : ℕ) → IsFlat (integer n)
  flat_string : (t : Text) → IsVisible t → IsFlat (string t)

-- The dictionary that `fingerprint` of an event encodes.
abbrev pub event_object : Value → Value → Value → Value → Value
event_object backup_id completed_phase epoch event_id = object (
    member "backup_id" backup_id (
      member "completed_phase" completed_phase
        (member "epoch" epoch (member "event_id" event_id last))))

-- What the library documents: `strip` removes white space alone, ASCII text is in NFC, and
-- `json.dumps` prints different values of the same keys differently.
pub record IsCodec (codec : Codec) : Type 0 where
  pub strip_visible : (t : Text) → IsVisible t → codec.strip t ≡ t
  pub nfc_visible : (t : Text) → IsVisible t → codec.nfc t ≡ t
  pub dumps_faithful :
      (b p n i c q m j : Value)
      → IsFlat b × IsFlat p × IsFlat n × IsFlat i
      → IsFlat c × IsFlat q × IsFlat m × IsFlat j
      → codec.dumps (event_object b p n i) ≡ codec.dumps (event_object c q m j)
      → (b ≡ c) × (p ≡ q) × (n ≡ m) × (i ≡ j)
