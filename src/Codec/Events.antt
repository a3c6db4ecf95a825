-- ===== src/Codec/Events.antt =====
-- `encode` of prototype_final/locus/codec.py tells the fingerprints of valid events apart.
use locus_v.Prelude.{ℕ, ◌≡◌, not, ◌||◌, Option, none, some, refl, ap, sym, ◌∙◌, arith, ltb}
use locus_v.Prelude.Eq.{◌==◌, nat_eq}
use locus_v.Prelude.Lists.{length}
use locus_v.Prelude.Results.{ok, bind-ok, raise_if-ok}
use locus_v.Contracts.Values.{
  any, out_of_range, is_ascii, max_identifier_chars, identifier, check_binding,
}
use locus_v.Certificates.Values.{Text, Value, null, integer, string}
use locus_v.Codec.{
  Codec, IsCodec, canonicalize, encode, event_object, IsFlat, flat_null, flat_integer, flat_string,
  IsVisible,
}

-- A `str` or an `int` that may be `None`.
abbrev pub text_value : Option Text → Value
text_value none = null
text_value (some t) = string t

abbrev pub integer_value : Option ℕ → Value
integer_value none = null
integer_value (some n) = integer n

pub text_value_injective : (a b : Option Text) → text_value a ≡ text_value b → a ≡ b
text_value_injective none none h = refl
text_value_injective none (some b) h = absurd (cc)
text_value_injective (some a) none h = absurd (cc)
text_value_injective (some a) (some b) h = cc

pub integer_value_injective : (a b : Option ℕ) → integer_value a ≡ integer_value b → a ≡ b
integer_value_injective none none h = refl
integer_value_injective none (some b) h = absurd (cc)
integer_value_injective (some a) none h = absurd (cc)
integer_value_injective (some a) (some b) h = cc

pub string_injective : (a b : Text) → string a ≡ string b → a ≡ b
string_injective a b h = cc

pub identifier-IsVisible : (t u : Text) → identifier t ≡ ok u → IsVisible t
unfolding identifier
identifier-IsVisible t u h =
    let (tests, _) =
      raise_if-ok
        (length t == 0
          || ltb max_identifier_chars (length t)
          || not (is_ascii t)
          || any out_of_range t)
        _ _ _ h in
    ground (arith, tests)

pub integer_value-IsFlat : (n : Option ℕ) → IsFlat (integer_value n)
integer_value-IsFlat none = flat_null
integer_value-IsFlat (some n) = flat_integer n

pub check_binding-IsFlat :
    (backup_id : Option Text) (epoch : Option ℕ)
    → check_binding backup_id epoch ≡ ok tt
    → IsFlat (text_value backup_id)
unfolding check_binding
check_binding-IsFlat none epoch h = flat_null
check_binding-IsFlat (some b) epoch h =
    let (u, named, _) = bind-ok (identifier b) _ _ h in
    flat_string b (identifier-IsVisible b u named)

module _ (codec : Codec) (codes_well : IsCodec codec) where
  canonicalize-flat : (v : Value) → IsFlat v → canonicalize codec v ≡ v
  canonicalize-flat _ flat_null = refl
  canonicalize-flat _ (flat_integer n) = refl
  canonicalize-flat _ (flat_string t h) =
      ap string (ap codec.nfc (codes_well.strip_visible t h) ∙ codes_well.nfc_visible t h)

  canonicalize-event_object :
      (b p n i : Value)
      → IsFlat b × IsFlat p × IsFlat n × IsFlat i
      → canonicalize codec (event_object b p n i) ≡ event_object b p n i
  canonicalize-event_object b p n i (flat_b, flat_p, flat_n, flat_i) = λ k.
      event_object ((canonicalize-flat b flat_b) k) ((canonicalize-flat p flat_p) k)
        ((canonicalize-flat n flat_n) k) ((canonicalize-flat i flat_i) k)

  pub encode_faithful :
      (b p n i c q m j : Value)
      → IsFlat b × IsFlat p × IsFlat n × IsFlat i
      → IsFlat c × IsFlat q × IsFlat m × IsFlat j
      → encode codec (event_object b p n i) ≡ encode codec (event_object c q m j)
      → (b ≡ c) × (p ≡ q) × (n ≡ m) × (i ≡ j)
  unfolding encode
  encode_faithful b p n i c q m j x y h = codes_well.dumps_faithful b p n i c q m j x y (
      ap codec.dumps (sym (canonicalize-event_object b p n i x))
      ∙ h
      ∙ ap codec.dumps (canonicalize-event_object c q m j y))
