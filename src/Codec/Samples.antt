-- ===== src/Codec/Samples.antt =====
-- A toy `Codec`.
use locus_v.Prelude.{◌≡◌, [], ◌∷◌, ◌++◌, refl, ap, arith}
use locus_v.Prelude.Lists.{length, append_cancel}
use locus_v.Certificates.Values.{Bytes, Value, null, integer, string, object, Members, last, member}
use locus_v.Codec.{Codec, IsCodec, IsFlat, flat_null, flat_integer, flat_string}

abbrev print_flat : Value → Bytes
print_flat null = 0 ∷ []
print_flat (integer n) = 1 ∷ n ∷ []
print_flat (string t) = 2 ∷ length t ∷ t
print_flat _ = 3 ∷ []

abbrev print_all : Members → Bytes
print_all last = []
print_all (member k v m) = print_flat v ++ print_all m

abbrev print_object : Value → Bytes
print_object (object m) = print_all m
print_object _ = []

abbrev pub plain : Codec
plain = record { strip = λ t. t; nfc = λ t. t; dumps = print_object }

print_flat-cut :
    (v w : Value) (xs ys : Bytes)
    → IsFlat v
    → IsFlat w
    → print_flat v ++ xs ≡ print_flat w ++ ys
    → (v ≡ w) × (xs ≡ ys)
print_flat-cut _ _ xs ys flat_null flat_null h = (refl, cc)
print_flat-cut _ _ xs ys flat_null (flat_integer n) h = absurd (cc)
print_flat-cut _ _ xs ys flat_null (flat_string t v) h = absurd (cc)
print_flat-cut _ _ xs ys (flat_integer n) flat_null h = absurd (cc)
print_flat-cut _ _ xs ys (flat_integer n) (flat_integer m) h = (cc, cc)
print_flat-cut _ _ xs ys (flat_integer n) (flat_string t v) h = absurd (ground (arith, h))
print_flat-cut _ _ xs ys (flat_string t v) flat_null h = absurd (ground (arith, h))
print_flat-cut _ _ xs ys (flat_string t v) (flat_integer n) h = absurd (ground (arith, h))
print_flat-cut _ _ xs ys (flat_string t v) (flat_string u w) h =
    let same_length : length t ≡ length u = cc in
    let rest : t ++ xs ≡ u ++ ys = cc in
    let (p, q) = append_cancel t u xs ys same_length rest in (ap string p, q)

pub plain-IsCodec : IsCodec plain
plain-IsCodec = record {
  strip_visible = λ t h. refl;
  nfc_visible = λ t h. refl;
  dumps_faithful = λ b p n i c q m j x y h.
      let (x1, x2, x3, x4) = x in
      let (y1, y2, y3, y4) = y in
      let (e1, h1) = print_flat-cut b c _ _ x1 y1 h in
      let (e2, h2) = print_flat-cut p q _ _ x2 y2 h1 in
      let (e3, h3) = print_flat-cut n m _ _ x3 y3 h2 in
      let (e4, _) = print_flat-cut i j [] [] x4 y4 h3 in (e1, e2, e3, e4);
}
