-- ===== src/Certificates/Hash.antt =====
-- `_flatten` and `hash_bytes` of prototype_final/locus/crypto.py, on parts that are bytes, and `bytes.hex`.
use Prim.Native.String.{String}
use locus_v.Prelude.{
  ℕ, ◌+◌, ◌*◌, ◌/◌, ◌%◌, ◌-◌, ◌^◌, ◌<◌, ◌≡◌, refl, arith, Bool, List, [], ◌∷◌, ◌++◌, ltb,
  if◌then◌else◌,
}
use locus_v.Prelude.Lists.{length, All, append_cancel}
use locus_v.Certificates.Values.{Value, Text, Bytes, codes}

-- What the signed objects go through: SHA-256, `encode` of prototype_final/locus/codec.py, which is
-- any function of a value here, `json.loads` and Ed25519.
pub record Crypto : Type 0 where
  pub sha256 : Bytes → Bytes
  pub encode : Value → Bytes
  pub loads : Bytes → Value
  pub sign : Bytes → Bytes → Bytes
  pub verifies : Bytes → Bytes → Bytes → Bool
  pub public_key : Bytes → Bytes

-- len(part).to_bytes(4, "big")
abbrev pub to_bytes4 : ℕ → Bytes
to_bytes4 n = (n / 2 ^ 24 % 256) ∷ (n / 2 ^ 16 % 256) ∷ (n / 2 ^ 8 % 256) ∷ (n % 256) ∷ []

unfoldable pub flatten : List Bytes → Bytes
flatten [] = []
flatten (part ∷ parts) = to_bytes4 (length part) ++ (part ++ flatten parts)

unfoldable pub hash_bytes : Crypto → String → List Bytes → Bytes
unfolding flatten
hash_bytes c tag parts = c.sha256 (codes tag ++ 0 ∷ flatten parts)

abbrev pub hex_digit : ℕ → ℕ
hex_digit d = if ltb d 10 then d + 48 else d + 87

-- bytes.hex()
unfoldable pub to_hex : Bytes → Text
to_hex [] = []
to_hex (b ∷ bs) = hex_digit (b / 16) ∷ hex_digit (b % 16) ∷ to_hex bs

abbrev pub digit_value : ℕ → ℕ
digit_value c = if ltb c 58 then c - 48 else c - 87

-- bytes.fromhex, of digits that `_hex` has accepted.
unfoldable pub from_hex : Text → Bytes
from_hex [] = []
from_hex (c ∷ []) = []
from_hex (c ∷ d ∷ cs) = (digit_value c * 16 + digit_value d) ∷ from_hex cs

hex_digit-value : (d : ℕ) → d < 16 → digit_value (hex_digit d) ≡ d
hex_digit-value d h = ground arith

-- `bytes.fromhex` restores what `bytes.hex` printed.
pub from_hex-to_hex : (bs : Bytes) → All (λ b. b < 256) bs → from_hex (to_hex bs) ≡ bs
unfolding from_hex to_hex
from_hex-to_hex [] h = refl
from_hex-to_hex (b ∷ bs) (small, h) =
    let high : digit_value (hex_digit (b / 16)) ≡ b / 16 =
      hex_digit-value (b / 16) (omega (arith, small)) in
    let low : digit_value (hex_digit (b % 16)) ≡ b % 16 = hex_digit-value (b % 16) (omega arith) in
    let whole : b / 16 * 16 + b % 16 ≡ b = omega arith in
    ground (arith, high, low, whole, from_hex-to_hex bs h)

to_bytes4_injective :
    (m n : ℕ) (us vs : Bytes)
    → m < 2 ^ 32
    → n < 2 ^ 32
    → to_bytes4 m ++ us ≡ to_bytes4 n ++ vs
    → (m ≡ n) × (us ≡ vs)
to_bytes4_injective m n us vs hm hn e =
    let (same, rest) = append_cancel (to_bytes4 m) (to_bytes4 n) us vs refl e in
    let a : m / 2 ^ 24 % 256 ≡ n / 2 ^ 24 % 256 = ground (arith, same) in
    let b : m / 2 ^ 16 % 256 ≡ n / 2 ^ 16 % 256 = ground (arith, same) in
    let c : m / 2 ^ 8 % 256 ≡ n / 2 ^ 8 % 256 = ground (arith, same) in
    let d : m % 256 ≡ n % 256 = ground (arith, same) in (omega (arith, a, b, c, d, hm, hn), rest)

-- The framing of the parts is unambiguous, when each part is shorter than 2^32 bytes.
pub flatten_injective :
    (ps qs : List Bytes)
    → All (λ p. length p < 2 ^ 32) ps
    → All (λ p. length p < 2 ^ 32) qs
    → flatten ps ≡ flatten qs
    → ps ≡ qs
unfolding flatten
flatten_injective [] [] h k e = refl
flatten_injective [] (q ∷ qs) h k e = absurd (cc)
flatten_injective (p ∷ ps) [] h k e = absurd (cc)
flatten_injective (p ∷ ps) (q ∷ qs) (hp, h) (hq, k) e =
    let (lengths, rest) =
      to_bytes4_injective (length p) (length q) (p ++ flatten ps) (q ++ flatten qs) hp hq e in
    let (same, others) = append_cancel p q (flatten ps) (flatten qs) lengths rest in
    cc (same, flatten_injective ps qs h k others)
