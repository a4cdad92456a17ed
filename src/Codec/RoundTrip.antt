-- ===== src/Codec/RoundTrip.antt =====
-- The codecs read back what they wrote.
use Prim.Native.Nat.{bit_or}
use lsm_tree_key_value_store.Prelude.{
  ℕ, ◌+◌, ◌*◌, ◌/◌, ◌%◌, ◌^◌, ◌≤◌, ◌<◌, ◌≡◌, refl, [], ◌∷◌, ◌++◌, arith, Bytes, length, All, ◌∙◌,
}
use native.Mathlib.Nat.{mod-eq_of_lt}
use lsm_tree_key_value_store.Prelude.Bits.{bit_or_disjoint, bit_and_byte}
use lsm_tree_key_value_store.Codec.{byte_of, encode32, decode32, encode64, decode64, IsByte}

byte_of-eq : (v i : ℕ) → byte_of v i ≡ v / 2 ^ (8 * i) % 256
byte_of-eq v i = omega (arith, bit_and_byte (v / 2 ^ (8 * i)))

-- Joining a lane to what stands below it adds it.
join32 :
    (k x b : ℕ) → x < 2 ^ k → b * 2 ^ k < 2 ^ 32 → bit_or x (b * 2 ^ k % 2 ^ 32) ≡ x + b * 2 ^ k
join32 k x b h w = rw (mod-eq_of_lt w) (bit_or_disjoint k x b h)

join64 :
    (k x b : ℕ) → x < 2 ^ k → b * 2 ^ k < 2 ^ 64 → bit_or x (b * 2 ^ k % 2 ^ 64) ≡ x + b * 2 ^ k
join64 k x b h w = rw (mod-eq_of_lt w) (bit_or_disjoint k x b h)

-- What four bytes stand for.
pub decode32_bytes :
    (a b c d : ℕ) (rest : Bytes)
    → a < 256
    → b < 256
    → c < 256
    → d < 256
    → decode32 (a ∷ b ∷ c ∷ d ∷ rest) ≡ a + b * 2 ^ 8 + c * 2 ^ 16 + d * 2 ^ 24
unfolding decode32
decode32_bytes a b c d rest ha hb hc hd =
    rw
      (
        join32 8 a b (omega arith) (omega arith),
        join32 16 (a + b * 2 ^ 8) c (omega arith) (omega arith),
      )
      (join32 24 (a + b * 2 ^ 8 + c * 2 ^ 16) d (omega arith) (omega arith))

-- A uint32_t is read back, whatever follows it.
pub decode32-encode32 : (v : ℕ) (rest : Bytes) → v < 2 ^ 32 → decode32 (encode32 v ++ rest) ≡ v
unfolding encode32
decode32-encode32 v rest h =
    decode32_bytes (byte_of v 0) (byte_of v 1) (byte_of v 2) (byte_of v 3) rest (omega arith)
      (omega arith) (omega arith) (omega arith)
    ∙ omega (arith, byte_of-eq v 0, byte_of-eq v 1, byte_of-eq v 2, byte_of-eq v 3)

-- Bytes after the fourth do not count.
pub decode32-append : (bs rest : Bytes) → 4 ≤ length bs → decode32 (bs ++ rest) ≡ decode32 bs
unfolding decode32
decode32-append [] rest h = absurd (omega arith)
decode32-append (a ∷ []) rest h = absurd (omega arith)
decode32-append (a ∷ b ∷ []) rest h = absurd (omega arith)
decode32-append (a ∷ b ∷ c ∷ []) rest h = absurd (omega arith)
decode32-append (a ∷ b ∷ c ∷ d ∷ bs) rest h = refl

pub length-encode32 : (v : ℕ) → length (encode32 v) ≡ 4
unfolding encode32
length-encode32 v = refl

pub length-encode64 : (v : ℕ) → length (encode64 v) ≡ 8
unfolding encode64
length-encode64 v = refl

pub encode32-IsByte : (v : ℕ) → All IsByte (encode32 v)
unfolding encode32
encode32-IsByte v = omega arith

pub encode64-IsByte : (v : ℕ) → All IsByte (encode64 v)
unfolding encode64
encode64-IsByte v = omega arith

abbrev value64 : ℕ → ℕ → ℕ → ℕ → ℕ → ℕ → ℕ → ℕ → ℕ
value64 a b c d e f g h =
    a + b * 2 ^ 8 + c * 2 ^ 16 + d * 2 ^ 24 + e * 2 ^ 32 + f * 2 ^ 40 + g * 2 ^ 48 + h * 2 ^ 56

decode64_bytes :
    (a b c d e f g h : ℕ) (rest : Bytes)
    → All IsByte (a ∷ b ∷ c ∷ d ∷ e ∷ f ∷ g ∷ h ∷ [])
    → decode64 (a ∷ b ∷ c ∷ d ∷ e ∷ f ∷ g ∷ h ∷ rest) ≡ value64 a b c d e f g h
unfolding decode64
decode64_bytes a b c d e f g h rest w =
    rw
      (
        join64 0 0 a (omega arith) (omega arith),
        join64 8 (0 + a * 2 ^ 0) b (omega arith) (omega arith),
        join64 16 (0 + a * 2 ^ 0 + b * 2 ^ 8) c (omega arith) (omega arith),
        join64 24 (0 + a * 2 ^ 0 + b * 2 ^ 8 + c * 2 ^ 16) d (omega arith) (omega arith),
        join64 32 (0 + a * 2 ^ 0 + b * 2 ^ 8 + c * 2 ^ 16 + d * 2 ^ 24) e (omega arith)
            (omega arith),
        join64 40 (0 + a * 2 ^ 0 + b * 2 ^ 8 + c * 2 ^ 16 + d * 2 ^ 24 + e * 2 ^ 32) f (omega arith)
            (omega arith),
        join64 48 (0 + a * 2 ^ 0 + b * 2 ^ 8 + c * 2 ^ 16 + d * 2 ^ 24 + e * 2 ^ 32 + f * 2 ^ 40) g
            (omega arith) (omega arith),
        join64 56
            (0
              + a * 2 ^ 0
              + b * 2 ^ 8
              + c * 2 ^ 16
              + d * 2 ^ 24
              + e * 2 ^ 32
              + f * 2 ^ 40
              + g * 2 ^ 48)
            h (omega arith) (omega arith),
      )
      (omega arith)

-- A uint64_t is read back, whatever follows it.
pub decode64-encode64 : (v : ℕ) (rest : Bytes) → v < 2 ^ 64 → decode64 (encode64 v ++ rest) ≡ v
unfolding encode64
decode64-encode64 v rest h =
    decode64_bytes (byte_of v 0) (byte_of v 1) (byte_of v 2) (byte_of v 3) (byte_of v 4)
      (byte_of v 5) (byte_of v 6) (byte_of v 7) rest (omega arith)
    ∙ omega (
      arith,
      byte_of-eq v 0,
      byte_of-eq v 1,
      byte_of-eq v 2,
      byte_of-eq v 3,
      byte_of-eq v 4,
      byte_of-eq v 5,
      byte_of-eq v 6,
      byte_of-eq v 7,
    )

pub decode32-encode32_self : (v : ℕ) → v < 2 ^ 32 → decode32 (encode32 v) ≡ v
unfolding encode32
decode32-encode32_self v h = decode32-encode32 v [] h

pub decode64-encode64_self : (v : ℕ) → v < 2 ^ 64 → decode64 (encode64 v) ≡ v
unfolding encode64
decode64-encode64_self v h = decode64-encode64 v [] h
