-- ===== src/Words.antt =====
-- Unsigned machine words as native numbers, and the two conversions of byte order that
-- utilities/helper.h takes from the system, written out as the system documents them.
-- htobe64 stores a word so that its bytes in memory are big-endian, on any host; a field that the
-- code fills by htobe64 and reads by be64toh is kept as those bytes.
use native.Mathlib.Nat.{pow-suc}
use distributed_server_clien.Prelude.Bytes.{Bytes}
use distributed_server_clien.Prelude.{
  ℕ, zero, suc, ◌+◌, ◌-◌, ◌*◌, ◌/◌, ◌%◌, ◌^◌, ◌<◌, ◌≡◌, refl, ◌∙◌, [], ◌∷◌, ◌++◌, arith, length,
  length-append,
}

-- A conversion to uint16_t.
abbrev pub u16 : ℕ → ℕ
u16 n = n % 2 ^ 16

-- A conversion to uint64_t.
abbrev pub u64 : ℕ → ℕ
u64 n = n % 2 ^ 64

-- `a -= b` on uint64_t, for `b` below 2 ^ 64.
abbrev pub sub64 : ℕ → ℕ → ℕ
sub64 a b = u64 (a + 2 ^ 64 - b)

-- The `k` low bytes of a word, the most significant first.
be_encode : ℕ → ℕ → Bytes
be_encode zero n = []
be_encode (suc k) n = be_encode k (n / 256) ++ (n % 256) ∷ []

-- The word that the bytes stand for, given the value of the bytes before them.
be_decode_onto : ℕ → Bytes → ℕ
be_decode_onto acc [] = acc
be_decode_onto acc (b ∷ bs) = be_decode_onto (acc * 256 + b) bs

unfoldable pub htobe64 : ℕ → Bytes
unfolding be_encode
htobe64 n = be_encode 8 n

unfoldable pub be64toh : Bytes → ℕ
unfolding be_decode_onto
be64toh bs = be_decode_onto 0 bs

length-be_encode : (k n : ℕ) → length (be_encode k n) ≡ k
unfolding be_encode
length-be_encode zero n = refl
length-be_encode (suc k) n =
    length-append (be_encode k (n / 256)) ((n % 256) ∷ [])
    ∙ omega (arith, length-be_encode k (n / 256))

pub length-htobe64 : (n : ℕ) → length (htobe64 n) ≡ 8
unfolding htobe64
length-htobe64 n = length-be_encode 8 n

be_decode_onto-append :
    (acc : ℕ) (xs : Bytes) (b : ℕ)
    → be_decode_onto acc (xs ++ b ∷ []) ≡ be_decode_onto acc xs * 256 + b
unfolding be_decode_onto
be_decode_onto-append acc [] b = refl
be_decode_onto-append acc (x ∷ xs) b = be_decode_onto-append (acc * 256 + x) xs b

-- A word of `k` bytes survives the trip through memory.
be_decode_onto-be_encode : (k n : ℕ) → n < 256 ^ k → be_decode_onto 0 (be_encode k n) ≡ n
unfolding be_encode be_decode_onto
be_decode_onto-be_encode zero n h = omega arith
be_decode_onto-be_encode (suc k) n h =
    be_decode_onto-append 0 (be_encode k (n / 256)) (n % 256)
    ∙ omega (arith, be_decode_onto-be_encode k (n / 256) (omega (arith, pow-suc 256 k)))

-- A word of 64 bits that is stored in network byte order is read back as it was.
pub be64toh-htobe64 : (n : ℕ) → n < 2 ^ 64 → be64toh (htobe64 n) ≡ n
unfolding be64toh htobe64
be64toh-htobe64 n h = be_decode_onto-be_encode 8 n h
