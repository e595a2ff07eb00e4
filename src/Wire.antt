-- ===== src/Wire.antt =====
-- Byte order and the checksum that both programs carry a copy of: `cksum` of cs144/tcp/rlib.c and
-- of cs144/router/sr_utils.c. Numbers are laid out as on the little-endian hosts that the code runs
-- on, and <arpa/inet.h>'s conversions swap bytes there.
pub mod Order
pub mod Cksum
use stanford.Prelude.{
  ℕ, zero, suc, ◌+◌, ◌-◌, ◌*◌, ◌/◌, ◌%◌, ◌^◌, List, [], ◌∷◌, ◌==◌, ltb, if◌then◌else◌,
}

unfoldable pub htons : ℕ → ℕ
htons x = x % 256 * 256 + x / 256 % 256

unfoldable pub htonl : ℕ → ℕ
htonl x = x % 256 * 16777216 + x / 256 % 256 * 65536 + x / 65536 % 256 * 256 + x / 16777216 % 256

-- The bytes of a stored `uint16_t` and `uint32_t`, and what a read of such bytes gives.
unfoldable pub le16 : ℕ → List ℕ
le16 x = (x % 256) ∷ (x / 256 % 256) ∷ []

unfoldable pub le32 : ℕ → List ℕ
le32 x = (x % 256) ∷ (x / 256 % 256) ∷ (x / 65536 % 256) ∷ (x / 16777216 % 256) ∷ []

unfoldable pub read16 : ℕ → ℕ → ℕ
read16 a b = a + b * 256

unfoldable pub read32 : ℕ → ℕ → ℕ → ℕ → ℕ
read32 a b c d = a + b * 256 + c * 65536 + d * 16777216

-- The first loop of `cksum` and the odd byte after it, on a `uint32_t`. The two halves of
-- `data[0] << 8 | data[1]` share no bit.
unfoldable pub sum_words : List ℕ → ℕ → ℕ
sum_words [] sum = sum
sum_words (a ∷ []) sum = (sum + a * 256) % 4294967296
sum_words (a ∷ b ∷ rest) sum = sum_words rest ((sum + (a * 256 + b)) % 4294967296)

-- `while (sum > 0xffff)`, with fuel.
unfoldable pub fold_carries : ℕ → ℕ → ℕ
fold_carries zero sum = sum
fold_carries (suc fuel) sum =
    let rest = fold_carries fuel (sum / 65536 + sum % 65536) in if ltb 65535 sum then rest else sum

-- Two rounds do for any `uint32_t`.
abbrev pub fold_fuel : ℕ
fold_fuel = 2

-- `htons(~sum)` takes the low 16 bits of the complement.
unfoldable pub cksum : List ℕ → ℕ
unfolding sum_words fold_carries htons
cksum bytes =
    let sum = htons ((4294967295 - fold_carries fold_fuel (sum_words bytes 0)) % 65536) in
    if sum == 0 then 65535 else sum
