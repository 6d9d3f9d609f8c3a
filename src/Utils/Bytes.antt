-- ===== src/Utils/Bytes.antt =====
-- The bytes of an `i64` determine it, so the input of the table hash determines table and user.
use zephyr_vm.Prelude.{
  sym, ap, ◌∙◌, take, drop, ℕ, ◌+◌, ◌*◌, ◌/◌, ◌^◌, ◌<◌, bit_and_byte, ◌≡◌, List, [], ◌∷◌, arith,
}
use zephyr_vm.Utils.{i64_to_bytes}
use zephyr_vm.Host.Instructions.{point_bytes}

-- The number of a list of bytes, lowest first.
abbrev pub from_le_bytes : List ℕ → ℕ
from_le_bytes [] = 0
from_le_bytes (b ∷ bs) = b + 256 * from_le_bytes bs

-- Decoding the eight bytes of a 64-bit pattern gives the pattern back.
pub from_le_bytes-i64_to_bytes : (v : ℕ) → v < 2 ^ 64 → from_le_bytes (i64_to_bytes v) ≡ v
unfolding i64_to_bytes
from_le_bytes-i64_to_bytes v h = omega (
  arith,
  bit_and_byte (v / 2 ^ 0),
  bit_and_byte (v / 2 ^ 8),
  bit_and_byte (v / 2 ^ 16),
  bit_and_byte (v / 2 ^ 24),
  bit_and_byte (v / 2 ^ 32),
  bit_and_byte (v / 2 ^ 40),
  bit_and_byte (v / 2 ^ 48),
  bit_and_byte (v / 2 ^ 56),
)

-- The sixteen bytes that a table's hash is taken of determine the table and the user: equal bytes
-- come from equal tables and equal users.
pub point_bytes-determines :
    (point point' id id' : ℕ)
    → point < 2 ^ 64
    → point' < 2 ^ 64
    → id < 2 ^ 64
    → id' < 2 ^ 64
    → point_bytes point id ≡ point_bytes point' id'
    → (point ≡ point') × (id ≡ id')
unfolding i64_to_bytes
point_bytes-determines point point' id id' p p' q q' e = (
  sym (from_le_bytes-i64_to_bytes point p)
      ∙ ap (λ (bs : List ℕ). from_le_bytes (take 8 bs)) e
      ∙ from_le_bytes-i64_to_bytes point' p',
  sym (from_le_bytes-i64_to_bytes id q)
      ∙ ap (λ (bs : List ℕ). from_le_bytes (drop 8 bs)) e
      ∙ from_le_bytes-i64_to_bytes id' q',
)
