-- ===== src/Utils.antt =====
-- The bytes of an `i64`, lowest first: rs-zephyr-env/src/host/utils.rs.
pub mod Bytes
use zephyr_vm.Prelude.{ℕ, ◌/◌, ◌%◌, ◌^◌, bit_and, List, [], ◌∷◌}

-- `((value >> k) & 0xFF) as u8`
abbrev byte_at : ℕ → ℕ → ℕ
byte_at value k = bit_and (value / 2 ^ k) 0xFF % 256

unfoldable pub i64_to_bytes : ℕ → List ℕ
i64_to_bytes value =
    byte_at value 0
    ∷ byte_at value 8
    ∷ byte_at value 16
    ∷ byte_at value 24
    ∷ byte_at value 32
    ∷ byte_at value 40
    ∷ byte_at value 48
    ∷ byte_at value 56
    ∷ []
