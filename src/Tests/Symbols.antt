-- ===== src/Tests/Symbols.antt =====
-- The packing of names at concrete inputs.
use zephyr_vm.Prelude.{ℕ, ◌*◌, ◌+◌, ◌≡◌, refl, List, [], ◌∷◌, arith}
use zephyr_vm.Errors.{ok}
use zephyr_vm.Symbol.{to_string, from_body, try_from_bytes, accumulate, encode_char}
use zephyr_vm.Symbol.RoundTrip.{to_string-try_from_bytes}
use zephyr_vm.Symbol.Accepted.{try_from_bytes-accepts}

-- `a_9`
abbrev name : List ℕ
name = 97 ∷ 95 ∷ 57 ∷ []

-- Its letters are 38, 1 and 11.
abbrev packed : ℕ
packed = ((38 * 64 + 1) * 64 + 11) * 256 + 14

packs : try_from_bytes name ≡ ok packed
unfolding try_from_bytes accumulate encode_char from_body
packs = refl

to_string-try_from_bytes_example : to_string packed ≡ ok name
to_string-try_from_bytes_example = to_string-try_from_bytes name packed packs

try_from_bytes-accepts_example :
    (symbol : ℕ) × (try_from_bytes name ≡ ok symbol) × (to_string symbol ≡ ok name)
try_from_bytes-accepts_example =
    try_from_bytes-accepts name (omega arith) (refl, (refl, (refl, tt)))
