-- ===== src/Symbol.antt =====
-- The names of columns, packed into a 64-bit value: rs-zephyr-env/src/testutils/symbol.rs. A letter
-- takes six bits, the first letter the highest; the lowest byte is a tag. A text is the list of its
-- character codes.
pub mod RoundTrip
pub mod Accepted
use zephyr_vm.Prelude.{
  ℕ, zero, suc, ◌+◌, ◌-◌, ◌*◌, ◌/◌, ◌%◌, ◌^◌, bit_and, bit_or, Bool, not, ◌&&◌, List, [], ◌∷◌, ltb,
  leb, ◌==◌, if◌then◌else◌,
}
use zephyr_vm.Errors.{Result, ok, err, panic}
use zephyr_vm.Exec.{map_ok}

abbrev pub tag : ℕ
tag = 14

pub data SymbolError : Type 0 where
  invalid_symbol : SymbolError

abbrev within : ℕ → ℕ → ℕ → Bool
within low high n = leb low n && leb n high

-- The character of six bits.
unfoldable pub char_of : ℕ → Result ℕ SymbolError
char_of index =
    if index == 1
    then ok 95
    else if within 2 11 index
    then ok (48 + index - 2)
    else if within 12 37 index
    then ok (65 + index - 12)
    else if within 38 63 index
    then ok (97 + index - 38)
    else err invalid_symbol

-- A letter in front of those that are read after it.
unfoldable pub then_letter :
    Result ℕ SymbolError → Result (List ℕ) SymbolError → Result (List ℕ) SymbolError
then_letter (ok c) rest = map_ok (λ cs. c ∷ cs) rest
then_letter (err e) rest = err e
then_letter panic rest = panic

-- `while body > 0`, the letters in the order of the pushes. The first number bounds the rounds; the
-- body itself is bound enough.
unfoldable pub letters : ℕ → ℕ → Result (List ℕ) SymbolError
letters zero body = ok []
letters (suc rounds) body =
    let rest = letters rounds (body / 2 ^ 6) in
    if ltb 0 body then then_letter (char_of (bit_and body 63)) rest else ok []

unfoldable pub reverse_onto : List ℕ → List ℕ → List ℕ
reverse_onto [] acc = acc
reverse_onto (c ∷ cs) acc = reverse_onto cs (c ∷ acc)

unfoldable pub to_string : ℕ → Result (List ℕ) SymbolError
to_string symbol =
    let body = symbol / 2 ^ 8 in
    if not (bit_and symbol tag == tag)
    then err invalid_symbol
    else map_ok (λ cs. reverse_onto cs []) (letters body body)

unfoldable pub from_body : ℕ → ℕ
from_body body = bit_or (body * 2 ^ 8 % 2 ^ 64) tag

unfoldable pub encode_char : ℕ → Result ℕ SymbolError
encode_char ch =
    if ch == 95
    then ok 1
    else if within 48 57 ch
    then ok (2 + (ch - 48))
    else if within 65 90 ch
    then ok (12 + (ch - 65))
    else if within 97 122 ch
    then ok (38 + (ch - 97))
    else err invalid_symbol

-- The loop of `try_from_bytes`: `n` letters have been read into `accum`.
unfoldable pub accumulate : ℕ → ℕ → List ℕ → Result ℕ SymbolError
accumulate n accum [] = ok accum
accumulate n accum (ch ∷ b) = if leb 9 n then err invalid_symbol else elim (encode_char ch) [
  | ok v ↦ accumulate (suc n) (bit_or (accum * 2 ^ 6 % 2 ^ 64) v) b
  | err e ↦ err e
  | panic ↦ panic
]

unfoldable pub try_from_bytes : List ℕ → Result ℕ SymbolError
try_from_bytes b = map_ok from_body (accumulate 0 0 b)
