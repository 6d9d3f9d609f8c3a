-- ===== src/Symbol/Accepted.antt =====
-- Which names can be packed, and which values unpack.
use zephyr_vm.Prelude.{
  ℕ, suc, ◌+◌, ◌*◌, ◌/◌, ◌%◌, ◌^◌, ◌≤◌, ◌<◌, ◌≡◌, refl, ◌∙◌, ⊤, bit_and, bit_and_tag, Bool, true,
  ◌&&◌, ◌||◌, List, [], ◌∷◌, length, arith, leb, ◌==◌, lt→leb,
}
use zephyr_vm.Errors.{Result, ok, err, panic}
use zephyr_vm.Exec.{map_ok}
use zephyr_vm.Symbol.{to_string, from_body, encode_char, accumulate, try_from_bytes}
use zephyr_vm.Symbol.RoundTrip.{to_string-try_from_bytes}

-- An underscore, a digit or a letter of ASCII.
abbrev is_name_char : ℕ → Bool
is_name_char c =
    (c == 95) || (leb 48 c && leb c 57) || (leb 65 c && leb c 90) || (leb 97 c && leb c 122)

abbrev pub IsName : List ℕ → Type 0
IsName [] = ⊤
IsName (c ∷ b) = (is_name_char c ≡ true) × IsName b

abbrev Succeeds : {A E : Type 0} → Result A E → Type 0
Succeeds (ok a) = ⊤
Succeeds (err e) = ⊥
Succeeds panic = ⊥

value : {A E : Type 0} (r : Result A E) → Succeeds r → (a : A) × (r ≡ ok a)
value (ok a) s = (a, refl)
value (err e) s = absurd s
value panic s = absurd s

encode_char-Succeeds : (c : ℕ) → is_name_char c ≡ true → Succeeds (encode_char c)
unfolding encode_char
encode_char-Succeeds c h = ground arith

accumulate-Succeeds :
    (b : List ℕ) (n accum : ℕ) → n + length b ≤ 9 → IsName b → Succeeds (accumulate n accum b)
unfolding accumulate
accumulate-Succeeds [] n accum fits h = tt
accumulate-Succeeds (c ∷ b) n accum fits (h, rest) =
    let (v, e) = value (encode_char c) (encode_char-Succeeds c h) in
    rw (lt→leb 9 n (omega arith), e) (accumulate-Succeeds b (suc n) _ (omega arith) rest)

map_ok-Succeeds : {A B E : Type 0} (f : A → B) (r : Result A E) → Succeeds r → Succeeds (map_ok f r)
map_ok-Succeeds f (ok a) s = tt
map_ok-Succeeds f (err e) s = absurd s
map_ok-Succeeds f panic s = absurd s

-- A name of at most nine underscores, digits and ASCII letters is packed, and unpacks to itself.
pub try_from_bytes-accepts :
    (b : List ℕ)
    → length b ≤ 9
    → IsName b
    → (symbol : ℕ) × (try_from_bytes b ≡ ok symbol) × (to_string symbol ≡ ok b)
unfolding try_from_bytes
try_from_bytes-accepts b fits h =
    let packs = map_ok-Succeeds from_body _ (accumulate-Succeeds b 0 0 (omega arith) h) in
    let (symbol, e) = value (try_from_bytes b) packs in
    (symbol, e, to_string-try_from_bytes b symbol e)

-- The test of the tag looks at three bits of it: a value with any of the other tags that have these
-- bits unpacks to the same name as a symbol with the tag 14.
pub to_string-other_tag :
    (body other : ℕ)
    → other < 256
    → other % 16 / 2 ≡ 7
    → to_string (256 * body + other) ≡ to_string (256 * body + 14)
unfolding to_string
to_string-other_tag body other small e =
    let passes : bit_and (256 * body + other) 14 ≡ 14 =
      bit_and_tag (256 * body + other) ∙ omega arith in
    let tagged : bit_and (256 * body + 14) 14 ≡ 14 = bit_and_tag (256 * body + 14) ∙ omega arith in
    let above : (256 * body + other) / 2 ^ 8 ≡ body = omega arith in
    let above' : (256 * body + 14) / 2 ^ 8 ≡ body = omega arith in
    rw (passes, tagged, above, above') refl
