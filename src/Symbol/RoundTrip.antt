-- ===== src/Symbol/RoundTrip.antt =====
-- Packing a name and unpacking it gives the name back.
use zephyr_vm.Prelude.{
  ℕ, zero, suc, ◌+◌, ◌*◌, ◌/◌, ◌%◌, ◌^◌, ◌≤◌, ◌<◌, ◌≡◌, refl, ap, subst, ◌∙◌, ⊤, bit_and, bit_or,
  bit_or_six, bit_or_tag, bit_and_six, bit_and_tag, List, [], ◌∷◌, arith, ltb, lt→ltb, leb, lt→leb,
  le→leb, true, if◌then◌else◌,
}
use zephyr_vm.Errors.{Result, ok, err, panic, Returns}
use zephyr_vm.Exec.{map_ok}
use zephyr_vm.Symbol.{
  SymbolError, char_of, then_letter, letters, reverse_onto, to_string, from_body, encode_char,
  accumulate, try_from_bytes,
}

-- Any number of rounds that covers the body reads the same letters.
letters-enough : (n m body : ℕ) → body ≤ n → body ≤ m → letters n body ≡ letters m body
unfolding letters
letters-enough zero zero body p q = refl
letters-enough zero (suc m) body p q = let e : body ≡ 0 = omega arith in rw e refl
letters-enough (suc n) zero body p q = let e : body ≡ 0 = omega arith in rw e refl
letters-enough (suc n) (suc m) body p q =
    ap
      (λ (rest : Result (List ℕ) SymbolError).
        if ltb 0 body then then_letter (char_of (bit_and body 63)) rest else ok [])
      (letters-enough n m (body / 64) (omega arith) (omega arith))

-- The number spells these letters, the last one first.
abbrev Spells : ℕ → List ℕ → Type 0
Spells a cs = letters a a ≡ ok cs

-- A letter, and the six bits that stand for it.
abbrev Letter : ℕ → ℕ → Type 0
Letter c v = (0 < v) × (v < 64) × (char_of v ≡ ok c)

Spells-Letter : (a v c : ℕ) (cs : List ℕ) → Letter c v → Spells a cs → Spells (64 * a + v) (c ∷ cs)
unfolding letters then_letter
Spells-Letter a v c cs (p, q, e) s =
    let body = 64 * a + v in
    let six : bit_and body 63 ≡ v = bit_and_six body ∙ omega arith in
    let above : body / 64 ≡ a = omega arith in
    letters-enough body (suc body) body (omega arith) (omega arith)
    ∙ rw
        (
          lt→ltb 0 body (omega arith),
          six,
          e,
          above,
          letters-enough body a a (omega arith) (omega arith),
          s,
        )
        refl

-- Whatever is encoded is a letter.
abbrev Encodes : ℕ → Result ℕ SymbolError → Type 0
Encodes c (ok v) = Letter c v
Encodes c (err e) = ⊤
Encodes c panic = ⊤

encode_char-Encodes : (c : ℕ) → Encodes c (encode_char c)
unfolding encode_char char_of
encode_char-Encodes c = ground arith

-- So that many letters may still be read: the bound on the number is divided by 64 for each.
abbrev room : ℕ → ℕ
room zero = 2 ^ 54
room (suc k) = room k / 64

room-small : (k : ℕ) → room k ≤ 2 ^ 54
room-small zero = omega arith
room-small (suc k) = let smaller = room-small k in omega arith

-- The shift of a number that has room does not wrap around, and the letter goes below it.
shifted : (a v : ℕ) → a < 2 ^ 54 → v < 64 → bit_or (a * 2 ^ 6 % 2 ^ 64) v ≡ 64 * a + v
shifted a v p q =
    let whole : a * 2 ^ 6 % 2 ^ 64 ≡ 64 * a = omega arith in rw whole (bit_or_six a v q)

-- A letter that does not encode ends the loop.
resume :
    {ch : ℕ} (Q : ℕ → Type 0) (r : Result ℕ SymbolError) (next : ℕ → Result ℕ SymbolError)
    → Encodes ch r
    → ((v : ℕ) → Letter ch v → Returns Q (next v))
    → Returns Q (elim r [ ok v ↦ next v | err e ↦ err e | panic ↦ panic ])
resume Q (ok v) next e goes = goes v e
resume Q (err _) next e goes = tt
resume Q panic next e goes = tt

-- The loop's number spells what has been read.
accumulate-Spells :
    (b cs : List ℕ) (n k accum : ℕ)
    → n + k ≡ 9
    → accum < room k
    → Spells accum cs
    → Returns (λ a. (a < 2 ^ 54) × Spells a (reverse_onto b cs)) (accumulate n accum b)
unfolding accumulate reverse_onto
accumulate-Spells [] cs n k accum e fits s = let small = room-small k in (omega arith, s)
accumulate-Spells (ch ∷ b) cs n zero accum e fits s =
    let full : leb 9 n ≡ true = le→leb 9 n (omega arith) in rw full tt
accumulate-Spells (ch ∷ b) cs n (suc k) accum e fits s =
    let small = room-small k in
    rw (lt→leb 9 n (omega arith)) (
      resume (λ a. (a < 2 ^ 54) × Spells a (reverse_onto b (ch ∷ cs))) (encode_char ch) _
        (encode_char-Encodes ch)
        λ v (positive, six, letter). rw (shifted accum v (omega arith) six) (
          accumulate-Spells b (ch ∷ cs) (suc n) k (64 * accum + v) (omega arith) (omega arith)
            (Spells-Letter accum v ch cs (positive, six, letter) s)))

-- A packed number that is small enough unpacks to what it spells.
to_string-from_body :
    (a : ℕ) (cs : List ℕ)
    → a < 2 ^ 54
    → Spells a cs
    → to_string (from_body a) ≡ ok (reverse_onto cs [])
unfolding to_string from_body
to_string-from_body a cs small s =
    let whole : a * 2 ^ 8 % 2 ^ 64 ≡ 256 * a = omega arith in
    let tagged : bit_and (256 * a + 14) 14 ≡ 14 = bit_and_tag (256 * a + 14) ∙ omega arith in
    let above : (256 * a + 14) / 2 ^ 8 ≡ a = omega arith in
    rw (whole, bit_or_tag a, tagged, above, s) refl

reverse_onto-twice : (b cs : List ℕ) → reverse_onto (reverse_onto b cs) [] ≡ reverse_onto cs b
unfolding reverse_onto
reverse_onto-twice [] cs = refl
reverse_onto-twice (c ∷ b) cs = reverse_onto-twice b (c ∷ cs)

unpacks :
    (b : List ℕ) (r : Result ℕ SymbolError)
    → Returns (λ a. (a < 2 ^ 54) × Spells a (reverse_onto b [])) r
    → Returns (λ s. to_string s ≡ ok b) (map_ok from_body r)
unfolding reverse_onto
unpacks b (ok a) (small, s) =
    to_string-from_body a (reverse_onto b []) small s ∙ ap (λ cs. ok cs) (reverse_onto-twice b [])
unpacks b (err e) h = tt
unpacks b panic h = tt

-- Whatever bytes `try_from_bytes` packs, `to_string` unpacks to the same bytes.
pub to_string-try_from_bytes :
    (b : List ℕ) (symbol : ℕ) → try_from_bytes b ≡ ok symbol → to_string symbol ≡ ok b
unfolding try_from_bytes letters
to_string-try_from_bytes b symbol e =
    subst (λ (r : Result ℕ SymbolError). Returns (λ s. to_string s ≡ ok b) r) e
      (unpacks b (accumulate 0 0 b) (accumulate-Spells b [] 0 9 0 refl (omega arith) refl))
