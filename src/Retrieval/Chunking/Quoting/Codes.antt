-- ===== src/Retrieval/Chunking/Quoting/Codes.antt =====
-- The bytes of a code point are read back from their quoting.
use Prim.Native.Char.{Char, char, code}
use mama_gift.Base.{
  Bool-cases, List, [], ap, arith, if◌then◌else◌, inl, inr, leb, length, list_eq, ltb, nat_eq,
  option_eq, refl, string_eq, suc, zero, ℕ, ◌%◌, ◌*◌, ◌++◌, ◌+◌, ◌-◌, ◌/◌, ◌<◌, ◌==◌, ◌∙◌, ◌∷◌, ◌≡◌,
}
use mama_gift.Retrieval.Chunking.Quoting.{
  char_in, hex_digit, hex_digits, is_unreserved, percent_encode, quote_char, utf8,
}

-- Reading a quoted text back, one byte and one code point at a time.
unfoldable pub hex_value : ℕ → ℕ
hex_value c = if leb c 57 then c - 48 else c - 55

-- the characters stand for the values from `n` on
abbrev Digits : ℕ → List Char → Type 0
Digits n [] = Unit
Digits n (c ∷ cs) = (hex_value (code c) ≡ n) × Digits (suc n) cs

char_in-Digits :
    (from n : ℕ) (cs : List Char)
    → Digits from cs
    → n < length cs
    → hex_value (code (char_in cs n)) ≡ from + n
unfolding char_in
char_in-Digits from n [] d h = absurd (omega arith)
char_in-Digits from zero (c ∷ cs) d h = d.0 ∙ omega arith
char_in-Digits from (suc n) (c ∷ cs) d h =
    char_in-Digits (suc from) n cs d.1 (omega arith) ∙ omega arith

hex_digits-Digits : Digits 0 hex_digits
unfolding hex_value
hex_digits-Digits = (
  refl,
  (
    refl,
    (
      refl,
      (
        refl,
        (
          refl,
          (
            refl,
            (refl, (refl, (refl, (refl, (refl, (refl, (refl, (refl, (refl, (refl, tt)))))))))),
          ),
        ),
      ),
    ),
  ),
)

pub hex_value-hex_digit : (n : ℕ) → n < 16 → hex_value (code (hex_digit n)) ≡ n
unfolding hex_digit
hex_value-hex_digit n h = char_in-Digits 0 n hex_digits hex_digits-Digits h ∙ omega arith

read_byte : List Char → ℕ × List Char
read_byte (p ∷ h ∷ l ∷ cs) = (16 * hex_value (code h) + hex_value (code l), cs)
read_byte cs = (0, cs)

read_byte-percent_encode :
    (b : ℕ) (bs : List ℕ) (rest : List Char)
    → b < 256
    → read_byte (percent_encode (b ∷ bs) ++ rest) ≡ (b, percent_encode bs ++ rest)
unfolding read_byte percent_encode
read_byte-percent_encode b bs rest h =
    ap (λ n. (n, percent_encode bs ++ rest))
      (rw (hex_value-hex_digit (b / 16) (omega arith), hex_value-hex_digit (b % 16) (omega arith))
        (omega arith))

-- one more byte of a code point
next_byte : ℕ × List Char → ℕ × List Char
unfolding read_byte
next_byte (n, cs) = let (b, rest) = read_byte cs in (n * 64 + (b - 128), rest)

after_first : ℕ → List Char → ℕ × List Char
unfolding next_byte
after_first b cs =
    if ltb b 128
    then (b, cs)
    else if ltb b 224
    then next_byte (b - 192, cs)
    else if ltb b 240
    then next_byte (next_byte (b - 224, cs))
    else next_byte (next_byte (next_byte (b - 240, cs)))

pub next_code : List Char → ℕ × List Char
unfolding after_first read_byte
next_code [] = (0, [])
next_code (c ∷ cs) =
    let (b, rest) = read_byte (c ∷ cs) in
    if code c == b'%' then after_first b rest else (code c, cs)

next_byte-percent_encode :
    (n b : ℕ) (bs : List ℕ) (rest : List Char)
    → b < 64
    → next_byte (n, percent_encode ((128 + b) ∷ bs) ++ rest)
      ≡ (n * 64 + b, percent_encode bs ++ rest)
unfolding next_byte
next_byte-percent_encode n b bs rest h =
    rw (read_byte-percent_encode (128 + b) bs rest (omega arith))
      (ap (λ m. (n * 64 + m, percent_encode bs ++ rest)) (omega arith))

next_code-first :
    (b : ℕ) (bs : List ℕ) (rest : List Char)
    → b < 256
    → next_code (percent_encode (b ∷ bs) ++ rest) ≡ after_first b (percent_encode bs ++ rest)
unfolding next_code percent_encode
next_code-first b bs rest h = ap (λ p. after_first p.0 p.1) (read_byte-percent_encode b bs rest h)

after_first-one : (b : ℕ) (cs : List Char) → b < 128 → after_first b cs ≡ (b, cs)
unfolding after_first
after_first-one b cs h = ground arith

after_first-two : (b : ℕ) (cs : List Char) → b < 32 → after_first (192 + b) cs ≡ next_byte (b, cs)
unfolding after_first
after_first-two b cs h = ground arith

after_first-three :
    (b : ℕ) (cs : List Char) → b < 16 → after_first (224 + b) cs ≡ next_byte (next_byte (b, cs))
unfolding after_first
after_first-three b cs h = ground arith

after_first-four :
    (b : ℕ) (cs : List Char) → after_first (240 + b) cs ≡ next_byte (next_byte (next_byte (b, cs)))
unfolding after_first
after_first-four b cs = ground arith

-- The codes of one, two, three and four bytes.
module _ (rest : List Char) where
  next_code-two :
      (b c : ℕ)
      → b < 32
      → c < 64
      → next_code (percent_encode ((192 + b) ∷ (128 + c) ∷ []) ++ rest) ≡ (b * 64 + c, rest)
  unfolding percent_encode
  next_code-two b c hb hc =
      next_code-first (192 + b) ((128 + c) ∷ []) rest (omega arith)
      ∙ after_first-two b (percent_encode ((128 + c) ∷ []) ++ rest) hb
      ∙ next_byte-percent_encode b c [] rest hc

  next_code-three :
      (b c d : ℕ)
      → b < 16
      → c < 64
      → d < 64
      → next_code (percent_encode ((224 + b) ∷ (128 + c) ∷ (128 + d) ∷ []) ++ rest)
        ≡ ((b * 64 + c) * 64 + d, rest)
  unfolding percent_encode
  next_code-three b c d hb hc hd =
      next_code-first (224 + b) ((128 + c) ∷ (128 + d) ∷ []) rest (omega arith)
      ∙ after_first-three b (percent_encode ((128 + c) ∷ (128 + d) ∷ []) ++ rest) hb
      ∙ ap next_byte (next_byte-percent_encode b c ((128 + d) ∷ []) rest hc)
      ∙ next_byte-percent_encode (b * 64 + c) d [] rest hd

  next_code-four :
      (b c d e : ℕ)
      → b < 16
      → c < 64
      → d < 64
      → e < 64
      → next_code (percent_encode ((240 + b) ∷ (128 + c) ∷ (128 + d) ∷ (128 + e) ∷ []) ++ rest)
        ≡ (((b * 64 + c) * 64 + d) * 64 + e, rest)
  unfolding percent_encode
  next_code-four b c d e hb hc hd he =
      next_code-first (240 + b) ((128 + c) ∷ (128 + d) ∷ (128 + e) ∷ []) rest (omega arith)
      ∙ after_first-four b (percent_encode ((128 + c) ∷ (128 + d) ∷ (128 + e) ∷ []) ++ rest)
      ∙ ap (λ p. next_byte (next_byte p))
          (next_byte-percent_encode b c ((128 + d) ∷ (128 + e) ∷ []) rest hc)
      ∙ ap next_byte (next_byte-percent_encode (b * 64 + c) d ((128 + e) ∷ []) rest hd)
      ∙ next_byte-percent_encode ((b * 64 + c) * 64 + d) e [] rest he

-- an encoded code point is read back, and what follows it is left
pub next_code-utf8 :
    (n : ℕ) (rest : List Char)
    → n < 1114112
    → next_code (percent_encode (utf8 n) ++ rest) ≡ (n, rest)
unfolding utf8 percent_encode
next_code-utf8 n rest h = elim (Bool-cases (ltb n 128)) [
  | inl a ↦ rw a (next_code-first n [] rest (ground arith) ∙ after_first-one n rest (ground arith))
  | inr a ↦ elim (Bool-cases (ltb n 2048)) [
    | inl b ↦
        rw (a, b)
          (next_code-two rest (n / 64) (n % 64) (ground arith) (omega arith)
            ∙ ap (λ m. (m, rest)) (omega arith))
    | inr b ↦ elim (Bool-cases (ltb n 65536)) [
      | inl c ↦
          rw (a, b, c)
            (next_code-three rest (n / 4096) (n / 64 % 64) (n % 64) (ground arith) (omega arith)
                (omega arith)
              ∙ ap (λ m. (m, rest)) (omega arith))
      | inr c ↦
          rw (a, b, c)
            (next_code-four rest (n / 262144) (n / 4096 % 64) (n / 64 % 64) (n % 64) (omega arith)
                (omega arith) (omega arith) (omega arith)
              ∙ ap (λ m. (m, rest)) (omega arith))
    ]
  ]
]

below : (c : Char) → code c < 1114112
below (char n p) = ground arith

-- a quoted character is read back, and what follows it is left
pub next_code-quote_char :
    (c : Char) (rest : List Char) → next_code (quote_char c ++ rest) ≡ (code c, rest)
unfolding quote_char next_code is_unreserved
next_code-quote_char c rest = elim (Bool-cases (is_unreserved (code c))) [
  | inl u ↦ rw u (ground arith)
  | inr r ↦ rw r (next_code-utf8 (code c) rest (below c))
]
