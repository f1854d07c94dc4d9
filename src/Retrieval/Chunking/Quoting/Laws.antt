-- ===== src/Retrieval/Chunking/Quoting/Laws.antt =====
-- Quoting loses nothing, and makes no colon.
use Prim.Native.Char.{Char, code}
use text.Mathlib.TextEquality.{Char-path}
use mama_gift.Base.{
  All, All-append, Bool-cases, List, [], ap, arith, inl, inr, list_eq, nat_eq, option_eq, refl,
  string_eq, suc, sym, zero, ℕ, ◌%◌, ◌++◌, ◌/◌, ◌∙◌, ◌∷◌, ◌≡◌, ◌≢◌,
}
use mama_gift.Retrieval.Chunking.Quoting.{
  char_in, hex_digit, hex_digits, is_unreserved, percent_encode, quote, quote_char, utf8,
}
use mama_gift.Retrieval.Chunking.Quoting.Codes.{next_code, next_code-quote_char}

-- `utf8` has a first byte, so a quoted character is not empty
quote_char-nonempty : (c : Char) (rest : List Char) → quote_char c ++ rest ≢ []
unfolding quote_char utf8 percent_encode
quote_char-nonempty c rest h = ground arith

-- Quoting loses nothing.
pub quote-injective : (cs ds : List Char) → quote cs ≡ quote ds → cs ≡ ds
unfolding quote
quote-injective [] [] h = refl
quote-injective [] (d ∷ ds) h = absurd (quote_char-nonempty d (quote ds) (sym h))
quote-injective (c ∷ cs) [] h = absurd (quote_char-nonempty c (quote cs) h)
quote-injective (c ∷ cs) (d ∷ ds) h =
    let both =
      sym (next_code-quote_char c (quote cs))
      ∙ ap next_code h
      ∙ next_code-quote_char d (quote ds) in
    λ i. Char-path c d (ap (λ p. p.0) both) i ∷ quote-injective cs ds (ap (λ p. p.1) both) i

-- The separator of an identifier's parts occurs in none of them.
abbrev pub NoColon : List Char → Type 0
NoColon cs = All (λ c. code c ≢ b':') cs

char_in-NoColon : (cs : List Char) (n : ℕ) → NoColon cs → code (char_in cs n) ≢ b':'
unfolding char_in
char_in-NoColon (c ∷ cs) zero a = a.0
char_in-NoColon (c ∷ cs) (suc n) a = char_in-NoColon cs n a.1
char_in-NoColon [] n a = λ h. ground arith

pub hex_digit-NoColon : (n : ℕ) → code (hex_digit n) ≢ b':'
unfolding hex_digit
hex_digit-NoColon n = char_in-NoColon hex_digits n (ground arith)

percent_encode-NoColon : (bs : List ℕ) → NoColon (percent_encode bs)
unfolding percent_encode
percent_encode-NoColon [] = tt
percent_encode-NoColon (b ∷ bs) = (
  ground arith,
  (hex_digit-NoColon (b / 16), (hex_digit-NoColon (b % 16), percent_encode-NoColon bs)),
)

quote_char-NoColon : (c : Char) → NoColon (quote_char c)
unfolding quote_char is_unreserved
quote_char-NoColon c = elim (Bool-cases (is_unreserved (code c))) [
  | inl u ↦ rw u ((λ h. ground arith), tt)
  | inr r ↦ rw r (percent_encode-NoColon (utf8 (code c)))
]

pub quote-NoColon : (cs : List Char) → NoColon (quote cs)
unfolding quote
quote-NoColon [] = tt
quote-NoColon (c ∷ cs) =
    All-append (λ d. code d ≢ b':') (quote_char c) (quote cs) (quote_char-NoColon c)
      (quote-NoColon cs)
