-- ===== src/Retrieval/Chunking/Quoting.antt =====
-- urllib.parse.quote of the standard library, with no safe characters, as _shared.py calls it.
pub mod Codes
pub mod Laws
use Prim.Native.Char.{Char, char, code}
use text.Mathlib.TextEquality.{Char-path}
use mama_gift.Base.{
  Bool, List, [], contains, if◌then◌else◌, leb, list_eq, ltb, nat_eq, option_eq, string_eq, suc,
  zero, ℕ, ◌%◌, ◌&&◌, ◌++◌, ◌+◌, ◌/◌, ◌||◌, ◌∷◌,
}

-- the characters that `quote` leaves as they are: ASCII letters and digits, `-`, `.`, `_` and `~`
unfoldable pub is_unreserved : ℕ → Bool
is_unreserved c =
    (leb b'a' c && leb c b'z')
    || ((leb b'A' c && leb c b'Z')
        || ((leb b'0' c && leb c b'9') || contains c (b'-' ∷ b'.' ∷ b'_' ∷ b'~' ∷ [])))

abbrev pub hex_digits : List Char
hex_digits =
    "0" ∷ "1" ∷ "2" ∷ "3" ∷ "4" ∷ "5" ∷ "6" ∷ "7" ∷ "8" ∷ "9" ∷ "A" ∷ "B" ∷ "C" ∷ "D" ∷ "E" ∷ "F"
    ∷ []

-- the character at a place; the last case is out of range
unfoldable pub char_in : List Char → ℕ → Char
char_in (c ∷ cs) zero = c
char_in (c ∷ cs) (suc n) = char_in cs n
char_in [] n = "?"

-- a digit of a byte in base 16, in upper case
unfoldable pub hex_digit : ℕ → Char
unfolding char_in
hex_digit n = char_in hex_digits n

-- the bytes of a code point in UTF-8
unfoldable pub utf8 : ℕ → List ℕ
utf8 c =
    if ltb c 128
    then c ∷ []
    else if ltb c 2048
    then (192 + c / 64) ∷ (128 + c % 64) ∷ []
    else if ltb c 65536
    then (224 + c / 4096) ∷ (128 + c / 64 % 64) ∷ (128 + c % 64) ∷ []
    else (240 + c / 262144) ∷ (128 + c / 4096 % 64) ∷ (128 + c / 64 % 64) ∷ (128 + c % 64) ∷ []

unfoldable pub percent_encode : List ℕ → List Char
unfolding hex_digit
percent_encode [] = []
percent_encode (b ∷ bs) = "%" ∷ hex_digit (b / 16) ∷ hex_digit (b % 16) ∷ percent_encode bs

unfoldable pub quote_char : Char → List Char
unfolding is_unreserved utf8 percent_encode
quote_char c = if is_unreserved (code c) then c ∷ [] else percent_encode (utf8 (code c))

unfoldable pub quote : List Char → List Char
unfolding quote_char
quote [] = []
quote (c ∷ cs) = quote_char c ++ quote cs
