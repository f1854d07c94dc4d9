-- ===== src/Retrieval/Chunking/Identifiers.antt =====
-- chunk_id of _shared.py: the identifier of a chunk, from its document, version, run and suffix.
use Prim.Native.Char.{Char, IsScalar, char, code}
use text.Mathlib.TextBridge.{of_list}
use mama_gift.Base.{
  AreDigits, Bool, List, Option, String, Text, [], ap, arith, decimal, decimal-AreDigits,
  decimal-injective, drop, false, list_eq, ltb, map, nat_eq, none, option_eq, refl, some, string_eq,
  subst, sym, true, ℕ, ◌&&◌, ◌++◌, ◌+◌, ◌-◌, ◌∙◌, ◌∷◌, ◌≡◌, ◌≢◌,
}
use mama_gift.Docpipe.Canonical.{CanonicalDocument}
use mama_gift.Retrieval.Chunking.Quoting.{hex_digit, quote}
use mama_gift.Retrieval.Chunking.Quoting.Codes.{hex_value, hex_value-hex_digit}
use mama_gift.Retrieval.Chunking.Quoting.Laws.{
  NoColon, hex_digit-NoColon, quote-NoColon, quote-injective,
}

-- the characters of a text
abbrev pub chars : String → List Char
chars String.[] = []
chars (String.◌∷◌ c s) = c ∷ chars s

chars-of_list : (cs : List Char) → chars (of_list cs) ≡ cs
chars-of_list [] = refl
chars-of_list (c ∷ cs) = ap (λ ds. c ∷ ds) (chars-of_list cs)

of_list-chars : (s : String) → of_list (chars s) ≡ s
of_list-chars String.[] = refl
of_list-chars (String.◌∷◌ c s) = ap (λ t. String.◌∷◌ c t) (of_list-chars s)

pub low-IsScalar : (n : ℕ) → ltb n 55296 ≡ true → IsScalar n
low-IsScalar n h = ground arith

pub high-IsScalar : (n : ℕ) → (ltb 57343 n && ltb n 1114112) ≡ true → IsScalar n
high-IsScalar n h = ground arith

unfoldable pub scalar_char :
    (n : ℕ) (low high : Bool) → ltb n 55296 ≡ low → (ltb 57343 n && ltb n 1114112) ≡ high → Char
scalar_char n true high e f = char n (low-IsScalar n e)
scalar_char n false true e f = char n (high-IsScalar n f)
scalar_char n false false e f = "?"

-- the text of code points; a number that is none becomes `?`
unfoldable pub char_of : ℕ → Char
unfolding scalar_char
char_of n = scalar_char n (ltb n 55296) (ltb 57343 n && ltb n 1114112) refl refl

unfoldable pub text_of : Text → String
unfolding char_of
text_of t = of_list (map char_of t)

-- `str` of a number
unfoldable pub digits : ℕ → List Char
unfolding hex_digit decimal
digits n = map (λ c. hex_digit (c - 48)) (decimal n)

unfoldable pub version_part : Option ℕ → List Char
unfolding digits
version_part none = chars "vnone"
version_part (some version) = "v" ∷ digits version

-- the parts, joined by colons
unfoldable pub joined_parts : String → Option ℕ → String → String → List Char
unfolding quote version_part
joined_parts document_id document_version parse_run_id suffix =
    quote (chars document_id)
    ++ (":"
        ∷ (version_part document_version
            ++ (":" ∷ (quote (chars parse_run_id) ++ (":" ∷ quote (chars suffix))))))

unfoldable pub chunk_id : String → Option ℕ → String → String → String
unfolding joined_parts
chunk_id document_id document_version parse_run_id suffix =
    of_list (chars "chunk:" ++ joined_parts document_id document_version parse_run_id suffix)

-- the identifier of a chunk of the document
unfoldable pub id_in : CanonicalDocument → Option ℕ → String → String
unfolding chunk_id
id_in document version suffix = chunk_id document.document_id version document.parser_run_id suffix

head-eq : {c d : Char} {cs ds : List Char} → ◌≡◌ {A = List Char} (c ∷ cs) (d ∷ ds) → c ≡ d
head-eq h = cc

-- Two texts that agree up to a first colon agree before and after it.
split_at_colon :
    (xs ys : List Char) {cs ds : List Char}
    → NoColon xs
    → NoColon ys
    → xs ++ (":" ∷ cs) ≡ ys ++ (":" ∷ ds)
    → (xs ≡ ys) × (cs ≡ ds)
split_at_colon [] [] a b h = (refl, cc)
split_at_colon [] (y ∷ ys) a b h = absurd (b.0 (ap code (sym (head-eq h))))
split_at_colon (x ∷ xs) [] a b h = absurd (a.0 (ap code (head-eq h)))
split_at_colon (x ∷ xs) (y ∷ ys) a b h = let (e, f) = split_at_colon xs ys a.1 b.1 cc in (cc, f)

-- a digit is read back from its character
code_of_digit : List Char → List ℕ
code_of_digit [] = []
code_of_digit (c ∷ cs) = (48 + hex_value (code c)) ∷ code_of_digit cs

read_digits : (ds : List ℕ) → AreDigits ds → code_of_digit (map (λ c. hex_digit (c - 48)) ds) ≡ ds
unfolding code_of_digit
read_digits [] a = refl
read_digits (d ∷ ds) a = ground (arith, hex_value-hex_digit (d - 48), read_digits ds a.1)

digits-injective : (m n : ℕ) → digits m ≡ digits n → m ≡ n
unfolding digits
digits-injective m n h = decimal-injective m n (
    sym (read_digits (decimal m) (decimal-AreDigits m))
    ∙ ap code_of_digit h
    ∙ read_digits (decimal n) (decimal-AreDigits n))

digit_chars-NoColon : (ds : List ℕ) → NoColon (map (λ c. hex_digit (c - 48)) ds)
digit_chars-NoColon [] = tt
digit_chars-NoColon (d ∷ ds) = (hex_digit-NoColon (d - 48), digit_chars-NoColon ds)

digits-NoColon : (n : ℕ) → NoColon (digits n)
unfolding digits
digits-NoColon n = digit_chars-NoColon (decimal n)

digits-AreDigits : (n : ℕ) → AreDigits (code_of_digit (digits n))
unfolding digits
digits-AreDigits n =
    subst AreDigits (sym (read_digits (decimal n) (decimal-AreDigits n))) (decimal-AreDigits n)

-- the word of a missing version is not a number
no_number : (n : ℕ) → digits n ≢ chars "none"
unfolding code_of_digit hex_value
no_number n h = ground (arith, subst (λ ds. AreDigits (code_of_digit ds)) h (digits-AreDigits n))

version_part-NoColon : (v : Option ℕ) → NoColon (version_part v)
unfolding version_part
version_part-NoColon none = ground arith
version_part-NoColon (some v) = (λ h. ground arith, digits-NoColon v)

version_part-injective : (v w : Option ℕ) → version_part v ≡ version_part w → v ≡ w
unfolding version_part
version_part-injective none none h = refl
version_part-injective none (some w) h = absurd (no_number w (ap (drop 1) (sym h)))
version_part-injective (some v) none h = absurd (no_number v (ap (drop 1) h))
version_part-injective (some v) (some w) h = ap some (digits-injective v w cc)

chars-injective : (s t : String) → chars s ≡ chars t → s ≡ t
chars-injective s t h = sym (of_list-chars s) ∙ ap of_list h ∙ of_list-chars t

quoted-injective : (s t : String) → quote (chars s) ≡ quote (chars t) → s ≡ t
quoted-injective s t h = chars-injective s t (quote-injective (chars s) (chars t) h)

joined_parts-eq :
    (d d' : String) (v v' : Option ℕ) (r r' s s' : String)
    → chunk_id d v r s ≡ chunk_id d' v' r' s'
    → joined_parts d v r s ≡ joined_parts d' v' r' s'
unfolding chunk_id
joined_parts-eq d d' v v' r r' s s' h =
    ap (λ cs. drop 6 cs)
      (sym (chars-of_list (chars "chunk:" ++ joined_parts d v r s))
        ∙ ap chars h
        ∙ chars-of_list (chars "chunk:" ++ joined_parts d' v' r' s'))

-- Two chunks whose identifiers are equal have the same document, version, parse run and suffix:
-- whatever characters the four hold, no two sources share an identifier.
pub chunk_id-injective :
    (document_id other_document : String) (version other_version : Option ℕ)
    (run other_run suffix other_suffix : String)
    → chunk_id document_id version run suffix
      ≡ chunk_id other_document other_version other_run other_suffix
    → (document_id ≡ other_document)
      × (version ≡ other_version)
      × (run ≡ other_run)
      × (suffix ≡ other_suffix)
unfolding joined_parts
chunk_id-injective d d' v v' r r' s s' h =
    let (document, from_version) =
      split_at_colon (quote (chars d)) (quote (chars d')) (quote-NoColon (chars d))
        (quote-NoColon (chars d')) (joined_parts-eq d d' v v' r r' s s' h) in
    let (version, from_run) =
      split_at_colon (version_part v) (version_part v') (version_part-NoColon v)
        (version_part-NoColon v') from_version in
    let (run, suffix) =
      split_at_colon (quote (chars r)) (quote (chars r')) (quote-NoColon (chars r))
        (quote-NoColon (chars r')) from_run in
    (
      quoted-injective d d' document,
      version_part-injective v v' version,
      quoted-injective r r' run,
      quoted-injective s s' suffix,
    )
