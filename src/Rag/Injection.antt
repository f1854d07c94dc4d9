-- ===== src/Rag/Injection.antt =====
-- injection.py: document text goes into the prompt as escaped data between two markers. The signal
-- patterns, which only serve observability, are regular expressions of the standard library and are
-- left out.
use mama_gift.Base.{
  Option, Text, [], arith, codes, contains, contains-append, false, if◌then◌else◌, list_eq, nat_eq,
  none, option_eq, refl, some, string_eq, ℕ, ◌++◌, ◌==◌, ◌∷◌, ◌≡◌,
}
use mama_gift.Rag.Validation.{is_within, starts_with}

abbrev pub untrusted_document_open : Text
untrusted_document_open = codes "<UNTRUSTED_DOCUMENT_DATA>"

abbrev pub untrusted_document_close : Text
untrusted_document_close = codes "</UNTRUSTED_DOCUMENT_DATA>"

-- html.escape(..., quote=False) on one character
unfoldable pub escape_char : ℕ → Text
escape_char c =
    if c == b'&'
    then codes "&amp;"
    else if c == b'<'
    then codes "&lt;"
    else if c == b'>'
    then codes "&gt;"
    else c ∷ []

unfoldable pub escape_untrusted_text : Text → Text
unfolding escape_char
escape_untrusted_text [] = []
escape_untrusted_text (c ∷ cs) = escape_char c ++ escape_untrusted_text cs

-- html.escape(..., quote=True)
unfoldable pub escape_label : Text → Text
unfolding escape_char
escape_label [] = []
escape_label (c ∷ cs) =
    let rest = escape_label cs in
    if c == 34
    then codes "&quot;" ++ rest
    else if c == 39
    then codes "&#x27;" ++ rest
    else escape_char c ++ rest

-- a line of the block, with its end
abbrev pub ended_line : Text → Text
ended_line t = t ++ (b'\n' ∷ [])

-- `none` is the `ValueError` on an empty identifier.
unfoldable pub wrap_untrusted_document : Text → Text → Option Text
unfolding escape_untrusted_text escape_label
wrap_untrusted_document text [] = none
wrap_untrusted_document text (c ∷ cs) = some (
    ended_line untrusted_document_open
    ++ (ended_line (codes "[citation_id=" ++ (escape_label (c ∷ cs) ++ codes "]"))
        ++ (ended_line (escape_untrusted_text text) ++ untrusted_document_close)))

no_markup : (c : ℕ) → contains b'<' (escape_char c) ≡ false
unfolding escape_char
no_markup c = ground arith

escape_no_markup : (t : Text) → contains b'<' (escape_untrusted_text t) ≡ false
unfolding escape_untrusted_text
escape_no_markup [] = refl
escape_no_markup (c ∷ cs) = ground (
  arith,
  contains-append b'<' (escape_char c) (escape_untrusted_text cs),
  no_markup c,
  escape_no_markup cs,
)

-- A text without its first character does not hold a quote.
absent : (c : ℕ) (cs t : Text) → contains c t ≡ false → is_within (c ∷ cs) t ≡ false
unfolding is_within starts_with
absent c cs [] h = refl
absent c cs (d ∷ ds) h = ground (arith, absent c cs ds)

-- The two markers do not occur in escaped document text, so no document can close its block or open
-- one.
pub escape_untrusted_text-closed :
    (t : Text)
    → (is_within untrusted_document_close (escape_untrusted_text t) ≡ false)
      × (is_within untrusted_document_open (escape_untrusted_text t) ≡ false)
escape_untrusted_text-closed t = (
  absent b'<' _ (escape_untrusted_text t) (escape_no_markup t),
  absent b'<' _ (escape_untrusted_text t) (escape_no_markup t),
)
