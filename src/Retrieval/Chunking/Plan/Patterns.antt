-- ===== src/Retrieval/Chunking/Plan/Patterns.antt =====
-- chunking/plan.py: the five regular expressions of the lines of a plan, as recognizers of a line that
-- is stripped and not empty; and str.splitlines.
use mama_gift.Base.{
  Bool, List, Option, Text, [], codes, contains, false, if◌then◌else◌, leb, list_eq, ltb, nat_eq,
  none, option_eq, some, string_eq, value, ℕ, ◌%◌, ◌&&◌, ◌++◌, ◌+◌, ◌==◌, ◌||◌, ◌∷◌,
}
use mama_gift.Retrieval.ArchiveEvidence.{is_space}

-- What a line is to the detector, in the order of its tests.
pub data LineForm : Type 0 where
  section_form task_form : Text → Text → LineForm
  owner_form coordinator_form deadline_form body_form : Text → LineForm

-- the longest prefix of characters that pass the test, and what follows it
unfoldable pub span : (ℕ → Bool) → Text → Text × Text
span test [] = ([], [])
span test (c ∷ cs) =
    let (front, rest) = span test cs in if test c then (c ∷ front, rest) else ([], c ∷ cs)

-- `\s*`
unfoldable pub skip_spaces : Text → Text
unfolding span is_space
skip_spaces t = (span is_space t).1

-- `none` for the empty text
unfoldable pub nonempty : Text → Option Text
nonempty [] = none
nonempty (c ∷ cs) = some (c ∷ cs)

-- `\s*[.)]\s+(.+)$`
unfoldable pub title_after : Text → Option Text
unfolding skip_spaces is_space nonempty
title_after t = elim (skip_spaces t) [
  | [] ↦ none
  | mark ∷ rest ↦ elim rest [
    | [] ↦ none
    | c ∷ cs ↦
        if (mark == b'.' || mark == b')') && is_space c then nonempty (skip_spaces cs) else none
  ]
]

-- The text after a prefix, where it begins with it; `same` compares two characters.
unfoldable pub after_prefix : (ℕ → ℕ → Bool) → Text → Text → Option Text
after_prefix same [] t = some t
after_prefix same (p ∷ ps) [] = none
after_prefix same (p ∷ ps) (c ∷ cs) =
    let rest = after_prefix same ps cs in if same p c then rest else none

-- `[IVXLCDM]`
unfoldable pub is_roman : ℕ → Bool
is_roman c = contains c (codes "IVXLCDM")

-- `(?:PHẦN\s+)?`, which no roman numeral begins with
unfoldable pub skip_part : Text → Text
unfolding after_prefix skip_spaces is_space
skip_part t = elim (after_prefix (λ p c. p == c) (codes "PHẦN") t) [
  | none ↦ t
  | some rest ↦ elim rest [ [] ↦ t | c ∷ cs ↦ if is_space c then skip_spaces cs else t ]
]

-- a label that is not empty, with the title after it
unfoldable pub labelled_title : Text → Option Text → Option (Text × Text)
labelled_title [] title = none
labelled_title (c ∷ cs) none = none
labelled_title (c ∷ cs) (some title) = some (c ∷ cs, title)

-- PLAN_SECTION_RE
unfoldable pub match_section : Text → Option (Text × Text)
unfolding skip_part span is_roman title_after labelled_title
match_section line =
    let (label, rest) = span is_roman (skip_part line) in labelled_title label (title_after rest)

-- the first characters of the decimal digits of each script, tens of code points
abbrev decimal_zeros : List ℕ
decimal_zeros =
    48 ∷ 1632 ∷ 1776 ∷ 1984 ∷ 2406 ∷ 2534 ∷ 2662 ∷ 2790 ∷ 2918 ∷ 3046 ∷ 3174 ∷ 3302 ∷ 3430 ∷ 3558
    ∷ 3664 ∷ 3792 ∷ 3872 ∷ 4160 ∷ 4240 ∷ 6112 ∷ 6160 ∷ 6470 ∷ 6608 ∷ 6784 ∷ 6800 ∷ 6992 ∷ 7088
    ∷ 7232 ∷ 7248 ∷ 42528 ∷ 43216 ∷ 43264 ∷ 43472 ∷ 43504 ∷ 43600 ∷ 44016 ∷ 65296 ∷ 66720 ∷ 68912
    ∷ 69734 ∷ 69872 ∷ 69942 ∷ 70096 ∷ 70384 ∷ 70736 ∷ 70864 ∷ 71248 ∷ 71360 ∷ 71472 ∷ 71904 ∷ 72016
    ∷ 72784 ∷ 73040 ∷ 73120 ∷ 92768 ∷ 92864 ∷ 93008 ∷ 120782 ∷ 120792 ∷ 120802 ∷ 120812 ∷ 120822
    ∷ 123200 ∷ 123632 ∷ 125264 ∷ 130032 ∷ []

-- one of the ten characters from one of the starts on
unfoldable pub within_ten : ℕ → List ℕ → Bool
within_ten c [] = false
within_ten c (start ∷ starts) = (leb start c && ltb c (start + 10)) || within_ten c starts

-- `\d`
unfoldable pub is_decimal_digit : ℕ → Bool
unfolding within_ten
is_decimal_digit c = within_ten c decimal_zeros

-- `\d{1,2}`: the digits, at most two, and what follows them
unfoldable pub one_or_two : Text → Text × Text
unfolding is_decimal_digit
one_or_two [] = ([], [])
one_or_two (c ∷ []) = if is_decimal_digit c then (c ∷ [], []) else ([], c ∷ [])
one_or_two (c ∷ d ∷ rest) =
    if is_decimal_digit c
    then (if is_decimal_digit d then (c ∷ d ∷ [], rest) else (c ∷ [], d ∷ rest))
    else ([], c ∷ d ∷ rest)

-- `(?:\.\d{1,2})?`; after a point, no digit can begin the title, so taking it is never undone
unfoldable pub ordinal_rest : Text → Text → Text × Text
unfolding one_or_two
ordinal_rest first [] = (first, [])
ordinal_rest first (point ∷ rest) =
    let (second, others) = one_or_two rest in
    elim second [
      | [] ↦ (first, point ∷ rest)
      | d ∷ ds ↦ if point == b'.' then (first ++ (b'.' ∷ d ∷ ds), others) else (first, point ∷ rest)
    ]

-- PLAN_TASK_RE
unfoldable pub match_task : Text → Option (Text × Text)
unfolding one_or_two ordinal_rest title_after labelled_title
match_task line =
    let (first, rest) = one_or_two line in
    elim first [
      | [] ↦ none
      | d ∷ ds ↦
          let (ordinal, others) = ordinal_rest (d ∷ ds) rest in
          labelled_title ordinal (title_after others)
    ]

-- The letter without its case, for the letters that the keywords are written with (re.IGNORECASE).
unfoldable pub fold_case : ℕ → ℕ
fold_case c =
    if (leb b'A' c && leb c b'Z') || (leb 192 c && leb c 222)
    then c + 32
    else if c == 304 || c == 305
    then b'i'
    else if c == 272 || (c == 416 || c == 431)
    then c + 1
    else if leb 7840 c && (leb c 7934 && c % 2 == 0)
    then c + 1
    else c

-- `\s*[:.]?\s*(.+)$`; a line that ends after the mark has the mark as its value
unfoldable pub value_after : Text → Option Text
unfolding skip_spaces nonempty
value_after t = elim (skip_spaces t) [
  | [] ↦ none
  | c ∷ cs ↦
      if c == b':' || c == b'.'
      then elim (skip_spaces cs) [ [] ↦ some (c ∷ cs) | d ∷ ds ↦ some (d ∷ ds) ]
      else some (c ∷ cs)
]

-- the value after the first of the keywords that leaves one
unfoldable pub value_of : List Text → Text → Option Text
unfolding after_prefix fold_case value_after
value_of [] line = none
value_of (keyword ∷ keywords) line =
    let rest = value_of keywords line in
    elim (after_prefix (λ p c. fold_case p == fold_case c) keyword line) [
      | none ↦ rest
      | some after ↦ elim (value_after after) [ none ↦ rest | some value ↦ some value ]
    ]

-- OWNER_RE
abbrev pub owner_keywords : List Text
owner_keywords = codes "Đơn vị chủ trì" ∷ codes "Chủ trì" ∷ codes "Cơ quan chủ trì" ∷ []

-- COORDINATOR_RE
abbrev pub coordinator_keywords : List Text
coordinator_keywords = codes "Đơn vị phối hợp" ∷ codes "Phối hợp" ∷ codes "Cơ quan phối hợp" ∷ []

-- DEADLINE_RE
abbrev pub deadline_keywords : List Text
deadline_keywords =
    codes "Thời hạn hoàn thành"
    ∷ codes "Thời hạn"
    ∷ codes "Hạn hoàn thành"
    ∷ codes "Hoàn thành trước"
    ∷ codes "Deadline"
    ∷ []

-- the first test that succeeds
unfoldable pub field_form : Option Text → Option Text → Option Text → Text → LineForm
field_form (some value) coordinator deadline line = owner_form value
field_form none (some value) deadline line = coordinator_form value
field_form none none (some value) line = deadline_form value
field_form none none none line = body_form line

unfoldable pub heading_form : Option (Text × Text) → Option (Text × Text) → LineForm → LineForm
heading_form (some (label, title)) task other = section_form label title
heading_form none (some (ordinal, title)) other = task_form ordinal title
heading_form none none other = other

unfoldable pub form_of : Text → LineForm
unfolding match_section match_task value_of field_form heading_form
form_of line = heading_form (match_section line) (match_task line) (
    field_form (value_of owner_keywords line) (value_of coordinator_keywords line)
      (value_of deadline_keywords line) line)

-- the characters that str.splitlines ends a line at; CR LF is one end
unfoldable pub is_line_end : ℕ → Bool
is_line_end c =
    (leb 10 c && leb c 13) || ((leb 28 c && leb c 30) || contains c (133 ∷ 8232 ∷ 8233 ∷ []))

-- The loop of splitlines, with the line so far; `after_cr` where the last character was a CR.
unfoldable pub split_from : Bool → Text → Text → List Text
unfolding is_line_end
split_from after_cr [] [] = []
split_from after_cr (d ∷ ds) [] = (d ∷ ds) ∷ []
split_from after_cr line (c ∷ cs) =
    let same = split_from false line cs in
    let next = split_from (c == 13) [] cs in
    let longer = split_from false (line ++ (c ∷ [])) cs in
    if after_cr && c == 10 then same else if is_line_end c then line ∷ next else longer

unfoldable pub split_lines : Text → List Text
unfolding split_from
split_lines text = split_from false [] text
