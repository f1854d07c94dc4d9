-- ===== src/Retrieval/Freshness.antt =====
-- archive/freshness.py: the order of documents by their date, for a question that asks for the newest
-- or the oldest. Whether a phrase stands in a question (Unicode normalisation, lower case, and a
-- search at word boundaries, all of the standard library) is a parameter.
pub mod Order
pub mod Laws
use Prim.Native.Nat.{Ordering}
use Prim.Native.String.{compare}
use mama_gift.Base.{
  Bool, List, Option, String, Text, [], codes, false, if◌then◌else◌, leb, length, list_eq, ltb,
  nat_eq, none, option_eq, some, string_eq, true, ℕ, ◌&&◌, ◌++◌, ◌==◌, ◌||◌, ◌∷◌,
}
use mama_gift.Retrieval.ArchiveRetriever.{ArchiveDocumentRef}
use mama_gift.Retrieval.Chunking.{has_text}

pub data FreshnessIntent : Type 0 where
  undecided newest oldest date_window : FreshnessIntent

abbrev pub newest_phrases : List String
newest_phrases =
    "mới nhất là" ∷ "mới nhất" ∷ "gần đây nhất" ∷ "gần nhất" ∷ "mới ban hành" ∷ "cập nhật nhất" ∷ []

abbrev pub oldest_phrases : List String
oldest_phrases = "ban hành sớm nhất" ∷ "cũ nhất" ∷ "sớm nhất" ∷ "đầu tiên" ∷ []

abbrev pub date_window_phrases : List String
date_window_phrases =
    "tháng này" ∷ "tháng trước" ∷ "tháng sau" ∷ "tuần này" ∷ "tuần trước" ∷ "tuần tới" ∷ "năm nay"
    ∷ "năm trước" ∷ "năm tới" ∷ "hôm nay" ∷ []

abbrev pub newest_caveat : Text
newest_caveat =
    codes
      "Đây là văn bản mới nhất theo ngày ban hành, không có nghĩa là văn bản này thay thế hoặc bãi bỏ các văn bản trước đó."

abbrev pub oldest_caveat : Text
oldest_caveat =
    codes
      "Đây là văn bản ban hành sớm nhất theo ngày ban hành, không có nghĩa là văn bản này đã hết hiệu lực hoặc bị thay thế bởi các văn bản sau đó."

-- `any(_contains_phrase(norm_text, p) for p in phrases)`
unfoldable pub any_phrase : (Text → String → Bool) → Text → List String → Bool
any_phrase contains_phrase query [] = false
any_phrase contains_phrase query (p ∷ ps) =
    contains_phrase query p || any_phrase contains_phrase query ps

-- the tests of the three findings, in order
unfoldable pub decide_intent : Bool → Bool → Bool → FreshnessIntent
decide_intent true true window = undecided
decide_intent true false window = newest
decide_intent false true window = oldest
decide_intent false false true = date_window
decide_intent false false false = undecided

unfoldable pub detect_freshness_intent : (Text → String → Bool) → Text → FreshnessIntent
unfolding any_phrase decide_intent has_text
detect_freshness_intent contains_phrase query =
    if has_text query
    then decide_intent (any_phrase contains_phrase query newest_phrases)
        (any_phrase contains_phrase query oldest_phrases)
        (any_phrase contains_phrase query date_window_phrases)
    else undecided

unfoldable pub is_dated : ArchiveDocumentRef → Bool
is_dated d = elim d.issued_date [ none ↦ false | some _ ↦ true ]

unfoldable pub dated : List ArchiveDocumentRef → List ArchiveDocumentRef
unfolding is_dated
dated [] = []
dated (d ∷ ds) = let rest = dated ds in if is_dated d then d ∷ rest else rest

unfoldable pub undated : List ArchiveDocumentRef → List ArchiveDocumentRef
unfolding is_dated
undated [] = []
undated (d ∷ ds) = let rest = undated ds in if is_dated d then rest else d ∷ rest

unfoldable pub date_before : FreshnessIntent → ℕ → ℕ → Bool
date_before newest x y = ltb y x
date_before _ x y = ltb x y

-- The keys compared: the dates in the direction asked for, then the identifiers (`ids`). A list that
-- is sorted holds only dated documents or only others, so the mixed cases do not arise.
unfoldable pub keys_before : FreshnessIntent → Option ℕ → Option ℕ → Bool → Bool
unfolding date_before
keys_before intent (some x) (some y) ids = date_before intent x y || (x == y && ids)
keys_before intent none none ids = ids
keys_before intent (some x) none ids = true
keys_before intent none (some y) ids = false

unfoldable pub sorts_before : FreshnessIntent → ArchiveDocumentRef → ArchiveDocumentRef → Bool
unfolding keys_before
sorts_before intent a b =
    keys_before intent a.issued_date b.issued_date
      (elim (compare a.document_id b.document_id) [ Ordering.lt ↦ true | _ ↦ false ])

unfoldable pub insert_document :
    FreshnessIntent → ArchiveDocumentRef → List ArchiveDocumentRef → List ArchiveDocumentRef
unfolding sorts_before
insert_document intent a [] = a ∷ []
insert_document intent a (b ∷ bs) =
    let rest = insert_document intent a bs in
    if sorts_before intent b a then b ∷ rest else a ∷ b ∷ bs

unfoldable pub sort_documents : FreshnessIntent → List ArchiveDocumentRef → List ArchiveDocumentRef
unfolding insert_document
sort_documents intent [] = []
sort_documents intent (d ∷ ds) = insert_document intent d (sort_documents intent ds)

unfoldable pub order_by_freshness :
    List ArchiveDocumentRef → FreshnessIntent → List ArchiveDocumentRef
unfolding sort_documents dated undated
order_by_freshness documents newest =
    sort_documents newest (dated documents) ++ sort_documents newest (undated documents)
order_by_freshness documents oldest =
    sort_documents oldest (dated documents) ++ sort_documents oldest (undated documents)
order_by_freshness documents _ = documents

-- the type of a claim of supersession has None only
pub record FreshnessAnswer : Type 0 where
  pub intent : FreshnessIntent
  pub ordered : List ArchiveDocumentRef
  pub newest_document : Option ArchiveDocumentRef
  pub undated_documents : List ArchiveDocumentRef
  pub supersession_claim : Unit {0}
  pub caveat : Option Text

-- the first document with a date
unfoldable pub first_dated : List ArchiveDocumentRef → Option ArchiveDocumentRef
unfolding is_dated
first_dated [] = none
first_dated (d ∷ ds) = let rest = first_dated ds in if is_dated d then some d else rest

unfoldable pub newest_of : FreshnessIntent → List ArchiveDocumentRef → Option ArchiveDocumentRef
unfolding first_dated
newest_of newest ordered = first_dated ordered
newest_of _ ordered = none

unfoldable pub caveat_of : FreshnessIntent → Option Text
caveat_of newest = some newest_caveat
caveat_of oldest = some oldest_caveat
caveat_of _ = none

unfoldable pub freshness_answer : FreshnessIntent → List ArchiveDocumentRef → FreshnessAnswer
unfolding newest_of undated caveat_of
freshness_answer intent ordered = record {
  intent = intent;
  ordered = ordered;
  newest_document = newest_of intent ordered;
  undated_documents = undated ordered;
  supersession_claim = tt;
  caveat = if leb 2 (length ordered) then caveat_of intent else none;
}

unfoldable pub resolve_freshness :
    (Text → String → Bool) → List ArchiveDocumentRef → Text → FreshnessAnswer
unfolding detect_freshness_intent order_by_freshness freshness_answer
resolve_freshness contains_phrase documents query =
    let intent = detect_freshness_intent contains_phrase query in
    freshness_answer intent (order_by_freshness documents intent)
