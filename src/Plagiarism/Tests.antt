-- ===== src/Plagiarism/Tests.antt =====
-- The similarity measures at concrete inputs.
use beleqet_ecosystem_update.Base.{
  Text, ℕ, ◌==◌, ◌≡◌, ◌≤◌, ◌↔◌, is_some, if◌then◌else◌, some, List, [], ◌∷◌,
}
use beleqet_ecosystem_update.Plagiarism.Ngrams.{grams, size_score}
use beleqet_ecosystem_update.Plagiarism.Ngrams.Laws.{times_in, size_score-one}
use beleqet_ecosystem_update.Plagiarism.Matches.{
  TextChunk, ComparisonDocument, PlagiarismMatch, compare_document,
}
use beleqet_ecosystem_update.Plagiarism.Matches.Scores.{any_reaches, max_of, pair_scores}
use beleqet_ecosystem_update.Plagiarism.Matches.Laws.{compare_document-reports}

-- `abcabd`.
abbrev a_text : Text
a_text = 97 ∷ 98 ∷ 99 ∷ 97 ∷ 98 ∷ 100 ∷ []

-- `abdabc`.
abbrev turned : Text
turned = 97 ∷ 98 ∷ 100 ∷ 97 ∷ 98 ∷ 99 ∷ []

size_score-one_example :
    ((size_score 3 a_text turned).0.shared ≤ (size_score 3 a_text turned).0.union)
    × (((size_score 3 a_text turned).0.shared ≡ (size_score 3 a_text turned).0.union)
        ↔ ((gram : Text) → times_in gram (grams 3 a_text) ≡ times_in gram (grams 3 turned)))
size_score-one_example = size_score-one 3 a_text turned

abbrev same_text : TextChunk → TextChunk → ℕ
same_text c d = if c.text == d.text then 9_000 else 1_200

abbrev submitted : List TextChunk
submitted = record { index = 0; text = 5 } ∷ record { index = 1; text = 6 } ∷ []

abbrev a_document : ComparisonDocument
a_document = record {
  id = 3;
  chunks = record { index = 0; text = 6 } ∷ record { index = 1; text = 7 } ∷ [];
}

compare_document-reports_example :
    (is_some (compare_document same_text 2_500 submitted a_document)
      ≡ any_reaches 2_500 (pair_scores same_text submitted a_document.chunks))
    × ((m : PlagiarismMatch)
        → compare_document same_text 2_500 submitted a_document ≡ some m
        → m.similarity ≡ max_of (pair_scores same_text submitted a_document.chunks))
compare_document-reports_example = compare_document-reports same_text 2_500 submitted a_document
