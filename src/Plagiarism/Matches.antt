-- ===== src/Plagiarism/Matches.antt =====
-- The comparison of a submitted text with the documents in src/modules/plagiarism/plagiarism.service.ts.
-- Scores and the threshold are in units of the rounding, which is exact on them; `compare` stands for the similarity engine
-- on two chunks, whose answer is rounded so. The averages, tokens and phrases of a match are left out.
pub mod Scores
pub mod Laws
use beleqet_ecosystem_update.Base.{
  ℕ, ◌+◌, ◌==◌, ltb, leb, not, length, take, filter, member, if◌then◌else◌, Bool, true, false,
  Option, none, some, List, [], ◌∷◌, ◌++◌,
}

pub record TextChunk : Type 0 where
  pub index : ℕ
  pub text : ℕ

pub record ComparisonDocument : Type 0 where
  pub id : ℕ
  pub chunks : List TextChunk

pub record MatchedChunk : Type 0 where
  pub input_chunk_index : ℕ
  pub source_chunk_index : ℕ
  pub similarity : ℕ

pub record PlagiarismMatch : Type 0 where
  pub document : ℕ
  pub similarity : ℕ
  pub matched_chunks : List MatchedChunk

-- The loops over the chunks: the best score, the chunks that match and the number of comparisons.
pub record Comparisons : Type 0 where
  pub best : ℕ
  pub matched : List MatchedChunk
  pub count : ℕ

insert_by : MatchedChunk → List MatchedChunk → List MatchedChunk
insert_by c [] = c ∷ []
insert_by c (d ∷ ds) = if ltb d.similarity c.similarity then c ∷ d ∷ ds else d ∷ insert_by c ds

-- `sort((a, b) => b.similarity - a.similarity)`, which is stable: later chunks go behind equal ones.
pub sort_matched : List MatchedChunk → List MatchedChunk → List MatchedChunk
unfolding insert_by
sort_matched sorted [] = sorted
sort_matched sorted (c ∷ cs) = sort_matched (insert_by c sorted) cs

-- `reduce((max, c) => Math.max(max, c.similarity), 0)`.
pub highest : ℕ → List MatchedChunk → ℕ
highest max [] = max
highest max (c ∷ cs) = highest (if ltb max c.similarity then c.similarity else max) cs

abbrev pub top_score : ℕ → List MatchedChunk → ℕ
top_score best [] = best
top_score best (c ∷ cs) = highest 0 (c ∷ cs)

pub document_similarity : Comparisons → ℕ
document_similarity c = top_score c.best c.matched

abbrev pub no_comparisons : Comparisons
no_comparisons = record { best = 0; matched = []; count = 0 }

module _ (compare : TextChunk → TextChunk → ℕ) (threshold : ℕ) where
  pub compare_chunk : TextChunk → TextChunk → Comparisons → Comparisons
  compare_chunk input source c = record {
    best = if ltb c.best (compare input source) then compare input source else c.best;
    matched =
        if leb threshold (compare input source)
        then c.matched
          ++ (record {
            input_chunk_index = input.index;
            source_chunk_index = source.index;
            similarity = compare input source;
          }
              ∷ [])
        else c.matched;
    count = c.count + 1;
  }

  compare_sources : TextChunk → List TextChunk → Comparisons → Comparisons
  unfolding compare_chunk
  compare_sources input [] c = c
  compare_sources input (s ∷ ss) c = compare_sources input ss (compare_chunk input s c)

  pub compare_all : List TextChunk → List TextChunk → Comparisons → Comparisons
  unfolding compare_sources
  compare_all [] sources c = c
  compare_all (i ∷ is) sources c = compare_all is sources (compare_sources i sources c)

  pub report_match : ComparisonDocument → Comparisons → Option PlagiarismMatch
  unfolding document_similarity sort_matched
  report_match doc c =
      if c.count == 0
      then none
      else if ltb (document_similarity c) threshold
      then none
      else some (record {
        document = doc.id;
        similarity = document_similarity c;
        matched_chunks = take 10 (sort_matched [] c.matched);
      })

  pub compare_document : List TextChunk → ComparisonDocument → Option PlagiarismMatch
  unfolding compare_all report_match
  compare_document inputs doc = report_match doc (compare_all inputs doc.chunks no_comparisons)

-- `deduplicateDocuments`, with the ids that were seen.
pub deduplicate_documents : List ℕ → List ComparisonDocument → List ComparisonDocument
deduplicate_documents seen [] = []
deduplicate_documents seen (d ∷ ds) =
    let again = deduplicate_documents seen ds in
    let first = deduplicate_documents (d.id ∷ seen) ds in
    if member d.id seen then again else d ∷ first
