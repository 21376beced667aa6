-- ===== src/Plagiarism/Matches/Laws.antt =====
-- The reports of documents (src/modules/plagiarism/plagiarism.service.ts), against the list of all the
-- scores of two chunks.
use beleqet_ecosystem_update.Base.{
  ℕ, ◌||◌, ◌≡◌, sym, inl, inr, leb, map, is_some, Bool, false, Bool-cases, some, List, [], ◌∷◌,
  arith,
}
use beleqet_ecosystem_update.Plagiarism.Ngrams.{maximum}
use beleqet_ecosystem_update.Plagiarism.Matches.{
  TextChunk, ComparisonDocument, MatchedChunk, PlagiarismMatch, Comparisons, highest, compare_chunk,
  compare_sources, compare_all, no_comparisons, report_match, compare_document,
}
use beleqet_ecosystem_update.Plagiarism.Matches.Scores.{
  max_of, any_reaches, pair_scores, max_of-append, any_reaches-append, has_matched-append, Tracks,
  maximum-zero, maximum_assoc, or_assoc, or-false, maximum_zero-first, document_similarity-Tracks,
  nothing-Tracks, highest-new,
}

module _ (compare : TextChunk → TextChunk → ℕ) (threshold : ℕ) where
  compare_chunk-Tracks :
      (i s : TextChunk) (c : Comparisons) (best : ℕ) (reached : Bool)
      → Tracks threshold c best reached
      → Tracks threshold
          (compare_chunk compare threshold i s c)
          (maximum best (compare i s))
          (reached || leb threshold (compare i s))
  unfolding compare_chunk highest
  compare_chunk-Tracks i s c best reached t =
      let same = t.same_best in
      let kept = t.kept in
      let new : MatchedChunk = record {
        input_chunk_index = i.index;
        source_chunk_index = s.index;
        similarity = compare i s;
      } in
      let some_more = has_matched-append c.matched new in
      let high = highest-new threshold c new best reached t in
      let top = t.top in
      let low = t.low in
      elim (Bool-cases (leb threshold (compare i s))) [
        | inl hit ↦ record {
          same_best = ground arith;
          kept = ground arith;
          top = λ r. ground arith;
          low = λ r. ground arith;
        }
        | inr miss ↦ record {
          same_best = ground arith;
          kept = ground arith;
          top = λ r. ground arith;
          low = λ r. ground arith;
        }
      ]

  compare_sources-Tracks :
      (i : TextChunk) (ss : List TextChunk) (c : Comparisons) (best : ℕ) (reached : Bool)
      → Tracks threshold c best reached
      → Tracks threshold
          (compare_sources compare threshold i ss c)
          (maximum best (max_of (map (compare i) ss)))
          (reached || any_reaches threshold (map (compare i) ss))
  unfolding compare_sources
  compare_sources-Tracks i [] c best reached t = rw (maximum-zero best, or-false reached) t
  compare_sources-Tracks i (s ∷ ss) c best reached t =
      rw
        (
          sym (maximum_assoc best (compare i s) (max_of (map (compare i) ss))),
          sym (
              or_assoc reached (leb threshold (compare i s))
                (any_reaches threshold (map (compare i) ss))),
        )
        (compare_sources-Tracks i ss (compare_chunk compare threshold i s c)
          (maximum best (compare i s)) (reached || leb threshold (compare i s))
          (compare_chunk-Tracks i s c best reached t))

  compare_all-Tracks :
      (is ss : List TextChunk) (c : Comparisons) (best : ℕ) (reached : Bool)
      → Tracks threshold c best reached
      → Tracks threshold
          (compare_all compare threshold is ss c)
          (maximum best (max_of (pair_scores compare is ss)))
          (reached || any_reaches threshold (pair_scores compare is ss))
  unfolding compare_all
  compare_all-Tracks [] ss c best reached t = rw (maximum-zero best, or-false reached) t
  compare_all-Tracks (i ∷ is) ss c best reached t =
      rw
        (
          max_of-append (map (compare i) ss) (pair_scores compare is ss),
          any_reaches-append threshold (map (compare i) ss) (pair_scores compare is ss),
          sym (
              maximum_assoc best (max_of (map (compare i) ss))
                (max_of (pair_scores compare is ss))),
          sym (
              or_assoc reached (any_reaches threshold (map (compare i) ss))
                (any_reaches threshold (pair_scores compare is ss))),
        )
        (compare_all-Tracks is ss (compare_sources compare threshold i ss c) _ _
          (compare_sources-Tracks i ss c best reached t))

  report-Tracks :
      (doc : ComparisonDocument) (c : Comparisons) (best : ℕ) (reached : Bool)
      → Tracks threshold c best reached
      → (is_some (report_match compare threshold doc c) ≡ reached)
        × ((m : PlagiarismMatch)
            → report_match compare threshold doc c ≡ some m
            → m.similarity ≡ best)
  unfolding report_match
  report-Tracks doc c best reached t =
      let same = document_similarity-Tracks threshold c best reached t in
      let top = t.top in
      let low = t.low in
      elim (Bool-cases reached) [
        | inl reaches ↦ (ground arith, λ m h. ground arith)
        | inr fails ↦ (ground arith, λ m h. ground arith)
      ]

  -- A document is reported where one of its chunks reaches the threshold with one of the text, and only
  -- there, and with the greatest score of all such pairs.
  pub compare_document-reports :
      (inputs : List TextChunk) (doc : ComparisonDocument)
      → (is_some (compare_document compare threshold inputs doc)
          ≡ any_reaches threshold (pair_scores compare inputs doc.chunks))
        × ((m : PlagiarismMatch)
            → compare_document compare threshold inputs doc ≡ some m
            → m.similarity ≡ max_of (pair_scores compare inputs doc.chunks))
  unfolding compare_document
  compare_document-reports inputs doc =
      report-Tracks doc (compare_all compare threshold inputs doc.chunks no_comparisons)
        (max_of (pair_scores compare inputs doc.chunks))
        (any_reaches threshold (pair_scores compare inputs doc.chunks))
        (rw (← maximum_zero-first (max_of (pair_scores compare inputs doc.chunks)))
          (compare_all-Tracks inputs doc.chunks no_comparisons 0 false (nothing-Tracks threshold)))
