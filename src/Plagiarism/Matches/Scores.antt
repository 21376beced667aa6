-- ===== src/Plagiarism/Matches/Scores.antt =====
-- The scores of two chunks, and what the loops of src/modules/plagiarism/plagiarism.service.ts keep of
-- them.
use beleqet_ecosystem_update.Base.{
  ℕ, suc, ◌||◌, ◌≡◌, ◌≤◌, ◌⊎◌, ◌∙◌, ap, refl, inl, ltb, leb, map, if◌then◌else◌, Bool, true, false,
  List, [], ◌∷◌, ◌++◌, arith,
}
use beleqet_ecosystem_update.Plagiarism.Ngrams.{maximum}
use beleqet_ecosystem_update.Plagiarism.Matches.{
  TextChunk, MatchedChunk, Comparisons, highest, top_score, document_similarity, no_comparisons,
}

abbrev pub max_of : List ℕ → ℕ
max_of [] = 0
max_of (x ∷ xs) = maximum x (max_of xs)

abbrev pub any_reaches : ℕ → List ℕ → Bool
any_reaches threshold [] = false
any_reaches threshold (x ∷ xs) = leb threshold x || any_reaches threshold xs

-- The scores of every chunk of the text with every chunk of the document.
abbrev pub pair_scores : (TextChunk → TextChunk → ℕ) → List TextChunk → List TextChunk → List ℕ
pair_scores compare [] sources = []
pair_scores compare (i ∷ is) sources = map (compare i) sources ++ pair_scores compare is sources

pub max_of-append : (xs ys : List ℕ) → max_of (xs ++ ys) ≡ maximum (max_of xs) (max_of ys)
max_of-append [] ys = ground arith
max_of-append (x ∷ xs) ys = ground (arith, max_of-append xs ys)

pub any_reaches-append :
    (threshold : ℕ) (xs ys : List ℕ)
    → any_reaches threshold (xs ++ ys) ≡ (any_reaches threshold xs || any_reaches threshold ys)
any_reaches-append threshold [] ys = refl
any_reaches-append threshold (x ∷ xs) ys = ground (arith, any_reaches-append threshold xs ys)

abbrev pub has_matched : List MatchedChunk → Bool
has_matched [] = false
has_matched (_ ∷ _) = true

highest-append :
    (max : ℕ) (cs : List MatchedChunk) (c : MatchedChunk)
    → highest max (cs ++ (c ∷ [])) ≡ maximum (highest max cs) c.similarity
unfolding highest
highest-append max [] c = ground arith
highest-append max (d ∷ ds) c =
    highest-append (if ltb max d.similarity then d.similarity else max) ds c

pub has_matched-append :
    (cs : List MatchedChunk) (c : MatchedChunk) → has_matched (cs ++ (c ∷ [])) ≡ true
has_matched-append [] c = refl
has_matched-append (d ∷ ds) c = refl

has_matched-none : (cs : List MatchedChunk) → has_matched cs ≡ false → cs ≡ []
has_matched-none [] h = refl
has_matched-none (d ∷ ds) h = absurd cc

-- What the loops have kept of the scores so far: the greatest, and whether one reached the threshold.
pub record Tracks (threshold : ℕ) (c : Comparisons) (best : ℕ) (reached : Bool) : Type 0 where
  pub same_best : c.best ≡ best
  pub kept : has_matched c.matched ≡ reached
  pub top : reached ≡ true → (highest 0 c.matched ≡ best) × (threshold ≤ best) × (1 ≤ c.count)
  pub low : reached ≡ false → ((c.count ≡ 0) × (best ≡ 0)) ⊎ (suc best ≤ threshold)

pub maximum-zero : (a : ℕ) → maximum a 0 ≡ a
maximum-zero a = ground arith

pub maximum_assoc : (a b c : ℕ) → maximum (maximum a b) c ≡ maximum a (maximum b c)
maximum_assoc a b c = ground arith

pub or_assoc : (a b c : Bool) → ((a || b) || c) ≡ (a || (b || c))
or_assoc a b c = ground arith

pub or-false : (a : Bool) → (a || false) ≡ a
or-false a = ground arith

pub maximum_zero-first : (a : ℕ) → maximum 0 a ≡ a
maximum_zero-first a = ground arith

top_score-some :
    (best : ℕ) (cs : List MatchedChunk) → has_matched cs ≡ true → top_score best cs ≡ highest 0 cs
top_score-some best [] h = absurd cc
top_score-some best (c ∷ cs) h = refl

top_score-none :
    (best : ℕ) (cs : List MatchedChunk) → has_matched cs ≡ false → top_score best cs ≡ best
top_score-none best [] h = refl
top_score-none best (c ∷ cs) h = absurd cc

pub document_similarity-Tracks :
    (threshold : ℕ) (c : Comparisons) (best : ℕ) (reached : Bool)
    → Tracks threshold c best reached
    → document_similarity c ≡ best
unfolding document_similarity
document_similarity-Tracks threshold c best true t =
    top_score-some c.best c.matched t.kept ∙ (t.top refl).0
document_similarity-Tracks threshold c best false t =
    top_score-none c.best c.matched t.kept ∙ t.same_best

pub nothing-Tracks : (threshold : ℕ) → Tracks threshold no_comparisons 0 false
nothing-Tracks threshold = record {
  same_best = refl;
  kept = refl;
  top = λ h. absurd cc;
  low = λ h. inl (refl, refl);
}

pub highest-new :
    (threshold : ℕ) (c : Comparisons) (new : MatchedChunk) (best : ℕ) (reached : Bool)
    → Tracks threshold c best reached
    → threshold ≤ new.similarity
    → highest 0 (c.matched ++ (new ∷ [])) ≡ maximum best new.similarity
unfolding highest
highest-new threshold c new best true t h =
    let more = highest-append 0 c.matched new in
    let (top, enough, some_count) = t.top refl in ground arith
highest-new threshold c new best false t h =
    let more = highest-append 0 c.matched new in
    let none_high = ap (highest 0) (has_matched-none c.matched t.kept) in
    let low = t.low refl in ground arith
