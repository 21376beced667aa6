-- ===== src/Plagiarism/Ngrams.antt =====
-- src/modules/plagiarism/similarity/ngram.service.ts. A score is a fraction, the shared part over the
-- union; the source divides it out and takes the mean of the two sizes.
pub mod Laws
use beleqet_ecosystem_update.Base.{
  Text, equals, ℕ, ◌+◌, ◌&&◌, ltb, leb, not, length, take, filter, map, if◌then◌else◌, Bool, true,
  false, List, [], ◌∷◌, ◌++◌,
}

-- `Map<string, number>`, in the order of the first insertion.
abbrev pub GramMap : Type 0
GramMap = List (Text × ℕ)

-- `get(gram) ?? 0`.
pub gram_count : Text → GramMap → ℕ
gram_count gram [] = 0
gram_count gram ((k, n) ∷ m) = if equals k gram then n else gram_count gram m

-- `set(gram, (get(gram) ?? 0) + 1)`.
pub bump : Text → GramMap → GramMap
bump gram [] = (gram, 1) ∷ []
bump gram ((k, n) ∷ m) = if equals k gram then (k, n + 1) ∷ m else (k, n) ∷ bump gram m

-- The slices of a size, from the start of the text to its end.
pub grams : ℕ → Text → List Text
grams size [] = []
grams size (c ∷ cs) =
    let rest = grams size cs in
    if leb size (length (c ∷ cs)) then take size (c ∷ cs) ∷ rest else rest

count_grams : List Text → GramMap → GramMap
unfolding bump
count_grams [] m = m
count_grams (g ∷ gs) m = count_grams gs (bump g m)

pub build_ngrams : Text → ℕ → GramMap
unfolding grams count_grams
build_ngrams text size = count_grams (grams size text) []

pub has_gram : Text → GramMap → Bool
has_gram gram [] = false
has_gram gram ((k, _) ∷ m) = if equals k gram then true else has_gram gram m

abbrev keys : GramMap → List Text
keys m = map (λ (e : Text × ℕ). e.0) m

-- `new Set([...a.keys(), ...b.keys()])`; the keys of a map are different already.
pub all_keys : GramMap → GramMap → List Text
unfolding has_gram
all_keys a b = keys a ++ filter (λ k. not (has_gram k a)) (keys b)

abbrev pub minimum : ℕ → ℕ → ℕ
minimum a b = if ltb a b then a else b

abbrev pub maximum : ℕ → ℕ → ℕ
maximum a b = if ltb a b then b else a

pub record Score : Type 0 where
  pub shared : ℕ
  pub union : ℕ

pub sum_keys : List Text → GramMap → GramMap → Score
unfolding gram_count
sum_keys [] a b = record { shared = 0; union = 0 }
sum_keys (k ∷ ks) a b =
    let rest = sum_keys ks a b in
    record {
      shared = minimum (gram_count k a) (gram_count k b) + rest.shared;
      union = maximum (gram_count k a) (gram_count k b) + rest.union;
    }

is_matched : GramMap → GramMap → Text → Bool
unfolding gram_count
is_matched a b k = ltb 0 (gram_count k a) && ltb 0 (gram_count k b)

pub jaccard_ngrams : GramMap → GramMap → Score × List Text
unfolding all_keys sum_keys is_matched
jaccard_ngrams a b = (sum_keys (all_keys a b) a b, filter (is_matched a b) (all_keys a b))

pub record MatchedPhrase : Type 0 where
  pub phrase : Text
  pub input_occurrences : ℕ
  pub source_occurrences : ℕ

occurrences : GramMap → GramMap → Text → MatchedPhrase
unfolding gram_count
occurrences a b g = record {
  phrase = g;
  input_occurrences = gram_count g a;
  source_occurrences = gram_count g b;
}

-- The scores of the two sizes, and the first twenty phrases.
pub record Similarity : Type 0 where
  pub of_three : Score
  pub of_four : Score
  pub matched_phrases : List MatchedPhrase

abbrev no_score : Score
no_score = record { shared = 0; union = 0 }

pub size_score : ℕ → Text → Text → Score × List MatchedPhrase
unfolding build_ngrams jaccard_ngrams occurrences
size_score size a b =
    let (score, matched) = jaccard_ngrams (build_ngrams a size) (build_ngrams b size) in
    (score, map (occurrences (build_ngrams a size) (build_ngrams b size)) matched)

-- `compare`, of texts that `normalizeForNgrams` has normalized.
pub compare_texts : Text → Text → Similarity
unfolding size_score
compare_texts a b =
    if ltb (length a) 3
    then record { of_three = no_score; of_four = no_score; matched_phrases = [] }
    else if ltb (length b) 3
    then record { of_three = no_score; of_four = no_score; matched_phrases = [] }
    else record {
      of_three = (size_score 3 a b).0;
      of_four = (size_score 4 a b).0;
      matched_phrases = take 20 ((size_score 3 a b).1 ++ (size_score 4 a b).1);
    }
