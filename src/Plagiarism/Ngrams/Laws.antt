-- ===== src/Plagiarism/Ngrams/Laws.antt =====
-- The score of one size (src/modules/plagiarism/similarity/ngram.service.ts).
use beleqet_ecosystem_update.Base.{
  Text, equals, equals_sound, equals_refl, ==_refl, ℕ, ◌+◌, ◌≡◌, ◌≤◌, ◌↔◌, ◌∙◌, sym, ap, refl, inl,
  inr, not, filter, if◌then◌else◌, Bool, true, false, Bool-cases, List, [], ◌∷◌, ◌++◌, arith,
}
use beleqet_ecosystem_update.Plagiarism.Ngrams.{
  GramMap, gram_count, bump, grams, count_grams, build_ngrams, has_gram, all_keys, keys, sum_keys,
  jaccard_ngrams, size_score, compare_texts,
}

-- How often a gram stands in a list.
pub times_in : Text → List Text → ℕ
times_in gram [] = 0
times_in gram (g ∷ gs) = (if equals g gram then 1 else 0) + times_in gram gs

in_list : Text → List Text → Bool
in_list gram [] = false
in_list gram (g ∷ gs) = if equals g gram then true else in_list gram gs

gram_count-bump :
    (gram g : Text) (m : GramMap)
    → gram_count gram (bump g m) ≡ (if equals g gram then 1 else 0) + gram_count gram m
unfolding gram_count bump
gram_count-bump gram g [] = ground arith
gram_count-bump gram g ((k, n) ∷ m) =
    let rest = gram_count-bump gram g m in
    let same = equals_sound k g in
    let other = equals_sound k gram in
    let third = equals_sound g gram in let self = equals_refl gram in ground arith

count_grams-times_in :
    (gram : Text) (gs : List Text) (m : GramMap)
    → gram_count gram (count_grams gs m) ≡ times_in gram gs + gram_count gram m
unfolding count_grams times_in
count_grams-times_in gram [] m = omega arith
count_grams-times_in gram (g ∷ gs) m =
    let rest = count_grams-times_in gram gs (bump g m) in
    let one = gram_count-bump gram g m in omega arith

-- The map counts how often each gram stands in the text.
build_ngrams-times_in :
    (gram text : Text) (size : ℕ)
    → gram_count gram (build_ngrams text size) ≡ times_in gram (grams size text)
unfolding build_ngrams gram_count
build_ngrams-times_in gram text size =
    let whole = count_grams-times_in gram (grams size text) [] in omega arith

sum_keys-bound :
    (ks : List Text) (a b : GramMap) → (sum_keys ks a b).shared ≤ (sum_keys ks a b).union
unfolding sum_keys
sum_keys-bound [] a b = omega arith
sum_keys-bound (k ∷ ks) a b = ground (arith, sum_keys-bound ks a b)

sum_keys-agree :
    (ks : List Text) (a b : GramMap) (gram : Text)
    → (sum_keys ks a b).shared ≡ (sum_keys ks a b).union
    → in_list gram ks ≡ true
    → gram_count gram a ≡ gram_count gram b
unfolding sum_keys in_list
sum_keys-agree [] a b gram e h = absurd cc
sum_keys-agree (k ∷ ks) a b gram e h =
    let low = sum_keys-bound ks a b in
    let rest = sum_keys-agree ks a b gram in
    let here = equals_sound k gram in
    elim (Bool-cases (equals k gram)) [
      | inl same ↦
          let agree : gram_count k a ≡ gram_count k b = ground arith in
          let back = sym (here same) in
          ap (λ (g : Text). gram_count g a) back
          ∙ agree
          ∙ ap (λ (g : Text). gram_count g b) (here same)
      | inr other ↦ ground arith
    ]

sum_keys-same :
    (ks : List Text) (a b : GramMap)
    → ((gram : Text) → gram_count gram a ≡ gram_count gram b)
    → (sum_keys ks a b).shared ≡ (sum_keys ks a b).union
unfolding sum_keys
sum_keys-same [] a b h = refl
sum_keys-same (k ∷ ks) a b h = let rest = sum_keys-same ks a b h in let here = h k in ground arith

gram_count-none : (gram : Text) (m : GramMap) → has_gram gram m ≡ false → gram_count gram m ≡ 0
unfolding has_gram gram_count
gram_count-none gram [] h = refl
gram_count-none gram ((k, n) ∷ m) h = ground (arith, gram_count-none gram m)

in_list-append :
    (gram : Text) (xs ys : List Text)
    → in_list gram (xs ++ ys) ≡ (if in_list gram xs then true else in_list gram ys)
unfolding in_list
in_list-append gram [] ys = refl
in_list-append gram (x ∷ xs) ys = ground (arith, in_list-append gram xs ys)

in_list-keys : (gram : Text) (m : GramMap) → in_list gram (keys m) ≡ has_gram gram m
unfolding in_list has_gram
in_list-keys gram [] = refl
in_list-keys gram ((k, n) ∷ m) = ground (arith, in_list-keys gram m)

in_list-filter :
    (gram : Text) (a : GramMap) (ks : List Text)
    → has_gram gram a ≡ false
    → in_list gram (filter (λ k. not (has_gram k a)) ks) ≡ in_list gram ks
unfolding in_list
in_list-filter gram a [] h = refl
in_list-filter gram a (k ∷ ks) h =
    let rest = in_list-filter gram a ks h in
    let here = equals_sound k gram in
    elim (Bool-cases (equals k gram)) [
      | inl same ↦
          let absent : has_gram k a ≡ false = ap (λ (g : Text). has_gram g a) (here same) ∙ h in
          ground arith
      | inr other ↦ ground arith
    ]

in_list-all_keys :
    (gram : Text) (a b : GramMap)
    → in_list gram (all_keys a b) ≡ (if has_gram gram a then true else has_gram gram b)
unfolding all_keys
in_list-all_keys gram a b =
    let parts = in_list-append gram (keys a) (filter (λ k. not (has_gram k a)) (keys b)) in
    let first = in_list-keys gram a in
    let second = in_list-keys gram b in let new = in_list-filter gram a (keys b) in ground arith

agree-everywhere :
    (a b : GramMap) (gram : Text)
    → (sum_keys (all_keys a b) a b).shared ≡ (sum_keys (all_keys a b) a b).union
    → gram_count gram a ≡ gram_count gram b
agree-everywhere a b gram e =
    let there = in_list-all_keys gram a b in
    let counted = sum_keys-agree (all_keys a b) a b gram e in
    let none_first = gram_count-none gram a in
    let none_second = gram_count-none gram b in ground arith

-- The score of a size never exceeds one, and it is one (its shared part is its union) where the grams of
-- that size stand equally often in both texts, and only there. Where neither text has any, the source
-- counts a zero for it.
pub size_score-one :
    (size : ℕ) (a b : Text)
    → ((size_score size a b).0.shared ≤ (size_score size a b).0.union)
      × (((size_score size a b).0.shared ≡ (size_score size a b).0.union)
          ↔ ((gram : Text) → times_in gram (grams size a) ≡ times_in gram (grams size b)))
unfolding size_score jaccard_ngrams
size_score-one size a b =
    let first = build_ngrams a size in
    let second = build_ngrams b size in
    (
      sum_keys-bound (all_keys first second) first second,
      (
        (λ e gram.
            sym (build_ngrams-times_in gram a size)
            ∙ agree-everywhere first second gram e
            ∙ build_ngrams-times_in gram b size),
        (λ same. sum_keys-same (all_keys first second) first second (λ gram.
            build_ngrams-times_in gram a size
            ∙ same gram
            ∙ sym (build_ngrams-times_in gram b size))),
      ),
    )

-- For two copies of a text of three units the score of the grams of three is one of one, and that of the
-- grams of four, of which there are none, zero of zero.
pub short_copies_half_alike :
    (c d e : ℕ)
    → ((compare_texts (c ∷ d ∷ e ∷ []) (c ∷ d ∷ e ∷ [])).of_three
        ≡ record { shared = 1; union = 1 })
      × ((compare_texts (c ∷ d ∷ e ∷ []) (c ∷ d ∷ e ∷ [])).of_four
          ≡ record { shared = 0; union = 0 })
unfolding compare_texts equals
short_copies_half_alike c d e =
    let first = ==_refl c in
    let second = ==_refl d in let third = ==_refl e in (rw (first, second, third) refl, refl)
