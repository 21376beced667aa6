-- ===== src/Portfolio/Reorder/Indices.antt =====
-- The indices that record the order of a list, and moves of a list that is shown by them
-- (utils/reorder.ts).
use beleqet_ecosystem_update.Base.{
  ℕ, zero, suc, ◌≡◌, refl, sym, ◌∙◌, ap, Option-cases, none, some, inl, inr, List, [], ◌∷◌, length,
  map, ℤ, pos, negsuc, arith,
}
use beleqet_ecosystem_update.Portfolio.Reorder.{
  get_elem?, remove_at, insert_at, move, reorder_items, Ordered, index_from, apply_order_indices,
  insert_sorted, sort_by_order_index,
}
use beleqet_ecosystem_update.Portfolio.Reorder.Laws.{reorder_items_back}

module _ {A B : Type 0} (f : A → B) where
  length-map : (xs : List A) → length (map f xs) ≡ length xs
  length-map [] = refl
  length-map (x ∷ xs) = ap suc (length-map xs)

  get_elem?-map :
      (xs : List A) (n : ℕ)
      → get_elem? (map f xs) n ≡ elim (get_elem? xs n) [ none ↦ none | some x ↦ some (f x) ]
  unfolding get_elem?
  get_elem?-map [] n = refl
  get_elem?-map (x ∷ xs) zero = refl
  get_elem?-map (x ∷ xs) (suc n) = get_elem?-map xs n

  remove_at-map : (n : ℕ) (xs : List A) → remove_at n (map f xs) ≡ map f (remove_at n xs)
  unfolding remove_at
  remove_at-map n [] = refl
  remove_at-map zero (x ∷ xs) = refl
  remove_at-map (suc n) (x ∷ xs) = ap (λ zs. f x ∷ zs) (remove_at-map n xs)

  insert_at-map :
      (n : ℕ) (y : A) (xs : List A) → insert_at n (f y) (map f xs) ≡ map f (insert_at n y xs)
  unfolding insert_at
  insert_at-map zero y xs = refl
  insert_at-map (suc n) y [] = refl
  insert_at-map (suc n) y (x ∷ xs) = ap (λ zs. f x ∷ zs) (insert_at-map n y xs)

  move-map : (from to : ℕ) (xs : List A) → move from to (map f xs) ≡ map f (move from to xs)
  unfolding move
  move-map from to xs = elim (Option-cases (get_elem? xs from)) [
    | inl missing ↦ rw (get_elem?-map xs from, missing, move) refl
    | inr (x, found) ↦
        rw (get_elem?-map xs from, found, move, remove_at-map from xs)
          (insert_at-map to x (remove_at from xs))
  ]

  reorder_items-map :
      (xs : List A) (from to : ℤ)
      → reorder_items (map f xs) from to ≡ map f (reorder_items xs from to)
  unfolding reorder_items
  reorder_items-map xs (pos from) (pos to) =
      let same_length = length-map xs in let moved = move-map from to xs in ground arith
  reorder_items-map xs (pos from) (negsuc to) = refl
  reorder_items-map xs (negsuc from) (pos to) = refl
  reorder_items-map xs (negsuc from) (negsuc to) = refl

module _ {A : Type 0} (o : Ordered A) where
  -- What an item is apart from its index.
  bare : A → A
  bare x = o.with_index 0 x

  map-bare-index_from : (n : ℕ) (xs : List A) → map bare (index_from o n xs) ≡ map bare xs
  unfolding index_from bare
  map-bare-index_from n [] = refl
  map-bare-index_from n (x ∷ xs) =
      let hx = o.set_twice 0 n x in let hs = map-bare-index_from (suc n) xs in cc

  index_from-map-bare : (n : ℕ) (xs : List A) → index_from o n (map bare xs) ≡ index_from o n xs
  unfolding index_from bare
  index_from-map-bare n [] = refl
  index_from-map-bare n (x ∷ xs) =
      let hx = o.set_twice n 0 x in let hs = index_from-map-bare (suc n) xs in cc

  apply-reorder_items-apply :
      (xs : List A) (from to : ℤ)
      → apply_order_indices o (reorder_items (apply_order_indices o xs) from to)
        ≡ apply_order_indices o (reorder_items xs from to)
  unfolding apply_order_indices
  apply-reorder_items-apply xs from to =
      let ys = index_from o 0 xs in
      sym (index_from-map-bare 0 (reorder_items ys from to))
      ∙ ap (index_from o 0) (sym (reorder_items-map bare ys from to))
      ∙ ap (λ zs. index_from o 0 (reorder_items zs from to)) (map-bare-index_from 0 xs)
      ∙ ap (index_from o 0) (reorder_items-map bare xs from to)
      ∙ index_from-map-bare 0 (reorder_items xs from to)

  insert_sorted-index_from :
      (n : ℕ) (x : A) (xs : List A)
      → insert_sorted o (o.with_index n x) (index_from o (suc n) xs) ≡ index_from o n (x ∷ xs)
  unfolding insert_sorted index_from
  insert_sorted-index_from n x [] = refl
  insert_sorted-index_from n x (y ∷ ys) =
      let hx = o.index_set n x in let hy = o.index_set (suc n) y in ground arith

  sort-index_from :
      (n : ℕ) (xs : List A) → sort_by_order_index o (index_from o n xs) ≡ index_from o n xs
  unfolding sort_by_order_index index_from
  sort-index_from n [] = refl
  sort-index_from n (x ∷ xs) =
      ap (insert_sorted o (o.with_index n x)) (sort-index_from (suc n) xs)
      ∙ insert_sorted-index_from n x xs

  -- Sorting a list by the indices that were just given changes nothing.
  pub sort-apply :
      (xs : List A) → sort_by_order_index o (apply_order_indices o xs) ≡ apply_order_indices o xs
  unfolding apply_order_indices
  sort-apply xs = sort-index_from 0 xs

  -- Showing a list by its indices, moving an item and moving it back, each time with new indices.
  pub moved_back :
      (xs : List A) (from to : ℤ)
      → apply_order_indices o (
          reorder_items
            (sort_by_order_index o
              (apply_order_indices o (reorder_items (sort_by_order_index o xs) from to)))
            to
            from)
        ≡ apply_order_indices o (sort_by_order_index o xs)
  moved_back xs from to =
      let ys = sort_by_order_index o xs in
      ap (λ zs. apply_order_indices o (reorder_items zs to from))
        (sort-apply (reorder_items ys from to))
      ∙ apply-reorder_items-apply (reorder_items ys from to) to from
      ∙ ap (apply_order_indices o) ((reorder_items_back ys from to).1)
