-- ===== src/Portfolio/Reorder.antt =====
-- beleqet-jobs-nextjs/app/portfolio/portfolio/utils/reorder.ts: moving an item of a list by drag and
-- drop. Indices are integers, since the code tests for negative ones; `Array.prototype.splice` and the
-- stable `Array.prototype.sort` are written out.
pub mod Laws
pub mod Indices
use beleqet_ecosystem_update.Base.{
  ℕ, zero, suc, ◌==◌, ltb, leb, if◌then◌else◌, Bool, true, false, Option, none, some, List, [], ◌∷◌,
  length, ℤ, pos, negsuc, ◌≡◌,
}

module _ {ℓ} {A : Type ℓ} where
  pub get_elem? : List A → ℕ → Option A
  get_elem? [] n = none
  get_elem? (x ∷ xs) zero = some x
  get_elem? (x ∷ xs) (suc n) = get_elem? xs n

  -- `splice(n, 1)`
  pub remove_at : ℕ → List A → List A
  remove_at n [] = []
  remove_at zero (x ∷ xs) = xs
  remove_at (suc n) (x ∷ xs) = x ∷ remove_at n xs

  -- `splice(n, 0, y)`
  pub insert_at : ℕ → A → List A → List A
  insert_at zero y xs = y ∷ xs
  insert_at (suc n) y [] = y ∷ []
  insert_at (suc n) y (x ∷ xs) = x ∷ insert_at n y xs

  pub move : ℕ → ℕ → List A → List A
  unfolding get_elem? remove_at insert_at
  move from to items = elim (get_elem? items from) [
    | none ↦ items
    | some removed ↦ insert_at to removed (remove_at from items)
  ]

  unfoldable pub reorder_items : List A → ℤ → ℤ → List A
  unfolding move
  reorder_items items (pos from) (pos to) =
      if from == to
      then items
      else if leb (length items) from
      then items
      else if leb (length items) to
      then items
      else move from to items
  reorder_items items (negsuc from) (pos to) = items
  reorder_items items (pos from) (negsuc to) = items
  reorder_items items (negsuc from) (negsuc to) = items

-- Items that carry an `orderIndex`: how it is read, and how `{ ...item, orderIndex }` replaces it.
pub record Ordered {ℓ} (A : Type ℓ) : Type ℓ where
  pub order_index : A → ℕ
  pub with_index : ℕ → A → A
  pub index_set : (n : ℕ) (x : A) → order_index (with_index n x) ≡ n
  pub set_twice : (n m : ℕ) (x : A) → with_index n (with_index m x) ≡ with_index n x

module _ {ℓ} {A : Type ℓ} (o : Ordered A) where
  pub index_from : ℕ → List A → List A
  index_from n [] = []
  index_from n (x ∷ xs) = o.with_index n x ∷ index_from (suc n) xs

  unfoldable pub apply_order_indices : List A → List A
  unfolding index_from
  apply_order_indices items = index_from 0 items

  -- An item goes before the first that has a larger index, or the same one: those come later in the
  -- source's list.
  pub insert_sorted : A → List A → List A
  insert_sorted x [] = x ∷ []
  insert_sorted x (y ∷ ys) =
      let rest = insert_sorted x ys in
      if leb (o.order_index x) (o.order_index y) then x ∷ y ∷ ys else y ∷ rest

  unfoldable pub sort_by_order_index : List A → List A
  unfolding insert_sorted
  sort_by_order_index [] = []
  sort_by_order_index (x ∷ xs) = insert_sorted x (sort_by_order_index xs)
