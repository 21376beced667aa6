-- ===== src/Portfolio/Reorder/Laws.antt =====
-- Moving an item and moving it back, and the order that the indices record (utils/reorder.ts).
use mathlib.Core.List.{Perm}
use mathlib.Core.List.Perm
use beleqet_ecosystem_update.Base.{
  ℕ, zero, suc, ◌<◌, ◌≤◌, ◌==◌, leb, ◌≡◌, refl, ◌∙◌, ap, some, List, [], ◌∷◌, length, ℤ, pos,
  negsuc, inl, inr, Option-cases, arith, Bool, true, false, if◌then◌else◌,
}
use beleqet_ecosystem_update.Portfolio.Reorder.{
  get_elem?, remove_at, insert_at, move, reorder_items,
}

module _ {A : Type 0} where
  get_elem?-some : (xs : List A) (n : ℕ) → n < length xs → (x : A) × (get_elem? xs n ≡ some x)
  unfolding get_elem?
  get_elem?-some [] n h = absurd (omega arith)
  get_elem?-some (x ∷ xs) zero h = (x, refl)
  get_elem?-some (x ∷ xs) (suc n) h = get_elem?-some xs n (omega arith)

  length-remove_at :
      (n : ℕ) (xs : List A) → n < length xs → suc (length (remove_at n xs)) ≡ length xs
  unfolding remove_at
  length-remove_at n [] h = absurd (omega arith)
  length-remove_at zero (x ∷ xs) h = refl
  length-remove_at (suc n) (x ∷ xs) h = omega (arith, length-remove_at n xs (omega arith))

  length-insert_at : (n : ℕ) (y : A) (xs : List A) → length (insert_at n y xs) ≡ suc (length xs)
  unfolding insert_at
  length-insert_at zero y xs = refl
  length-insert_at (suc n) y [] = refl
  length-insert_at (suc n) y (x ∷ xs) = omega (arith, length-insert_at n y xs)

  get_elem?-insert_at :
      (n : ℕ) (y : A) (xs : List A) → n ≤ length xs → get_elem? (insert_at n y xs) n ≡ some y
  unfolding get_elem? insert_at
  get_elem?-insert_at zero y xs h = refl
  get_elem?-insert_at (suc n) y [] h = absurd (omega arith)
  get_elem?-insert_at (suc n) y (x ∷ xs) h = get_elem?-insert_at n y xs (omega arith)

  remove_at-insert_at :
      (n : ℕ) (y : A) (xs : List A) → n ≤ length xs → remove_at n (insert_at n y xs) ≡ xs
  unfolding remove_at insert_at
  remove_at-insert_at zero y xs h = refl
  remove_at-insert_at (suc n) y [] h = absurd (omega arith)
  remove_at-insert_at (suc n) y (x ∷ xs) h =
      ap (λ zs. x ∷ zs) (remove_at-insert_at n y xs (omega arith))

  insert_at-remove_at :
      (n : ℕ) (y : A) (xs : List A) → get_elem? xs n ≡ some y → insert_at n y (remove_at n xs) ≡ xs
  unfolding get_elem? remove_at insert_at
  insert_at-remove_at n y [] h = cc
  insert_at-remove_at zero y (x ∷ xs) h = cc
  insert_at-remove_at (suc zero) y (x ∷ z ∷ xs) h = cc
  insert_at-remove_at (suc n) y (x ∷ xs) h = ap (λ zs. x ∷ zs) (insert_at-remove_at n y xs h)

  move-found :
      (from to : ℕ) (x : A) (xs : List A)
      → get_elem? xs from ≡ some x
      → move from to xs ≡ insert_at to x (remove_at from xs)
  unfolding move
  move-found from to x xs h = rw (h, move) refl

  move_back :
      (from to : ℕ) (xs : List A)
      → from < length xs
      → to < length xs
      → move to from (move from to xs) ≡ xs
  move_back from to xs hf ht =
      let (x, found) = get_elem?-some xs from hf in
      let short = length-remove_at from xs hf in
      let back = get_elem?-insert_at to x (remove_at from xs) (omega (arith, short)) in
      let gone = remove_at-insert_at to x (remove_at from xs) (omega (arith, short)) in
      ap (move to from) (move-found from to x xs found)
      ∙ move-found to from x (insert_at to x (remove_at from xs)) back
      ∙ ap (insert_at from x) gone
      ∙ insert_at-remove_at from x xs found

  length-move :
      (from to : ℕ) (xs : List A) → from < length xs → length (move from to xs) ≡ length xs
  length-move from to xs h =
      let (x, found) = get_elem?-some xs from h in
      ap length (move-found from to x xs found)
      ∙ length-insert_at to x (remove_at from xs)
      ∙ length-remove_at from xs h

  reorder_back :
      (xs : List A) (from to : ℕ)
      → reorder_items (reorder_items xs (pos from) (pos to)) (pos to) (pos from) ≡ xs
  unfolding reorder_items
  reorder_back xs from to = ground (arith, move_back from to xs, length-move from to xs)

  back_again : (xs : List A) (from to : ℤ) → reorder_items (reorder_items xs from to) to from ≡ xs
  unfolding reorder_items
  back_again xs (pos from) (pos to) = reorder_back xs from to
  back_again xs (pos from) (negsuc to) = refl
  back_again xs (negsuc from) (pos to) = refl
  back_again xs (negsuc from) (negsuc to) = refl

  Perm-remove_at :
      (n : ℕ) (x : A) (xs : List A) → get_elem? xs n ≡ some x → Perm xs (x ∷ remove_at n xs)
  unfolding get_elem? remove_at
  Perm-remove_at n x [] h = absurd cc
  Perm-remove_at zero x (y ∷ ys) h = let same : y ≡ x = cc in rw same Perm.rfl
  Perm-remove_at (suc n) x (y ∷ ys) h =
      Perm.trans (Perm.cons y (Perm-remove_at n x ys h)) (Perm.swap x y (remove_at n ys))

  Perm-insert_at : (n : ℕ) (x : A) (xs : List A) → Perm (x ∷ xs) (insert_at n x xs)
  unfolding insert_at
  Perm-insert_at zero x xs = Perm.rfl
  Perm-insert_at (suc n) x [] = Perm.rfl
  Perm-insert_at (suc n) x (y ∷ ys) =
      Perm.trans (Perm.swap y x ys) (Perm.cons y (Perm-insert_at n x ys))

  Perm-move : (from to : ℕ) (xs : List A) → Perm xs (move from to xs)
  unfolding move
  Perm-move from to xs = elim (Option-cases (get_elem? xs from)) [
    | inl missing ↦ rw (missing, move) Perm.rfl
    | inr (x, found) ↦
        rw (found, move)
          (Perm.trans (Perm-remove_at from x xs found) (Perm-insert_at to x (remove_at from xs)))
  ]

  in_both :
      (P : List A → Type 0) (c : Bool) {xs ys : List A} → P xs → P ys → P (if c then xs else ys)
  in_both P true hx hy = hx
  in_both P false hx hy = hy

  Perm-reorder_items : (xs : List A) (from to : ℤ) → Perm xs (reorder_items xs from to)
  unfolding reorder_items
  Perm-reorder_items xs (pos from) (pos to) = in_both (Perm xs) (from == to) Perm.rfl (
      in_both (Perm xs) (leb (length xs) from) Perm.rfl
        (in_both (Perm xs) (leb (length xs) to) Perm.rfl (Perm-move from to xs)))
  Perm-reorder_items xs (pos from) (negsuc to) = Perm.rfl
  Perm-reorder_items xs (negsuc from) (pos to) = Perm.rfl
  Perm-reorder_items xs (negsuc from) (negsuc to) = Perm.rfl

  -- A move keeps the items, each as often as it was there, and moving the item back gives the list
  -- there was; for any two indices, since where one is out of range or negative, or where they are
  -- equal, neither of the two moves does anything.
  pub reorder_items_back :
      (xs : List A) (from to : ℤ)
      → Perm xs (reorder_items xs from to) × (reorder_items (reorder_items xs from to) to from ≡ xs)
  reorder_items_back xs from to = (Perm-reorder_items xs from to, back_again xs from to)
