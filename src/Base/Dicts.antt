-- ===== src/Base/Dicts.antt =====
-- A table of the database as an association list on its unique key.
use Prim.Native.Nat.{ℕ, ◌+◌}
use mathlib.Core.Path.{◌≡◌, refl}
use mathlib.Core.Logic.{◌≢◌, inl, inr}
use mathlib.Core.Bool.{Bool, true, false}
use mathlib.Core.List.{List, [], ◌∷◌}
use mathlib.Core.Option.{Option, none, some}
use native.Mathlib.Omega.{arith}
use beleqet_ecosystem_update.Base.Tests.{◌==◌, if◌then◌else◌, Bool-cases}

abbrev pub Dict {ℓ} : Type ℓ → Type ℓ
Dict V = List (ℕ × V)

module _ {ℓ} {V : Type ℓ} where
  unfoldable pub lookup : ℕ → Dict V → Option V
  lookup k [] = none
  lookup k ((j, v) ∷ d) = if j == k then some v else lookup k d

  -- Writes the row of a key, in its place if there is one and at the end otherwise.
  unfoldable pub insert : ℕ → V → Dict V → Dict V
  insert k v [] = (k, v) ∷ []
  insert k v ((j, w) ∷ d) = if j == k then (k, v) ∷ d else (j, w) ∷ insert k v d

  unfoldable pub erase : ℕ → Dict V → Dict V
  erase k [] = []
  erase k ((j, w) ∷ d) = if j == k then erase k d else (j, w) ∷ erase k d

  -- An update of every row by its key and value.
  pub map_values : (ℕ → V → V) → Dict V → Dict V
  map_values f [] = []
  map_values f ((j, w) ∷ d) = (j, f j w) ∷ map_values f d

  -- The first row whose value passes the test.
  unfoldable pub find_value : (V → Bool) → Dict V → Option V
  find_value p [] = none
  find_value p ((j, v) ∷ d) = if p v then some v else find_value p d

  pub lookup-insert :
      (k j : ℕ) (v : V) (d : Dict V)
      → lookup j (insert k v d) ≡ (if k == j then some v else lookup j d)
  unfolding lookup insert
  lookup-insert k j v [] = refl
  lookup-insert k j v ((i, w) ∷ d) = ground (arith, lookup-insert k j v d)

  pub lookup-insert_self : (k : ℕ) (v : V) (d : Dict V) → lookup k (insert k v d) ≡ some v
  lookup-insert_self k v d = ground (arith, lookup-insert k k v d)

  pub lookup-erase :
      (k j : ℕ) (d : Dict V) → lookup j (erase k d) ≡ (if k == j then none else lookup j d)
  unfolding lookup erase
  lookup-erase k j [] = ground arith
  lookup-erase k j ((i, w) ∷ d) = ground (arith, lookup-erase k j d)

  pub find_value_sound : (p : V → Bool) (d : Dict V) (v : V) → find_value p d ≡ some v → p v ≡ true
  unfolding find_value
  find_value_sound p [] v h = cc
  find_value_sound p ((j, w) ∷ d) v h = ground (arith, find_value_sound p d v)

  -- Every row passes a predicate.
  abbrev pub AllRows {κ} : (V → Type κ) → Dict V → Type κ
  AllRows P [] = Unit
  AllRows P ((_, v) ∷ d) = P v × AllRows P d

  pub AllRows-imp {κ μ} :
      (P : V → Type κ) (Q : V → Type μ) (d : Dict V)
      → ((v : V) → P v → Q v)
      → AllRows P d
      → AllRows Q d
  AllRows-imp P Q [] f a = tt
  AllRows-imp P Q ((_, v) ∷ d) f a = (f v a.0, AllRows-imp P Q d f a.1)

  pub find_value-none :
      (p : V → Bool) (d : Dict V) → find_value p d ≡ none → AllRows (λ v. p v ≡ false) d
  unfolding find_value
  find_value-none p [] h = tt
  find_value-none p ((j, w) ∷ d) h = ground (arith, find_value-none p d)

  pub lookup-map_values :
      (f : ℕ → V → V) (k : ℕ) (d : Dict V) (v : V)
      → lookup k d ≡ some v
      → lookup k (map_values f d) ≡ some (f k v)
  unfolding lookup map_values
  lookup-map_values f k [] v h = cc
  lookup-map_values f k ((j, w) ∷ d) v h = ground (arith, lookup-map_values f k d v)

  pub lookup-map_values-none :
      (f : ℕ → V → V) (k : ℕ) (d : Dict V) → lookup k d ≡ none → lookup k (map_values f d) ≡ none
  unfolding lookup map_values
  lookup-map_values-none f k [] h = refl
  lookup-map_values-none f k ((j, w) ∷ d) h = ground (arith, lookup-map_values-none f k d)

  -- The first row that passes, with its key.
  unfoldable pub find_row : (V → Bool) → Dict V → Option (ℕ × V)
  find_row p [] = none
  find_row p ((j, v) ∷ d) = if p v then some (j, v) else find_row p d

  -- What a deletion of many rows leaves: those that pass.
  unfoldable pub keep_rows : (ℕ → V → Bool) → Dict V → Dict V
  keep_rows p [] = []
  keep_rows p ((j, v) ∷ d) = if p j v then (j, v) ∷ keep_rows p d else keep_rows p d

  pub lookup-keep_rows :
      (p : ℕ → V → Bool) (k : ℕ) (d : Dict V)
      → ((v : V) → p k v ≡ true)
      → lookup k (keep_rows p d) ≡ lookup k d
  unfolding lookup keep_rows
  lookup-keep_rows p k [] h = refl
  lookup-keep_rows p k ((j, v) ∷ d) h = ground (arith, h v, lookup-keep_rows p k d h)

  pub lookup-keep_rows-none :
      (p : ℕ → V → Bool) (k : ℕ) (d : Dict V) → lookup k d ≡ none → lookup k (keep_rows p d) ≡ none
  unfolding lookup keep_rows
  lookup-keep_rows-none p k [] h = refl
  lookup-keep_rows-none p k ((j, v) ∷ d) h = ground (arith, lookup-keep_rows-none p k d)

  pub lookup-erase_self : (k : ℕ) (d : Dict V) → lookup k (erase k d) ≡ none
  lookup-erase_self k d = ground (arith, lookup-erase k k d)

  -- The number of rows that pass a test.
  unfoldable pub count_rows : (ℕ → V → Bool) → Dict V → ℕ
  count_rows p [] = 0
  count_rows p ((j, v) ∷ d) = (if p j v then 1 else 0) + count_rows p d

  -- No key has two rows.
  abbrev pub Distinct : Dict V → Type ℓ
  Distinct [] = Unit
  Distinct ((j, v) ∷ d) = (lookup j d ≡ none) × Distinct d

  pub lookup-find_row :
      (p : V → Bool) (d : Dict V) (k : ℕ) (v : V) → find_row p d ≡ some (k, v) → lookup k d ≢ none
  unfolding find_row lookup
  lookup-find_row p [] k v h e = cc
  lookup-find_row p ((j, w) ∷ d) k v h e = ground (arith, lookup-find_row p d k v)

  pub find_row_sound :
      (p : V → Bool) (d : Dict V) (k : ℕ) (v : V) → find_row p d ≡ some (k, v) → p v ≡ true
  unfolding find_row
  find_row_sound p [] k v h = cc
  find_row_sound p ((j, w) ∷ d) k v h = ground (arith, find_row_sound p d k v)

  -- What replacing the row that was found does to a count.
  pub count_rows-insert :
      (p : V → Bool) (q : ℕ → V → Bool) (d : Dict V) (k : ℕ) (v w : V)
      → find_row p d ≡ some (k, v)
      → Distinct d
      → count_rows q (insert k w d) + (if q k v then 1 else 0)
        ≡ count_rows q d + (if q k w then 1 else 0)
  unfolding find_row insert count_rows
  count_rows-insert p q [] k v w h u = cc
  count_rows-insert p q ((j, x) ∷ d) k v w h u =
      ground (arith, lookup-find_row p d k v, count_rows-insert p q d k v w)

  pub lookup-find_row-some :
      (p : V → Bool) (d : Dict V) (k : ℕ) (v : V)
      → find_row p d ≡ some (k, v)
      → Distinct d
      → lookup k d ≡ some v
  unfolding find_row lookup
  lookup-find_row-some p [] k v h u = cc
  lookup-find_row-some p ((j, w) ∷ d) k v h u =
      ground (arith, lookup-find_row p d k v, lookup-find_row-some p d k v)

  pub Distinct-insert : (k : ℕ) (v : V) (d : Dict V) → Distinct d → Distinct (insert k v d)
  unfolding lookup insert
  Distinct-insert k v [] h = (refl, tt)
  Distinct-insert k v ((j, w) ∷ d) h =
      let at = lookup-insert k j v d in
      let rest = Distinct-insert k v d h.1 in
      elim (Bool-cases (j == k)) [ inl same ↦ ground arith | inr other ↦ ground arith ]

  pub Distinct-erase : (k : ℕ) (d : Dict V) → Distinct d → Distinct (erase k d)
  unfolding lookup erase
  Distinct-erase k [] h = tt
  Distinct-erase k ((j, w) ∷ d) h =
      let at = lookup-erase k j d in let rest = Distinct-erase k d h.1 in ground arith
