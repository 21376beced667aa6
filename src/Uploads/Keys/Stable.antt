-- ===== src/Uploads/Keys/Stable.antt =====
-- Plain keys, for `validateStorageKey` of src/modules/uploads/uploads.service.ts.
use beleqet_ecosystem_update.Base.{
  Text, ℕ, ◌==◌, ◌||◌, ◌≡◌, ◌≤◌, refl, not, length, length-append, Bool, true, false, Option, some,
  [], ◌∷◌, ◌++◌, arith,
}
use beleqet_ecosystem_update.Uploads.Text.{
  is_empty, all, all-append, all-imp, slash, backslash, percent, is_white, is_slash, trim,
  strip_slashes, split-two, strip-none, strip-ends, unify_slashes-none,
}
use beleqet_ecosystem_update.Uploads.Keys.{
  is_word, is_safe_segment, is_file_name, normalize, normalized, check_key, validate_storage_key,
  max_key_length,
}
use beleqet_ecosystem_update.Uploads.Keys.Laws.{
  is_name_unit, is_file_name-units, is_file_name-length, is_safe_segment-units, word-name,
  name_unit-not-slash, validate_storage_key-IsSafeKey,
}

-- What `decodeURIComponent` is documented to do with a text without escapes.
abbrev pub DecodesPlain : (Text → Option Text) → Type 0
DecodesPlain decode = (t : Text) → all (λ c. not (c == percent)) t ≡ true → decode t ≡ some t

-- The units of a key.
unfoldable pub is_key_unit : ℕ → Bool
is_key_unit c = is_name_unit c || c == slash

pub key_unit-not_white : (c : ℕ) → is_key_unit c ≡ true → not (is_white c) ≡ true
unfolding is_key_unit is_white
key_unit-not_white c h = ground arith

pub key_unit-plain :
    (c : ℕ) → is_key_unit c ≡ true → (not (c == backslash) ≡ true) × (not (c == percent) ≡ true)
unfolding is_key_unit
key_unit-plain c h = ground arith

pub name-key_unit : (c : ℕ) → is_name_unit c ≡ true → is_key_unit c ≡ true
unfolding is_key_unit
name-key_unit c h = ground arith

key-units :
    (folder filename : Text)
    → is_safe_segment folder ≡ true
    → is_file_name filename ≡ true
    → all is_key_unit (folder ++ (slash ∷ filename)) ≡ true
unfolding is_key_unit
key-units folder filename safe named =
    let sum = all-append is_key_unit folder (slash ∷ filename) in
    let first =
      all-imp is_word is_key_unit folder (λ c h. name-key_unit c (word-name c h))
        (is_safe_segment-units folder safe).0 in
    let second =
      all-imp is_name_unit is_key_unit filename name-key_unit (is_file_name-units filename named) in
    ground arith

pub is_empty-length : (t : Text) → 36 ≤ length t → is_empty t ≡ false
is_empty-length [] h = absurd (omega arith)
is_empty-length (c ∷ cs) h = refl

strip_slashes-key :
    (folder filename : Text)
    → is_safe_segment folder ≡ true
    → is_file_name filename ≡ true
    → strip_slashes (folder ++ (slash ∷ filename)) ≡ folder ++ (slash ∷ filename)
unfolding strip_slashes is_safe_segment
strip_slashes-key [] filename safe named = absurd cc
strip_slashes-key (c ∷ cs) filename safe named =
    strip-ends is_slash c slash cs filename (ground arith)
      (is_empty-length filename (is_file_name-length filename named).0)
      (all-imp is_name_unit _ filename name_unit-not-slash (is_file_name-units filename named))

normalize-key :
    (folder filename : Text)
    → is_safe_segment folder ≡ true
    → is_file_name filename ≡ true
    → normalize (folder ++ (slash ∷ filename)) ≡ folder ++ (slash ∷ filename)
unfolding normalize trim
normalize-key folder filename safe named =
    let units = key-units folder filename safe named in
    rw
      (
        strip-none is_white (folder ++ (slash ∷ filename))
            (all-imp is_key_unit _ _ key_unit-not_white units),
        unify_slashes-none (folder ++ (slash ∷ filename))
            (all-imp is_key_unit _ _ (λ c h. (key_unit-plain c h).0) units),
      )
      (strip_slashes-key folder filename safe named)

key-length :
    (folder filename : Text)
    → is_safe_segment folder ≡ true
    → is_file_name filename ≡ true
    → (length (folder ++ (slash ∷ filename)) ≤ max_key_length)
      × (is_empty (folder ++ (slash ∷ filename)) ≡ false)
key-length folder filename safe named =
    let sum = length-append {A = ℕ} folder (slash ∷ filename) in
    let one = (is_safe_segment-units folder safe).1 in
    let two = (is_file_name-length filename named).1 in
    (
      omega arith,
      is_empty-length (folder ++ (slash ∷ filename))
          (omega (arith, (is_file_name-length filename named).0)),
    )

-- A key of a safe folder and a safe file name is accepted and stays as it is.
pub validate_storage_key-safe :
    (decode : Text → Option Text) (folder filename : Text)
    → DecodesPlain decode
    → is_safe_segment folder ≡ true
    → is_file_name filename ≡ true
    → validate_storage_key decode (folder ++ (slash ∷ filename))
      ≡ some (folder ++ (slash ∷ filename))
unfolding validate_storage_key normalized check_key
validate_storage_key-safe decode folder filename plain safe named =
    let units = key-units folder filename safe named in
    let same = normalize-key folder filename safe named in
    let low = key-length folder filename safe named in
    let decoded = plain (folder ++ (slash ∷ filename)) (
      all-imp is_key_unit _ (folder ++ (slash ∷ filename)) (λ c h. (key_unit-plain c h).1) units) in
    let parts =
      split-two slash folder filename
        (all-imp is_word _ folder (λ c h. name_unit-not-slash c (word-name c h))
          (is_safe_segment-units folder safe).0)
        (all-imp is_name_unit _ filename name_unit-not-slash (is_file_name-units filename named)) in
    ground arith

-- A key that was accepted is accepted again as it is, where the decoding leaves a text without escapes
-- alone: what one request stores under a key, another finds under the same.
pub validate_storage_key_twice :
    (decode : Text → Option Text) (key accepted : Text)
    → DecodesPlain decode
    → validate_storage_key decode key ≡ some accepted
    → validate_storage_key decode accepted ≡ some accepted
validate_storage_key_twice decode key accepted plain h =
    let safe = validate_storage_key-IsSafeKey decode key accepted h in
    rw safe.whole (
      validate_storage_key-safe decode safe.folder safe.filename plain safe.safe_folder
        safe.safe_filename)
