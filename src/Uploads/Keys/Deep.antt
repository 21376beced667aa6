-- ===== src/Uploads/Keys/Deep.antt =====
-- Folders of two parts, for `validateStorageFolder` and `validateStorageKey`
-- (src/modules/uploads/uploads.service.ts).
use beleqet_ecosystem_update.Base.{
  Text, ℕ, ◌==◌, ◌≡◌, ◌≢◌, refl, ap, ◌∙◌, ltb, not, length, length-append, if◌then◌else◌, true,
  false, Option, none, some, List, [], ◌∷◌, ◌++◌, arith,
}
use mathlib.Core.List.{append_assoc}
use beleqet_ecosystem_update.Uploads.Text.{
  is_empty, all, all-imp, all-append, slash, percent, backslash, is_white, is_slash, trim,
  strip_slashes, split, split-part, split-two, strip-none, strip-ends, unify_slashes-none, join,
}
use beleqet_ecosystem_update.Uploads.Keys.{
  is_word, is_alphanumeric, is_safe_segment, is_file_name, normalize, normalized,
  validate_storage_folder, validate_storage_key, check_folder, check_key, all_safe,
  max_folder_length, max_key_length,
}
use beleqet_ecosystem_update.Uploads.Keys.Laws.{
  is_name_unit, is_safe_segment-units, is_file_name-units, is_file_name-length, word-name,
  name_unit-not-slash,
}
use beleqet_ecosystem_update.Uploads.Keys.Stable.{
  DecodesPlain, is_key_unit, key_unit-not_white, key_unit-plain, name-key_unit, is_empty-length,
}
use beleqet_ecosystem_update.Uploads.Keys.Folders.{safe_segment-some}

segment-key_units : (t : Text) → is_safe_segment t ≡ true → all is_key_unit t ≡ true
segment-key_units t safe =
    all-imp is_word is_key_unit t (λ c h. name-key_unit c (word-name c h))
      (is_safe_segment-units t safe).0

segment-names : (t : Text) → is_safe_segment t ≡ true → all is_name_unit t ≡ true
segment-names t safe = all-imp is_word is_name_unit t word-name (is_safe_segment-units t safe).0

segment-no_slash : (t : Text) → is_safe_segment t ≡ true → all (λ c. not (c == slash)) t ≡ true
segment-no_slash t safe = all-imp is_name_unit _ t name_unit-not-slash (segment-names t safe)

empty_unsafe : is_safe_segment [] ≢ true
unfolding is_safe_segment
empty_unsafe h = cc

begins : (c : ℕ) (cs : Text) → is_safe_segment (c ∷ cs) ≡ true → is_alphanumeric c ≡ true
unfolding is_safe_segment
begins c cs h = ground arith

parts-units :
    (first last : Text)
    → all is_key_unit first ≡ true
    → all is_name_unit last ≡ true
    → all is_key_unit (first ++ (slash ∷ last)) ≡ true
unfolding is_key_unit
parts-units first last start end =
    let sum = all-append is_key_unit first (slash ∷ last) in
    let two = all-imp is_name_unit is_key_unit last name-key_unit end in ground arith

-- A text of units of keys that begins in a letter or a digit, and ends in a part without a slash, stays
-- as it is, decoded or not.
normalized-parts :
    (decode : Text → Option Text) (limit c : ℕ) (cs last : Text)
    → DecodesPlain decode
    → is_alphanumeric c ≡ true
    → all is_key_unit (c ∷ cs) ≡ true
    → all is_name_unit last ≡ true
    → is_empty last ≡ false
    → normalized decode limit ((c ∷ cs) ++ (slash ∷ last)) ≡ (
        if ltb limit (length ((c ∷ cs) ++ (slash ∷ last)))
        then none
        else some ((c ∷ cs) ++ (slash ∷ last)))
unfolding normalized normalize trim strip_slashes
normalized-parts decode limit c cs last plain start units end some_left =
    let whole = parts-units (c ∷ cs) last units end in
    let white = strip-none is_white ((c ∷ cs) ++ (slash ∷ last)) (
      all-imp is_key_unit (λ d. not (is_white d)) ((c ∷ cs) ++ (slash ∷ last)) key_unit-not_white
        whole) in
    let unified = unify_slashes-none ((c ∷ cs) ++ (slash ∷ last)) (
      all-imp is_key_unit (λ d. not (d == backslash)) ((c ∷ cs) ++ (slash ∷ last))
        (λ d h. (key_unit-plain d h).0) whole) in
    let stripped =
      strip-ends is_slash c slash cs last (ground arith) some_left
        (all-imp is_name_unit (λ d. not (d == slash)) last name_unit-not-slash end) in
    let decoded = plain ((c ∷ cs) ++ (slash ∷ last)) (
      all-imp is_key_unit (λ d. not (d == percent)) ((c ∷ cs) ++ (slash ∷ last))
        (λ d h. (key_unit-plain d h).1) whole) in
    rw (white, unified, stripped, decoded) refl

-- A folder of two safe parts is accepted.
pub validate_storage_folder-deep :
    (decode : Text → Option Text) (first second : Text)
    → DecodesPlain decode
    → is_safe_segment first ≡ true
    → is_safe_segment second ≡ true
    → validate_storage_folder decode (first ++ (slash ∷ second)) ≡ some (first ++ (slash ∷ second))
unfolding validate_storage_folder check_folder all_safe join
validate_storage_folder-deep decode [] second plain safe_first safe_second =
    absurd (empty_unsafe safe_first)
validate_storage_folder-deep decode (c ∷ cs) second plain safe_first safe_second =
    let same =
      normalized-parts decode max_folder_length c cs second plain (begins c cs safe_first)
        (segment-key_units (c ∷ cs) safe_first) (segment-names second safe_second)
        (safe_segment-some second safe_second) in
    let short = is_safe_segment-units (c ∷ cs) safe_first in
    let short_too = is_safe_segment-units second safe_second in
    let sum = length-append {A = ℕ} (c ∷ cs) (slash ∷ second) in
    let two =
      split-two slash (c ∷ cs) second (segment-no_slash (c ∷ cs) safe_first)
        (segment-no_slash second safe_second) in
    ground arith

-- The key of a file in such a folder is refused.
pub validate_storage_key-deep :
    (decode : Text → Option Text) (first second filename : Text)
    → DecodesPlain decode
    → is_safe_segment first ≡ true
    → is_safe_segment second ≡ true
    → is_file_name filename ≡ true
    → validate_storage_key decode ((first ++ (slash ∷ second)) ++ (slash ∷ filename)) ≡ none
unfolding validate_storage_key check_key
validate_storage_key-deep decode [] second filename plain safe_first safe_second named =
    absurd (empty_unsafe safe_first)
validate_storage_key-deep decode (c ∷ cs) second filename plain safe_first safe_second named =
    let same =
      normalized-parts decode max_key_length c (cs ++ (slash ∷ second)) filename plain
        (begins c cs safe_first)
        (parts-units (c ∷ cs) second (segment-key_units (c ∷ cs) safe_first)
          (segment-names second safe_second))
        (is_file_name-units filename named)
        (is_empty-length filename (is_file_name-length filename named).0) in
    let three : split slash (((c ∷ cs) ++ (slash ∷ second)) ++ (slash ∷ filename))
        ≡ (c ∷ cs) ∷ second ∷ filename ∷ [] =
      ap (split slash) (append_assoc (c ∷ cs) (slash ∷ second) (slash ∷ filename))
      ∙ split-part slash (c ∷ cs) (second ++ (slash ∷ filename))
          (segment-no_slash (c ∷ cs) safe_first)
      ∙ ap (λ (ts : List Text). (c ∷ cs) ∷ ts)
          (split-two slash second filename (segment-no_slash second safe_second) (
            all-imp is_name_unit (λ d. not (d == slash)) filename name_unit-not-slash
              (is_file_name-units filename named))) in
    ground arith
