-- ===== src/Uploads/Keys/Folders.antt =====
-- Folders of one part, for `validateStorageFolder` of src/modules/uploads/uploads.service.ts.
use beleqet_ecosystem_update.Base.{
  Text, ℕ, ◌==◌, ◌≡◌, refl, not, true, false, Option, some, [], ◌∷◌, arith,
}
use beleqet_ecosystem_update.Uploads.Text.{
  is_empty, all, all-imp, slash, percent, backslash, is_white, is_slash, trim, strip_slashes,
  split-plain, strip-none, unify_slashes-none, join,
}
use beleqet_ecosystem_update.Uploads.Keys.{
  is_word, is_safe_segment, normalize, normalized, validate_storage_folder, check_folder, all_safe,
}
use beleqet_ecosystem_update.Uploads.Keys.Laws.{is_safe_segment-units}
use beleqet_ecosystem_update.Uploads.Keys.Stable.{DecodesPlain}

word-plain :
    (c : ℕ)
    → is_word c ≡ true
    → (not (c == backslash) ≡ true)
      × (not (c == percent) ≡ true)
      × (not (is_white c) ≡ true)
      × (not (c == slash) ≡ true)
unfolding is_white
word-plain c h = ground arith

normalize-word : (t : Text) → all is_word t ≡ true → normalize t ≡ t
unfolding normalize trim strip_slashes
normalize-word t h =
    rw
      (
        strip-none is_white t (all-imp is_word _ t (λ c w. (word-plain c w).2) h),
        unify_slashes-none t (all-imp is_word _ t (λ c w. (word-plain c w).0) h),
      )
      (strip-none is_slash t (all-imp is_word _ t (λ c w. (word-plain c w).3) h))

pub safe_segment-some : (t : Text) → is_safe_segment t ≡ true → is_empty t ≡ false
unfolding is_safe_segment
safe_segment-some [] h = absurd cc
safe_segment-some (c ∷ cs) h = refl

-- A folder of one safe part is accepted as it is.
pub validate_storage_folder-safe :
    (decode : Text → Option Text) (folder : Text)
    → DecodesPlain decode
    → is_safe_segment folder ≡ true
    → validate_storage_folder decode folder ≡ some folder
unfolding validate_storage_folder normalized check_folder all_safe join
validate_storage_folder-safe decode folder plain safe =
    let (words, short) = is_safe_segment-units folder safe in
    let same = normalize-word folder words in
    let decoded = plain folder (all-imp is_word _ folder (λ c w. (word-plain c w).1) words) in
    let one =
      split-plain slash folder (all-imp is_word _ folder (λ c w. (word-plain c w).3) words) in
    let some_left = safe_segment-some folder safe in ground arith
