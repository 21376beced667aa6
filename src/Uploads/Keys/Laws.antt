-- ===== src/Uploads/Keys/Laws.antt =====
-- What `validateStorageKey` of src/modules/uploads/uploads.service.ts accepts.
use beleqet_ecosystem_update.Base.{
  Text, equals, ℕ, ◌==◌, ◌&&◌, ◌||◌, ◌≡◌, ◌≢◌, ◌≤◌, ◌∙◌, sym, ap, refl, inl, inr, not, length, drop,
  take, length-drop, length-append, take-append-drop, Bool, true, Bool-cases, Option, some,
  Option-cases, List, [], ◌∷◌, ◌++◌, map, arith,
}
use beleqet_ecosystem_update.Uploads.Text.{
  all, all-append, all-imp, slash, backslash, dot, split, split-two,
}
use beleqet_ecosystem_update.Uploads.Keys.{
  is_word, is_uuid_unit, is_lower, is_safe_segment, is_file_name, is_extension, to_lower, jpg, png,
  webp, pdf, doc, docx, check_key, normalized, validate_storage_key, max_key_length,
}

-- The units of a file's name.
abbrev pub is_name_unit : ℕ → Bool
is_name_unit c = is_word c || c == dot

-- A part of a path that names nothing else than itself: not empty, and neither `.` nor `..`.
abbrev pub IsProper : Text → Type 0
IsProper t = (t ≢ []) × (t ≢ dot ∷ []) × (t ≢ dot ∷ dot ∷ [])

-- A key that names a file in a folder: split at `/` it has these two parts, which are proper, it has no
-- backslash, the folder has no dot and at most 32 units, and the file name has 36 to 41 units. Both parts
-- pass the tests of the service too.
pub record IsSafeKey (key : Text) : Type 0 where
  pub folder : Text
  pub filename : Text
  pub whole : key ≡ folder ++ (slash ∷ filename)
  pub two_parts : split slash key ≡ folder ∷ filename ∷ []
  pub proper : IsProper folder × IsProper filename
  pub no_backslash : all (λ c. not (c == backslash)) key ≡ true
  pub no_dot_in_folder : all (λ c. not (c == dot)) folder ≡ true
  pub folder_length : length folder ≤ 32
  pub filename_length : (36 ≤ length filename) × (length filename ≤ 41)
  pub safe_folder : is_safe_segment folder ≡ true
  pub safe_filename : is_file_name filename ≡ true

equals-lowered :
    (t e : Text)
    → equals (map to_lower t) e ≡ true
    → all (λ d. is_lower d || d == dot) e ≡ true
    → all is_name_unit t ≡ true
unfolding equals
equals-lowered [] e h lower = refl
equals-lowered (c ∷ cs) [] h lower = cc
equals-lowered (c ∷ cs) (d ∷ ds) h lower = let rest = equals-lowered cs ds in ground arith

length-equals : (f : ℕ → ℕ) (t e : Text) → equals (map f t) e ≡ true → length t ≡ length e
unfolding equals
length-equals f [] [] h = refl
length-equals f [] (d ∷ ds) h = cc
length-equals f (c ∷ cs) [] h = cc
length-equals f (c ∷ cs) (d ∷ ds) h = ground (arith, length-equals f cs ds)

is_extension-units : (t : Text) → is_extension t ≡ true → all is_name_unit t ≡ true
unfolding is_extension
is_extension-units t h =
    let one = equals-lowered t in
    let a = one jpg in
    let b = one png in
    let c = one webp in let d = one pdf in let e = one doc in let f = one docx in ground arith

is_extension-length : (t : Text) → is_extension t ≡ true → length t ≤ 5
unfolding is_extension
is_extension-length t h =
    let one = length-equals to_lower t in
    let a = one jpg in
    let b = one png in
    let c = one webp in let d = one pdf in let e = one doc in let f = one docx in ground arith

uuid_unit-name : (c : ℕ) → is_uuid_unit c ≡ true → is_name_unit c ≡ true
uuid_unit-name c h = ground arith

&&-left : (a b : Bool) → (a && b) ≡ true → a ≡ true
&&-left a b h = ground arith

&&-right : (a b : Bool) → (a && b) ≡ true → b ≡ true
&&-right a b h = ground arith

-- A file's name has no other units than those, and at most 41.
pub is_file_name-units : (t : Text) → is_file_name t ≡ true → all is_name_unit t ≡ true
unfolding is_file_name
is_file_name-units t h =
    let parts = take-append-drop 36 t in
    let sum = all-append is_name_unit (take 36 t) (drop 36 t) in
    let named =
      is_extension-units (drop 36 t)
        (&&-right (all is_uuid_unit (take 36 t)) _ (&&-right (length (take 36 t) == 36) _ h)) in
    let stem =
      all-imp is_uuid_unit is_name_unit (take 36 t) uuid_unit-name
        (&&-left (all is_uuid_unit (take 36 t)) _ (&&-right (length (take 36 t) == 36) _ h)) in
    let both : all is_name_unit (take 36 t ++ drop 36 t) ≡ true = cc in
    ap (all is_name_unit) (sym parts) ∙ both

pub is_file_name-length : (t : Text) → is_file_name t ≡ true → (36 ≤ length t) × (length t ≤ 41)
unfolding is_file_name
is_file_name-length t h =
    let rest =
      is_extension-length (drop 36 t)
        (&&-right (all is_uuid_unit (take 36 t)) _ (&&-right (length (take 36 t) == 36) _ h)) in
    let cut = length-drop 36 t in
    let whole = length-append (take 36 t) (drop 36 t) in
    let parts = ap (length {A = ℕ}) (take-append-drop 36 t) in
    let stem = &&-left (length (take 36 t) == 36) _ h in ground arith

pub is_safe_segment-units :
    (t : Text) → is_safe_segment t ≡ true → (all is_word t ≡ true) × (length t ≤ 32)
unfolding is_safe_segment
is_safe_segment-units [] h = cc
is_safe_segment-units (c ∷ cs) h = ground arith

pub word-name : (c : ℕ) → is_word c ≡ true → is_name_unit c ≡ true
word-name c h = ground arith

pub name_unit-not-slash : (c : ℕ) → is_name_unit c ≡ true → not (c == slash) ≡ true
name_unit-not-slash c h = ground arith

word-not-dot : (c : ℕ) → is_word c ≡ true → not (c == dot) ≡ true
word-not-dot c h = ground arith

name_unit-not-backslash : (c : ℕ) → is_name_unit c ≡ true → not (c == backslash) ≡ true
name_unit-not-backslash c h = ground arith

no_backslash-append :
    (folder filename : Text)
    → all is_name_unit folder ≡ true
    → all is_name_unit filename ≡ true
    → all (λ c. not (c == backslash)) (folder ++ (slash ∷ filename)) ≡ true
no_backslash-append folder filename f n =
    let plain = λ (c : ℕ). not (c == backslash) in
    let a = all-imp is_name_unit plain folder name_unit-not-backslash f in
    let b = all-imp is_name_unit plain filename name_unit-not-backslash n in
    ground (arith, all-append plain folder (slash ∷ filename), a, b)

folder-IsProper : (t : Text) → is_safe_segment t ≡ true → IsProper t
unfolding is_safe_segment
folder-IsProper t h = (
  λ e. absurd cc,
  λ e. let begins_with_dot : is_safe_segment (dot ∷ []) ≡ true = rw e at h in cc,
  λ e. let begins_with_dot : is_safe_segment (dot ∷ dot ∷ []) ≡ true = rw e at h in cc,
)

long-IsProper : (t : Text) → 36 ≤ length t → IsProper t
long-IsProper t h = (
  λ e. omega (arith, ap (length {A = ℕ}) e),
  λ e. omega (arith, ap (length {A = ℕ}) e),
  λ e. omega (arith, ap (length {A = ℕ}) e),
)

check_key-IsSafeKey :
    (segments : List Text) (key : Text) → check_key segments ≡ some key → IsSafeKey key
unfolding check_key
check_key-IsSafeKey [] key h = absurd cc
check_key-IsSafeKey (a ∷ []) key h = absurd cc
check_key-IsSafeKey (a ∷ b ∷ c ∷ rest) key h = absurd cc
check_key-IsSafeKey (folder ∷ filename ∷ []) key h =
    elim (Bool-cases (is_safe_segment folder && is_file_name filename)) [
      | inr unsafe ↦ absurd (ground arith)
      | inl safe ↦
          let same : key ≡ folder ++ (slash ∷ filename) = ground arith in
          let safe_f = &&-left (is_safe_segment folder) _ safe in
          let safe_n = &&-right (is_safe_segment folder) _ safe in
          let folder_units =
            all-imp is_word is_name_unit folder word-name (is_safe_segment-units folder safe_f).0 in
          record {
            folder = folder;
            filename = filename;
            whole = same;
            safe_folder = safe_f;
            safe_filename = safe_n;
            proper = (
              folder-IsProper folder safe_f,
              long-IsProper filename (is_file_name-length filename safe_n).0,
            );
            no_backslash =
                ap (all (λ c. not (c == backslash))) same
                ∙ no_backslash-append folder filename folder_units
                    (is_file_name-units filename safe_n);
            no_dot_in_folder =
                all-imp is_word (λ c. not (c == dot)) folder word-not-dot
                  (is_safe_segment-units folder safe_f).0;
            folder_length = (is_safe_segment-units folder safe_f).1;
            filename_length = is_file_name-length filename safe_n;
            two_parts =
                ap (split slash) same
                ∙ split-two slash folder filename
                    (all-imp is_name_unit _ folder name_unit-not-slash folder_units)
                    (all-imp is_name_unit _ filename name_unit-not-slash
                      (is_file_name-units filename safe_n));
          }
    ]

-- Whatever key is asked for and whatever the decoding makes of it, the key that is accepted has, split at
-- `/`, two parts, a folder and a file name, neither of which is empty, `.` or `..`; it has no backslash,
-- its folder has no dot and at most 32 units, and its file name has 36 to 41 units.
pub validate_storage_key-IsSafeKey :
    (decode : Text → Option Text) (key accepted : Text)
    → validate_storage_key decode key ≡ some accepted
    → IsSafeKey accepted
unfolding validate_storage_key
validate_storage_key-IsSafeKey decode key accepted h =
    elim (Option-cases (normalized decode max_key_length key)) [
      | inl refused ↦ absurd (ground arith)
      | inr (decoded, e) ↦ check_key-IsSafeKey (split slash decoded) accepted (ground arith)
    ]
