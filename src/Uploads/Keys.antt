-- ===== src/Uploads/Keys.antt =====
-- The names of folders and stored files in src/modules/uploads/uploads.service.ts: `validateStorageFolder`,
-- `validateStorageKey` and `resolveLocalFilePath`. `decode` stands for `decodeURIComponent`, none where it
-- throws, and `resolve` for `path.resolve`.
pub mod Laws
pub mod Stable
pub mod Folders
pub mod Deep
use beleqet_ecosystem_update.Base.{
  Text, equals, ℕ, ◌+◌, ◌==◌, ◌&&◌, ◌||◌, leb, ltb, not, length, drop, take, if◌then◌else◌, Bool,
  true, false, Option, none, some, List, [], ◌∷◌, ◌++◌, map,
}
use beleqet_ecosystem_update.Uploads.Text.{
  is_empty, all, space, slash, dot, trim, unify_slashes, strip_slashes, split, join,
}

abbrev pub is_digit : ℕ → Bool
is_digit c = leb 48 c && leb c 57

abbrev pub is_upper : ℕ → Bool
is_upper c = leb 65 c && leb c 90

abbrev pub is_lower : ℕ → Bool
is_lower c = leb 97 c && leb c 122

-- `[A-Za-z0-9]`.
abbrev pub is_alphanumeric : ℕ → Bool
is_alphanumeric c = is_digit c || is_upper c || is_lower c

-- `[A-Za-z0-9_-]`.
abbrev pub is_word : ℕ → Bool
is_word c = is_alphanumeric c || c == 95 || c == 45

-- `/^[A-Za-z0-9][A-Za-z0-9_-]{0,31}$/`.
unfoldable pub is_safe_segment : Text → Bool
is_safe_segment [] = false
is_safe_segment (c ∷ cs) = is_alphanumeric c && (all is_word cs && leb (length cs) 31)

-- `[0-9a-f-]` under the flag `i`.
abbrev pub is_uuid_unit : ℕ → Bool
is_uuid_unit c = is_digit c || (leb 65 c && leb c 70) || (leb 97 c && leb c 102) || c == 45

abbrev to_lower : ℕ → ℕ
to_lower c = if is_upper c then c + 32 else c

abbrev pub jpg : Text
jpg = dot ∷ 106 ∷ 112 ∷ 103 ∷ []

abbrev pub png : Text
png = dot ∷ 112 ∷ 110 ∷ 103 ∷ []

abbrev pub webp : Text
webp = dot ∷ 119 ∷ 101 ∷ 98 ∷ 112 ∷ []

abbrev pub pdf : Text
pdf = dot ∷ 112 ∷ 100 ∷ 102 ∷ []

abbrev pub doc : Text
doc = dot ∷ 100 ∷ 111 ∷ 99 ∷ []

abbrev pub docx : Text
docx = dot ∷ 100 ∷ 111 ∷ 99 ∷ 120 ∷ []

-- `\.(jpg|png|webp|pdf|doc|docx)$` under the flag `i`.
unfoldable pub is_extension : Text → Bool
unfolding equals
is_extension t =
    let l = map to_lower t in
    equals l jpg || equals l png || equals l webp || equals l pdf || equals l doc || equals l docx

-- `/^[0-9a-f-]{36}\.(jpg|png|webp|pdf|doc|docx)$/i`.
unfoldable pub is_file_name : Text → Bool
unfolding is_extension
is_file_name t =
    length (take 36 t) == 36 && (all is_uuid_unit (take 36 t) && is_extension (drop 36 t))

-- `trim`, `/` for `\`, and no `/` at the ends.
pub normalize : Text → Text
unfolding trim unify_slashes strip_slashes
normalize t = strip_slashes (unify_slashes (trim t))

abbrev pub max_folder_length : ℕ
max_folder_length = 128

abbrev pub max_key_length : ℕ
max_key_length = 255

all_safe : List Text → Bool
unfolding is_safe_segment
all_safe [] = true
all_safe (t ∷ ts) = is_safe_segment t && all_safe ts

check_folder : List Text → Option Text
unfolding all_safe join
check_folder segments = if all_safe segments then some (join slash segments) else none

-- The length check that both have, with their limits, and the decoding.
normalized : (Text → Option Text) → ℕ → Text → Option Text
unfolding normalize
normalized decode limit t =
    if is_empty (normalize t) || ltb limit (length (normalize t))
    then none
    else decode (normalize t)

unfoldable pub validate_storage_folder : (Text → Option Text) → Text → Option Text
unfolding normalized check_folder split
validate_storage_folder decode folder = elim (normalized decode max_folder_length folder) [
  | none ↦ none
  | some decoded ↦ check_folder (split slash decoded)
]

check_key : List Text → Option Text
unfolding is_file_name is_safe_segment
check_key (folder ∷ filename ∷ []) =
    if is_safe_segment folder && is_file_name filename
    then some (folder ++ (slash ∷ filename))
    else none
check_key _ = none

unfoldable pub validate_storage_key : (Text → Option Text) → Text → Option Text
unfolding normalized check_key split
validate_storage_key decode key = elim (normalized decode max_key_length key) [
  | none ↦ none
  | some decoded ↦ check_key (split slash decoded)
]

-- `startsWith`.
pub starts_with : Text → Text → Bool
starts_with [] t = true
starts_with (_ ∷ _) [] = false
starts_with (c ∷ cs) (d ∷ ds) = c == d && starts_with cs ds

unfoldable pub resolve_local_file_path :
    (Text → Option Text) → (List Text → Text) → Text → Text → Option Text
unfolding validate_storage_key starts_with equals
resolve_local_file_path decode resolve dir key = elim (validate_storage_key decode key) [
  | none ↦ none
  | some safe ↦
      let path = resolve (dir ∷ safe ∷ []) in
      let root = resolve (dir ∷ []) in
      if not (equals path root) && not (starts_with (root ++ (slash ∷ [])) path)
      then none
      else some path
]
