-- ===== src/Uploads/Tests.antt =====
-- Stored files at concrete inputs. The decoding of these tests leaves every text alone.
use beleqet_ecosystem_update.Base.{
  Text, ◌≡◌, ◌≢◌, ◌++◌, refl, Bool, true, false, Option, none, some, List, [], ◌∷◌, ok, err,
  not_found,
}
use beleqet_ecosystem_update.Uploads.Text.{all, slash, strip, is_white}
use beleqet_ecosystem_update.Uploads.Keys.{
  is_uuid_unit, is_safe_segment, is_file_name, validate_storage_key, validate_storage_folder, pdf,
  resolve_local_file_path,
}
use beleqet_ecosystem_update.Uploads.Keys.Laws.{IsSafeKey, validate_storage_key-IsSafeKey}
use beleqet_ecosystem_update.Uploads.Keys.Stable.{DecodesPlain, validate_storage_key_twice}
use beleqet_ecosystem_update.Uploads.Files.{
  MimeType, Storage, UploadsConfig, StoredFile, Buffer, UploadsDb, make_key, extension_of,
  is_allowed, key_error, find_file, generate_presigned_url, get_presigned_read_url,
}
use beleqet_ecosystem_update.Uploads.Files.Deep.{deep_folder_unreadable}
use beleqet_ecosystem_update.Uploads.Store.{
  MulterFile, FolderOrConsent, find_object, upload_file, soft_delete_file, serve_local_file,
  documents, uploaded_file,
}
use beleqet_ecosystem_update.Uploads.Store.Laws.{
  IsDeletion, soft_delete_file-IsDeletion, deleted_file_unreadable,
}
use beleqet_ecosystem_update.Uploads.Store.RoundTrip.{upload_file-readable}

abbrev decode : Text → Option Text
decode t = some t

-- The last of the parts that a path is made of.
abbrev resolve : List Text → Text
resolve [] = []
resolve (t ∷ []) = t
resolve (t ∷ u ∷ ts) = t ++ (slash ∷ resolve (u ∷ ts))

decode-DecodesPlain : DecodesPlain decode
decode-DecodesPlain t h = refl

abbrev uuid : Text
uuid =
    49 ∷ 50 ∷ 51 ∷ 101 ∷ 52 ∷ 53 ∷ 54 ∷ 55 ∷ 45 ∷ 101 ∷ 56 ∷ 57 ∷ 98 ∷ 45 ∷ 52 ∷ 50 ∷ 100 ∷ 51 ∷ 45
    ∷ 97 ∷ 52 ∷ 53 ∷ 54 ∷ 45 ∷ 52 ∷ 50 ∷ 54 ∷ 54 ∷ 49 ∷ 52 ∷ 49 ∷ 55 ∷ 52 ∷ 48 ∷ 48 ∷ 48 ∷ []

-- `docs`.
abbrev docs : Text
docs = 100 ∷ 111 ∷ 99 ∷ 115 ∷ []

abbrev cv_key : Text
cv_key = docs ++ (slash ∷ (uuid ++ pdf))

-- ` \docs/…/`, which the normal form of a key takes to `docs/…`.
abbrev messy_key : Text
messy_key = 32 ∷ 92 ∷ (cv_key ++ (slash ∷ []))

messy_key_accepted : validate_storage_key decode messy_key ≡ some cv_key
unfolding validate_storage_key strip is_white
messy_key_accepted = refl

validate_storage_key-IsSafeKey_example : IsSafeKey cv_key
validate_storage_key-IsSafeKey_example =
    validate_storage_key-IsSafeKey decode messy_key cv_key messy_key_accepted

validate_storage_key_twice_example : validate_storage_key decode cv_key ≡ some cv_key
validate_storage_key_twice_example =
    validate_storage_key_twice decode messy_key cv_key decode-DecodesPlain messy_key_accepted

abbrev on_disk : UploadsConfig
on_disk = record { storage = Storage.local_disk; local_store_dir = slash ∷ 116 ∷ [] }

abbrev cv_buffer : Buffer
cv_buffer = record { bytes = 77; size = 1_200 }

abbrev cv_file : StoredFile
cv_file = record {
  key = cv_key;
  filename = 99 ∷ 118 ∷ [];
  mime_type = MimeType.application_pdf;
  size = 1_200;
  uploaded_by_id = some 9;
  has_consented_to_processing = true;
  is_deleted = false;
  deleted_at = none;
  created_at = 100;
}

abbrev one_file : UploadsDb
one_file = record { files = cv_file ∷ []; objects = (cv_key, cv_buffer) ∷ [] }

abbrev mask : Text
mask = 68 ∷ []

cv_deleted :
    (soft_delete_file decode resolve on_disk 200 mask true messy_key 9 one_file).0 ≡ ok cv_key
unfolding soft_delete_file validate_storage_key resolve_local_file_path strip is_white
cv_deleted = refl

soft_delete_file-IsDeletion_example :
    IsDeletion on_disk 200 mask messy_key 9 cv_key one_file
      (soft_delete_file decode resolve on_disk 200 mask true messy_key 9 one_file).1
soft_delete_file-IsDeletion_example =
    soft_delete_file-IsDeletion decode resolve on_disk 200 mask true messy_key 9 cv_key one_file
      cv_deleted

deleted_file_unreadable_example :
    ((get_presigned_read_url decode on_disk true messy_key
        (soft_delete_file decode resolve on_disk 200 mask true messy_key 9 one_file).1).0
      ≡ err (not_found "The requested file does not exist or has been deleted."))
    × ((o : Text × Buffer)
        → (serve_local_file decode resolve on_disk messy_key
            (soft_delete_file decode resolve on_disk 200 mask true messy_key 9 one_file).1).0
          ≢ ok (some o))
deleted_file_unreadable_example =
    deleted_file_unreadable decode resolve on_disk 200 mask true true messy_key 9 cv_key one_file
      cv_deleted

abbrev new_cv : MulterFile
new_cv = record {
  buffer = some cv_buffer;
  mimetype = some MimeType.application_pdf;
  originalname = 99 ∷ 118 ∷ [];
  size = some 1_200;
}

abbrev no_files : UploadsDb
no_files = record { files = []; objects = [] }

abbrev new_cv_key : Text
new_cv_key = documents ++ (slash ∷ (uuid ++ pdf))

abbrev new_cv_file : StoredFile
new_cv_file =
    uploaded_file 300 new_cv_key new_cv
      (record { buffer = cv_buffer; content_type = MimeType.application_pdf; extension = pdf }) true
      (some 9)

uuid_units : all is_uuid_unit uuid ≡ true
uuid_units = refl

cv_uploaded :
    (upload_file decode resolve on_disk 300 uuid true none new_cv
      (FolderOrConsent.with_consent true)
      (some 9)
      no_files).0
    ≡ ok new_cv_file
unfolding upload_file validate_storage_folder validate_storage_key resolve_local_file_path strip
    is_white
cv_uploaded = refl

upload_file-readable_example :
    let after =
      (upload_file decode resolve on_disk 300 uuid true none new_cv
        (FolderOrConsent.with_consent true)
        (some 9)
        no_files).1 in
    (true ≡ true)
    × (find_file new_cv_file.key no_files ≡ none)
    × (after.files ≡ new_cv_file ∷ [])
    × ((get_presigned_read_url decode on_disk true new_cv_file.key after).0 ≡ ok new_cv_file.key)
    × (find_file new_cv_file.key after ≡ some new_cv_file)
    × ((b : Buffer) × (find_object new_cv_file.key after ≡ some (new_cv_file.key, b))
        × (new_cv_file.size ≡ b.size))
upload_file-readable_example =
    upload_file-readable decode resolve on_disk 300 uuid true true none new_cv (some 9) no_files
      new_cv_file decode-DecodesPlain refl uuid_units cv_uploaded

docs_safe : is_safe_segment docs ≡ true
unfolding is_safe_segment
docs_safe = refl

cv_name : is_file_name (uuid ++ extension_of MimeType.application_pdf) ≡ true
unfolding is_file_name extension_of
cv_name = refl

pdf_allowed : is_allowed MimeType.application_pdf ≡ true
unfolding is_allowed
pdf_allowed = refl

nothing_there :
    find_file (make_key (docs ++ (slash ∷ docs)) uuid MimeType.application_pdf) no_files ≡ none
unfolding find_file
nothing_there = refl

deep_folder_unreadable_example :
    ((generate_presigned_url decode on_disk 300 uuid true docs MimeType.application_pdf
        (docs ++ (slash ∷ docs))
        (some 9)
        1_200
        no_files).0
      ≡ ok (make_key (docs ++ (slash ∷ docs)) uuid MimeType.application_pdf))
    × ((signed : Bool) (later : UploadsDb)
        → (get_presigned_read_url decode on_disk signed
            (make_key (docs ++ (slash ∷ docs)) uuid MimeType.application_pdf)
            later).0
          ≡ err key_error)
deep_folder_unreadable_example =
    deep_folder_unreadable decode on_disk 300 uuid docs MimeType.application_pdf docs docs (some 9)
      1_200 no_files decode-DecodesPlain docs_safe docs_safe pdf_allowed cv_name refl nothing_there
