-- ===== src/Uploads/Store.antt =====
-- The requests of src/modules/uploads/uploads.service.ts that write to the storage or take from it, and
-- `serveLocalFile` of uploads.controller.ts. An object stands under its key, in the bucket as on the local
-- disk, whose paths are the keys below its directory.
pub mod Laws
pub mod Written
pub mod RoundTrip
use beleqet_ecosystem_update.Base.{
  Text, equals, ℕ, ◌+◌, ◌*◌, ◌==◌, ◌&&◌, ◌||◌, leb, ltb, not, length, filter, find, is_some, map,
  if◌then◌else◌, Bool, true, false, Option, none, some, List, [], ◌∷◌, ◌++◌, HttpError, bad_request,
  forbidden, not_found, internal_server_error, Request, Result, ok, err, ◌>>=◌, ◌>>◌, pure, throw,
  throw_if, gets, modify, or_throw,
}
use beleqet_ecosystem_update.Uploads.Text.{is_empty, slash}
use beleqet_ecosystem_update.Uploads.Keys.{
  webp, validate_storage_folder, validate_storage_key, resolve_local_file_path,
}
use beleqet_ecosystem_update.Uploads.Files.{
  MimeType, Storage, UploadsConfig, StoredFile, Buffer, UploadsDb, Action, key_error, folder_error,
  is_allowed, is_image, extension_of, assert_allowed, assert_file_size, sanitize_filename,
  find_file, has_key,
}

-- `MulterFile`, of which anything may be missing; an empty type counts as missing.
pub record MulterFile : Type 0 where
  pub buffer : Option Buffer
  pub mimetype : Option MimeType
  pub originalname : Text
  pub size : Option ℕ

-- The second argument of `uploadFile`.
pub data FolderOrConsent : Type 0 where
  in_folder : Text → FolderOrConsent
  with_consent : Bool → FolderOrConsent

abbrev pub images : Text
images = 105 ∷ 109 ∷ 97 ∷ 103 ∷ 101 ∷ 115 ∷ []

abbrev pub documents : Text
documents = 100 ∷ 111 ∷ 99 ∷ 117 ∷ 109 ∷ 101 ∷ 110 ∷ 116 ∷ 115 ∷ []

pub folder_for : Option MimeType → Text
unfolding is_image
folder_for none = documents
folder_for (some m) = if is_image m then images else documents

-- `resolveUploadTarget`: the consent and the folder.
pub resolve_upload_target : FolderOrConsent → Option MimeType → Bool × Text
unfolding folder_for
resolve_upload_target (with_consent consent) m = (consent, folder_for m)
resolve_upload_target (in_folder folder) m = (true, folder)

pub record Checked : Type 0 where
  pub buffer : Buffer
  pub mimetype : MimeType

or_length : Buffer → Option ℕ → ℕ
or_length b none = b.size
or_length b (some n) = n

-- `assertUploadableFile`, with the parts that it has made sure of.
pub assert_uploadable : MulterFile → Action Checked
unfolding assert_allowed assert_file_size or_length
assert_uploadable file = do
  b ← or_throw file.buffer (bad_request "Invalid file payload.")
  m ← or_throw file.mimetype (bad_request "Invalid file payload.")
  throw_if (is_empty file.originalname) (bad_request "Invalid file payload.")
  assert_allowed m
  assert_file_size (or_length b file.size)
  pure (record { buffer = b; mimetype = m })

pub record OptimizedAsset : Type 0 where
  pub buffer : Buffer
  pub content_type : MimeType
  pub extension : Text

-- `optimizeAsset`; `converted` is what the image library makes of an image.
pub optimize_asset : Option Buffer → Checked → Action OptimizedAsset
unfolding is_image extension_of
optimize_asset converted file =
    if is_image file.mimetype
    then (or_throw converted (bad_request "Uploaded image is invalid or corrupted") >>= λ b.
        pure (record { buffer = b; content_type = MimeType.image_webp; extension = webp }))
    else pure (record {
      buffer = file.buffer;
      content_type = file.mimetype;
      extension = extension_of file.mimetype;
    })

abbrev pub other_key : {A : Type 0} → Text → Text × A → Bool
other_key key o = not (equals o.0 key)

pub drop_object : Text → UploadsDb → UploadsDb
drop_object key db = record db { objects = filter (other_key key) db.objects }

pub put_object : Text → Buffer → UploadsDb → UploadsDb
unfolding drop_object
put_object key b db = record (drop_object key db) {
  objects = (key, b) ∷ (drop_object key db).objects;
}

pub find_object : Text → UploadsDb → Option (Text × Buffer)
find_object key db = find (λ o. equals o.0 key) db.objects

-- Writes the row that has the key; `mask` is `DELETED_GDPR_COMPLIANCE_MASKED`.
pub mask_file : ℕ → Text → Text → StoredFile → StoredFile
mask_file now mask key f =
    if has_key key f
    then record f { is_deleted = true; deleted_at = some now; filename = mask }
    else f

is_mine : ℕ → StoredFile → Bool
is_mine user f =
    elim f.uploaded_by_id [ none ↦ false | some owner ↦ owner == user ] && not f.is_deleted

-- `getMyFiles`; the rows stand from the newest to the oldest.
pub get_my_files : ℕ → UploadsDb → List StoredFile
unfolding is_mine
get_my_files user db = filter (is_mine user) db.files

abbrev pub uploaded_file : ℕ → Text → MulterFile → OptimizedAsset → Bool → Option ℕ → StoredFile
uploaded_file now key file asset consent user = record {
  key = key;
  filename = sanitize_filename file.originalname;
  mime_type = asset.content_type;
  size = asset.buffer.size;
  uploaded_by_id = user;
  has_consented_to_processing = consent;
  is_deleted = false;
  deleted_at = none;
  created_at = now;
}

is_owner : ℕ → Option ℕ → Bool
is_owner user none = false
is_owner user (some owner) = owner == user

module _ (decode : Text → Option Text) (resolve : List Text → Text) where
  abbrev pub local_path : UploadsConfig → Text → Option Text
  local_path config key = resolve_local_file_path decode resolve config.local_store_dir key

  -- The `try` block of `uploadFile`: the object first, then its row, whose key is unique.
  abbrev pub store_asset : UploadsConfig → Bool → Buffer → StoredFile → Action StoredFile
  store_asset config written b f = do
    throw_if
        (elim config.storage [
          | Storage.local_disk ↦ not (is_some (local_path config f.key))
          | Storage.bucket ↦ false
        ])
        key_error
    throw_if (not written) (internal_server_error "Failed to process and store the file.")
    modify (put_object f.key b)
    throw_if (← gets (λ db. is_some (find_file f.key db)))
        (internal_server_error "Failed to process and store the file.")
    modify (λ db. record db { files = f ∷ db.files })
    pure f

  -- `written`: the storage takes the object.
  unfoldable pub upload_file :
      UploadsConfig
      → ℕ
      → Text
      → Bool
      → Option Buffer
      → MulterFile
      → FolderOrConsent
      → Option ℕ
      → Action StoredFile
  unfolding resolve_upload_target assert_uploadable optimize_asset put_object find_file
  upload_file config now uuid written converted file target user = do
    throw_if (not (resolve_upload_target target file.mimetype).0)
        (bad_request "GDPR data processing consent is mandatory to upload files.")
    checked ← assert_uploadable file
    folder ←
        or_throw (validate_storage_folder decode (resolve_upload_target target file.mimetype).1)
          folder_error
    asset ← optimize_asset converted checked
    store_asset config written asset.buffer (
        uploaded_file now (folder ++ (slash ∷ (uuid ++ asset.extension))) file asset
          (resolve_upload_target target file.mimetype).0 user)

  -- `removed`: the storage takes the object away, or had none.
  unfoldable pub soft_delete_file : UploadsConfig → ℕ → Text → Bool → Text → ℕ → Action Text
  unfolding find_file is_owner drop_object mask_file
  soft_delete_file config now mask removed key user = do
    safe ← or_throw (validate_storage_key decode key) key_error
    f ←
        or_throw (← gets (find_file safe))
          (not_found "The file does not exist or has already been deleted.")
    throw_if f.is_deleted (not_found "The file does not exist or has already been deleted.")
    throw_if (not (is_owner user f.uploaded_by_id))
        (forbidden "You do not have permission to delete this file.")
    throw_if
        (elim config.storage [
          | Storage.local_disk ↦ not (is_some (local_path config f.key))
          | Storage.bucket ↦ false
        ])
        (internal_server_error "Failed to delete file.")
    throw_if (not removed) (internal_server_error "Failed to delete file.")
    modify (drop_object f.key)
    modify (λ db. record db { files = map (mask_file now mask f.key) db.files })
    pure f.key

  -- `serveLocalFile`: the object of the key, none where there is none on the disk. A path is that of the
  -- validated key.
  pub serve_local_file : UploadsConfig → Text → Action (Option (Text × Buffer))
  unfolding find_object
  serve_local_file config key = do
    throw_if (elim config.storage [ Storage.local_disk ↦ false | Storage.bucket ↦ true ])
        (bad_request "Local file serving fallback is not active in this environment.")
    safe ←
        or_throw
          (elim (local_path config key) [ none ↦ none | some _ ↦ validate_storage_key decode key ])
          key_error
    gets (find_object safe)
