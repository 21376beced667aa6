-- ===== src/Uploads/Files.antt =====
-- The requests of src/modules/uploads/uploads.service.ts over the table of stored files and the storage:
-- the bucket, or the local directory where there are no credentials. What the storage, the image library
-- and the signing of a URL answer are arguments; so is the UUID of a new file.
pub mod Deep
use beleqet_ecosystem_update.Base.{
  Text, equals, ℕ, ◌+◌, ◌*◌, ◌==◌, ◌&&◌, ◌||◌, leb, ltb, not, length, take, filter, find, is_some,
  if◌then◌else◌, Bool, true, false, Option, none, some, List, [], ◌∷◌, ◌++◌, HttpError, bad_request,
  forbidden, not_found, internal_server_error, Request, Result, ok, err, ◌>>=◌, ◌>>◌, pure, throw,
  throw_if, gets, modify, or_throw,
}
use beleqet_ecosystem_update.Uploads.Text.{is_empty, slash, trim, unify_slashes, split}
use beleqet_ecosystem_update.Uploads.Keys.{
  jpg, png, webp, pdf, doc, docx, validate_storage_folder, validate_storage_key,
  resolve_local_file_path,
}

-- `AllowedMimeType`, and all others.
pub data MimeType : Type 0 where
  image_jpeg image_png image_webp application_pdf application_msword application_docx : MimeType
  other_type : ℕ → MimeType

unfoldable pub is_allowed : MimeType → Bool
is_allowed (MimeType.other_type _) = false
is_allowed _ = true

unfoldable pub is_image : MimeType → Bool
is_image MimeType.image_jpeg = true
is_image MimeType.image_png = true
is_image MimeType.image_webp = true
is_image _ = false

-- `MIME_TYPE_EXTENSIONS`.
unfoldable pub extension_of : MimeType → Text
extension_of MimeType.image_jpeg = jpg
extension_of MimeType.image_png = png
extension_of MimeType.image_webp = webp
extension_of MimeType.application_pdf = pdf
extension_of MimeType.application_msword = doc
extension_of MimeType.application_docx = docx
extension_of (MimeType.other_type _) = []

abbrev pub max_upload_file_size_bytes : ℕ
max_upload_file_size_bytes = 5 * 1_024 * 1_024

-- Where objects are kept; the outcome of the constructor.
pub data Storage : Type 0 where
  local_disk bucket : Storage

pub record UploadsConfig : Type 0 where
  pub storage : Storage
  pub local_store_dir : Text

pub record StoredFile : Type 0 where
  pub key : Text
  pub filename : Text
  pub mime_type : MimeType
  pub size : ℕ
  pub uploaded_by_id : Option ℕ
  pub has_consented_to_processing : Bool
  pub is_deleted : Bool
  pub deleted_at : Option ℕ
  pub created_at : ℕ

-- A buffer: which bytes, and how many.
pub record Buffer : Type 0 where
  pub bytes : ℕ
  pub size : ℕ

-- `objects` are those of the storage, by the key.
pub record UploadsDb : Type 0 where
  pub files : List StoredFile
  pub objects : List (Text × Buffer)

abbrev pub Action {ℓ} : Type ℓ → Type ℓ
Action A = Request UploadsDb A

abbrev pub key_error : HttpError
key_error = bad_request "Invalid file key pathway."

abbrev pub folder_error : HttpError
folder_error = bad_request "Invalid upload folder"

abbrev pub has_key : Text → StoredFile → Bool
has_key key f = equals f.key key

-- `findUnique` by the key.
unfoldable pub find_file : Text → UploadsDb → Option StoredFile
find_file key db = find (has_key key) db.files

unfoldable pub assert_file_size : ℕ → Action (Unit {0})
assert_file_size n = do
  throw_if (n == 0) (bad_request "Invalid file size.")
  throw_if (ltb max_upload_file_size_bytes n)
      (bad_request "File size must not exceed 5242880 bytes.")

unfoldable pub assert_allowed : MimeType → Action (Unit {0})
unfolding is_allowed
assert_allowed m =
    throw_if (not (is_allowed m))
      (bad_request "Invalid file type. Executables and HTML files are not allowed.")

last_part : List Text → Text
last_part [] = []
last_part (t ∷ []) = t
last_part (_ ∷ u ∷ ts) = last_part (u ∷ ts)

abbrev upload_name : Text
upload_name = 117 ∷ 112 ∷ 108 ∷ 111 ∷ 97 ∷ 100 ∷ []

or_upload : Text → Text
or_upload t = if is_empty t then upload_name else t

pub sanitize_filename : Text → Text
unfolding trim unify_slashes split last_part or_upload
sanitize_filename t = take 255 (or_upload (trim (last_part (split slash (unify_slashes t)))))

-- `storedFile.create`: the key is unique.
create_file : StoredFile → Action (Unit {0})
unfolding find_file
create_file f = do
  throw_if (← gets (λ db. is_some (find_file f.key db))) (internal_server_error "P2002")
  modify (λ db. record db { files = f ∷ db.files })

pub make_key : Text → Text → MimeType → Text
unfolding extension_of
make_key folder uuid m = folder ++ (slash ∷ (uuid ++ extension_of m))

module _ (decode : Text → Option Text) where
  -- `signed`: the signing of the URL for the bucket succeeds.
  pub generate_presigned_url :
      UploadsConfig → ℕ → Text → Bool → Text → MimeType → Text → Option ℕ → ℕ → Action Text
  unfolding assert_allowed assert_file_size sanitize_filename create_file make_key
  generate_presigned_url config now uuid signed filename m folder user size = do
    assert_allowed m
    assert_file_size (if size == 0 then 1 else size)
    target ← or_throw (validate_storage_folder decode folder) folder_error
    throw_if (elim config.storage [ Storage.local_disk ↦ false | Storage.bucket ↦ not signed ])
        (internal_server_error "S3")
    create_file (record {
      key = make_key target uuid m;
      filename = sanitize_filename filename;
      mime_type = m;
      size = size;
      uploaded_by_id = user;
      has_consented_to_processing = true;
      is_deleted = false;
      deleted_at = none;
      created_at = now;
    })
    pure (make_key target uuid m)

  -- `getPresignedReadUrl`, with the key that the URL is for as its answer.
  unfoldable pub get_presigned_read_url : UploadsConfig → Bool → Text → Action Text
  unfolding find_file
  get_presigned_read_url config signed key = do
    safe ← or_throw (validate_storage_key decode key) key_error
    f ←
        or_throw (← gets (find_file safe))
          (not_found "The requested file does not exist or has been deleted.")
    throw_if f.is_deleted (not_found "The requested file does not exist or has been deleted.")
    throw_if (elim config.storage [ Storage.local_disk ↦ false | Storage.bucket ↦ not signed ])
        (internal_server_error "Failed to retrieve secure file URL.")
    pure f.key
