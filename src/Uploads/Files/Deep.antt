-- ===== src/Uploads/Files/Deep.antt =====
-- Files in folders of two parts: `generatePresignedUrl` and the request for reading a file
-- (src/modules/uploads/uploads.service.ts).
use beleqet_ecosystem_update.Base.{
  Text, ℕ, ◌≡◌, ◌++◌, ltb, Bool, true, false, Option, none, ◌∷◌, ok, err, arith,
}
use beleqet_ecosystem_update.Uploads.Text.{slash}
use beleqet_ecosystem_update.Uploads.Keys.{is_safe_segment, is_file_name}
use beleqet_ecosystem_update.Uploads.Keys.Stable.{DecodesPlain}
use beleqet_ecosystem_update.Uploads.Keys.Deep.{
  validate_storage_folder-deep, validate_storage_key-deep,
}
use beleqet_ecosystem_update.Uploads.Files.{
  MimeType, UploadsConfig, UploadsDb, is_allowed, extension_of, make_key,
  max_upload_file_size_bytes, find_file, key_error, generate_presigned_url, get_presigned_read_url,
  assert_allowed, assert_file_size, create_file,
}

-- The request for a URL to upload an allowed file to a folder of two safe parts is answered with its key,
-- where that is new; but the request for reading it refuses that key, in this state and in any other.
pub deep_folder_unreadable :
    (decode : Text → Option Text) (config : UploadsConfig) (now : ℕ) (uuid filename : Text)
    (m : MimeType) (first second : Text) (user : Option ℕ) (size : ℕ) (db : UploadsDb)
    → DecodesPlain decode
    → is_safe_segment first ≡ true
    → is_safe_segment second ≡ true
    → is_allowed m ≡ true
    → is_file_name (uuid ++ extension_of m) ≡ true
    → ltb max_upload_file_size_bytes size ≡ false
    → find_file (make_key (first ++ (slash ∷ second)) uuid m) db ≡ none
    → ((generate_presigned_url decode config now uuid true filename m
          (first ++ (slash ∷ second))
          user
          size
          db).0
        ≡ ok (make_key (first ++ (slash ∷ second)) uuid m))
      × ((signed : Bool) (later : UploadsDb)
          → (get_presigned_read_url decode config signed
              (make_key (first ++ (slash ∷ second)) uuid m)
              later).0
            ≡ err key_error)
unfolding generate_presigned_url get_presigned_read_url assert_allowed assert_file_size create_file
    make_key
deep_folder_unreadable decode config now uuid filename m first second user size db plain safe_first
      safe_second allowed named low fresh =
    let folder = validate_storage_folder-deep decode first second plain safe_first safe_second in
    let key =
      validate_storage_key-deep decode first second (uuid ++ extension_of m) plain safe_first
        safe_second named in
    (ground arith, λ signed later. ground arith)
