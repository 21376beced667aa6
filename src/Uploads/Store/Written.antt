-- ===== src/Uploads/Store/Written.antt =====
-- What the steps of `uploadFile` make and write (src/modules/uploads/uploads.service.ts).
use beleqet_ecosystem_update.Base.{
  Text, equals, equals_refl, ◌≡◌, sym, ap, refl, inl, inr, length, take, drop, true, Bool-cases,
  Option, none, some, Option-cases, List, [], ◌∷◌, ◌++◌, Result, HttpError, ◌⊎◌, ok, err, arith,
}
use beleqet_ecosystem_update.Uploads.Text.{all}
use beleqet_ecosystem_update.Uploads.Keys.{
  is_uuid_unit, is_safe_segment, is_file_name, is_extension,
}
use beleqet_ecosystem_update.Uploads.Files.{
  MimeType, StoredFile, UploadsDb, Buffer, find_file, is_allowed, is_image, extension_of,
  assert_allowed, assert_file_size,
}
use beleqet_ecosystem_update.Uploads.Store.{
  MulterFile, Checked, OptimizedAsset, folder_for, assert_uploadable, optimize_asset, put_object,
  find_object,
}

take-append : (t u : Text) → (take (length t) (t ++ u) ≡ t) × (drop (length t) (t ++ u) ≡ u)
take-append [] u = (refl, refl)
take-append (c ∷ cs) u = let rest = take-append cs u in (ap (λ (x : Text). c ∷ x) rest.0, rest.1)

is_extension-allowed : (m : MimeType) → is_allowed m ≡ true → is_extension (extension_of m) ≡ true
unfolding is_extension equals extension_of is_allowed
is_extension-allowed (MimeType.other_type n) h = cc
is_extension-allowed MimeType.image_jpeg h = refl
is_extension-allowed MimeType.image_png h = refl
is_extension-allowed MimeType.image_webp h = refl
is_extension-allowed MimeType.application_pdf h = refl
is_extension-allowed MimeType.application_msword h = refl
is_extension-allowed MimeType.application_docx h = refl

pub is_file_name-uuid :
    (uuid extension : Text)
    → length uuid ≡ 36
    → all is_uuid_unit uuid ≡ true
    → is_extension extension ≡ true
    → is_file_name (uuid ++ extension) ≡ true
unfolding is_file_name
is_file_name-uuid uuid extension n units ext =
    let parts = take-append uuid extension in
    let stem : take 36 (uuid ++ extension) ≡ uuid = rw (sym n) parts.0 in
    let end : drop 36 (uuid ++ extension) ≡ extension = rw (sym n) parts.1 in ground arith

pub folder_for-safe : (m : Option MimeType) → is_safe_segment (folder_for m) ≡ true
unfolding folder_for is_safe_segment
folder_for-safe none = refl
folder_for-safe (some m) = ground arith

-- What an optimized asset is named with.
pub optimize_asset-extension :
    (converted : Option Buffer) (checked : Checked) (asset : OptimizedAsset) (db : UploadsDb)
    → is_allowed checked.mimetype ≡ true
    → (optimize_asset converted checked db).0 ≡ ok asset
    → is_extension asset.extension ≡ true
unfolding optimize_asset is_allowed extension_of
optimize_asset-extension none checked asset db allowed h =
    let named = is_extension-allowed checked.mimetype allowed in ground arith
optimize_asset-extension (some b) checked asset db allowed h =
    let named = is_extension-allowed checked.mimetype allowed in
    let web = is_extension-allowed MimeType.image_webp refl in
    elim (Bool-cases (is_image checked.mimetype)) [
      | inl image ↦ ground arith
      | inr other ↦ ground arith
    ]

pub assert_uploadable-allowed :
    (file : MulterFile) (checked : Checked) (db : UploadsDb)
    → (assert_uploadable file db).0 ≡ ok checked
    → is_allowed checked.mimetype ≡ true
unfolding assert_uploadable assert_allowed
assert_uploadable-allowed file checked db h = elim (Option-cases file.buffer) [
  | inl missing ↦ absurd (ground arith)
  | inr (b, has_buffer) ↦ elim (Option-cases file.mimetype) [
    | inl missing ↦ absurd (ground arith)
    | inr (m, typed) ↦ ground arith
  ]
]

pub find_object-put :
    (key : Text) (b : Buffer) (db : UploadsDb)
    → find_object key (put_object key b db) ≡ some (key, b)
unfolding find_object put_object
find_object-put key b db = let same = equals_refl key in ground arith

pub find_file-first :
    (f : StoredFile) (db : UploadsDb)
    → find_file f.key (record db { files = f ∷ db.files }) ≡ some f
unfolding find_file
find_file-first f db = let same = equals_refl f.key in ground arith

pub find_object-files :
    (key : Text) (o : Option (Text × Buffer)) (db : UploadsDb) (files : List StoredFile)
    → find_object key db ≡ o
    → find_object key (record db { files = files }) ≡ o
unfolding find_object
find_object-files key o db files h = h

pub Result-cases :
    {A : Type 0} (r : Result A) → ((a : A) × (r ≡ ok a)) ⊎ ((e : HttpError) × (r ≡ err e))
Result-cases (ok a) = inl (a, refl)
Result-cases (err e) = inr (e, refl)

pub assert_uploadable-reads :
    (file : MulterFile) (db : UploadsDb) → (assert_uploadable file db).1 ≡ db
unfolding assert_uploadable assert_allowed assert_file_size
assert_uploadable-reads file db = elim (Option-cases file.buffer) [
  | inl missing ↦ ground arith
  | inr (b, has_buffer) ↦ elim (Option-cases file.mimetype) [
    | inl missing ↦ ground arith
    | inr (m, typed) ↦ ground arith
  ]
]

pub optimize_asset-reads :
    (converted : Option Buffer) (checked : Checked) (db : UploadsDb)
    → (optimize_asset converted checked db).1 ≡ db
unfolding optimize_asset
optimize_asset-reads none checked db = ground arith
optimize_asset-reads (some b) checked db = ground arith
