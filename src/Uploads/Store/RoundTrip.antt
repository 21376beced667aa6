-- ===== src/Uploads/Store/RoundTrip.antt =====
-- `uploadFile` and the requests for reading after it (src/modules/uploads/uploads.service.ts).
use beleqet_ecosystem_update.Base.{
  Text, ℕ, ◌≡◌, ◌∙◌, sym, ap, refl, inl, inr, length, Bool, true, false, Option, none, some,
  Option-cases, List, ◌∷◌, ◌++◌, Result, ok, arith,
}
use beleqet_ecosystem_update.Uploads.Text.{all, slash}
use beleqet_ecosystem_update.Uploads.Keys.{
  is_uuid_unit, is_safe_segment, validate_storage_folder, validate_storage_key,
}
use beleqet_ecosystem_update.Uploads.Keys.Stable.{DecodesPlain, validate_storage_key-safe}
use beleqet_ecosystem_update.Uploads.Keys.Folders.{validate_storage_folder-safe}
use beleqet_ecosystem_update.Uploads.Files.{
  StoredFile, UploadsConfig, UploadsDb, Buffer, find_file, get_presigned_read_url,
}
use beleqet_ecosystem_update.Uploads.Store.{
  MulterFile, FolderOrConsent, Checked, OptimizedAsset, folder_for, resolve_upload_target,
  assert_uploadable, optimize_asset, put_object, drop_object, find_object, upload_file, store_asset,
  uploaded_file,
}
use beleqet_ecosystem_update.Uploads.Store.Written.{
  is_file_name-uuid, folder_for-safe, optimize_asset-extension, assert_uploadable-allowed,
  find_object-put, find_file-first, find_object-files, Result-cases, assert_uploadable-reads,
  optimize_asset-reads,
}

module _ (decode : Text → Option Text) (resolve : List Text → Text) where
  store_asset-writes :
      (config : UploadsConfig) (written : Bool) (b : Buffer) (f g : StoredFile) (db : UploadsDb)
      → (store_asset decode resolve config written b f db).0 ≡ ok g
      → (g ≡ f)
        × (find_file g.key db ≡ none)
        × ((store_asset decode resolve config written b f db).1
            ≡ record (put_object g.key b db) { files = g ∷ db.files })
  unfolding put_object drop_object find_file
  store_asset-writes config written b f g db h =
      let same : g ≡ f = ground arith in rw same (refl, ground arith, ground arith)

  -- What an upload that is answered has gone through and written.
  upload_file-writes :
      (config : UploadsConfig) (now : ℕ) (uuid : Text) (written consent : Bool)
      (converted : Option Buffer) (file : MulterFile) (user : Option ℕ) (db : UploadsDb)
      (f : StoredFile)
      → (upload_file decode resolve config now uuid written converted file
          (FolderOrConsent.with_consent consent)
          user
          db).0
        ≡ ok f
      → (checked : Checked) × (asset : OptimizedAsset) × (folder : Text) × ((assert_uploadable file
            db).0
          ≡ ok checked)
        × ((optimize_asset converted checked db).0 ≡ ok asset)
        × (validate_storage_folder decode (folder_for file.mimetype) ≡ some folder)
        × (f.key ≡ folder ++ (slash ∷ (uuid ++ asset.extension)))
        × (consent ≡ true)
        × (f.is_deleted ≡ false)
        × (f.uploaded_by_id ≡ user)
        × (f.size ≡ asset.buffer.size)
        × (find_file f.key db ≡ none)
        × ((upload_file decode resolve config now uuid written converted file
              (FolderOrConsent.with_consent consent)
              user
              db).1
            ≡ record (put_object f.key asset.buffer db) { files = f ∷ db.files })
  unfolding upload_file resolve_upload_target
  upload_file-writes config now uuid written consent converted file user db f h =
      let read = assert_uploadable-reads file db in
      elim (Result-cases (assert_uploadable file db).0) [
        | inr (e, refused) ↦ absurd (ground arith)
        | inl (checked, fine) ↦
            elim (Option-cases (validate_storage_folder decode (folder_for file.mimetype))) [
              | inl unsafe ↦ absurd (ground arith)
              | inr (folder, safe) ↦
                  let unread = optimize_asset-reads converted checked db in
                  elim (Result-cases (optimize_asset converted checked db).0) [
                    | inr (e, refused) ↦ absurd (ground arith)
                    | inl (asset, made) ↦
                        let agreed : consent ≡ true = ground arith in
                        let stored : upload_file decode resolve config now uuid written converted
                              file (FolderOrConsent.with_consent consent) user db
                            ≡ store_asset decode resolve config written asset.buffer
                                (uploaded_file now (folder ++ (slash ∷ (uuid ++ asset.extension)))
                                  file asset consent user)
                                db =
                          ground arith in
                        let answered =
                          ap (λ (x : Result StoredFile × UploadsDb). x.0) (sym stored) ∙ h in
                        let (same, unused_key, after) =
                          store_asset-writes config written asset.buffer _ f db answered in
                        (
                          checked,
                          asset,
                          folder,
                          fine,
                          made,
                          safe,
                          ap (λ (x : StoredFile). x.key) same,
                          agreed,
                          ap (λ (x : StoredFile). x.is_deleted) same,
                          ap (λ (x : StoredFile). x.uploaded_by_id) same,
                          ap (λ (x : StoredFile). x.size) same,
                          unused_key,
                          ap (λ (x : Result StoredFile × UploadsDb). x.1) stored ∙ after,
                        )
                  ]
            ]
      ]

  -- Where `uploadFile` is called with a consent flag, as the controller calls it, a file that it answers
  -- was uploaded with consent. No row had its key before, and it is the one row that is added; its key is
  -- answered with a URL, where the storage signs one, and leads to the row and to an object of the size
  -- that the row says. Plain keys are decoded to themselves, and the UUID is 36 hexadecimal digits or `-`.
  pub upload_file-readable :
      (config : UploadsConfig) (now : ℕ) (uuid : Text) (written consent : Bool)
      (converted : Option Buffer) (file : MulterFile) (user : Option ℕ) (db : UploadsDb)
      (f : StoredFile)
      → DecodesPlain decode
      → length uuid ≡ 36
      → all is_uuid_unit uuid ≡ true
      → (upload_file decode resolve config now uuid written converted file
          (FolderOrConsent.with_consent consent)
          user
          db).0
        ≡ ok f
      → let after =
          (upload_file decode resolve config now uuid written converted file
            (FolderOrConsent.with_consent consent)
            user
            db).1 in
        (consent ≡ true)
        × (find_file f.key db ≡ none)
        × (after.files ≡ f ∷ db.files)
        × ((get_presigned_read_url decode config true f.key after).0 ≡ ok f.key)
        × (find_file f.key after ≡ some f)
        × ((b : Buffer) × (find_object f.key after ≡ some (f.key, b)) × (f.size ≡ b.size))
  unfolding get_presigned_read_url put_object drop_object
  upload_file-readable config now uuid written consent converted file user db f plain n units h =
      let (
        checked, asset, folder, fine, made, target, key, agreed, live, mine, sized, unused_key,
        after,
      ) =
        upload_file-writes config now uuid written consent converted file user db f h in
      let safe = folder_for-safe file.mimetype in
      let same = validate_storage_folder-safe decode (folder_for file.mimetype) plain safe in
      let safe_folder : is_safe_segment folder ≡ true = cc in
      let allowed = assert_uploadable-allowed file checked db fine in
      let named =
        is_file_name-uuid uuid asset.extension n units
          (optimize_asset-extension converted checked asset db allowed made) in
      let valid =
        validate_storage_key-safe decode folder (uuid ++ asset.extension) plain safe_folder named in
      let valid_key : validate_storage_key decode f.key ≡ some f.key = rw key valid in
      let found : find_file f.key
            (record (put_object f.key asset.buffer db) { files = f ∷ db.files })
          ≡ some f =
        find_file-first f (put_object f.key asset.buffer db) in
      let object = find_object-put f.key asset.buffer db in
      rw after (
        agreed,
        unused_key,
        refl,
        ground arith,
        found,
        (asset.buffer, find_object-files f.key _ _ _ object, sized),
      )
