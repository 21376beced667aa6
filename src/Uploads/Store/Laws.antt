-- ===== src/Uploads/Store/Laws.antt =====
-- The deletion of stored files (src/modules/uploads/uploads.service.ts).
use beleqet_ecosystem_update.Base.{
  Text, equals, equals_sound, ℕ, ◌≡◌, ◌≢◌, ◌∙◌, ap, refl, inl, inr, filter, find, find_sound, map,
  Bool, true, false, Bool-cases, Option, none, some, Option-cases, List, [], ◌∷◌, not_found, ok,
  err, arith,
}
use beleqet_ecosystem_update.Uploads.Keys.{validate_storage_key}
use beleqet_ecosystem_update.Uploads.Files.{
  StoredFile, UploadsConfig, UploadsDb, Buffer, has_key, find_file, get_presigned_read_url,
}
use beleqet_ecosystem_update.Uploads.Store.{
  mask_file, drop_object, find_object, other_key, is_owner, soft_delete_file, serve_local_file,
}

-- The rows of the table once a file was masked: the first of its key is that file, masked.
find-mask :
    (now : ℕ) (mask key : Text) (files : List StoredFile) (f : StoredFile)
    → find (has_key key) files ≡ some f
    → find (has_key key) (map (mask_file now mask key) files) ≡ some (mask_file now mask key f)
unfolding mask_file
find-mask now mask key [] f h = absurd cc
find-mask now mask key (g ∷ files) f h =
    let rest = find-mask now mask key files f in
    elim (Bool-cases (equals g.key key)) [ inl this ↦ ground arith | inr other ↦ ground arith ]

find-filter_other :
    (key : Text) (objects : List (Text × Buffer))
    → find (λ o. equals o.0 key) (filter (other_key key) objects) ≡ none
find-filter_other key [] = refl
find-filter_other key (o ∷ objects) = ground (arith, find-filter_other key objects)

find_object-drop : (key : Text) (db : UploadsDb) → find_object key (drop_object key db) ≡ none
unfolding find_object drop_object
find_object-drop key db = find-filter_other key db.objects

-- What a deletion that succeeds has found and does.
pub record IsDeletion (config : UploadsConfig) (now : ℕ) (mask key : Text) (user : ℕ) (safe : Text)
    (before after : UploadsDb) : Type 0 where
  pub file : StoredFile
  pub found : find_file safe before ≡ some file
  pub live : file.is_deleted ≡ false
  pub own : file.uploaded_by_id ≡ some user
  pub masked :
      find_file safe after
      ≡ some (record file { is_deleted = true; deleted_at = some now; filename = mask })
  pub object_gone : find_object safe after ≡ none

mask_file-named :
    (now : ℕ) (mask key : Text) (f : StoredFile)
    → has_key key f ≡ true
    → mask_file now mask key f
      ≡ record f { is_deleted = true; deleted_at = some now; filename = mask }
unfolding mask_file
mask_file-named now mask key f h = ground arith

module _ (decode : Text → Option Text) (resolve : List Text → Text) where
  soft_delete-writes :
      (config : UploadsConfig) (now : ℕ) (mask : Text) (removed : Bool) (key : Text) (user : ℕ)
      (safe : Text) (db : UploadsDb)
      → (soft_delete_file decode resolve config now mask removed key user db).0 ≡ ok safe
      → (f : StoredFile) × (validate_storage_key decode key ≡ some safe)
        × (find_file safe db ≡ some f)
        × (f.is_deleted ≡ false)
        × (is_owner user f.uploaded_by_id ≡ true)
        × ((soft_delete_file decode resolve config now mask removed key user db).1
            ≡ record (drop_object safe db) { files = map (mask_file now mask safe) db.files })
  unfolding soft_delete_file find_file
  soft_delete-writes config now mask removed key user safe db h =
      elim (Option-cases (validate_storage_key decode key)) [
        | inl refused ↦ absurd (ground arith)
        | inr (k, e) ↦ elim (Option-cases (find (has_key k) db.files)) [
          | inl missing ↦ absurd (ground arith)
          | inr (f, found) ↦
              let named = equals_sound f.key k (find_sound (has_key k) db.files f found) in
              (f, ground arith, ground arith, ground arith, ground arith, ground arith)
        ]
      ]

  owner_is : (user : ℕ) (owner : Option ℕ) → is_owner user owner ≡ true → owner ≡ some user
  unfolding is_owner
  owner_is user none h = absurd cc
  owner_is user (some o) h = ground arith

  -- A deletion that is answered has found a file under the validated key that was not deleted and was
  -- uploaded by this user, has marked and masked its row, and has taken its object away.
  pub soft_delete_file-IsDeletion :
      (config : UploadsConfig) (now : ℕ) (mask : Text) (removed : Bool) (key : Text) (user : ℕ)
      (safe : Text) (db : UploadsDb)
      → (soft_delete_file decode resolve config now mask removed key user db).0 ≡ ok safe
      → IsDeletion config now mask key user safe db
          (soft_delete_file decode resolve config now mask removed key user db).1
  unfolding find_file drop_object find_object
  soft_delete_file-IsDeletion config now mask removed key user safe db h =
      let (f, valid, found, live, own, writes) =
        soft_delete-writes config now mask removed key user safe db h in
      let named = find_sound (has_key safe) db.files f found in
      let marked = find-mask now mask safe db.files f found in
      rw writes (record {
        file = f;
        found = found;
        live = live;
        own = owner_is user f.uploaded_by_id own;
        masked = marked ∙ ap some (mask_file-named now mask safe f named);
        object_gone = find_object-drop safe db;
      })

  -- After it the key is answered to nobody: no URL to read it is signed, and the local server, where it
  -- is there at all, has no object for it.
  pub deleted_file_unreadable :
      (config : UploadsConfig) (now : ℕ) (mask : Text) (removed signed : Bool) (key : Text)
      (user : ℕ) (safe : Text) (db : UploadsDb)
      → (soft_delete_file decode resolve config now mask removed key user db).0 ≡ ok safe
      → ((get_presigned_read_url decode config signed key
            (soft_delete_file decode resolve config now mask removed key user db).1).0
          ≡ err (not_found "The requested file does not exist or has been deleted."))
        × ((o : Text × Buffer)
            → (serve_local_file decode resolve config key
                (soft_delete_file decode resolve config now mask removed key user db).1).0
              ≢ ok (some o))
  unfolding get_presigned_read_url serve_local_file
  deleted_file_unreadable config now mask removed signed key user safe db h =
      let (f, valid, found, live, own, writes) =
        soft_delete-writes config now mask removed key user safe db h in
      let deletion = soft_delete_file-IsDeletion config now mask removed key user safe db h in
      let after = deletion.masked in
      let gone = deletion.object_gone in (ground arith, λ o served. ground arith)
