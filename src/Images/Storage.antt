-- ===== src/Images/Storage.antt =====
-- src/pkg/images/storage/local.go: LocalFilesystemBackend. The database is the parameter `B` with the
-- keys that its iterator gives, encoding/json on the metadata is `C`, and the file system, where a
-- name stands for a path under the root, is `F`. Contents are lists of bytes.
pub mod Retrieval
use qcontroller.Base.{
  String, ℕ, Bool, true, false, ◌≡◌, Option, none, some, ◌==◌, List, [], ◌∷◌, if◌then◌else◌, length,
  Result, ok, err, is_empty,
}
use qcontroller.Badger.{Fault, key_not_found, io, Badger, Codec}

abbrev pub Content : Type 0
Content = List ℕ

pub record Metadata : Type 0 where
  pub image_id : String
  pub hash : String
  pub file_key : String
  pub size : ℕ
  pub uploaded_at : ℕ

pub data FsErr : Type 0 where
  not_exist : FsErr
  fs_error : String → FsErr

-- `write` is os.Create with io.Copy, which may leave a part of the content when it fails.
pub record Fs : Type 1 where
  pub Files : Type 0
  pub write : Files → String → Content → Files × Option FsErr
  pub read : Files → String → Result FsErr Content
  pub remove : Files → String → Files × Option FsErr

-- The documented behaviour of files: what was written is read back, and other files are untouched.
pub record FsIsLawful (F : Fs) : Type 0 where
  pub read-write :
      (t : F.Files) (k : String) (c : Content)
      → (F.write t k c).1 ≡ none
      → F.read (F.write t k c).0 k ≡ ok c
  pub read-write_other :
      (t : F.Files) (k j : String) (c : Content)
      → (k == j) ≡ false
      → F.read (F.write t k c).0 j ≡ F.read t j
  pub read-remove_other :
      (t : F.Files) (k j : String) → (k == j) ≡ false → F.read (F.remove t k).0 j ≡ F.read t j

pub data StorageErr : Type 0 where
  store_failed read_failed : FsErr → StorageErr
  image_not_found image_file_not_found : String → StorageErr
  bad_json : StorageErr
  metadata_error delete_error : Fault → StorageErr
  remove_failed : FsErr → StorageErr

-- utils.Hash of an id, and the SHA-256 of a content in hexadecimal digits.
pub record Hashes : Type 0 where
  pub of_name : String → String
  pub of_content : Content → String

module _ {Bytes : Type 0} (B : Badger Bytes) (keys : B.Txn → List String) (C : Codec Bytes Metadata)
    (F : Fs) (H : Hashes) where
  pub record Backend : Type 0 where
    pub db : B.Txn
    pub files : F.Files

  -- `db.Update` of a single write
  abbrev pub written : Backend → Result Fault B.Txn → Backend × Option StorageErr
  written b (err f) = (b, some (metadata_error f))
  written b (ok u) = elim (B.commit u) [
    | none ↦ (record b { db = u }, none)
    | some f ↦ (b, some (metadata_error f))
  ]

  abbrev set_metadata : Backend → String → Option Bytes → Backend × Option StorageErr
  set_metadata b id none = (b, some bad_json)
  set_metadata b id (some data_bytes) = written b (B.set b.db id data_bytes)

  abbrev pub new_metadata : ℕ → String → Content → Metadata
  new_metadata now id c = record {
    image_id = id;
    hash = H.of_content c;
    file_key = H.of_name id;
    size = length c;
    uploaded_at = now;
  }

  -- Store
  unfoldable pub store : ℕ → String → Content → Backend → Backend × Option StorageErr
  store now id c b =
      let (fs, e) = F.write b.files (H.of_name id) c in
      elim e [
        | some x ↦ (record b { files = fs }, some (store_failed x))
        | none ↦ set_metadata (record b { files = fs }) id (C.marshal (new_metadata now id c))
      ]

  abbrev read_metadata : String → Result Fault Bytes → Result StorageErr Metadata
  read_metadata id (err key_not_found) = err (image_not_found id)
  read_metadata id (err (io e)) = err (metadata_error (io e))
  read_metadata id (ok val) = elim (C.unmarshal val) [ none ↦ err bad_json | some m ↦ ok m ]

  -- GetMetadata
  unfoldable pub get_metadata : String → Backend → Result StorageErr Metadata
  get_metadata id b = read_metadata id (B.get b.db id)

  abbrev read_result : String → Result FsErr Content → Result StorageErr Content
  read_result id (ok c) = ok c
  read_result id (err not_exist) = err (image_file_not_found id)
  read_result id (err (fs_error e)) = err (read_failed (fs_error e))

  -- Retrieve: the content that the opened file has
  unfoldable pub retrieve : String → Backend → Result StorageErr Content
  unfolding get_metadata
  retrieve id b = elim (get_metadata id b) [
    | err e ↦ err e
    | ok m ↦ read_result id (F.read b.files m.file_key)
  ]

  abbrev zero_metadata : Metadata
  zero_metadata = record { image_id = ""; hash = ""; file_key = ""; size = 0; uploaded_at = 0 }

  -- The view in Remove: a missing key leaves the zero metadata.
  abbrev view_metadata : Result Fault Bytes → Result StorageErr Metadata
  view_metadata (err key_not_found) = ok zero_metadata
  view_metadata (err (io e)) = err (metadata_error (io e))
  view_metadata (ok val) = elim (C.unmarshal val) [ none ↦ err bad_json | some m ↦ ok m ]

  abbrev unlink : F.Files → String → F.Files × Option FsErr
  unlink fs key = if is_empty key then (fs, none) else F.remove fs key

  abbrev delete_key : Backend → Result Fault B.Txn → Backend × Option StorageErr
  delete_key b (err f) = (b, some (delete_error f))
  delete_key b (ok u) = elim (B.commit u) [
    | none ↦ (record b { db = u }, none)
    | some f ↦ (b, some (delete_error f))
  ]

  abbrev remove_file : String → Metadata → Backend → Backend × Option StorageErr
  remove_file id m b =
      let (fs, e) = unlink b.files m.file_key in
      elim e [
        | none ↦ delete_key (record b { files = fs }) (B.delete b.db id)
        | some not_exist ↦ delete_key (record b { files = fs }) (B.delete b.db id)
        | some (fs_error x) ↦ (record b { files = fs }, some (remove_failed (fs_error x)))
      ]

  -- Remove
  unfoldable pub remove : String → Backend → Backend × Option StorageErr
  remove id b = elim (view_metadata (B.get b.db id)) [
    | err e ↦ (b, some e)
    | ok m ↦ remove_file id m b
  ]

  -- Exists
  unfoldable pub exists : String → Backend → Result StorageErr Bool
  exists id b = elim (B.get b.db id) [
    | ok _ ↦ ok true
    | err key_not_found ↦ ok false
    | err (io e) ↦ err (metadata_error (io e))
  ]

  -- List
  unfoldable pub list : Backend → List String
  list b = keys b.db
