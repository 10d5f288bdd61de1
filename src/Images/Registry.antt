-- ===== src/Images/Registry.antt =====
-- src/pkg/protos/fileregistry.go: the gRPC service over a storage backend. A stream is the list of
-- what Recv gives until io.EOF; an `Os` is what the temporary file and the stream answer.

pub mod Transfer
use qcontroller.Base.{
  String, ◌<>◌, ℕ, Bool, true, false, Option, none, some, ◌==◌, List, [], ◌∷◌, ◌++◌, if◌then◌else◌,
  map, Result, ok, err, is_empty,
}
use qcontroller.Badger.{Badger, Codec}
use qcontroller.Images.Storage.{Content, Metadata, Fs, StorageErr, Hashes, Backend}
use qcontroller.Images.Storage
use qcontroller.Events.Publisher.{Publisher, publish_image_update, image_uploaded, image_removed}

pub data Recv : Type 0 where
  chunk : String → Content → Recv
  broken : String → Recv

pub data TempErr : Type 0 where
  is_exist : TempErr
  temp_error : String → TempErr

-- `reads` is what Read gives of a retrieved file, one by one, until io.EOF.
pub record Os : Type 0 where
  pub open_temp : String → Option TempErr
  pub write_temp : Content → Option String
  pub close_temp : Option String
  pub hash_file : Content → Result String String
  pub reopen : Option String
  pub send_and_close : String → Option String
  pub reads : Content → List (Result String Content)
  pub send : Content → Option String

-- What a method answers: a message, an error of the stream, or a status with its code.
pub data Answer : Type 0 where
  uploaded : String → Answer
  stream_error : String → Answer
  invalid_argument already_exists internal not_found : String → Answer
  internal_storage : String → StorageErr → Answer

abbrev pub same_content : Result StorageErr Metadata → String → Bool
same_content (err e) hash = false
same_content (ok m) hash = m.hash == hash

-- The loop of DownloadImage: the chunks sent, and the error that ends it.
unfoldable pub send_all : Os → List (Result String Content) → List Content × Option Answer
send_all os [] = ([], none)
send_all os (err e ∷ rest) = ([], some (internal ("error reading file: " <> e)))
send_all os (ok piece ∷ rest) =
    let (sent, a) = send_all os rest in
    elim (os.send piece) [
      | some e ↦ ([], some (internal ("failed to send chunk: " <> e)))
      | none ↦ (piece ∷ sent, a)
    ]

module _ {Bytes : Type 0} (B : Badger Bytes) (keys : B.Txn → List String) (C : Codec Bytes Metadata)
    (F : Fs) (H : Hashes) where
  pub record Registry : Type 0 where
    pub storage : Backend B keys C F H
    pub events : Publisher

  abbrev close_stream : Os → String → Registry → Registry × Answer
  close_stream os id r = elim (os.send_and_close id) [
    | none ↦ (r, uploaded id)
    | some e ↦ (r, stream_error e)
  ]

  -- Publishing is deferred to the return of the method; a dropped event is only logged.
  abbrev store_upload : ℕ → Os → String → Content → Registry → Registry × Answer
  store_upload now os id c r =
      let (b, e) = Storage.store B keys C F H now id c r.storage in
      elim e [
        | some x ↦ (record r { storage = b }, internal_storage "failed to store file: " x)
        | none ↦
            let (r', a) = close_stream os id (record r { storage = b }) in
            (record r' { events = (publish_image_update now id image_uploaded r'.events).0 }, a)
      ]

  -- UploadImage behind io.EOF: `c` is what was written to the temporary file of `id`.
  unfoldable pub finish : ℕ → Os → String → Content → Registry → Registry × Answer
  finish now os id c r = elim os.close_temp [
    | some e ↦ (r, internal ("failed to close file: " <> e))
    | none ↦ elim (os.hash_file c) [
      | err e ↦ (r, internal ("failed to hash file: " <> e))
      | ok hash ↦
          if same_content (Storage.get_metadata B keys C F H id r.storage) hash
          then close_stream os id r
          else (elim os.reopen [
            | some e ↦ (r, internal ("failed to reopen temp file: " <> e))
            | none ↦ store_upload now os id c r
          ])
    ]
  ]

  -- The loop of UploadImage once there is a temporary file.
  unfoldable pub receive : ℕ → Os → List Recv → String → Content → Registry → Registry × Answer
  unfolding finish
  receive now os [] id c r = finish now os id c r
  receive now os (broken e ∷ rest) id c r = (r, stream_error e)
  receive now os (chunk _ piece ∷ rest) id c r = elim (os.write_temp piece) [
    | some e ↦ (r, internal ("failed to write to temp file: " <> e))
    | none ↦ receive now os rest id (c ++ piece) r
  ]

  -- UploadImage
  unfoldable pub upload : ℕ → Os → List Recv → Registry → Registry × Answer
  unfolding receive
  upload now os [] r = (r, invalid_argument "no data received")
  upload now os (broken e ∷ rest) r = (r, stream_error e)
  upload now os (chunk id piece ∷ rest) r =
      if is_empty id
      then (r, invalid_argument "image_id must be provided in the first chunk")
      else (elim (os.open_temp id) [
        | some is_exist ↦ (r, already_exists "Image with the same id is currently being uploaded")
        | some (temp_error e) ↦ (r, internal ("failed to create temp file: " <> e))
        | none ↦ receive now os (chunk id piece ∷ rest) id [] r
      ])

  -- DownloadImage
  unfoldable pub download : Os → String → Registry → List Content × Option Answer
  unfolding send_all
  download os id r = elim (Storage.exists B keys C F H id r.storage) [
    | err e ↦ ([], some (internal_storage "failed to check image existence: " e))
    | ok false ↦ ([], some (not_found ("image not found: " <> id)))
    | ok true ↦ elim (Storage.retrieve B keys C F H id r.storage) [
      | err e ↦ ([], some (internal_storage "failed to retrieve image: " e))
      | ok c ↦ send_all os (os.reads c)
    ]
  ]

  -- RemoveImage: whether the answer says `removed`
  unfoldable pub remove : ℕ → String → Registry → Registry × Bool
  remove now id r =
      let (b, e) = Storage.remove B keys C F H id r.storage in
      elim e [
        | some _ ↦ (record r { storage = b }, false)
        | none ↦ (
          record { storage = b; events = (publish_image_update now id image_removed r.events).0 },
          true,
        )
      ]

  -- The loop of ListImages; an image without metadata is left out.
  abbrev listed : List String → Backend B keys C F H → List Metadata
  listed [] b = []
  listed (id ∷ ids) b =
      let rest = listed ids b in
      elim (Storage.get_metadata B keys C F H id b) [ err _ ↦ rest | ok m ↦ m ∷ rest ]

  -- ListImages
  unfoldable pub list : Registry → List Metadata
  list r = listed (Storage.list B keys C F H r.storage) r.storage
