-- ===== src/Images/Client.antt =====
-- src/pkg/images/impl.go and handler.go: the client of the file registry, and the HTTP handlers over
-- it. A stream carries the messages of the client to UploadImage of the registry, and those of
-- DownloadImage to the client; a stream that the client gives up ends in an error on the other side.
pub mod Sends
pub mod Transfer
use qcontroller.Base.{
  String, ◌<>◌, ℕ, Bool, true, false, not, Option, none, some, ◌==◌, List, [], ◌∷◌, ◌++◌,
  if◌then◌else◌, map, Result, ok, err, is_empty, leb,
}
use qcontroller.Badger.{Badger, Codec}
use qcontroller.Images.Storage.{Content, Metadata, Fs, Hashes}
use qcontroller.Images.Registry.{Recv, chunk, broken, Os, Answer, uploaded, Registry}
use qcontroller.Images.Registry

-- Read of the file to upload, one by one: the bytes, with or without io.EOF, or another error. A
-- list that ends is a file that has ended.
abbrev pub Reads : Type 0
Reads = List (Result String Content)

abbrev pub failed_read : String → String
failed_read e = "failed to read file: " <> e

-- The loop of Upload: the messages sent, and the error that ends it, after which the stream is given up.
unfoldable pub messages : (Content → Option String) → String → Reads → List Recv × Option String
messages send name [] = ([], none)
messages send name (err e ∷ reads) = (broken "context canceled" ∷ [], some (failed_read e))
messages send name (ok [] ∷ reads) = ([], none)
messages send name (ok (b ∷ bytes) ∷ reads) =
    let (rest, e) = messages send name reads in
    elim (send (b ∷ bytes)) [
      | some x ↦ (broken "context canceled" ∷ [], some x)
      | none ↦ (chunk name (b ∷ bytes) ∷ rest, e)
    ]

-- What CloseAndRecv returns for an answer of UploadImage.
abbrev pub response_error : Answer → Option String
response_error (uploaded id) = none
response_error a = some "rpc error"

-- What the client has on its side: the connection, the directory and the file it writes to.
pub record Local : Type 0 where
  pub open_upload : Option String
  pub send : Content → Option String
  pub make_dir : String → Option String
  pub create : String → Option String
  pub open_download : Option String
  pub write : Content → Option String
  pub close : Option String

abbrev pub first_error : Option String → Option String → Option String
first_error none e = e
first_error (some x) e = some x

-- The loop of Download over the chunks that arrive: what is written, and the error of a write.
unfoldable pub write_all :
    (Content → Option String) → Content → List Content → Content × Option String
write_all write c [] = (c, none)
write_all write c (piece ∷ pieces) = elim (write piece) [
  | some e ↦ (c, some e)
  | none ↦ write_all write (c ++ piece) pieces
]

abbrev pub stream_end : Option Answer → Option String
stream_end none = none
stream_end (some a) = some "rpc error"

module _ {Bytes : Type 0} (B : Badger Bytes) (keys : B.Txn → List String) (C : Codec Bytes Metadata)
    (F : Fs) (H : Hashes) where
  -- Upload
  unfoldable pub upload_file :
      ℕ
      → Os
      → Local
      → String
      → Reads
      → Registry B keys C F H
      → Registry B keys C F H × Option String
  unfolding messages
  upload_file now os l name reads r = elim l.open_upload [
    | some e ↦ (r, some e)
    | none ↦
        let (sent, e) = messages l.send name reads in
        let (r', a) = Registry.upload B keys C F H now os sent r in
        (r', first_error e (response_error a))
  ]

  -- Download: what the file has at the end, none if it was not created, and the error.
  unfoldable pub download_file :
      Os → Local → String → String → Registry B keys C F H → Option Content × Option String
  unfolding write_all
  download_file os l id path r = elim (first_error (l.make_dir path) (l.create path)) [
    | some e ↦ (none, some e)
    | none ↦ elim l.open_download [
      | some e ↦ (some [], first_error (some e) l.close)
      | none ↦
          let (pieces, a) = Registry.download B keys C F H os id r in
          let (c, e) = write_all l.write [] pieces in
          (some c, first_error (first_error e (stream_end a)) l.close)
    ]
  ]
