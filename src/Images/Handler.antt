-- ===== src/Images/Handler.antt =====
-- src/pkg/images/handler.go: the HTTP handlers over the image client. A handler gives the status of
-- the answer; `reads` is the file of the form.
use qcontroller.Base.{
  String, ◌≡◌, arith, ℕ, Bool, true, false, not, Option, none, some, is_none, List, if◌then◌else◌,
  Result, ok, err, is_empty, Option-cases, Bool-cases, Result-cases, inl, inr,
}
use qcontroller.Badger.{Badger, Codec}
use qcontroller.Images.Storage.{Metadata, Fs, Hashes}
use qcontroller.Images.Registry.{Os, Registry}
use qcontroller.Images.Registry
use qcontroller.Images.Client.{Local, Reads, upload_file}

-- The request of PostV1Images: what ParseMultipartForm, FormValue and FormFile give.
pub record Post : Type 0 where
  pub is_post : Bool
  pub parse_error : Option String
  pub id : String
  pub file : Result String Reads

abbrev status_of : Option String → ℕ
status_of none = 200
status_of (some e) = 500

module _ {Bytes : Type 0} (B : Badger Bytes) (keys : B.Txn → List String) (C : Codec Bytes Metadata)
    (F : Fs) (H : Hashes) where
  abbrev upload_status : Registry B keys C F H × Option String → Registry B keys C F H × ℕ
  upload_status (r, e) = (r, status_of e)

  -- PostV1Images
  unfoldable pub post_images :
      ℕ → Os → Local → Post → Registry B keys C F H → Registry B keys C F H × ℕ
  unfolding upload_file
  post_images now os l req r =
      if not req.is_post
      then (r, 405)
      else if not (is_none req.parse_error)
      then (r, 400)
      else if is_empty req.id
      then (r, 400)
      else (elim req.file [
        | err e ↦ (r, 400)
        | ok reads ↦ upload_status (upload_file B keys C F H now os l req.id reads r)
      ])

  -- DeleteV1ImagesImageId; the client passes the error of the stream on, and no other.
  unfoldable pub delete_image :
      ℕ → Option String → Bool → String → Registry B keys C F H → Registry B keys C F H × ℕ
  delete_image now stream_error is_delete id r =
      if not is_delete then (r, 405) else (elim stream_error [
        | some e ↦ (r, 500)
        | none ↦ ((Registry.remove B keys C F H now id r).0, 200)
      ])

  -- When PostV1Images answers 200, the request was a POST of a form with an id and a file, and Upload
  -- of the client returned nil.
  pub post_images-accepted :
      (now : ℕ) (os : Os) (l : Local) (req : Post) (r : Registry B keys C F H)
      → (post_images now os l req r).1 ≡ 200
      → (reads : Reads) × ((req.is_post ≡ true)
          × ((req.parse_error ≡ none)
              × ((is_empty req.id ≡ false)
                  × ((req.file ≡ ok reads)
                      × ((upload_file B keys C F H now os l req.id reads r).1 ≡ none)))))
  unfolding post_images
  post_images-accepted now os l req r h = elim (Result-cases req.file) [
    | inl (e, no_file) ↦ absurd (
        ground (
          arith,
          h,
          no_file,
          Bool-cases req.is_post,
          Option-cases req.parse_error,
          Bool-cases (is_empty req.id),
        ))
    | inr (reads, has_file) ↦
        let done = upload_file B keys C F H now os l req.id reads r in
        (
          reads,
          (
            ground (arith, h),
            (
              ground (arith, h, Option-cases req.parse_error),
              (ground (arith, h), (has_file, ground (arith, h, has_file, Option-cases done.1))),
            ),
          ),
        )
  ]
