-- ===== src/Images/Client/Transfer.antt =====
-- Uploads and downloads from the client's file to the registry and back.
use mathlib.Core.List.{append-nil, append_assoc}
use qcontroller.Base.{
  String, ◌≡◌, ℕ, ◌<◌, arith, refl, ap, sym, ◌∙◌, Option, none, some, List, [], ◌∷◌, ◌++◌, map, ok,
  length, All, Option-cases, inl, inr, false, is_empty,
}
use qcontroller.Badger.{Badger, IsLawful, Codec, IsFaithful}
use qcontroller.Images.Storage.{Content, Metadata, Fs, FsIsLawful, Hashes}
use qcontroller.Images.Storage
use qcontroller.Images.Registry.{
  chunk, Os, uploaded, Registry, upload, download, same_content, finish,
}
use qcontroller.Images.Registry.Transfer.{Works, joined, upload_download, upload-finish}
use qcontroller.Images.Client.{
  Local, Reads, messages, write_all, upload_file, download_file, response_error,
}
use qcontroller.Images.Client.Sends.{messages-pieces, messages-HasBroken, upload-HasBroken}

write_all-joined :
    (write : Content → Option String) (c : Content) (pieces : List Content)
    → ((p : Content) → write p ≡ none)
    → write_all write c pieces ≡ (c ++ joined pieces, none)
unfolding write_all
write_all-joined write c [] h = ap (λ (t : Content). (t, none)) (sym (append-nil c))
write_all-joined write c (p ∷ ps) h =
    rw (write_all, h p, write_all-joined write (c ++ p) ps h, append_assoc c p (joined ps)) refl

-- A connection, a directory and a file that do not fail.
pub record LocalWorks (l : Local) : Type 0 where
  pub opens_upload : l.open_upload ≡ none
  pub sends : (c : Content) → l.send c ≡ none
  pub makes_dir : (path : String) → l.make_dir path ≡ none
  pub creates : (path : String) → l.create path ≡ none
  pub opens_download : l.open_download ≡ none
  pub writes : (c : Content) → l.write c ≡ none
  pub closes : l.close ≡ none

module _ {Bytes : Type 0} (B : Badger Bytes) (keys : B.Txn → List String) (C : Codec Bytes Metadata)
    (F : Fs) (H : Hashes) where
  -- An Upload whose reading or sending fails leaves the registry as it was.
  pub upload_file_given_up :
      (now : ℕ) (os : Os) (l : Local) (name : String) (reads : Reads) (r : Registry B keys C F H)
      (e : String)
      → (messages l.send name reads).1 ≡ some e
      → (upload_file B keys C F H now os l name reads r).0 ≡ r
  unfolding upload_file
  upload_file_given_up now os l name reads r e h = elim (Option-cases l.open_upload) [
    | inr (x, unopened) ↦ rw (upload_file, unopened) refl
    | inl opened ↦
        rw (upload_file, opened)
          (upload-HasBroken B keys C F H now os (messages l.send name reads).0 r
            (messages-HasBroken l.send name reads e h))
  ]

  upload_file-upload :
      (now : ℕ) (os : Os) (l : Local) (name : String) (pieces : List Content)
      (r : Registry B keys C F H)
      → LocalWorks l
      → All (λ p. 0 < length p) pieces
      → upload_file B keys C F H now os l name (map (λ p. ok p) pieces) r ≡ (
        (upload B keys C F H now os (map (chunk name) pieces) r).0,
        response_error (upload B keys C F H now os (map (chunk name) pieces) r).1,
      )
  unfolding upload_file
  upload_file-upload now os l name pieces r L full =
      rw (upload_file, L.opens_upload, messages-pieces l.send name pieces L.sends full) refl

  uploaded_by :
      (now : ℕ) (os : Os) (id : String) (p : Content) (ps : List Content)
      (r : Registry B keys C F H)
      → Works H os
      → is_empty id ≡ false
      → same_content
          (Storage.get_metadata B keys C F H id r.storage)
          (H.of_content (joined (p ∷ ps)))
        ≡ false
      → response_error (upload B keys C F H now os (map (chunk id) (p ∷ ps)) r).1 ≡ none
      → (upload B keys C F H now os (map (chunk id) (p ∷ ps)) r).1 ≡ uploaded id
  unfolding finish
  uploaded_by now os id p ps r W n new h =
      let same = upload-finish B keys C F H now os id p ps r W n in
      let stored = Storage.store B keys C F H now id (joined (p ∷ ps)) r.storage in
      rw same (
        ground (
          arith,
          rw same at h,
          W.closes,
          W.hashes (joined (p ∷ ps)),
          new,
          W.reopens,
          Option-cases stored.1,
          Option-cases (os.send_and_close id),
        ))

  downloads :
      (os : Os) (l : Local) (id path : String) (c : Content) (r : Registry B keys C F H)
      → LocalWorks l
      → joined (download B keys C F H os id r).0 ≡ c
      → (download B keys C F H os id r).1 ≡ none
      → download_file B keys C F H os l id path r ≡ (some c, none)
  unfolding download_file
  downloads os l id path c r LW bytes done =
      rw
        (
          download_file,
          LW.makes_dir path,
          LW.creates path,
          LW.opens_download,
          write_all-joined l.write [] (download B keys C F H os id r).0 LW.writes,
          bytes,
          done,
          LW.closes,
        )
        refl

  module _ (L : IsLawful B) (A : IsFaithful C) (FL : FsIsLawful F) where
    -- Where neither side's files and streams fail, over lawful files and a lawful database: if
    -- Upload of a file that is not empty returns nil, and the image was not recorded with the same
    -- hash before, then Download of the image returns nil and has written exactly the bytes of the
    -- file, in whatever pieces the file was read.
    pub upload_file-download_file :
        (now : ℕ) (os : Os) (l : Local) (id path : String) (p : Content) (ps : List Content)
        (r : Registry B keys C F H)
        → Works H os
        → LocalWorks l
        → is_empty id ≡ false
        → All (λ c. 0 < length c) (p ∷ ps)
        → same_content
            (Storage.get_metadata B keys C F H id r.storage)
            (H.of_content (joined (p ∷ ps)))
          ≡ false
        → (upload_file B keys C F H now os l id (map (λ c. ok c) (p ∷ ps)) r).1 ≡ none
        → download_file B keys C F H os l id path
            (upload_file B keys C F H now os l id (map (λ c. ok c) (p ∷ ps)) r).0
          ≡ (some (joined (p ∷ ps)), none)
    upload_file-download_file now os l id path p ps r W LW n full new h =
        let up = upload_file-upload now os l id (p ∷ ps) r LW full in
        let answered = uploaded_by now os id p ps r W n new (rw up at h) in
        let (bytes, done) = upload_download B keys C F H L A FL now os id p ps r W n new answered in
        let r' = (upload B keys C F H now os (map (chunk id) (p ∷ ps)) r).0 in
        ap (λ t. download_file B keys C F H os l id path t.0) up
        ∙ downloads os l id path (joined (p ∷ ps)) r' LW bytes done
