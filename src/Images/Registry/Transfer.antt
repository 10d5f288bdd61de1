-- ===== src/Images/Registry/Transfer.antt =====
-- Uploads and downloads of fileregistry.go.
use qcontroller.Base.{
  String, ℕ, true, false, ◌≡◌, none, List, [], ◌∷◌, ◌++◌, map, ok, is_empty, arith, Option-cases,
  sym, ◌∙◌, ap, refl,
}
use qcontroller.Badger.{Badger, IsLawful, Codec, IsFaithful}
use qcontroller.Images.Storage.{Content, Metadata, Fs, FsIsLawful, StorageErr, Hashes, Backend}
use qcontroller.Images.Storage
use qcontroller.Images.Storage.Retrieval.{store_retrieve}
use qcontroller.Images.Registry.{
  chunk, Os, uploaded, Registry, finish, receive, upload, send_all, download, same_content,
}

abbrev pub joined : List Content → Content
joined [] = []
joined (c ∷ cs) = c ++ joined cs

append_assoc : (a b c : Content) → (a ++ b) ++ c ≡ a ++ (b ++ c)
append_assoc [] b c = refl
append_assoc (x ∷ a) b c = ap (λ t. x ∷ t) (append_assoc a b c)

append-nil : (a : Content) → a ++ [] ≡ a
append-nil [] = refl
append-nil (x ∷ a) = ap (λ t. x ∷ t) (append-nil a)

-- Files and streams that do not fail, SHA-256 as in the backend, and reads that give the whole file.
pub record Works (H : Hashes) (os : Os) : Type 0 where
  pub opens : (id : String) → os.open_temp id ≡ none
  pub writes : (c : Content) → os.write_temp c ≡ none
  pub closes : os.close_temp ≡ none
  pub hashes : (c : Content) → os.hash_file c ≡ ok (H.of_content c)
  pub reopens : os.reopen ≡ none
  pub sends : (c : Content) → os.send c ≡ none
  pub reads_all :
      (c : Content)
      → (pieces : List Content) × (os.reads c ≡ map (λ p. ok p) pieces) × (joined pieces ≡ c)

send_all-sends :
    (os : Os) (pieces : List Content)
    → ((c : Content) → os.send c ≡ none)
    → send_all os (map (λ p. ok p) pieces) ≡ (pieces, none)
unfolding send_all
send_all-sends os [] h = refl
send_all-sends os (p ∷ ps) h = ground (arith, h p, send_all-sends os ps h)

module _ {Bytes : Type 0} (B : Badger Bytes) (keys : B.Txn → List String) (C : Codec Bytes Metadata)
    (F : Fs) (H : Hashes) where
  receive-finish :
      (now : ℕ) (os : Os) (id : String) (pieces : List Content) (c : Content)
      (r : Registry B keys C F H)
      → ((p : Content) → os.write_temp p ≡ none)
      → receive B keys C F H now os (map (chunk id) pieces) id c r
        ≡ finish B keys C F H now os id (c ++ joined pieces) r
  unfolding receive
  receive-finish now os id [] c r w =
      ap (λ t. finish B keys C F H now os id t r) (sym (append-nil c))
  receive-finish now os id (p ∷ ps) c r w = rw (w p) (
      receive-finish now os id ps (c ++ p) r w
      ∙ ap (λ t. finish B keys C F H now os id t r) (append_assoc c p (joined ps)))

  pub upload-finish :
      (now : ℕ) (os : Os) (id : String) (p : Content) (ps : List Content)
      (r : Registry B keys C F H)
      → Works H os
      → is_empty id ≡ false
      → upload B keys C F H now os (map (chunk id) (p ∷ ps)) r
        ≡ finish B keys C F H now os id (joined (p ∷ ps)) r
  unfolding upload
  upload-finish now os id p ps r W n =
      rw (n, W.opens id) (receive-finish now os id (p ∷ ps) [] r W.writes)

  download-sends :
      (os : Os) (id : String) (c : Content) (pieces : List Content) (r : Registry B keys C F H)
      → Works H os
      → Storage.exists B keys C F H id r.storage ≡ ok true
      → Storage.retrieve B keys C F H id r.storage ≡ ok c
      → os.reads c ≡ map (λ p. ok p) pieces
      → download B keys C F H os id r ≡ (pieces, none)
  unfolding download
  download-sends os id c pieces r W there got reads =
      ground (arith, there, got, reads, send_all-sends os pieces W.sends)

  -- When files and streams work, an upload of a content whose hash is already recorded for the
  -- image changes neither the storage nor the queue of events.
  pub upload_skips :
      (now : ℕ) (os : Os) (id : String) (p : Content) (ps : List Content)
      (r : Registry B keys C F H)
      → Works H os
      → is_empty id ≡ false
      → same_content
          (Storage.get_metadata B keys C F H id r.storage)
          (H.of_content (joined (p ∷ ps)))
        ≡ true
      → (upload B keys C F H now os (map (chunk id) (p ∷ ps)) r).0 ≡ r
  unfolding finish
  upload_skips now os id p ps r W n same =
      ap (λ x. x.0) (upload-finish now os id p ps r W n)
      ∙ ground
          (arith, W.closes, W.hashes (joined (p ∷ ps)), same, Option-cases (os.send_and_close id))

  module _ (L : IsLawful B) (A : IsFaithful C) (FL : FsIsLawful F) where
    finish-retrieve :
        (now : ℕ) (os : Os) (id : String) (c : Content) (r : Registry B keys C F H)
        → Works H os
        → same_content (Storage.get_metadata B keys C F H id r.storage) (H.of_content c) ≡ false
        → (finish B keys C F H now os id c r).1 ≡ uploaded id
        → let b = (finish B keys C F H now os id c r).0.storage in
          (Storage.retrieve B keys C F H id b ≡ ok c) × (Storage.exists B keys C F H id b ≡ ok true)
    unfolding finish
    finish-retrieve now os id c r W new h =
        let (got, _, there) =
          store_retrieve B keys C F H L A FL now id c r.storage
            (ground (arith, W.closes, W.hashes c, W.reopens, new)) in
        (
          ground (arith, W.closes, W.hashes c, W.reopens, new, got),
          ground (arith, W.closes, W.hashes c, W.reopens, new, there),
        )

    -- When files and streams work, over lawful files and a lawful database, and the image is not
    -- recorded with the same hash: an upload in any pieces that is answered with the image's id
    -- can be downloaded, without an error, as the same bytes.
    pub upload_download :
        (now : ℕ) (os : Os) (id : String) (p : Content) (ps : List Content)
        (r : Registry B keys C F H)
        → Works H os
        → is_empty id ≡ false
        → same_content
            (Storage.get_metadata B keys C F H id r.storage)
            (H.of_content (joined (p ∷ ps)))
          ≡ false
        → (upload B keys C F H now os (map (chunk id) (p ∷ ps)) r).1 ≡ uploaded id
        → let r' = (upload B keys C F H now os (map (chunk id) (p ∷ ps)) r).0 in
          (joined (download B keys C F H os id r').0 ≡ joined (p ∷ ps))
          × ((download B keys C F H os id r').1 ≡ none)
    upload_download now os id p ps r W n new h =
        let c = joined (p ∷ ps) in
        let same = upload-finish now os id p ps r W n in
        let (got, there) = finish-retrieve now os id c r W new (sym (ap (λ x. x.1) same) ∙ h) in
        let (pieces, reads, whole) = W.reads_all c in
        let sent = send_all-sends os pieces W.sends in
        let down =
          download-sends os id c pieces (finish B keys C F H now os id c r).0 W there got reads in
        rw same (ap joined (ap (λ x. x.0) down) ∙ whole, ap (λ x. x.1) down)
