-- ===== src/Images/Storage/Retrieval.antt =====
-- Storing and removing an image in local.go, seen by Retrieve, GetMetadata and Exists.
use qcontroller.Base.{
  String, ℕ, true, false, ◌≡◌, none, some, ◌==◌, eq_iff, eq_refl, List, ok, arith, Option-cases,
  Bool-cases, inl, inr, ◌⊎◌, sym, ◌∙◌, ap,
}
use qcontroller.Badger.{Badger, IsLawful, Codec, IsFaithful}
use qcontroller.Db.View.{answer}
use qcontroller.Images.Storage.{
  Content, Metadata, Fs, FsIsLawful, Hashes, Backend, store, get_metadata, retrieve, remove, exists,
  new_metadata, read_metadata,
}

module _ {Bytes : Type 0} (B : Badger Bytes) (keys : B.Txn → List String) (C : Codec Bytes Metadata)
    (F : Fs) (H : Hashes) where
  -- Every image's file is named after the image.
  pub record IsNamed (b : Backend B keys C F H) : Type 0 where
    pub named :
        (id : String) (m : Metadata)
        → get_metadata B keys C F H id b ≡ ok m
        → m.file_key ≡ H.of_name id

  module _ (L : IsLawful B) (A : IsFaithful C) (FL : FsIsLawful F) where
    -- With lawful files and a lawful database, an image whose Store succeeded is there, with its
    -- content and with the metadata that Store computes for it.
    pub store_retrieve :
        (now : ℕ) (id : String) (c : Content) (b : Backend B keys C F H)
        → (store B keys C F H now id c b).1 ≡ none
        → let b' = (store B keys C F H now id c b).0 in
          (retrieve B keys C F H id b' ≡ ok c)
          × (get_metadata B keys C F H id b' ≡ ok (new_metadata B keys C F H now id c))
          × (exists B keys C F H id b' ≡ ok true)
    unfolding store retrieve get_metadata exists
    store_retrieve now id c b h = elim (Option-cases (F.write b.files (H.of_name id) c).1) [
      | inr (x, e) ↦ absurd (ground (arith, e))
      | inl e₁ ↦ elim (Option-cases (C.marshal (new_metadata B keys C F H now id c))) [
        | inl e ↦ absurd (ground (arith, e₁, e))
        | inr (v, e₂) ↦ elim (Option-cases (answer (B.set b.db id v))) [
          | inl e ↦ absurd (ground (arith, e₁, e₂, e))
          | inr (u, e₃) ↦ elim (Option-cases (B.commit u)) [
            | inr (x, e) ↦ absurd (ground (arith, e₁, e₂, e₃, e))
            | inl e₄ ↦ ground (
              arith,
              e₁,
              e₂,
              e₃,
              e₄,
              L.get-set b.db id v u id,
              eq_refl id,
              A.unmarshal-marshal (new_metadata B keys C F H now id c) v e₂,
              FL.read-write b.files (H.of_name id) c e₁,
            )
          ]
        ]
      ]
    ]

    -- No write of one image touches the metadata of another, nor another file.
    store-get_other :
        (now : ℕ) (id j : String) (c : Content) (b : Backend B keys C F H)
        → (id == j) ≡ false
        → B.get (store B keys C F H now id c b).0.db j ≡ B.get b.db j
    unfolding store
    store-get_other now id j c b n = elim (Option-cases (F.write b.files (H.of_name id) c).1) [
      | inr (x, e) ↦ ground (arith, e)
      | inl e₁ ↦ elim (Option-cases (C.marshal (new_metadata B keys C F H now id c))) [
        | inl e ↦ ground (arith, e₁, e)
        | inr (v, e₂) ↦ elim (Option-cases (answer (B.set b.db id v))) [
          | inl e ↦ ground (arith, e₁, e₂, e)
          | inr (u, e₃) ↦
              ground (arith, e₁, e₂, e₃, L.get-set b.db id v u j, Option-cases (B.commit u))
        ]
      ]
    ]

    store-files :
        (now : ℕ) (id : String) (c : Content) (b : Backend B keys C F H)
        → (store B keys C F H now id c b).0.files ≡ (F.write b.files (H.of_name id) c).0
    unfolding store
    store-files now id c b = elim (Option-cases (F.write b.files (H.of_name id) c).1) [
      | inr (x, e) ↦ ground (arith, e)
      | inl e₁ ↦ elim (Option-cases (C.marshal (new_metadata B keys C F H now id c))) [
        | inl e ↦ ground (arith, e₁, e)
        | inr (v, e₂) ↦ elim (Option-cases (answer (B.set b.db id v))) [
          | inl e ↦ ground (arith, e₁, e₂, e)
          | inr (u, e₃) ↦ ground (arith, e₁, e₂, e₃, Option-cases (B.commit u))
        ]
      ]
    ]

    retrieve_by :
        (j : String) (b b' : Backend B keys C F H)
        → get_metadata B keys C F H j b' ≡ get_metadata B keys C F H j b
        → ((m : Metadata)
            → get_metadata B keys C F H j b ≡ ok m
            → F.read b'.files m.file_key ≡ F.read b.files m.file_key)
        → retrieve B keys C F H j b' ≡ retrieve B keys C F H j b
    unfolding retrieve
    retrieve_by j b b' same files = elim (Option-cases (answer (get_metadata B keys C F H j b))) [
      | inl e ↦ ground (arith, same, e)
      | inr (m, e) ↦ ground (arith, same, e, files m)
    ]

    -- With lawful files and a lawful database, a Store of one image, whether it succeeds or fails,
    -- leaves what Retrieve gives for another as it was, if files are named after their images and
    -- the two names have different hashes.
    pub store_other :
        (now : ℕ) (id j : String) (c : Content) (b : Backend B keys C F H)
        → IsNamed b
        → (H.of_name id == H.of_name j) ≡ false
        → retrieve B keys C F H j (store B keys C F H now id c b).0 ≡ retrieve B keys C F H j b
    unfolding get_metadata
    store_other now id j c b I n =
        retrieve_by j b (store B keys C F H now id c b).0
          (ap (λ r. read_metadata B keys C F H j r)
            (store-get_other now id j c b (ground (arith, eq_iff id j, eq_refl (H.of_name j)))))
          (λ m e. ground (
            arith,
            store-files now id c b,
            I.named j m e,
            FL.read-write_other b.files (H.of_name id) (H.of_name j) c,
          ))

    deleted :
        (id : String) (b : Backend B keys C F H)
        → (remove B keys C F H id b).1 ≡ none
        → (u : B.Txn) × (B.delete b.db id ≡ ok u) × ((remove B keys C F H id b).0.db ≡ u)
    unfolding remove
    deleted id b h = elim (Option-cases (answer (B.delete b.db id))) [
      | inl e ↦ absurd (ground (arith, e))
      | inr (u, e) ↦ (u, ground (arith, e), ground (arith, e, Option-cases (B.commit u)))
    ]

    -- With a lawful database, an image whose Remove succeeded does not exist any more.
    pub remove_absent :
        (id : String) (b : Backend B keys C F H)
        → (remove B keys C F H id b).1 ≡ none
        → exists B keys C F H id (remove B keys C F H id b).0 ≡ ok false
    unfolding exists
    remove_absent id b h =
        let (u, e, same) = deleted id b h in
        ground (arith, same, L.get-delete b.db id u id e, eq_refl id)

    store-get_self :
        (now : ℕ) (id : String) (c : Content) (b : Backend B keys C F H)
        → (B.get (store B keys C F H now id c b).0.db id ≡ B.get b.db id)
          ⊎ ((v : Bytes) × (C.marshal (new_metadata B keys C F H now id c) ≡ some v)
              × (B.get (store B keys C F H now id c b).0.db id ≡ ok v))
    unfolding store
    store-get_self now id c b = elim (Option-cases (F.write b.files (H.of_name id) c).1) [
      | inr (x, e) ↦ inl (ground (arith, e))
      | inl e₁ ↦ elim (Option-cases (C.marshal (new_metadata B keys C F H now id c))) [
        | inl e ↦ inl (ground (arith, e₁, e))
        | inr (v, e₂) ↦ elim (Option-cases (answer (B.set b.db id v))) [
          | inl e ↦ inl (ground (arith, e₁, e₂, e))
          | inr (u, e₃) ↦ elim (Option-cases (B.commit u)) [
            | inr (x, e) ↦ inl (ground (arith, e₁, e₂, e₃, e))
            | inl e₄ ↦
                inr (v, e₂, ground (arith, e₁, e₂, e₃, e₄, L.get-set b.db id v u id, eq_refl id))
          ]
        ]
      ]
    ]

    -- With a lawful database, Store, whether it succeeds or fails, keeps every file named after
    -- its image.
    pub store-IsNamed :
        (now : ℕ) (id : String) (c : Content) (b : Backend B keys C F H)
        → IsNamed b
        → IsNamed (store B keys C F H now id c b).0
    unfolding get_metadata
    store-IsNamed now id c b I = record {
      named = λ k m h. elim (Bool-cases (id == k)) [
        | inr n ↦
            I.named k m
              (ap (λ r. read_metadata B keys C F H k r) (sym (store-get_other now id k c b n)) ∙ h)
        | inl e ↦ elim (store-get_self now id c b) [
          | inl same ↦ ground (arith, e, eq_iff id k, same, I.named k m)
          | inr (v, w, got) ↦ ground (
            arith,
            e,
            eq_iff id k,
            got,
            h,
            A.unmarshal-marshal (new_metadata B keys C F H now id c) v w,
          )
        ]
      ];
    }
