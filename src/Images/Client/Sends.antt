-- ===== src/Images/Client/Sends.antt =====
-- The messages of an upload: the pieces of the file, or an end in an error.
use qcontroller.Base.{
  String, ◌≡◌, ℕ, ◌<◌, arith, refl, Option, none, some, List, [], ◌∷◌, ◌++◌, map, ok, err, length,
  All, Option-cases, inl, inr, Bool-cases, is_empty,
}
use qcontroller.Badger.{Badger, Codec}
use qcontroller.Images.Storage.{Content, Metadata, Fs, Hashes}
use qcontroller.Images.Registry.{Recv, chunk, broken, Os, Registry, upload, receive}
use qcontroller.Images.Client.{Reads, messages}

pub messages-pieces :
    (send : Content → Option String) (name : String) (pieces : List Content)
    → ((c : Content) → send c ≡ none)
    → All (λ p. 0 < length p) pieces
    → messages send name (map (λ p. ok p) pieces) ≡ (map (chunk name) pieces, none)
unfolding messages
messages-pieces send name [] h full = refl
messages-pieces send name ([] ∷ ps) h (hp, hps) = absurd (omega arith)
messages-pieces send name ((b ∷ bytes) ∷ ps) h (hp, hps) =
    rw (messages, h (b ∷ bytes), messages-pieces send name ps h hps) refl

abbrev pub HasBroken : List Recv → Type 0
HasBroken [] = ⊥
HasBroken (broken e ∷ ms) = Unit
HasBroken (chunk id c ∷ ms) = HasBroken ms

-- Where the loop ends in an error, the stream does.
pub messages-HasBroken :
    (send : Content → Option String) (name : String) (reads : Reads) (e : String)
    → (messages send name reads).1 ≡ some e
    → HasBroken (messages send name reads).0
unfolding messages
messages-HasBroken send name [] e h = absurd cc
messages-HasBroken send name (err x ∷ reads) e h = tt
messages-HasBroken send name (ok [] ∷ reads) e h = absurd cc
messages-HasBroken send name (ok (b ∷ bytes) ∷ reads) e h = elim (Option-cases (send (b ∷ bytes))) [
  | inr (x, s) ↦ rw (messages, s) tt
  | inl s ↦ rw (messages, s) (messages-HasBroken send name reads e (rw (messages, s) at h))
]

module _ {Bytes : Type 0} (B : Badger Bytes) (keys : B.Txn → List String) (C : Codec Bytes Metadata)
    (F : Fs) (H : Hashes) where
  receive-HasBroken :
      (now : ℕ) (os : Os) (ms : List Recv) (id : String) (c : Content) (r : Registry B keys C F H)
      → HasBroken ms
      → (receive B keys C F H now os ms id c r).0 ≡ r
  unfolding receive
  receive-HasBroken now os [] id c r h = absurd h
  receive-HasBroken now os (broken e ∷ ms) id c r h = refl
  receive-HasBroken now os (chunk k piece ∷ ms) id c r h =
      ground
        (arith, Option-cases (os.write_temp piece), receive-HasBroken now os ms id (c ++ piece) r h)

  -- A stream that ends in an error leaves the registry as it was.
  pub upload-HasBroken :
      (now : ℕ) (os : Os) (ms : List Recv) (r : Registry B keys C F H)
      → HasBroken ms
      → (upload B keys C F H now os ms r).0 ≡ r
  unfolding upload
  upload-HasBroken now os [] r h = absurd h
  upload-HasBroken now os (broken e ∷ ms) r h = refl
  upload-HasBroken now os (chunk id piece ∷ ms) r h = elim (Bool-cases (is_empty id)) [
    | inl nameless ↦ rw (upload, nameless) refl
    | inr named ↦ ground (
      arith,
      named,
      Option-cases (os.open_temp id),
      receive-HasBroken now os (chunk id piece ∷ ms) id [] r h,
    )
  ]
