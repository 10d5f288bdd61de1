-- ===== src/Badger.antt =====
-- What the program uses of two packages that are not part of it: the transactions of
-- github.com/dgraph-io/badger/v4, and encoding/json on the records that it stores.
use qcontroller.Base.{String, ◌≡◌, Option, some, ◌==◌, if◌then◌else◌, List}
use qcontroller.Base.{Result, ok, err}

-- `badger.ErrKeyNotFound`, or any other error of the package.
pub data Fault : Type 0 where
  key_not_found : Fault
  io : String → Fault

-- `Txn` is the database as one transaction sees it.
pub record Badger (Bytes : Type 0) : Type 1 where
  pub Txn : Type 0
  pub get : Txn → String → Result Fault Bytes
  pub set : Txn → String → Bytes → Result Fault Txn
  pub delete : Txn → String → Result Fault Txn
  -- the values under the keys with a prefix, in the iterator's order; reading one may fail
  pub iterate : Txn → String → List (Result Fault Bytes)
  -- the error of `db.Update` when the function that it runs has returned nil
  pub commit : Txn → Option Fault

-- The package's documented behaviour: a write that succeeds is read back, and touches no other key.
pub record IsLawful {Bytes : Type 0} (B : Badger Bytes) : Type 0 where
  pub get-set :
      (t : B.Txn) (k : String) (v : Bytes) (u : B.Txn) (j : String)
      → B.set t k v ≡ ok u
      → B.get u j ≡ (if k == j then ok v else B.get t j)
  pub get-delete :
      (t : B.Txn) (k : String) (u : B.Txn) (j : String)
      → B.delete t k ≡ ok u
      → B.get u j ≡ (if k == j then err key_not_found else B.get t j)
  pub delete_missing :
      (t : B.Txn) (k : String) → B.delete t k ≡ err key_not_found → B.get t k ≡ err key_not_found

-- The stored bytes: `json.Marshal` and `json.Unmarshal` of an `A`, and the conversions of a string.
pub record Codec (Bytes A : Type 0) : Type 0 where
  pub marshal : A → Option Bytes
  pub unmarshal : Bytes → Option A
  pub of_string : String → Bytes
  pub to_string : Bytes → String

pub record IsFaithful {Bytes A : Type 0} (C : Codec Bytes A) : Type 0 where
  pub unmarshal-marshal : (a : A) (b : Bytes) → C.marshal a ≡ some b → C.unmarshal b ≡ some a
  pub to_string-of_string : (s : String) → C.to_string (C.of_string s) ≡ s
