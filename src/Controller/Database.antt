-- ===== src/Controller/Database.antt =====
-- The database of persistence.go is a `State`: its theorems fill the interface.
use qcontroller.Base.{◌≡◌, ap}
use qcontroller.Badger.{Badger, IsLawful, Codec, IsFaithful}
use qcontroller.Vm.{Instance}
use qcontroller.Db
use qcontroller.Db.{DbErr}
use qcontroller.Db.View.{find, update-Written, update_failed, remove-Removed, remove_failed}
use qcontroller.Db.Invariant.{IsConsistent, update-IsConsistent, remove-IsConsistent}
use qcontroller.Controller.{StateOps, IsState}

module _ {Bytes : Type 0} (B : Badger Bytes) (C : Codec Bytes Instance) (L : IsLawful B)
    (F : IsFaithful C) where
  -- A store is a database that is consistent, as every database reached from an empty one is.
  abbrev pub db_state : StateOps
  db_state = record {
    Store = (t : B.Txn) × IsConsistent B C t;
    update = λ s i.
        (((Db.update B C s.0 i).0, update-IsConsistent B C L F s.0 i s.1), (Db.update B C s.0 i).1);
    get = λ s id. Db.get B C s.0 id;
    list = λ s. Db.list B C s.0;
    remove = λ s id. (
      ((Db.remove B C s.0 id).0, remove-IsConsistent B C L F s.0 id s.1),
      (Db.remove B C s.0 id).1,
    );
  }

  pair_eq {ℓ κ} : {X : Type ℓ} {Y : Type κ} (p : X × Y) {y : Y} → p.1 ≡ y → p ≡ (p.0, y)
  pair_eq p e = ap (λ z. (p.0, z)) e

  -- For a lawful badger and a faithful codec, the database of persistence.go meets everything that
  -- the VM managers rely on: a successful Update or Remove changes exactly one instance, a failed
  -- one changes none, and stored instances pass the checks under their own id.
  pub db_state-IsState : IsState db_state
  db_state-IsState = record {
    same_id = λ s id i h. s.1.same_id id i h;
    passes = λ s id i h. s.1.passes id i h;
    update_writes =
        λ s i j h. (update-Written B C L F s.0 _ i (pair_eq (Db.update B C s.0 i) h)).1.instances j;
    update_fails = λ s i e j h.
        ap (λ t. find B C t j) (update_failed B C L F s.0 _ i e (pair_eq (Db.update B C s.0 i) h));
    remove_deletes = λ s id j h.
        (remove-Removed B C L F s.0 _ id (pair_eq (Db.remove B C s.0 id) h)).instances j;
    remove_fails = λ s id e j h.
        ap (λ t. find B C t j)
          (remove_failed B C L F s.0 _ id e (pair_eq (Db.remove B C s.0 id) h));
  }

-- The database of persistence.go as NewDatabase opens it, without any proof about its contents.
abbrev pub raw_state : {Bytes : Type 0} → Badger Bytes → Codec Bytes Instance → StateOps
raw_state B C = record {
  Store = B.Txn;
  update = Db.update B C;
  get = Db.get B C;
  list = Db.list B C;
  remove = Db.remove B C;
}
