-- ===== src/Db/Invariant.antt =====
-- The index of hardware addresses agrees with the instances, whatever is written.
use qcontroller.Base.{
  String, ◌≡◌, arith, refl, sym, subst, ◌≢◌, none, some, ◌==◌, eq_iff, eq_refl, false, is_empty,
  Option, Result, ok, err, Option-cases, Bool-cases, inl, inr,
}
use qcontroller.Badger.{Fault, Badger, IsLawful, Codec, IsFaithful}
use qcontroller.Vm.{Instance}
use qcontroller.Db.{DbErr, hwaddr_not_unique, text_of, check, update, remove, owner_check}
use qcontroller.Db.Keys.{hwaddr_key}
use qcontroller.Db.View.{
  find, owner, Written, Removed, update-Written, update_failed, remove-Removed, remove_failed,
}

pub check-address : (i : Instance) → check i ≡ none → is_empty (text_of i.hwaddr) ≡ false
unfolding check
check-address i h = ground arith

module _ {Bytes : Type 0} (B : Badger Bytes) (C : Codec Bytes Instance) where
  -- Every stored instance passes the checks and owns its address, and every owner is stored.
  pub record IsConsistent (t : B.Txn) : Type 0 where
    pub same_id : (id : String) (i : Instance) → find B C t id ≡ some i → i.id ≡ id
    pub passes : (id : String) (i : Instance) → find B C t id ≡ some i → check i ≡ none
    pub owns :
        (id : String) (i : Instance)
        → find B C t id ≡ some i
        → owner B C t (text_of i.hwaddr) ≡ some id
    pub owned :
        (mac id : String)
        → owner B C t mac ≡ some id
        → (i : Instance) × (find B C t id ≡ some i) × (text_of i.hwaddr ≡ mac)

  -- In a consistent database two instances with one address are one instance.
  pub address_unique :
      (t : B.Txn)
      → IsConsistent t
      → (a b : String) (i j : Instance) → find B C t a ≡ some i
      → find B C t b ≡ some j
      → text_of i.hwaddr ≡ text_of j.hwaddr
      → a ≡ b
  address_unique t c a b i j p q e = ground (arith, c.owns a i p, c.owns b j q)

  module _ (L : IsLawful B) (F : IsFaithful C) where
    module _ (t u : B.Txn) (inst : Instance) (c : IsConsistent t) (passed : check inst ≡ none)
        (w : Written B C L F t u inst (text_of inst.hwaddr)) where
      written-same_id : (id : String) (i : Instance) → find B C u id ≡ some i → i.id ≡ id
      written-same_id id i h = ground (arith, w.instances id, eq_iff inst.id id, c.same_id id i)

      written-passes : (id : String) (i : Instance) → find B C u id ≡ some i → check i ≡ none
      written-passes id i h = ground (arith, w.instances id, eq_iff inst.id id, c.passes id i)

      written-owns :
          (id : String) (i : Instance)
          → find B C u id ≡ some i
          → owner B C u (text_of i.hwaddr) ≡ some id
      written-owns id i h = elim (Option-cases (find B C t inst.id)) [
        | inl e ↦ ground (
          arith,
          e,
          w.instances id,
          w.owners (text_of i.hwaddr),
          w.was_free,
          c.owns id i,
          eq_iff inst.id id,
          eq_iff (text_of inst.hwaddr) (text_of i.hwaddr),
        )
        | inr (old, e) ↦ ground (
          arith,
          e,
          w.instances id,
          w.owners (text_of i.hwaddr),
          w.was_free,
          c.owns id i,
          c.owns inst.id old e,
          eq_iff inst.id id,
          eq_iff (text_of inst.hwaddr) (text_of i.hwaddr),
          eq_iff (text_of old.hwaddr) (text_of i.hwaddr),
        )
      ]

      still_stored :
          (mac id : String) (i : Instance)
          → find B C t id ≡ some i
          → text_of i.hwaddr ≡ mac
          → (text_of inst.hwaddr == mac) ≡ false
          → owner B C u mac ≡ some id
          → find B C u id ≡ some i
      still_stored mac id i p q n h = ground (
        arith,
        w.owners mac,
        w.instances id,
        eq_iff inst.id id,
        check-address i,
        c.passes id i p,
        eq_refl mac,
        eq_iff mac (text_of inst.hwaddr),
        eq_iff (text_of inst.hwaddr) mac,
      )

      written-owned :
          (mac id : String)
          → owner B C u mac ≡ some id
          → (i : Instance) × (find B C u id ≡ some i) × (text_of i.hwaddr ≡ mac)
      written-owned mac id h = elim (Bool-cases (text_of inst.hwaddr == mac)) [
        | inl e ↦ (
          inst,
          ground (arith, e, w.owners mac, w.instances id, eq_iff inst.id id),
          (eq_iff _ _).0 e,
        )
        | inr n ↦
            let before : owner B C t mac ≡ some id = ground (arith, n, w.owners mac) in
            let (i, p, q) = c.owned mac id before in (i, still_stored mac id i p q n h, q)
      ]

      written-IsConsistent : IsConsistent u
      written-IsConsistent = record {
        same_id = written-same_id;
        passes = written-passes;
        owns = written-owns;
        owned = written-owned;
      }

    module _ (t u : B.Txn) (id : String) (c : IsConsistent t) (r : Removed B C L F t u id) where
      removed-owns :
          (j : String) (i : Instance)
          → find B C u j ≡ some i
          → owner B C u (text_of i.hwaddr) ≡ some j
      removed-owns j i h = ground (
        arith,
        r.instances j,
        r.owners (text_of i.hwaddr),
        c.owns j i,
        r.was_stored,
        c.owns id r.inst,
        eq_iff id j,
        eq_iff (text_of r.inst.hwaddr) (text_of i.hwaddr),
      )

      removed-still :
          (mac j : String) (i : Instance)
          → find B C t j ≡ some i
          → text_of i.hwaddr ≡ mac
          → owner B C u mac ≡ some j
          → find B C u j ≡ some i
      removed-still mac j i p q h = ground (
        arith,
        r.instances j,
        r.owners mac,
        r.was_stored,
        eq_iff id j,
        eq_iff (text_of r.inst.hwaddr) mac,
        check-address i,
        c.passes j i p,
      )

      removed-IsConsistent : IsConsistent u
      removed-IsConsistent = record {
        same_id = λ j i h. ground (arith, r.instances j, c.same_id j i);
        passes = λ j i h. ground (arith, r.instances j, c.passes j i);
        owns = removed-owns;
        owned = λ mac j h.
            let before : owner B C t mac ≡ some j = ground (arith, r.owners mac) in
            let (i, p, q) = c.owned mac j before in (i, removed-still mac j i p q h, q);
      }

    update_outcome-IsConsistent :
        (t : B.Txn) (inst : Instance) (r : B.Txn × Option DbErr)
        → update B C t inst ≡ r
        → IsConsistent t
        → IsConsistent r.0
    update_outcome-IsConsistent t inst (u, none) h c =
        let (passed, w) = update-Written B C L F t u inst h in
        written-IsConsistent t u inst c passed w
    update_outcome-IsConsistent t inst (u, some x) h c =
        subst IsConsistent (sym (update_failed B C L F t u inst x h)) c

    remove_outcome-IsConsistent :
        (t : B.Txn) (id : String) (r : B.Txn × Option DbErr)
        → remove B C t id ≡ r
        → IsConsistent t
        → IsConsistent r.0
    remove_outcome-IsConsistent t id (u, none) h c =
        removed-IsConsistent t u id c (remove-Removed B C L F t u id h)
    remove_outcome-IsConsistent t id (u, some x) h c =
        subst IsConsistent (sym (remove_failed B C L F t u id x h)) c

    -- For a lawful badger and a faithful codec, Update, whether it succeeds or fails, keeps the
    -- database consistent: every stored instance has its own id, passes the checks and owns its
    -- address in the index, and every index entry belongs to a stored instance with that address.
    pub update-IsConsistent :
        (t : B.Txn) (inst : Instance) → IsConsistent t → IsConsistent (update B C t inst).0
    update-IsConsistent t inst = update_outcome-IsConsistent t inst (update B C t inst) refl

    -- For a lawful badger and a faithful codec, Remove, whether it succeeds or fails, keeps the
    -- database consistent in the same sense.
    pub remove-IsConsistent :
        (t : B.Txn) (id : String) → IsConsistent t → IsConsistent (remove B C t id).0
    remove-IsConsistent t id = remove_outcome-IsConsistent t id (remove B C t id) refl

  owner_check_taken :
      (r : Result Fault Bytes) (own id : String)
      → elim r [ ok b ↦ some (C.to_string b) | err _ ↦ none ] ≡ some id
      → id ≢ own
      → owner_check B C own r ≡ err hwaddr_not_unique
  owner_check_taken (ok b) own id taken other = ground (arith, eq_iff (C.to_string b) own)
  owner_check_taken (err _) own id taken other = cc

  -- An Update whose address belongs to another instance fails with `ErrConstraint` and writes
  -- nothing, if the instance passes the checks.
  pub update_taken :
      (t : B.Txn) (inst : Instance) (id : String)
      → check inst ≡ none
      → owner B C t (text_of inst.hwaddr) ≡ some id
      → id ≢ inst.id
      → update B C t inst ≡ (t, some hwaddr_not_unique)
  unfolding update
  update_taken t inst id passed taken other = rw (
    passed,
    owner_check_taken (B.get t (hwaddr_key (text_of inst.hwaddr))) inst.id id taken other,
  )
