-- ===== src/Db.antt =====
-- src/pkg/controller/db/persistence.go: Get, Update and Remove of `databaseImpl`. Instances stand
-- under `instance:<id>`, and `hwaddr:<mac>` is the index of their hardware addresses. The
-- database is the parameter `B`, and encoding/json on an instance is `C`.
pub mod Keys
pub mod View
pub mod Invariant
use qcontroller.Base.{String, Bool, true, false, ◌||◌, ◌==◌, Option, none, some, if◌then◌else◌}
use qcontroller.Base.{Result, ok, err, ◌>>=◌, ◌>>◌, eqb, is_empty, List, [], ◌∷◌}
use qcontroller.Badger.{Fault, key_not_found, io, Badger, Codec}
use qcontroller.Vm.{Instance, Hardware, State, is_stopped}
use qcontroller.Db.Keys.{instance_key, hwaddr_key}

-- The first three wrap `ErrConstraint`.
pub data DbErr : Type 0 where
  required_field_missing not_positive hwaddr_not_unique : DbErr
  no_instance_removed : DbErr
  malformed : DbErr
  badger : Fault → DbErr

abbrev pub lift {ℓ} : {A : Type ℓ} → Result Fault A → Result DbErr A
lift (ok a) = ok a
lift (err f) = err (badger f)

abbrev pub decoded {ℓ} : {A : Type ℓ} → Option A → Result DbErr A
decoded none = err malformed
decoded (some a) = ok a

abbrev hardware_missing : Option Hardware → Bool
hardware_missing none = true
hardware_missing (some h) = false

abbrev hardware_zero : Option Hardware → Bool
hardware_zero none = false
hardware_zero (some h) = eqb h.memory 0 || eqb h.disk 0 || eqb h.cpus 0

abbrev pub text_of : Option String → String
text_of none = ""
text_of (some s) = s

-- The NOT NULL and CHECK constraints at the head of `Update`.
unfoldable pub check : Instance → Option DbErr
check inst =
    if is_empty inst.id
      || is_empty inst.image_id
      || hardware_missing inst.hardware
      || is_empty (text_of inst.hwaddr)
    then some required_field_missing
    else if hardware_zero inst.hardware
    then some not_positive
    else none

module _ {Bytes : Type 0} (B : Badger Bytes) (C : Codec Bytes Instance) where
  -- Get
  unfoldable pub get : B.Txn → String → Result DbErr Instance
  get t name = do val ← lift (B.get t (instance_key name)); decoded (C.unmarshal val)

  collect : List (Result Fault Bytes) → Result DbErr (List Instance)
  collect [] = ok []
  collect (r ∷ rest) = do
    val ← lift r
    inst ← decoded (C.unmarshal val)
    insts ← collect rest
    ok (inst ∷ insts)

  -- List
  unfoldable pub list : B.Txn → Result DbErr (List Instance)
  unfolding collect
  list t = collect (B.iterate t "instance:")

  abbrev owner_check : String → Result Fault Bytes → Result DbErr (Unit {0})
  owner_check id (ok val) = if C.to_string val == id then ok tt else err hwaddr_not_unique
  owner_check id (err key_not_found) = ok tt
  owner_check id (err (io e)) = err (badger (io e))

  -- `err != nil && !errors.Is(err, ErrKeyNotFound)` after a delete
  abbrev tolerate : B.Txn → Result Fault B.Txn → Result DbErr B.Txn
  tolerate t (ok u) = ok u
  tolerate t (err key_not_found) = ok t
  tolerate t (err (io e)) = err (badger (io e))

  abbrev drop_index : B.Txn → String → Option String → Result DbErr B.Txn
  drop_index t mac none = ok t
  drop_index t mac (some old) =
      if is_empty old || old == mac then ok t else tolerate t (B.delete t (hwaddr_key old))

  -- Removes the index entry of the address that the stored instance had, if it changes.
  drop_old : B.Txn → String → Result Fault Bytes → Result DbErr B.Txn
  drop_old t mac (ok val) = do old ← decoded (C.unmarshal val); drop_index t mac old.hwaddr
  drop_old t mac (err key_not_found) = ok t
  drop_old t mac (err (io e)) = err (badger (io e))

  -- The function that `Update` hands to `db.Update`; `mac` is the address, which `check` found.
  update_txn : B.Txn → Instance → String → Result DbErr B.Txn
  unfolding drop_old
  update_txn t inst mac = do
    owner_check inst.id (B.get t (hwaddr_key mac))
    t₁ ← drop_old t mac (B.get t (instance_key inst.id))
    val ← decoded (C.marshal inst)
    t₂ ← lift (B.set t₁ (instance_key inst.id) val)
    lift (B.set t₂ (hwaddr_key mac) (C.of_string inst.id))

  -- `db.Update`: nothing is written if the function or the commit fails.
  abbrev commit : B.Txn → Result DbErr B.Txn → B.Txn × Option DbErr
  commit t (err e) = (t, some e)
  commit t (ok u) = elim (B.commit u) [ none ↦ (u, none) | some f ↦ (t, some (badger f)) ]

  abbrev checked : B.Txn → Instance → Option DbErr → B.Txn × Option DbErr
  checked t inst (some e) = (t, some e)
  checked t inst none = commit t (update_txn t inst (text_of inst.hwaddr))

  -- Update; on success it returns its argument, so only the error is kept.
  unfoldable pub update : B.Txn → Instance → B.Txn × Option DbErr
  unfolding update_txn
  update t inst = checked t inst (check inst)

  abbrev drop_address : B.Txn → Option String → Result DbErr B.Txn
  drop_address t none = ok t
  drop_address t (some mac) =
      if is_empty mac then ok t else tolerate t (B.delete t (hwaddr_key mac))

  remove_txn : B.Txn → String → Result DbErr B.Txn
  remove_txn t id = do
    val ← lift (B.get t (instance_key id))
    inst ← decoded (C.unmarshal val)
    if is_stopped inst.state
        then (do t₁ ← drop_address t inst.hwaddr; lift (B.delete t₁ (instance_key id)))
        else err no_instance_removed

  abbrev as_not_removed : Option DbErr → Option DbErr
  as_not_removed (some (badger key_not_found)) = some no_instance_removed
  as_not_removed e = e

  -- Remove
  unfoldable pub remove : B.Txn → String → B.Txn × Option DbErr
  unfolding remove_txn
  remove t id = let (u, e) = commit t (remove_txn t id) in (u, as_not_removed e)
