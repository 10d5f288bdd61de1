-- ===== src/LocalManager/Remove.antt =====
-- Create and Remove of local_manager.go on every branch.
use qcontroller.Base.{
  String, ◌≡◌, ◌≢◌, inl, inr, arith, Option, none, some, ◌==◌, eq_iff, if◌then◌else◌, Option-cases,
  ok, err, Result,
}
use qcontroller.Vm.{Instance, Hardware, CloudInit, stopped}
use qcontroller.Db.{no_instance_removed}
use qcontroller.Controller.{StateOps, stored, IsState}
use qcontroller.LocalManager.{World, Qemu, done, create, remove}

module _ (S : StateOps) (I : IsState S) where
  -- Over a store that meets the interface, after a Create that returns nil the instance is stored,
  -- stopped, with what was asked for, no instance was stored under its id before, and no other
  -- instance has changed.
  pub create_stores :
      (node mac id image_id : String) (h : Hardware) (ci : Option CloudInit) (w : World S)
      (j : String)
      → (create S node (ok mac) id image_id h ci w).1 ≡ done
      → (stored S w.store id ≡ none)
        × (stored S (create S node (ok mac) id image_id h ci w).0.store j ≡ (
            if id == j
            then some (record {
              id = id;
              hardware = some h;
              hwaddr = some mac;
              image_id = image_id;
              state = stopped;
              cloudinit = ci;
              node = node;
            })
            else stored S w.store j))
  unfolding create
  create_stores node mac id image_id h ci w j d =
      let new : Instance = record {
        id = id;
        hardware = some h;
        hwaddr = some mac;
        image_id = image_id;
        state = stopped;
        cloudinit = ci;
        node = node;
      } in
      (ground arith, ground (arith, I.update_writes w.store new j))

  -- Over a store that meets the interface, a Create that does not return nil changes no stored
  -- instance.
  pub create_failed :
      (node id image_id : String) (mac : Result String String) (h : Hardware)
      (ci : Option CloudInit) (w : World S) (j : String)
      → (create S node mac id image_id h ci w).1 ≢ done
      → stored S (create S node mac id image_id h ci w).0.store j ≡ stored S w.store j
  unfolding create
  create_failed node id image_id (err e) h ci w j n = ground arith
  create_failed node id image_id (ok mac) h ci w j n =
      let new : Instance = record {
        id = id;
        hardware = some h;
        hwaddr = some mac;
        image_id = image_id;
        state = stopped;
        cloudinit = ci;
        node = node;
      } in
      elim (Option-cases (S.update w.store new).1) [
        | inl e ↦ ground (arith, e)
        | inr (x, e) ↦ ground (arith, e, I.update_fails w.store new x j)
      ]

  -- Over a store that meets the interface, after a Remove that returns nil, where the database did
  -- not answer that it removed nothing, the instance is gone and no other has changed.
  pub remove_gone :
      (q : Qemu) (id j : String) (w : World S)
      → (remove S q id w).1 ≡ done
      → (S.remove w.store id).1 ≢ some no_instance_removed
      → stored S (remove S q id w).0.store j ≡ (if id == j then none else stored S w.store j)
  unfolding remove
  remove_gone q id j w d n = elim (Option-cases (stored S w.store id)) [
    | inl e ↦ ground (arith, e, eq_iff id j)
    | inr (i, e) ↦ elim (Option-cases (S.remove w.store id).1) [
      | inl f ↦ ground (arith, e, f, I.remove_deletes w.store id j)
      | inr (x, f) ↦ ground (arith, e, f)
    ]
  ]
