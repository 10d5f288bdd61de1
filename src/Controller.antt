-- ===== src/Controller.antt =====
-- src/pkg/controller/state.go: the interface `State` between the VM managers and the database,
-- and what its clients rely on. `Controller.Database` fills it by persistence.go.
pub mod Database
use qcontroller.Base.{String, ◌≡◌, Option, none, some, ◌==◌, List, Result, if◌then◌else◌}
use qcontroller.Vm.{Instance}
use qcontroller.Db.{DbErr, check}
use qcontroller.Db.View.{answer}

pub record StateOps : Type 1 where
  pub Store : Type 0
  pub update : Store → Instance → Store × Option DbErr
  pub get : Store → String → Result DbErr Instance
  pub list : Store → Result DbErr (List Instance)
  pub remove : Store → String → Store × Option DbErr

-- The instance that `Get` returns, if it returns one.
abbrev pub stored : (S : StateOps) → S.Store → String → Option Instance
stored S s id = answer (S.get s id)

pub record IsState (S : StateOps) : Type 0 where
  pub same_id : (s : S.Store) (id : String) (i : Instance) → stored S s id ≡ some i → i.id ≡ id
  pub passes : (s : S.Store) (id : String) (i : Instance) → stored S s id ≡ some i → check i ≡ none
  pub update_writes :
      (s : S.Store) (i : Instance) (j : String)
      → (S.update s i).1 ≡ none
      → stored S (S.update s i).0 j ≡ (if i.id == j then some i else stored S s j)
  pub update_fails :
      (s : S.Store) (i : Instance) (e : DbErr) (j : String)
      → (S.update s i).1 ≡ some e
      → stored S (S.update s i).0 j ≡ stored S s j
  pub remove_deletes :
      (s : S.Store) (id j : String)
      → (S.remove s id).1 ≡ none
      → stored S (S.remove s id).0 j ≡ (if id == j then none else stored S s j)
  pub remove_fails :
      (s : S.Store) (id : String) (e : DbErr) (j : String)
      → (S.remove s id).1 ≡ some e
      → stored S (S.remove s id).0 j ≡ stored S s j
