-- ===== src/LocalManager/Report.antt =====
-- Info of local_manager.go: the stored instances, first reconciled with what QEMU runs.
pub mod Reconcile
use qcontroller.Base.{
  String, Bool, true, false, not, ◌&&◌, Option, none, some, ◌==◌, List, [], ◌∷◌, ◌++◌, map, Result,
  ok, err, if◌then◌else◌, Dict, lookup, insert,
}
use qcontroller.Vm.{State, running, stopped, Instance, RuntimeInfo, Info, Status, is_running}
use qcontroller.Db.{DbErr}
use qcontroller.Controller.{StateOps}
use qcontroller.LocalManager.{
  World, Qemu, list_call, info_call, instance_to_info, set_instance_state, VmErr, database, say,
}

-- The `map[string]bool` of the listed ids.
abbrev pub contains : List String → String → Bool
contains [] id = false
contains (x ∷ xs) id = if x == id then true else contains xs id

abbrev index_runtime : List RuntimeInfo → Dict RuntimeInfo → Dict RuntimeInfo
index_runtime [] d = d
index_runtime (ri ∷ rest) d = index_runtime rest (insert ri.name ri d)

abbrev with_runtime : RuntimeInfo → Option Status → Status
with_runtime ri none = record { state = ""; hwaddr = ""; runtime = some ri }
with_runtime ri (some st) = record st { runtime = some ri }

abbrev enrich_one : Dict RuntimeInfo → Info → Info
enrich_one d info = elim (lookup info.name d) [
  | none ↦ info
  | some ri ↦ record info { status = some (with_runtime ri info.status) }
]

-- The loops of batchEnrichWithRuntime over the answer of QEMU.
unfoldable pub enrich : List RuntimeInfo → List Info → List Info
unfolding lookup insert
enrich answers infos = map (enrich_one (index_runtime answers [])) infos

abbrev pub running_ids : List Instance → List String
running_ids [] = []
running_ids (i ∷ is) = let rest = running_ids is in if is_running i.state then i.id ∷ rest else rest

module _ (S : StateOps) where
  abbrev pub reconcile_one : List String → Instance → S.Store → S.Store × Instance
  reconcile_one ids i s =
      if contains ids i.id && not (is_running i.state)
      then (set_instance_state S i.id running s, record i { state = running })
      else if not (contains ids i.id) && is_running i.state
      then (set_instance_state S i.id stopped s, record i { state = stopped })
      else (s, i)

  -- The loop of reconcileInstances.
  unfoldable pub reconcile_each : List String → List Instance → S.Store → S.Store × List Instance
  reconcile_each ids [] s = (s, [])
  reconcile_each ids (i ∷ is) s =
      let (s₁, i') = reconcile_one ids i s in
      let (s₂, is') = reconcile_each ids is s₁ in (s₂, i' ∷ is')

  -- reconcileInstances with qemuList; a failed call leaves everything as it is
  unfoldable pub reconcile : Qemu → List Instance → World S → World S × List Instance
  unfolding reconcile_each
  reconcile q insts w = elim q.dial [
    | some _ ↦ (w, insts)
    | none ↦ elim q.list [
      | err _ ↦ (say S list_call w, insts)
      | ok ids ↦
          let (s, insts') = reconcile_each ids insts w.store in
          (record (say S list_call w) { store = s }, insts')
    ]
  ]

  -- batchEnrichWithRuntime
  unfoldable pub batch_enrich : Qemu → List Info → List String → World S → World S × List Info
  unfolding enrich
  batch_enrich q infos [] w = (w, infos)
  batch_enrich q infos ids w = elim q.dial [
    | some _ ↦ (w, infos)
    | none ↦ elim (q.info ids) [
      | err _ ↦ (say S (info_call ids) w, infos)
      | ok answers ↦ (say S (info_call ids) w, enrich answers infos)
    ]
  ]

  -- The part of Info behind the choice of the instances.
  unfoldable pub report : Qemu → World S × List Instance → World S × Result VmErr (List Info)
  report q (w, insts) =
      let (w', infos) = batch_enrich q (map instance_to_info insts) (running_ids insts) w in
      (w', ok infos)

  -- Info; `q` answers `List` and `q'` the later `Info`, on a connection of its own.
  unfoldable pub info : Qemu → Qemu → String → World S → World S × Result VmErr (List Info)
  unfolding report reconcile batch_enrich
  info q q' name w =
      if name == ""
      then (elim (S.list w.store) [
        | err e ↦ (w, err (database e))
        | ok insts ↦ report q' (reconcile q insts w)
      ])
      else (elim (S.get w.store name) [
        | err e ↦ (w, err (database e))
        | ok inst ↦ report q' (w, inst ∷ [])
      ])
