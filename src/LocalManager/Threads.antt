-- ===== src/LocalManager/Threads.antt =====
-- local_manager.go as its goroutines run it: no method holds a lock, so that the transactions of one
-- method can stand between those of another. A program is what a goroutine has still to do.
use qcontroller.Base.{
  String, Bool, not, Option, none, some, List, [], ◌∷◌, map, Result, ok, err, if◌then◌else◌, ◌==◌,
  ◌&&◌,
}
use qcontroller.Vm.{
  State, running, starting, stopped, Instance, Hardware, CloudInit, Info, is_stopped, is_running,
  same_state,
}
use qcontroller.Db.{DbErr, no_instance_removed}
use qcontroller.Events.Publisher.{Publisher}
use qcontroller.LocalManager.{
  Call, start_call, stop_call, remove_call, list_call, info_call, StartRequest, Qemu, VmErr,
  already_exists, not_found, not_stopped, mac_generation, rpc, database, Reply, done, failed, panic,
  start_cloud_init, start_request, instance_to_info,
}
use qcontroller.LocalManager.Report.{contains, enrich, running_ids}

-- The next transaction, call or lock, with the rest; `fork` is a `go` statement.
pub data Prog (A : Type 0) : Type 0 where
  ret : A → Prog A
  get : String → (Result DbErr Instance → Prog A) → Prog A
  list : (Result DbErr (List Instance) → Prog A) → Prog A
  update : Instance → (Option DbErr → Prog A) → Prog A
  delete : String → (Option DbErr → Prog A) → Prog A
  tell : Call → Prog A → Prog A
  read_cache : (Publisher → Prog A) → Prog A
  publish : (Publisher → Publisher) → Prog A → Prog A
  fork : Prog A → Prog A → Prog A

abbrev replied : Option String → Reply
replied none = done
replied (some e) = failed (rpc e)

module _ {A : Type 0} where
  -- Create
  unfoldable pub create :
      String
      → Result String String
      → String
      → String
      → Hardware
      → Option CloudInit
      → (Reply → Prog A)
      → Prog A
  create node mac id image_id hardware cloudinit k = get id λ found. elim found [
    | ok _ ↦ k (failed already_exists)
    | err _ ↦ elim mac [
      | err e ↦ k (failed (mac_generation e))
      | ok hwaddr ↦
          update
            (record {
              id = id;
              hardware = some hardware;
              hwaddr = some hwaddr;
              image_id = image_id;
              state = stopped;
              cloudinit = cloudinit;
              node = node;
            })
            λ e. elim e [ none ↦ k done | some x ↦ k (failed (database x)) ]
    ]
  ]

  -- setInstanceState: a transaction that reads and one that writes
  unfoldable pub set_instance_state : String → State → Prog A → Prog A
  set_instance_state id state k = get id λ found. elim found [
    | err _ ↦ k
    | ok inst ↦
        if same_state inst.state state then k else update (record inst { state = state }) (λ _. k)
  ]

  unfoldable pub send_start : Qemu → String → Option StartRequest → (Reply → Prog A) → Prog A
  send_start q id none k = k panic
  send_start q id (some req) k = elim (q.start req) [
    | some e ↦ tell (start_call req) (set_instance_state id stopped (k (failed (rpc e))))
    | none ↦ tell (start_call req) (set_instance_state id running (k done))
  ]

  unfoldable pub dial_start : Qemu → Instance → Option CloudInit → (Reply → Prog A) → Prog A
  dial_start q inst ci k = elim q.dial [
    | some e ↦ set_instance_state inst.id stopped (k (failed (rpc e)))
    | none ↦ send_start q inst.id (start_request inst ci) k
  ]

  unfoldable pub start_found : Qemu → Instance → (Reply → Prog A) → Prog A
  start_found q inst k =
      if not (is_stopped inst.state)
      then k (failed not_stopped)
      else (elim (start_cloud_init inst) [
        | err e ↦ k (failed e)
        | ok ci ↦ set_instance_state inst.id starting (dial_start q inst ci k)
      ])

  -- Start
  unfoldable pub start : Qemu → String → (Reply → Prog A) → Prog A
  start q name k =
      get name λ found. elim found [ err _ ↦ k (failed not_found) | ok inst ↦ start_found q inst k ]

  -- Stop
  unfoldable pub stop : Qemu → String → Bool → (Reply → Prog A) → Prog A
  stop q name force k = elim q.dial [
    | some e ↦ k (failed (rpc e))
    | none ↦ tell (stop_call name force) (k (replied (q.stop name force)))
  ]

  clean_up : Qemu → String → Prog A → Prog A
  clean_up q name k = elim q.dial [ some _ ↦ k | none ↦ tell (remove_call name) k ]

  removed : Qemu → String → (Reply → Prog A) → Option DbErr → Prog A
  unfolding clean_up
  removed q name k none = clean_up q name (k done)
  removed q name k (some no_instance_removed) = k done
  removed q name k (some e) = k (failed (database e))

  -- Remove
  unfoldable pub remove : Qemu → String → (Reply → Prog A) → Prog A
  unfolding removed
  remove q name k = get name λ found. elim found [
    | err _ ↦ k done
    | ok inst ↦
        if not (is_stopped inst.state)
        then k (failed not_stopped)
        else delete name (removed q name k)
  ]

  -- The loop of reconcileInstances.
  unfoldable pub reconcile_each : List String → List Instance → (List Instance → Prog A) → Prog A
  reconcile_each ids [] k = k []
  reconcile_each ids (i ∷ is) k =
      let rest = λ (i' : Instance). reconcile_each ids is (λ is'. k (i' ∷ is')) in
      if contains ids i.id && not (is_running i.state)
      then set_instance_state i.id running (rest (record i { state = running }))
      else if not (contains ids i.id) && is_running i.state
      then set_instance_state i.id stopped (rest (record i { state = stopped }))
      else rest i

  -- reconcileInstances with qemuList
  unfoldable pub reconcile : Qemu → List Instance → (List Instance → Prog A) → Prog A
  reconcile q insts k = elim q.dial [
    | some _ ↦ k insts
    | none ↦ elim q.list [
      | err _ ↦ tell list_call (k insts)
      | ok ids ↦ tell list_call (reconcile_each ids insts k)
    ]
  ]

  -- batchEnrichWithRuntime
  unfoldable pub batch_enrich : Qemu → List Info → List String → (List Info → Prog A) → Prog A
  batch_enrich q infos [] k = k infos
  batch_enrich q infos (x ∷ xs) k = elim q.dial [
    | some _ ↦ k infos
    | none ↦ elim (q.info (x ∷ xs)) [
      | err _ ↦ tell (info_call (x ∷ xs)) (k infos)
      | ok answers ↦ tell (info_call (x ∷ xs)) (k (enrich answers infos))
    ]
  ]

  unfoldable pub report : Qemu → (Result VmErr (List Info) → Prog A) → List Instance → Prog A
  report q k insts =
      batch_enrich q (map instance_to_info insts) (running_ids insts) (λ infos. k (ok infos))

  -- Info
  unfoldable pub info : Qemu → Qemu → String → (Result VmErr (List Info) → Prog A) → Prog A
  info q q' name k =
      if name == ""
      then list (λ found. elim found [
        | err e ↦ k (err (database e))
        | ok insts ↦ reconcile q insts (report q' k)
      ])
      else get name
          (λ found. elim found [ err e ↦ k (err (database e)) | ok inst ↦ report q' k (inst ∷ []) ])
