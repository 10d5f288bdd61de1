-- ===== src/ControllerService/Alone.antt =====
-- A goroutine that no other interrupts does what the methods of LocalManager and Manager do at once.
use qcontroller.Base.{
  String, Bool, ◌≡◌, refl, arith, Option, none, some, List, [], ◌∷◌, ◌++◌, map, Result, ok,
  Bool-cases, Option-cases, Result-cases, ◌∙◌, ◌==◌, inl, inr,
}
use qcontroller.Vm.{
  State, stopped, running, starting, is_running, Instance, Info, Hardware, CloudInit,
}
use qcontroller.Controller.{StateOps}
use qcontroller.LocalManager
use qcontroller.LocalManager.{
  World, Qemu, StartRequest, start_request, start_call, list_call, instance_to_info, rpc,
  start_cloud_init, VmErr, Reply, done, failed, panic,
}
use qcontroller.LocalManager.Report
use qcontroller.LocalManager.Report.{contains, running_ids}
use qcontroller.LocalManager.Threads
use qcontroller.LocalManager.Threads.{Prog}
use qcontroller.Manager.{Node}
use qcontroller.ControllerService.{run}

module _ (S : StateOps) (equal : Info → Info → Bool) where
  abbrev store_state : String → State → World S → World S
  store_state id st w = record w { store = LocalManager.set_instance_state S id st w.store }

  abbrev pub on : Node S equal → World S → Node S equal
  on n w = record n { world = w }

  abbrev told : LocalManager.Call → Node S equal → Node S equal
  told call n = on n (record n.world { calls = n.world.calls ++ call ∷ [] })

module _ (S : StateOps) (equal : Info → Info → Bool) {A : Type 0} where
  -- Going on behind an operation of LocalManager.
  abbrev pub after :
      {R : Type 0} → (R → Prog A) → Node S equal → World S × R → Node S equal × A × List (Prog A)
  after k n (w, r) = run S equal (k r) (on S equal n w)

  run-set_instance_state :
      (id : String) (st : State) (k : Prog A) (n : Node S equal)
      → run S equal (Threads.set_instance_state id st k) n
        ≡ run S equal k (
            on S equal n
              (record n.world { store = LocalManager.set_instance_state S id st n.world.store }))
  unfolding run Threads.set_instance_state LocalManager.set_instance_state
  run-set_instance_state id st k n = ground arith

  pub run-create :
      (node : String) (mac : Result String String) (id image : String) (h : Hardware)
      (ci : Option CloudInit) (k : Reply → Prog A) (n : Node S equal)
      → run S equal (Threads.create node mac id image h ci k) n
        ≡ after k n (LocalManager.create S node mac id image h ci n.world)
  unfolding run Threads.create LocalManager.create
  run-create node mac id image h ci k n = ground arith

  pub run-stop :
      (q : Qemu) (id : String) (force : Bool) (k : Reply → Prog A) (n : Node S equal)
      → run S equal (Threads.stop q id force k) n
        ≡ after k n (LocalManager.stop S q id force n.world)
  unfolding run Threads.stop LocalManager.stop
  run-stop q id force k n = ground arith

  pub run-remove :
      (q : Qemu) (id : String) (k : Reply → Prog A) (n : Node S equal)
      → run S equal (Threads.remove q id k) n ≡ after k n (LocalManager.remove S q id n.world)
  unfolding run Threads.remove LocalManager.remove
  run-remove q id k n = ground arith

  run-send_start :
      (q : Qemu) (id : String) (r : Option StartRequest) (k : Reply → Prog A) (n : Node S equal)
      → run S equal (Threads.send_start q id r k) n
        ≡ after k n (LocalManager.send_start S q id r n.world)
  unfolding run Threads.send_start
  run-send_start q id none k n = refl
  run-send_start q id (some r) k n = elim (Option-cases (q.start r)) [
    | inl e ↦
        ground
          (arith, e, run-set_instance_state id running (k done) (told S equal (start_call r) n))
    | inr (x, e) ↦ ground (
      arith,
      e,
      run-set_instance_state id stopped (k (failed (rpc x))) (told S equal (start_call r) n),
    )
  ]

  run-dial_start :
      (q : Qemu) (i : Instance) (ci : Option CloudInit) (k : Reply → Prog A) (n : Node S equal)
      → run S equal (Threads.dial_start q i ci k) n
        ≡ after k n (LocalManager.dial_start S q i ci n.world)
  unfolding run Threads.dial_start
  run-dial_start q i ci k n = elim (Option-cases q.dial) [
    | inl e ↦ ground (arith, e, run-send_start q i.id (start_request i ci) k n)
    | inr (x, e) ↦ ground (arith, e, run-set_instance_state i.id stopped (k (failed (rpc x))) n)
  ]

  run-start_found :
      (q : Qemu) (i : Instance) (k : Reply → Prog A) (n : Node S equal)
      → run S equal (Threads.start_found q i k) n
        ≡ after k n (LocalManager.start_found S q i n.world)
  unfolding run Threads.start_found LocalManager.start_found
  run-start_found q i k n = elim (Result-cases (start_cloud_init i)) [
    | inl (x, e) ↦ ground (arith, e)
    | inr (ci, e) ↦ ground (
      arith,
      e,
      run-set_instance_state i.id starting (Threads.dial_start q i ci k) n,
      run-dial_start q i ci k (on S equal n (store_state S equal i.id starting n.world)),
    )
  ]

  pub run-start :
      (q : Qemu) (id : String) (k : Reply → Prog A) (n : Node S equal)
      → run S equal (Threads.start q id k) n ≡ after k n (LocalManager.start S q id n.world)
  unfolding run Threads.start LocalManager.start
  run-start q id k n = elim (Result-cases (S.get n.world.store id)) [
    | inl (x, e) ↦ ground (arith, e)
    | inr (i, e) ↦ ground (arith, e, run-start_found q i k n)
  ]

  run-reconcile_each :
      (ids : List String) (is : List Instance) (k : List Instance → Prog A) (n : Node S equal)
      → run S equal (Threads.reconcile_each ids is k) n
        ≡ run S equal (k (Report.reconcile_each S ids is n.world.store).1) (
            on S equal n
              (record n.world { store = (Report.reconcile_each S ids is n.world.store).0 }))
  unfolding run Threads.reconcile_each Report.reconcile_each
  run-reconcile_each ids [] k n = refl
  run-reconcile_each ids (i ∷ is) k n = elim (Bool-cases (contains ids i.id)) [
    | inl listed ↦ elim (Bool-cases (is_running i.state)) [
      | inl up ↦ rw (listed, up) (run-reconcile_each ids is (λ is'. k (i ∷ is')) n)
      | inr down ↦
          rw (listed, down)
            (run-set_instance_state i.id running _ n
              ∙ run-reconcile_each ids is (λ is'. k (record i { state = running } ∷ is'))
                  (on S equal n (store_state S equal i.id running n.world)))
    ]
    | inr missing ↦ elim (Bool-cases (is_running i.state)) [
      | inl up ↦
          rw (missing, up)
            (run-set_instance_state i.id stopped _ n
              ∙ run-reconcile_each ids is (λ is'. k (record i { state = stopped } ∷ is'))
                  (on S equal n (store_state S equal i.id stopped n.world)))
      | inr down ↦ rw (missing, down) (run-reconcile_each ids is (λ is'. k (i ∷ is')) n)
    ]
  ]

  run-batch_enrich :
      (q : Qemu) (infos : List Info) (ids : List String) (k : List Info → Prog A) (n : Node S equal)
      → run S equal (Threads.batch_enrich q infos ids k) n
        ≡ after k n (Report.batch_enrich S q infos ids n.world)
  unfolding run Threads.batch_enrich Report.batch_enrich
  run-batch_enrich q infos [] k n = refl
  run-batch_enrich q infos (x ∷ xs) k n = ground arith

  run-report :
      (q : Qemu) (k : Result VmErr (List Info) → Prog A) (insts : List Instance) (n : Node S equal)
      → run S equal (Threads.report q k insts) n ≡ after k n (Report.report S q (n.world, insts))
  unfolding Threads.report Report.report
  run-report q k insts n =
      run-batch_enrich q (map instance_to_info insts) (running_ids insts) (λ infos. k (ok infos)) n

  run-reconcile :
      (q : Qemu) (insts : List Instance) (k : List Instance → Prog A) (n : Node S equal)
      → run S equal (Threads.reconcile q insts k) n ≡ after k n (Report.reconcile S q insts n.world)
  unfolding run Threads.reconcile Report.reconcile
  run-reconcile q insts k n = elim (Option-cases q.dial) [
    | inr (x, e) ↦ ground (arith, e)
    | inl e ↦ elim (Result-cases q.list) [
      | inl (x, f) ↦ ground (arith, e, f)
      | inr (ids, f) ↦
          ground (arith, e, f, run-reconcile_each ids insts k (told S equal list_call n))
    ]
  ]

  pub run-info :
      (q q' : Qemu) (name : String) (k : Result VmErr (List Info) → Prog A) (n : Node S equal)
      → run S equal (Threads.info q q' name k) n ≡ after k n (Report.info S q q' name n.world)
  unfolding run Threads.info Report.info
  run-info q q' name k n = elim (Bool-cases (name == "")) [
    | inl all ↦ elim (Result-cases (S.list n.world.store)) [
      | inl (x, e) ↦ ground (arith, all, e)
      | inr (is, e) ↦ ground (
        arith,
        all,
        e,
        run-reconcile q is (Threads.report q' k) n,
        run-report q' k (Report.reconcile S q is n.world).1
            (on S equal n (Report.reconcile S q is n.world).0),
      )
    ]
    | inr one ↦ elim (Result-cases (S.get n.world.store name)) [
      | inl (x, e) ↦ ground (arith, one, e)
      | inr (i, e) ↦ ground (arith, one, e, run-report q' k (i ∷ []) n)
    ]
  ]
