-- ===== src/ControllerService/Atomic.antt =====
-- The handlers of controller.go, the goroutine of Start and the polling against the methods of Manager
-- as one step each.
use qcontroller.Base.{
  ℕ, String, ◌<>◌, Bool, true, false, ◌≡◌, refl, Option, none, some, List, [], ◌∷◌, Result, ok, err,
  if◌then◌else◌, Bool-cases, inl, inr, ◌∙◌,
}
use qcontroller.Vm.{Info, Spec, Hardware}
use qcontroller.Controller.{StateOps}
use qcontroller.LocalManager
use qcontroller.LocalManager.{World, VmErr, Reply, done, failed, panic}
use qcontroller.LocalManager.Report
use qcontroller.LocalManager.Threads.{Prog, ret}
use qcontroller.Events.Publisher.{get_all}
use qcontroller.Manager
use qcontroller.Manager.{Node, created_info}
use qcontroller.ControllerService.{
  Request, start_request, create_request, stop_request, remove_request, info_request, Answer, empty,
  listed, status, internal, unknown, crashed, Env, Setup, start_goroutine, handle, poll, run,
  remove_missing, update_all, polled, started, created, stopped_answer, info_answer,
  announce_removed, announce_created,
}
use qcontroller.ControllerService.Alone.{
  run-create, run-start, run-stop, run-remove, run-info, after,
}

-- What a goroutine of the controller is for.
pub data Job : Type 0 where
  serve : Request → Job
  start_async : String → Job
  poll_node : Job

-- Its program.
pub program : Setup → Env → Env → Job → Prog Answer
program c v v' (serve r) = handle c v v' r
program c v v' (start_async id) = start_goroutine c v id
program c v v' poll_node = poll c v

module _ (c : Setup) (S : StateOps) where
  abbrev pub Outcome : Type 0
  Outcome = Node S c.equal × Answer × List (Prog Answer)

  after_create : Env → String → Bool → Node S c.equal × Reply → Outcome
  after_create v' id start (n, failed e) =
      (n, status internal ("method Launch failed: " <> c.text e), [])
  after_create v' id start (n, panic) = (n, crashed, [])
  after_create v' id start (n, done) =
      if start then (n, empty, start_goroutine c v' id ∷ []) else (n, empty, [])

  after_call : String → Node S c.equal × Reply → Outcome
  after_call message (n, done) = (n, empty, [])
  after_call message (n, failed e) = (n, status unknown message, [])
  after_call message (n, panic) = (n, crashed, [])

  after_start : Node S c.equal × Reply → Outcome
  after_start (n, done) = (n, empty, [])
  after_start (n, failed e) = (n, empty, [])
  after_start (n, panic) = (n, crashed, [])

  after_info : Node S c.equal → World S × Result VmErr (List Info) → Outcome
  after_info n (w, ok is) = (record n { world = w }, listed is, [])
  after_info n (w, err e) = (record n { world = w }, status internal "failed to retrieve info", [])

  -- The same job where each method of Manager is one step.
  pub at_once : Env → Env → Job → Node S c.equal → Outcome
  unfolding after_create after_call after_start after_info
  at_once v v' (serve (start_request id)) n = (n, empty, start_goroutine c v' id ∷ [])
  at_once v v' (serve (create_request id none start)) n = (n, crashed, [])
  at_once v v' (serve (create_request id (some spec) start)) n = elim spec.vm [
    | none ↦ (n, crashed, [])
    | some h ↦
        after_create v' id start
          (Manager.create S c.equal v.now c.name v.mac id spec.image h spec.cloud_init n)
  ]
  at_once v v' (serve (stop_request id force)) n =
      after_call "failed to stop a VM instance" (Manager.stop S c.equal v.qemu id force n)
  at_once v v' (serve (remove_request id)) n =
      after_call "failed to remove a VM instance" (Manager.remove S c.equal v.now v.qemu id n)
  at_once v v' (serve (info_request id)) n = after_info n (Report.info S v.qemu v.qemu' id n.world)
  at_once v v' (start_async id) n =
      after_start (Manager.start_async S c.equal v.now c.text v.qemu id n)
  at_once v v' poll_node n = (Manager.poll_node S c.equal v.order v.now v.qemu v.qemu' n, empty, [])

  run-remove_missing :
      (now : ℕ) (is cached : List Info) (k : Prog Answer) (n : Node S c.equal)
      → run S c.equal (remove_missing c now is cached k) n
        ≡ run S c.equal k (record n { events = Manager.remove_missing now is cached n.events })
  unfolding run remove_missing Manager.remove_missing
  run-remove_missing now is [] k n = refl
  run-remove_missing now is (i ∷ cached) k n = elim (Bool-cases (Manager.reports is i.name)) [
    | inl there ↦ rw there (run-remove_missing now is cached k n)
    | inr gone ↦ rw gone (run-remove_missing now is cached k _)
  ]

  run-update_all :
      (now : ℕ) (is : List Info) (k : Prog Answer) (n : Node S c.equal)
      → run S c.equal (update_all c now is k) n
        ≡ run S c.equal k (record n { events = Manager.update_all c.equal now is n.events })
  unfolding run update_all Manager.update_all
  run-update_all now [] k n = refl
  run-update_all now (i ∷ is) k n = run-update_all now is k _

  run-polled :
      (v : Env) (w : World S × Result VmErr (List Info)) (n : Node S c.equal)
      → run S c.equal (polled c v w.1) (record n { world = w.0 }) ≡ (
        record { world = w.0; events = Manager.poll c.equal v.order v.now w.1 n.events },
        empty,
        [],
      )
  unfolding run polled Manager.poll
  run-polled v (w, err e) n = refl
  run-polled v (w, ok is) n =
      run-remove_missing v.now is (get_all v.order n.events) _ (record n { world = w })
      ∙ run-update_all v.now is (ret empty) (record {
        world = w;
        events = Manager.remove_missing v.now is (get_all v.order n.events) n.events;
      })

  run-created :
      (v v' : Env) (i : Info) (id : String) (start : Bool) (w : World S × Reply)
      (n : Node S c.equal)
      → after S c.equal (announce_created c v i (created c v' id start)) n w
        ≡ after_create v' id start (Manager.announce_created S c.equal v.now i n.events w)
  unfolding run announce_created created after_create
  run-created v v' i id true (w, done) n = refl
  run-created v v' i id false (w, done) n = refl
  run-created v v' i id start (w, failed e) n = refl
  run-created v v' i id start (w, panic) n = refl

  run-removed :
      (v : Env) (id : String) (w : World S × Reply) (n : Node S c.equal)
      → after S c.equal (announce_removed c v id) n w
        ≡ after_call "failed to remove a VM instance"
            (Manager.announce_removed S c.equal v.now id n.events w)
  unfolding run announce_removed after_call
  run-removed v id (w, done) n = refl
  run-removed v id (w, failed e) n = refl
  run-removed v id (w, panic) n = refl

  run-started :
      (v : Env) (id : String) (w : World S × Reply) (n : Node S c.equal)
      → after S c.equal (started c v id) n w
        ≡ after_start (Manager.announce_failure S c.equal v.now c.text id n.events w)
  unfolding run started after_start
  run-started v id (w, done) n = refl
  run-started v id (w, failed e) n = refl
  run-started v id (w, panic) n = refl

  run-stopped :
      (w : World S × Reply) (n : Node S c.equal)
      → after S c.equal (stopped_answer c) n w
        ≡ after_call "failed to stop a VM instance" (record n { world = w.0 }, w.1)
  unfolding run stopped_answer after_call
  run-stopped (w, done) n = refl
  run-stopped (w, failed e) n = refl
  run-stopped (w, panic) n = refl

  run-listed :
      (w : World S × Result VmErr (List Info)) (n : Node S c.equal)
      → after S c.equal (info_answer c) n w ≡ after_info n w
  unfolding run info_answer after_info
  run-listed (w, ok is) n = refl
  run-listed (w, err e) n = refl

  run-create_request :
      (v v' : Env) (id : String) (spec : Spec) (start : Bool) (o : Option Hardware)
      (n : Node S c.equal)
      → run S c.equal
          (program c v v' (serve (create_request id (some (record spec { vm = o })) start)))
          n
        ≡ at_once v v' (serve (create_request id (some (record spec { vm = o })) start)) n
  unfolding program at_once handle run Manager.create
  run-create_request v v' id spec start none n = refl
  run-create_request v v' id spec start (some h) n =
      run-create S c.equal c.name v.mac id spec.image h spec.cloud_init _ n
      ∙ run-created v v' (created_info id spec.image h) id start
          (LocalManager.create S c.name v.mac id spec.image h spec.cloud_init n.world) n

  -- A goroutine of the controller whose steps no other interrupts does what the methods of the
  -- managers do at once, and answers what the handler of controller.go makes of their results.
  run-at_once :
      (v v' : Env) (j : Job) (n : Node S c.equal)
      → run S c.equal (program c v v' j) n ≡ at_once v v' j n
  unfolding program at_once
  run-at_once v v' (serve (start_request id)) n = unfold handle run in refl
  run-at_once v v' (serve (create_request id none start)) n = unfold handle run in refl
  run-at_once v v' (serve (create_request id (some spec) start)) n =
      run-create_request v v' id spec start spec.vm n
  run-at_once v v' (serve (stop_request id force)) n =
      unfold handle Manager.stop in
      (run-stop S c.equal v.qemu id force (stopped_answer c) n
        ∙ run-stopped (LocalManager.stop S v.qemu id force n.world) n)
  run-at_once v v' (serve (remove_request id)) n =
      unfold handle Manager.remove in
      (run-remove S c.equal v.qemu id (announce_removed c v id) n
        ∙ run-removed v id (LocalManager.remove S v.qemu id n.world) n)
  run-at_once v v' (serve (info_request id)) n =
      unfold handle in
      (run-info S c.equal v.qemu v.qemu' id (info_answer c) n
        ∙ run-listed (Report.info S v.qemu v.qemu' id n.world) n)
  run-at_once v v' (start_async id) n =
      unfold start_goroutine Manager.start_async in
      (run-start S c.equal v.qemu id (started c v id) n
        ∙ run-started v id (LocalManager.start S v.qemu id n.world) n)
  run-at_once v v' poll_node n =
      unfold poll Manager.poll_node in
      (run-info S c.equal v.qemu v.qemu' "" (polled c v) n
        ∙ run-polled v (Report.info S v.qemu v.qemu' "" n.world) n)
