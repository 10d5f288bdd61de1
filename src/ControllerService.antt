-- ===== src/ControllerService.antt =====
-- src/pkg/protos/controller.go over manager.go: the controller of a node as the goroutines that its
-- requests start. Each goroutine is a program of transactions, calls and locks, and a schedule says
-- whose turn it is.
pub mod Alone
pub mod Atomic
pub mod Runs
pub mod Races
use qcontroller.Base.{
  ℕ, zero, suc, String, ◌<>◌, Bool, Option, none, some, List, [], ◌∷◌, ◌++◌, map, Result, ok, err,
  if◌then◌else◌, Dict,
}
use qcontroller.Vm.{Info, Spec, Hardware, CloudInit}
use qcontroller.Controller.{StateOps}
use qcontroller.LocalManager.{World, Qemu, VmErr, Reply, done, failed, panic}
use qcontroller.LocalManager.Threads
use qcontroller.LocalManager.Threads.{
  Prog, ret, get, list, update, delete, tell, read_cache, publish, fork,
}
use qcontroller.Events.Publisher.{Publisher, vm_updated, vm_removed, get_all, publish_error}
use qcontroller.Manager.{Node, created_info, reports}

-- The messages of services.controller.v1; `spec` may be nil.
pub data Request : Type 0 where
  start_request : String → Request
  create_request : String → Option Spec → Bool → Request
  stop_request : String → Bool → Request
  remove_request : String → Request
  info_request : String → Request

pub data Code : Type 0 where
  internal unknown : Code

-- A response, a gRPC status, or a nil dereference.
pub data Answer : Type 0 where
  empty : Answer
  listed : List Info → Answer
  status : Code → String → Answer
  crashed : Answer

-- What the outside gives one goroutine: the time, the address that GenerateRandomMAC makes, the
-- answers of the QEMU service (of its later connection in Info: `qemu'`), and Go's order of
-- iteration over a map.
pub record Env : Type 0 where
  pub now : ℕ
  pub mac : Result String String
  pub qemu : Qemu
  pub qemu' : Qemu
  pub order : Dict Info → List Info

-- The name of the node, `proto.Equal`, and the text of an error.
pub record Setup : Type 0 where
  pub name : String
  pub equal : Info → Info → Bool
  pub text : VmErr → String

module _ (c : Setup) where
  -- Create of Manager: an error of publishing is dropped
  announce_created : Env → Info → (Reply → Prog Answer) → Reply → Prog Answer
  announce_created v i k done = publish (λ p. (vm_updated c.equal v.now i p).0) (k done)
  announce_created v i k (failed e) = k (failed e)
  announce_created v i k panic = k panic

  -- The goroutine of Manager.Start.
  started : Env → String → Reply → Prog Answer
  started v id done = ret empty
  started v id panic = ret crashed
  started v id (failed e) =
      publish (λ p. (publish_error v.now ("failed to start: " <> c.text e) id p).0) (ret empty)

  unfoldable pub start_goroutine : Env → String → Prog Answer
  unfolding started
  start_goroutine v id = Threads.start v.qemu id (started v id)

  -- Remove of Manager
  announce_removed : Env → String → Reply → Prog Answer
  announce_removed v id done = publish (λ p. (vm_removed v.now id p).0) (ret empty)
  announce_removed v id (failed e) = ret (status unknown "failed to remove a VM instance")
  announce_removed v id panic = ret crashed

  -- Create of Server; manager.Start never fails
  created : Env → String → Bool → Reply → Prog Answer
  unfolding start_goroutine
  created v id start (failed e) = ret (status internal ("method Launch failed: " <> c.text e))
  created v id start panic = ret crashed
  created v id start done = if start then fork (start_goroutine v id) (ret empty) else ret empty

  stopped_answer : Reply → Prog Answer
  stopped_answer done = ret empty
  stopped_answer (failed e) = ret (status unknown "failed to stop a VM instance")
  stopped_answer panic = ret crashed

  info_answer : Result VmErr (List Info) → Prog Answer
  info_answer (ok is) = ret (listed is)
  info_answer (err e) = ret (status internal "failed to retrieve info")

  -- The handlers of Server; `v'` is for the goroutine that Manager.Start starts.
  unfoldable pub handle : Env → Env → Request → Prog Answer
  unfolding start_goroutine announce_created announce_removed created stopped_answer info_answer
  handle v v' (start_request id) = fork (start_goroutine v' id) (ret empty)
  handle v v' (create_request id none start) = ret crashed
  handle v v' (create_request id (some spec) start) = elim spec.vm [
    | none ↦ ret crashed
    | some h ↦
        Threads.create c.name v.mac id spec.image h spec.cloud_init
          (announce_created v (created_info id spec.image h) (created v' id start))
  ]
  handle v v' (stop_request id force) = Threads.stop v.qemu id force stopped_answer
  handle v v' (remove_request id) = Threads.remove v.qemu id (announce_removed v id)
  handle v v' (info_request id) = Threads.info v.qemu v.qemu' id info_answer

  -- The loops of Manager.poll; each publisher call takes the lock anew.
  remove_missing : ℕ → List Info → List Info → Prog Answer → Prog Answer
  remove_missing now infos [] k = k
  remove_missing now infos (i ∷ cached) k =
      let rest = remove_missing now infos cached k in
      if reports infos i.name then rest else publish (λ p. (vm_removed now i.name p).0) rest

  update_all : ℕ → List Info → Prog Answer → Prog Answer
  update_all now [] k = k
  update_all now (i ∷ infos) k =
      publish (λ p. (vm_updated c.equal now i p).0) (update_all now infos k)

  polled : Env → Result VmErr (List Info) → Prog Answer
  unfolding remove_missing update_all
  polled v (err e) = ret empty
  polled v (ok infos) =
      read_cache
        λ p. remove_missing v.now infos (get_all v.order p) (update_all v.now infos (ret empty))

  -- poll
  unfoldable pub poll : Env → Prog Answer
  unfolding polled
  poll v = Threads.info v.qemu v.qemu' "" (polled v)

module _ (S : StateOps) (equal : Info → Info → Bool) where
  abbrev pub with_store : S.Store → Node S equal → Node S equal
  with_store s n = record n { world = record n.world { store = s } }

  -- One step of a goroutine: what is left of it, and the goroutine that it starts.
  unfoldable pub step : {A : Type 0} → Prog A → Node S equal → Node S equal × Prog A × List (Prog A)
  step (ret a) n = (n, ret a, [])
  step (get id k) n = (n, k (S.get n.world.store id), [])
  step (list k) n = (n, k (S.list n.world.store), [])
  step (update i k) n = let (s, e) = S.update n.world.store i in (with_store s n, k e, [])
  step (delete id k) n = let (s, e) = S.remove n.world.store id in (with_store s n, k e, [])
  step (tell call k) n =
      (record n { world = record n.world { calls = n.world.calls ++ call ∷ [] } }, k, [])
  step (read_cache k) n = (n, k n.events, [])
  step (publish f k) n = (record n { events = f n.events }, k, [])
  step (fork p k) n = (n, k, p ∷ [])

  -- A goroutine that no other interrupts: its result, and the goroutines that it starts.
  unfoldable pub run : {A : Type 0} → Prog A → Node S equal → Node S equal × A × List (Prog A)
  run (ret a) n = (n, a, [])
  run (get id k) n = run (k (S.get n.world.store id)) n
  run (list k) n = run (k (S.list n.world.store)) n
  run (update i k) n = let (s, e) = S.update n.world.store i in run (k e) (with_store s n)
  run (delete id k) n = let (s, e) = S.remove n.world.store id in run (k e) (with_store s n)
  run (tell call k) n =
      run k (record n { world = record n.world { calls = n.world.calls ++ call ∷ [] } })
  run (read_cache k) n = run (k n.events) n
  run (publish f k) n = run k (record n { events = f n.events })
  run (fork p k) n = let (n', a, ps) = run k n in (n', a, p ∷ ps)

  -- The turn of the goroutine at a place.
  unfoldable pub turn :
      {A : Type 0} → ℕ → List (Prog A) → Node S equal → Node S equal × List (Prog A)
  unfolding step
  turn i [] n = (n, [])
  turn zero (p ∷ ps) n = let (n', p', started) = step p n in (n', p' ∷ (ps ++ started))
  turn (suc i) (p ∷ ps) n = let (n', ps') = turn i ps n in (n', p ∷ ps')

-- A request comes in, the ticker fires, or a goroutine has its turn.
pub data Action : Type 0 where
  request : Request → Env → Env → Action
  tick : Env → Action
  turn_of : ℕ → Action

module _ (c : Setup) (S : StateOps) where
  abbrev pub System : Type 0
  System = Node S c.equal × List (Prog Answer)

  unfoldable pub act : Action → System → System
  unfolding turn handle poll
  act (request r v v') (n, ps) = (n, ps ++ handle c v v' r ∷ [])
  act (tick v) (n, ps) = (n, ps ++ poll c v ∷ [])
  act (turn_of i) (n, ps) = turn S c.equal i ps n

  unfoldable pub act_all : List Action → System → System
  unfolding act
  act_all [] s = s
  act_all (a ∷ as') s = act_all as' (act a s)
