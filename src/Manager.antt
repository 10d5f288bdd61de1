-- ===== src/Manager.antt =====
-- src/pkg/controller/vm/manager.go: the manager of the local node, which mirrors what the node
-- manager reports in the cache of the event publisher and publishes the changes.
pub mod Poll
use qcontroller.Base.{
  String, ◌<>◌, ℕ, Bool, true, false, Option, none, some, ◌==◌, List, [], ◌∷◌, if◌then◌else◌, Dict,
  Result, ok, err,
}
use qcontroller.Vm.{Info, Hardware, CloudInit, stopped, state_name}
use qcontroller.Controller.{StateOps}
use qcontroller.LocalManager
use qcontroller.LocalManager.{World, Qemu, Reply, done, failed, panic, VmErr}
use qcontroller.LocalManager.Report
use qcontroller.Events.Publisher.{Publisher, vm_updated, vm_removed, get_all, publish_error}

-- `current[name]` of poll
abbrev pub reports : List Info → String → Bool
reports [] name = false
reports (i ∷ is) name = if i.name == name then true else reports is name

abbrev pub created_info : String → String → Hardware → Info
created_info id image hardware = record {
  name = id;
  spec = some (record { vm = some hardware; image = image; cloud_init = none });
  status = some (record { state = state_name stopped; hwaddr = ""; runtime = none });
}

-- The loop over the cached infos: VMs that disappeared. A dropped event is only logged.
unfoldable pub remove_missing : ℕ → List Info → List Info → Publisher → Publisher
remove_missing now infos [] p = p
remove_missing now infos (c ∷ cached) p =
    remove_missing now infos cached
      (if reports infos c.name then p else (vm_removed now c.name p).0)

-- The loop over the reported infos.
unfoldable pub update_all : (Info → Info → Bool) → ℕ → List Info → Publisher → Publisher
update_all equal now [] p = p
update_all equal now (i ∷ infos) p = update_all equal now infos (vm_updated equal now i p).0

-- poll, on the answer of `nm.Info(ctx, "")`
unfoldable pub poll :
    (Info → Info → Bool)
    → (Dict Info → List Info)
    → ℕ
    → Result VmErr (List Info)
    → Publisher
    → Publisher
unfolding remove_missing update_all
poll equal order now (err e) p = p
poll equal order now (ok infos) p =
    update_all equal now infos (remove_missing now infos (get_all order p) p)

module _ (S : StateOps) (equal : Info → Info → Bool) where
  pub record Node : Type 0 where
    pub world : World S
    pub events : Publisher

  -- One turn of the polling loop.
  unfoldable pub poll_node : (Dict Info → List Info) → ℕ → Qemu → Qemu → Node → Node
  unfolding poll
  poll_node order now q q' n =
      let (w, answer) = Report.info S q q' "" n.world in
      record { world = w; events = poll equal order now answer n.events }

  abbrev pub announce_created : ℕ → Info → Publisher → World S × Reply → Node × Reply
  announce_created now info p (w, done) =
      (record { world = w; events = (vm_updated equal now info p).0 }, done)
  announce_created now info p (w, r) = (record { world = w; events = p }, r)

  -- Create; the error of publishing is dropped
  unfoldable pub create :
      ℕ
      → String
      → Result String String
      → String
      → String
      → Hardware
      → Option CloudInit
      → Node
      → Node × Reply
  create now node mac id image hardware ci n =
      announce_created now (created_info id image hardware) n.events
        (LocalManager.create S node mac id image hardware ci n.world)

  abbrev pub announce_failure :
      ℕ → (VmErr → String) → String → Publisher → World S × Reply → Node × Reply
  announce_failure now message id p (w, failed e) = (
    record { world = w; events = (publish_error now ("failed to start: " <> message e) id p).0 },
    failed e,
  )
  announce_failure now message id p (w, r) = (record { world = w; events = p }, r)

  -- What the goroutine of Start does; Start itself has returned nil. `message` prints an error.
  unfoldable pub start_async : ℕ → (VmErr → String) → Qemu → String → Node → Node × Reply
  start_async now message q id n =
      announce_failure now message id n.events (LocalManager.start S q id n.world)

  -- Stop
  unfoldable pub stop : Qemu → String → Bool → Node → Node × Reply
  stop q id force n =
      let (w, r) = LocalManager.stop S q id force n.world in (record n { world = w }, r)

  abbrev pub announce_removed : ℕ → String → Publisher → World S × Reply → Node × Reply
  announce_removed now id p (w, done) =
      (record { world = w; events = (vm_removed now id p).0 }, done)
  announce_removed now id p (w, r) = (record { world = w; events = p }, r)

  -- Remove
  unfoldable pub remove : ℕ → Qemu → String → Node → Node × Reply
  remove now q id n = announce_removed now id n.events (LocalManager.remove S q id n.world)
