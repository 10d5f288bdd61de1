-- ===== src/Tests/Stored.antt =====
-- The theorems on the database and on the local node manager at concrete inputs.
use qcontroller.Base.{String, ◌≡◌, arith, none, some, List, [], ◌∷◌, ok, refl, map, Option-cases}
use qcontroller.Vm.{Instance, Hardware, State, stopped, running}
use qcontroller.Db
use qcontroller.Db.{check, hwaddr_not_unique, no_instance_removed}
use qcontroller.Db.Invariant.{IsConsistent, update-IsConsistent}
use qcontroller.Controller.{stored, IsState}
use qcontroller.Controller.Database.{db_state, db_state-IsState}
use qcontroller.LocalManager.{World, Qemu, StartRequest, start, create, done, rpc, start_cloud_init}
use qcontroller.LocalManager.Start.{start_sends, start_undone, Sent}
use qcontroller.LocalManager.Report.{reconcile}
use qcontroller.LocalManager.Report.Reconcile.{reconcile_correct, reconciled}
use qcontroller.Tests.Memory.{
  memory, memory-IsLawful, values, values-IsFaithful, empty-IsConsistent, held, held-IsState,
  held-WritesState, Value, Held, hold, no_some, held_accepts,
}

abbrev pub vm : String → State → Instance
vm mac st = record {
  id = "vm";
  hardware = some (record { cpus = 2; memory = 512; disk = 1024 });
  hwaddr = some mac;
  image_id = "ubuntu";
  state = st;
  cloudinit = none;
  node = "local";
}

pub vm-check : (st : State) → check (vm "52:54:00:00:00:01" st) ≡ none
unfolding check
vm-check st = refl

abbrev db₁ : List (String × Value)
db₁ = (Db.update memory values [] (vm "52:54:00:00:00:01" stopped)).0

db₁-IsConsistent : IsConsistent memory values db₁
db₁-IsConsistent =
    update-IsConsistent memory values memory-IsLawful values-IsFaithful []
      (vm "52:54:00:00:00:01" stopped) empty-IsConsistent

-- A second Update moves the instance to another address.
update-IsConsistent_example :
    IsConsistent memory values (Db.update memory values db₁ (vm "52:54:00:00:00:02" stopped)).0
update-IsConsistent_example =
    update-IsConsistent memory values memory-IsLawful values-IsFaithful db₁
      (vm "52:54:00:00:00:02" stopped) db₁-IsConsistent

db_state-IsState_example : IsState (db_state memory values memory-IsLawful values-IsFaithful)
db_state-IsState_example = db_state-IsState memory values memory-IsLawful values-IsFaithful

-- a store with one instance
abbrev pub one : State → Held
one st =
    hold (λ id. none, λ id i h. absurd (no_some h), λ id i h. absurd (no_some h))
      (vm "52:54:00:00:00:01" st) (vm-check st)

abbrev pub world : State → World held
world st = record { store = one st; calls = [] }

abbrev pub small : Hardware
small = record { cpus = 1; memory = 1; disk = 1 }

abbrev no_dial : Qemu
no_dial = record {
  dial = some "connection refused";
  start = λ r. none;
  stop = λ name force. none;
  list = ok [];
  info = λ ids. ok [];
}

abbrev pub works : Qemu
works = record no_dial { dial = none }

start_undone_example :
    stored held (start held no_dial "vm" (world stopped)).0.store "vm"
    ≡ stored held (one stopped) "vm"
unfolding start start_cloud_init
start_undone_example =
    start_undone held held-IsState held-WritesState no_dial "vm" "vm" (world stopped)
      (rpc "connection refused") refl

start_sends_example :
    (i : Instance) × (r : StartRequest) × Sent held held-IsState works "vm"
      (world stopped)
      (start held works "vm" (world stopped)).0
      i
      r
unfolding start start_cloud_init
start_sends_example = start_sends held held-IsState works "vm" (world stopped) refl

reconcile_correct_example :
    ((reconcile held works (vm "52:54:00:00:00:01" running ∷ []) (world running)).1
      ≡ map (reconciled []) (vm "52:54:00:00:00:01" running ∷ []))
    × (stored held
          (reconcile held works (vm "52:54:00:00:00:01" running ∷ []) (world running)).0.store
          "vm"
        ≡ some (vm "52:54:00:00:00:01" stopped))
reconcile_correct_example =
    reconcile_correct held held-IsState held-WritesState works (vm "52:54:00:00:00:01" running ∷ [])
      (world running) [] refl refl (refl, refl, tt) "vm"

abbrev new_vm : Instance
new_vm = record {
  id = "new";
  hardware = some small;
  hwaddr = some "52:54:00:00:00:03";
  image_id = "ubuntu";
  state = stopped;
  cloudinit = none;
  node = "local";
}

new_vm-check : check new_vm ≡ none
unfolding check
new_vm-check = refl

created :
    (create held "local" (ok "52:54:00:00:00:03") "new" "ubuntu" small none (world stopped)).1
    ≡ done
unfolding create
created =
    ground (arith, held_accepts (one stopped) new_vm (Option-cases (check new_vm)) new_vm-check)
