-- ===== src/Tests/Processes.antt =====
-- The theorems on the lifecycle loop at concrete inputs.
use qcontroller.Base.{String, ◌≡◌, some, [], ◌∷◌, Result, ok, refl, lookup, insert, none}
use qcontroller.LocalManager.{StartRequest}
use qcontroller.Process.Loop.{
  register, exit, removed, force_stop, command, State, step, run, qmp, instance_not_running,
  new_state,
}
use qcontroller.Process.Loop.Restart.{restart_lost}
use qcontroller.Process.Loop.Watch.{IsWatched, step-IsWatched}
use qcontroller.Tests.Memory.{no_some}

abbrev execute : String → String → Result String String
execute name request = ok "{}"

restart_lost_example :
    (t : State) × (run execute
        (register "vm" 1 ∷ force_stop "vm" ∷ register "vm" 2 ∷ exit 1 ∷ removed "vm" 1 ∷ [])
        new_state
      ≡ some t)
    × (t.exited ≡ 1 ∷ [])
    × (step execute (force_stop "vm") t ≡ some t)
    × (step execute (command "vm" qmp "query-status") t
        ≡ some (record t { answers = instance_not_running ∷ t.answers }))
restart_lost_example = restart_lost execute new_state "vm" 1 2 "query-status" refl

new_state-IsWatched : IsWatched new_state
unfolding lookup
new_state-IsWatched = record { watched = λ id i h. absurd (no_some h) }

abbrev started : State
started = record new_state { instances = ("vm", 1) ∷ []; watchers = ("vm", 1) ∷ [] }

step-IsWatched_example : IsWatched started
unfolding step insert
step-IsWatched_example =
    step-IsWatched execute (register "vm" 1) new_state started new_state-IsWatched refl

abbrev request : StartRequest
request = record {
  id = "vm";
  image_id = "ubuntu";
  hardware = record { cpus = 1; memory = 512; disk = 1024 };
  mac = "52:54:00:00:00:01";
  cloud_init = none;
}
