-- ===== src/Process/Loop.antt =====
-- instanceLifecycleLoop of process.go, which alone owns the map of running instances. An `Action`
-- is one communication of its `select`, or the exit of a process. An instance is a number, `execute`
-- is Execute of the instance monitor, and the contexts that a goroutine watches are left out.
pub mod Watch
pub mod Restart
use qcontroller.Base.{
  String, ◌<>◌, ℕ, Bool, true, false, not, ◌&&◌, Option, none, some, ◌==◌, eqb, List, [], ◌∷◌, ◌++◌,
  if◌then◌else◌, Result, ok, err, Dict, lookup, insert, delete,
}

pub data RequestKind : Type 0 where
  qmp qga : RequestKind

-- a CommandResult: the monitor's, or ErrInstanceNotRunning
pub data Answer : Type 0 where
  executed : Result String String → Answer
  instance_not_running : Answer

pub data Action : Type 0 where
  -- an InstanceEvent
  register : String → ℕ → Action
  -- the process of the instance ends, and its channel Done is closed
  exit : ℕ → Action
  -- the goroutine that waits for the instance sends its id on `removeCh`
  removed : String → ℕ → Action
  force_stop : String → Action
  command : String → RequestKind → String → Action
  stop : Action

-- `watchers` are the goroutines that wait for Done, with the id and the instance of their event;
-- `cancelled` are the instances whose context was cancelled, and `stops` the calls of Stop.
pub record State : Type 0 where
  pub instances : Dict ℕ
  pub watchers : List (String × ℕ)
  pub exited : List ℕ
  pub cancelled : List ℕ
  pub stops : List ℕ
  pub answers : List Answer
  pub returned : Bool

abbrev pub new_state : State
new_state = record {
  instances = [];
  watchers = [];
  exited = [];
  cancelled = [];
  stops = [];
  answers = [];
  returned = false;
}

abbrev pub has_exited : ℕ → List ℕ → Bool
has_exited i [] = false
has_exited i (x ∷ xs) = if eqb x i then true else has_exited i xs

abbrev pub has_watcher : String → ℕ → List (String × ℕ) → Bool
has_watcher id i [] = false
has_watcher id i ((k, x) ∷ ws) = if k == id && eqb x i then true else has_watcher id i ws

-- The watcher ends.
abbrev pub drop_watcher : String → ℕ → List (String × ℕ) → List (String × ℕ)
drop_watcher id i [] = []
drop_watcher id i ((k, x) ∷ ws) =
    let rest = drop_watcher id i ws in if k == id && eqb x i then ws else (k, x) ∷ rest

-- The name under which the monitor has the socket of an instance.
abbrev monitor_name : RequestKind → String → String
monitor_name qmp id = "qmp:" <> id
monitor_name qga id = "qga:" <> id

abbrev pub cancel : Option ℕ → List ℕ → List ℕ
cancel none cs = cs
cancel (some i) cs = i ∷ cs

abbrev all_instances : Dict ℕ → List ℕ
all_instances [] = []
all_instances ((_, i) ∷ d) = i ∷ all_instances d

on_removed : String → ℕ → State → State
on_removed id i s = record s {
  instances = delete id s.instances;
  watchers = drop_watcher id i s.watchers;
  cancelled = cancel (lookup id s.instances) s.cancelled;
}

on_force_stop : String → State → State
on_force_stop id s = elim (lookup id s.instances) [
  | none ↦ s
  | some i ↦ record s {
    instances = delete id s.instances;
    cancelled = i ∷ s.cancelled;
    stops = i ∷ s.stops;
  }
]

on_command :
    (String → String → Result String String) → String → RequestKind → String → State → State
on_command execute id kind request s = elim (lookup id s.instances) [
  | none ↦ record s { answers = instance_not_running ∷ s.answers }
  | some _ ↦ record s { answers = executed (execute (monitor_name kind id) request) ∷ s.answers }
]

on_register : String → ℕ → State → State
on_register id i s = record s {
  instances = insert id i s.instances;
  watchers = (id, i) ∷ s.watchers;
}

abbrev pub in_loop : Bool → State → Option State
in_loop true s = none
in_loop false s = some s

-- The state after an action; `none` if the action cannot happen.
unfoldable pub step : (String → String → Result String String) → Action → State → Option State
unfolding on_removed on_force_stop on_command on_register
step execute (register id i) s = in_loop s.returned (on_register id i s)
step execute (exit i) s = some (record s { exited = i ∷ s.exited })
step execute (removed id i) s =
    if has_watcher id i s.watchers && has_exited i s.exited
    then in_loop s.returned (on_removed id i s)
    else none
step execute (force_stop id) s = in_loop s.returned (on_force_stop id s)
step execute (command id kind request) s = in_loop s.returned (on_command execute id kind request s)
step execute stop s =
    in_loop s.returned
      (record s { cancelled = all_instances s.instances ++ s.cancelled; returned = true })

-- The state after a schedule, if every action of it can happen.
unfoldable pub run : (String → String → Result String String) → List Action → State → Option State
unfolding step
run execute [] s = some s
run execute (a ∷ rest) s = elim (step execute a s) [ none ↦ none | some t ↦ run execute rest t ]
