-- ===== src/Tests/Controllers.antt =====
-- The theorems on the goroutines of the controller at concrete requests.
use qcontroller.Base.{String, ◌≡◌, none, some, List, [], ◌∷◌, ok, refl, Option-cases, false}
use qcontroller.Vm.{Instance}
use qcontroller.Db.{check}
use qcontroller.Db.Invariant.{IsConsistent}
use qcontroller.Controller.{stored}
use qcontroller.Controller.Database.{raw_state}
use qcontroller.LocalManager.Threads.{ret}
use qcontroller.Manager.{Node}
use qcontroller.ControllerService.{
  Setup, Env, Action, request, tick, turn_of, remove_request, act_all, System, empty,
}
use qcontroller.ControllerService.Runs.{act_all-IsConsistent}
use qcontroller.ControllerService.Races.{create_overwrites, asked, create_of, by_turns}
use qcontroller.Tests.Memory.{
  memory, memory-IsLawful, values, values-IsFaithful, empty-IsConsistent, held, held-IsState, Held,
  no_some, held_accepts, put,
}
use qcontroller.Tests.Stored.{works, small}

abbrev setup : Setup
setup = record { name = "local"; equal = λ a b. false; text = λ e. "error" }

abbrev env : String → Env
env mac = record { now = 0; mac = ok mac; qemu = works; qemu' = works; order = λ d. [] }

abbrev on_memory : System setup (raw_state memory values)
on_memory = (
  record {
    world = record { store = []; calls = [] };
    events = record { queue = []; capacity = 100; cache = [] };
  },
  [],
)

-- two creations and a removal, whose transactions alternate
abbrev busy : List Action
busy =
    create_of (env "52:54:00:00:00:01") "a" "ubuntu" small none
    ∷ create_of (env "52:54:00:00:00:01") "b" "ubuntu" small none
    ∷ tick (env "")
    ∷ request (remove_request "a") (env "") (env "")
    ∷ turn_of 0
    ∷ turn_of 1
    ∷ turn_of 0
    ∷ turn_of 3
    ∷ turn_of 1
    ∷ turn_of 3
    ∷ turn_of 2
    ∷ []

act_all-IsConsistent_example :
    IsConsistent memory values
      (act_all setup (raw_state memory values) busy on_memory).0.world.store
act_all-IsConsistent_example =
    act_all-IsConsistent memory values memory-IsLawful values-IsFaithful setup busy on_memory
      empty-IsConsistent

abbrev at : Held → Node held setup.equal
at s = record {
  world = record { store = s; calls = [] };
  events = record { queue = []; capacity = 100; cache = [] };
}

abbrev nothing : Held
nothing = (λ id. none, λ id i h. absurd (no_some h), λ id i h. absurd (no_some h))

abbrev first_asked : Instance
first_asked = asked setup "52:54:00:00:00:01" "a" "ubuntu" small none

abbrev second_asked : Instance
second_asked = asked setup "52:54:00:00:00:02" "a" "debian" small none

abbrev both_asked : System setup held
both_asked =
    act_all setup held
      (create_of (env "52:54:00:00:00:01") "a" "ubuntu" small none
        ∷ create_of (env "52:54:00:00:00:02") "a" "debian" small none
        ∷ by_turns)
      (at nothing, [])

create_overwrites_example :
    (both_asked.1 ≡ ret empty ∷ ret empty ∷ [])
    × (stored held both_asked.0.world.store "a" ≡ some second_asked)
unfolding check
create_overwrites_example =
    create_overwrites held held-IsState setup (at nothing) (env "52:54:00:00:00:01")
      (env "52:54:00:00:00:02") "52:54:00:00:00:01" "52:54:00:00:00:02" "a" "ubuntu" "debian" small
      small none none refl refl refl
      (held_accepts nothing first_asked (Option-cases (check first_asked)) refl)
      (held_accepts (put nothing first_asked (Option-cases (check first_asked))).0 second_asked
        (Option-cases (check second_asked)) refl)
