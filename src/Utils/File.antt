-- ===== src/Utils/File.antt =====
-- WaitForFileCreation of src/pkg/utils/file.go: the caller, the file and the queue of its watcher
-- (github.com/fsnotify/fsnotify), which holds what happened in the directory since `Add`, but for
-- what the watcher has lost by an overflow and reported on its channel of errors.
pub mod Wait
use qcontroller.Base.{
  ℕ, zero, suc, String, Bool, true, false, Option, none, some, List, [], ◌∷◌, ◌++◌, if◌then◌else◌,
  ◌==◌, ◌&&◌, ◌||◌,
}

-- An event of the watcher: whether it is a creation, and the base name of its file.
pub record FsEvent : Type 0 where
  pub create : Bool
  pub name : String

-- The next thing that the caller does, or the error or nil that it has returned.
pub data Phase : Type 0 where
  looking making adding looking_again watching : Phase
  returned : Option String → Phase

-- The caller's next call with its error or nil, or what the select takes of the context, of a closed
-- channel or, an error, of `watcher.Errors`; what happens to files of the directory, with `unseen`
-- for a creation whose event the watcher loses.
pub data Input : Type 0 where
  turn : Option String → Input
  cancelled closed reported : Input
  created unseen modified : String → Input
  removed : String → Input

pub record Waiter : Type 0 where
  pub phase : Phase
  pub file_exists : Bool
  pub watched : Bool
  pub queue : List FsEvent

-- A directory in which nobody looks yet.
abbrev pub at_start : Bool → Waiter
at_start there = record { phase = looking; file_exists = there; watched = false; queue = [] }

abbrev notify : Bool → FsEvent → List FsEvent → List FsEvent
notify watched e queue = if watched then queue ++ e ∷ [] else queue

-- A round of the select that takes an event; an empty queue lets it wait.
abbrev pub take_event : String → List FsEvent → Waiter → Waiter
take_event base [] w = w
take_event base (e ∷ rest) w =
    if e.create && (e.name == base)
    then record w { phase = returned none; queue = rest }
    else record w { queue = rest }

abbrev pub on_turn : String → Option String → Phase → Waiter → Waiter
on_turn base e looking w =
    if w.file_exists then record w { phase = returned none } else record w { phase = making }
on_turn base (some e) making w = record w { phase = returned (some e) }
on_turn base none making w = record w { phase = adding }
on_turn base (some e) adding w = record w { phase = returned (some e) }
on_turn base none adding w = record w { phase = looking_again; watched = true }
on_turn base e looking_again w =
    if w.file_exists then record w { phase = returned none } else record w { phase = watching }
on_turn base e watching w = take_event base w.queue w
on_turn base e (returned r) w = w

abbrev pub interrupted : String → Phase → Waiter → Waiter
interrupted message watching w = record w { phase = returned (some message) }
interrupted message _ w = w

-- One input.
unfoldable pub advance : String → Input → Waiter → Waiter
advance base (turn e) w = on_turn base e w.phase w
advance base cancelled w = interrupted "context canceled" w.phase w
advance base closed w = interrupted "watcher closed" w.phase w
advance base reported w = w
advance base (unseen name) w = record w { file_exists = w.file_exists || name == base }
advance base (created name) w = record w {
  file_exists = w.file_exists || name == base;
  queue = notify w.watched (record { create = true; name = name }) w.queue;
}
advance base (modified name) w = record w {
  queue = notify w.watched (record { create = false; name = name }) w.queue;
}
advance base (removed name) w = record w {
  file_exists = if name == base then false else w.file_exists;
  queue = notify w.watched (record { create = false; name = name }) w.queue;
}

unfoldable pub run : String → List Input → Waiter → Waiter
unfolding advance
run base [] w = w
run base (i ∷ is) w = run base is (advance base i w)
