-- ===== src/Broadcast.antt =====
-- src/pkg/orchestrator/broadcast.go: the hub that fans events out to the WebSocket clients.
-- One `Action` is one communication: a call of a client, a case of the `select` in Run, or a read
-- from a subscription. A schedule is a list of actions; `step` is `none` where an action blocks.
pub mod Order
pub mod Safety
use qcontroller.Base.{
  ℕ, Bool, true, false, ◌&&◌, Option, none, some, List, [], ◌∷◌, ◌++◌, if◌then◌else◌, ltb, eqb,
  length,
}

abbrev pub has : ℕ → List ℕ → Bool
has s [] = false
has s (x ∷ xs) = if eqb x s then true else has s xs

abbrev pub erase : ℕ → List ℕ → List ℕ
erase s [] = []
erase s (x ∷ xs) = let rest = erase s xs in if eqb x s then rest else x ∷ rest

-- The channel of a Subscription: its buffer, of `buffer_size` places, and whether it is closed.
pub record Chan (E : Type 0) : Type 0 where
  pub buffer : List E
  pub closed : Bool

abbrev pub buffer_size : ℕ
buffer_size = 100

-- `returned` and `panicked` are what Run can end in.
pub data Phase : Type 0 where
  serving returned panicked : Phase

-- `subs` is the map of Run, and a Subscription is a number; `capacity` is NewBroadcaster's argument.
pub record Hub (E : Type 0) : Type 0 where
  pub capacity : ℕ
  pub event_ch : List E
  pub sub_ch : List ℕ
  pub unsub_ch : List ℕ
  pub subs : List ℕ
  pub chans : ℕ → Chan E
  pub phase : Phase

pub data Action (E : Type 0) : Type 0 where
  send : E → Action E
  subscribe unsubscribe receive : ℕ → Action E
  take_sub take_unsub take_event cancel : Action E

module _ {E : Type 0} where
  abbrev pub update : (ℕ → Chan E) → ℕ → Chan E → ℕ → Chan E
  update chans s c k = if eqb s k then c else chans k

  -- NewBroadcaster, before the first call of Subscribe
  abbrev pub new_hub : ℕ → Hub E
  new_hub capacity = record {
    capacity = capacity;
    event_ch = [];
    sub_ch = [];
    unsub_ch = [];
    subs = [];
    chans = λ s. record { buffer = []; closed = false };
    phase = serving;
  }

  -- `close(s.ch)`; `none` is the panic on a channel that is closed already
  abbrev close : ℕ → (ℕ → Chan E) → Option (ℕ → Chan E)
  close s chans =
      if (chans s).closed then none else some (update chans s (record (chans s) { closed = true }))

  -- `select { case s.ch <- event: default: }`; `none` is the panic of a send on a closed channel
  abbrev offer : E → ℕ → (ℕ → Chan E) → Option (ℕ → Chan E)
  offer e s chans =
      if (chans s).closed
      then none
      else if ltb (length (chans s).buffer) buffer_size
      then some (update chans s (record (chans s) { buffer = (chans s).buffer ++ e ∷ [] }))
      else some chans

  pub offer_all : E → List ℕ → (ℕ → Chan E) → Option (ℕ → Chan E)
  offer_all e [] chans = some chans
  offer_all e (s ∷ subs) chans = elim (offer e s chans) [
    | none ↦ none
    | some chans' ↦ offer_all e subs chans'
  ]

  pub close_all : List ℕ → (ℕ → Chan E) → Option (ℕ → Chan E)
  close_all [] chans = some chans
  close_all (s ∷ subs) chans = elim (close s chans) [
    | none ↦ none
    | some chans' ↦ close_all subs chans'
  ]

  -- A panic ends the process.
  abbrev pub settle : Hub E → Option (ℕ → Chan E) → Phase → Hub E
  settle h none phase = record h { phase = panicked }
  settle h (some chans) phase = record h { chans = chans; phase = phase }

  -- A case of the `select` that finds its channel empty is not chosen.
  on_sub : Hub E → List ℕ → Option (Hub E)
  on_sub h [] = none
  on_sub h (s ∷ rest) =
      some (record h { sub_ch = rest; subs = if has s h.subs then h.subs else s ∷ h.subs })

  on_unsub : Hub E → List ℕ → Option (Hub E)
  on_unsub h [] = none
  on_unsub h (s ∷ rest) =
      some (settle (record h { unsub_ch = rest; subs = erase s h.subs }) (close s h.chans) serving)

  on_event : Hub E → List E → Option (Hub E)
  on_event h [] = none
  on_event h (e ∷ rest) =
      some (settle (record h { event_ch = rest }) (offer_all e h.subs h.chans) serving)

  -- A case of Run's `select` while Run is in its loop.
  abbrev pub in_loop : Phase → Option (Hub E) → Option (Hub E)
  in_loop serving r = r
  in_loop returned r = none
  in_loop panicked r = none

  -- After a panic there is no process that could act.
  abbrev pub alive : Phase → Option (Hub E) → Option (Hub E)
  alive panicked r = none
  alive _ r = r

  unfoldable pub step : Action E → Hub E → Option (Hub E)
  unfolding on_sub on_unsub on_event offer_all close_all
  step (send e) h = alive h.phase (
      if ltb (length h.event_ch) h.capacity
      then some (record h { event_ch = h.event_ch ++ e ∷ [] })
      else some h)
  step (subscribe s) h = alive h.phase (
      if ltb (length h.sub_ch) h.capacity
      then some (record h { sub_ch = h.sub_ch ++ s ∷ [] })
      else none)
  step (unsubscribe s) h = alive h.phase (
      if ltb (length h.unsub_ch) h.capacity
      then some (record h { unsub_ch = h.unsub_ch ++ s ∷ [] })
      else none)
  step (receive s) h = elim (h.chans s).buffer [
    | [] ↦ none
    | e ∷ rest ↦
        alive h.phase
          (some (record h { chans = update h.chans s (record (h.chans s) { buffer = rest }) }))
  ]
  step take_sub h = in_loop h.phase (on_sub h h.sub_ch)
  step take_unsub h = in_loop h.phase (on_unsub h h.unsub_ch)
  step take_event h = in_loop h.phase (on_event h h.event_ch)
  step cancel h = in_loop h.phase (some (settle h (close_all h.subs h.chans) returned))

  -- The hub after a schedule, if no action of it blocks.
  unfoldable pub run : List (Action E) → Hub E → Option (Hub E)
  unfolding step
  run [] h = some h
  run (a ∷ rest) h = elim (step a h) [ none ↦ none | some g ↦ run rest g ]
