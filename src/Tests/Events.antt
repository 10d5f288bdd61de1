-- ===== src/Tests/Events.antt =====
-- The theorems on the publisher, the manager's poll and the broadcaster at concrete inputs.
use qcontroller.Base.{
  String, ℕ, ◌≡◌, ◌≢◌, Bool, true, false, arith, none, some, eq_iff, List, [], ◌∷◌, refl, ok, Dict,
  lookup, Bool-cases, inl, inr, eqb, String-cases,
}
use qcontroller.Vm.{Info}
use qcontroller.Events.Publisher.{Publisher, Update, publish, vm_updated, queue_full, is_cached}
use qcontroller.Events.Cache.{IsSound, IsReflexive, IsKeyed, update_lost}
use qcontroller.Manager.{poll}
use qcontroller.Manager.Poll.{cache-poll, IsComplete}
use qcontroller.Broadcast.{
  Hub, update, subscribe, unsubscribe, take_sub, take_unsub, take_event, send, new_hub, step, run,
  panicked,
}
use qcontroller.Broadcast.Order.{reorder_panics}
use qcontroller.Broadcast.Safety.{no_panic, Reaches, here, next}

String-discrete : Discrete String
String-discrete s t = elim (String-cases s t) [ inl e ↦ yes e | inr n ↦ no n ]

nat-discrete : Discrete ℕ
nat-discrete m n = elim (Bool-cases (eqb m n)) [
  | inl e ↦ yes (ground arith)
  | inr e ↦ no (λ p. ground (arith, p))
]

Info-discrete : Discrete Info
Info-discrete = hlevel (String-discrete, nat-discrete)

abbrev is_yes : {A : Type 0} → Dec A → Bool
is_yes (yes _) = true
is_yes (no _) = false

abbrev equal : Info → Info → Bool
equal a b = is_yes (Info-discrete a b)

is_yes-sound : {A : Type 0} (d : Dec A) → is_yes d ≡ true → A
is_yes-sound (yes a) h = a
is_yes-sound (no n) h = absurd (cc h)

is_yes_complete : {A : Type 0} (d : Dec A) → A → is_yes d ≡ true
is_yes_complete (yes _) a = refl
is_yes_complete (no n) a = absurd (n a)

equal-IsSound : IsSound equal
equal-IsSound a b h = is_yes-sound (Info-discrete a b) h

equal-IsReflexive : IsReflexive equal
equal-IsReflexive a = is_yes_complete (Info-discrete a a) refl

-- the entries, in the order of the dictionary
abbrev entries : Dict Info → List Info
entries [] = []
entries ((k, i) ∷ d) = i ∷ entries d

entries-IsComplete : IsComplete entries
unfolding lookup
entries-IsComplete [] k i h = absurd (ground (arith, h))
entries-IsComplete ((j, x) ∷ d) k i h =
    ground (arith, entries-IsComplete d k i, eq_iff x.name i.name)

abbrev info : String → Info
info name = record { name = name; spec = none; status = none }

abbrev idle : Publisher
idle = record { queue = []; capacity = 1; cache = ("vm", info "vm") ∷ [] }

idle-IsKeyed : IsKeyed idle
unfolding lookup
idle-IsKeyed = record { keyed = λ k i h. ground (arith, h, eq_iff "vm" k) }

cache-poll_example : lookup "vm" (poll equal entries 7 (ok (info "new" ∷ [])) idle).cache ≡ none
cache-poll_example =
    cache-poll equal entries 7 (info "new" ∷ []) idle "vm" equal-IsSound entries-IsComplete
      idle-IsKeyed

abbrev tick : Update
tick = record { timestamp = 1; payload = qcontroller.Events.Publisher.error_event "m" "vm" }

abbrev full : Publisher
full = record idle { queue = tick ∷ [] }

update_lost_example :
    ((vm_updated equal 1 (info "new") full).1 ≡ some queue_full)
    × ((vm_updated equal 1 (info "new") full).0.queue ≡ tick ∷ [])
    × (vm_updated equal 2
          (info "new")
          (record (vm_updated equal 1 (info "new") full).0 { queue = [] })
        ≡ (record (vm_updated equal 1 (info "new") full).0 { queue = [] }, none))
unfolding lookup
update_lost_example =
    update_lost equal 1 2 (info "new") full [] equal-IsReflexive (omega arith) refl

abbrev empty_hub : Hub ℕ
empty_hub = new_hub 10

-- after a client has subscribed, an event has come, and the client has unsubscribed
abbrev left_hub : Hub ℕ
left_hub = record empty_hub {
  chans =
      update (update empty_hub.chans 0 (record { buffer = 5 ∷ []; closed = false })) 0
        (record { buffer = 5 ∷ []; closed = true });
}

left_hub-Reaches : Reaches empty_hub left_hub
unfolding step
left_hub-Reaches =
    next (subscribe 0) (refl, refl, refl, refl) refl
      (next take_sub tt refl (
        next (send 5) tt refl (
          next take_event tt refl
            (next (unsubscribe 0) (refl, refl) refl (next take_unsub tt refl here)))))

no_panic_example : left_hub.phase ≢ panicked
no_panic_example = no_panic 10 left_hub left_hub-Reaches

reorder_panics_example :
    (h' : Hub ℕ) × (run
        (subscribe 0 ∷ unsubscribe 0 ∷ take_unsub ∷ take_sub ∷ send 5 ∷ take_event ∷ [])
        (new_hub 10)
      ≡ some h')
    × (h'.phase ≡ panicked)
reorder_panics_example = reorder_panics (new_hub 10) 0 5 refl (omega arith) refl refl refl refl
