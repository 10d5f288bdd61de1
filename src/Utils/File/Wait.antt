-- ===== src/Utils/File/Wait.antt =====
-- Which creations WaitForFileCreation notices.
use qcontroller.Base.{
  ℕ, zero, suc, ◌≤◌, ◌≡◌, ◌≢◌, refl, arith, String, Bool, true, false, Option, none, some, List, [],
  ◌∷◌, ◌++◌, if◌then◌else◌, ◌==◌, ◌&&◌, ◌||◌, length, Bool-cases, inl, inr, ap, ◌∙◌, eq_iff,
}
use qcontroller.Utils.File.{
  FsEvent, Phase, looking, making, adding, looking_again, watching, returned, Input, turn,
  cancelled, closed, created, unseen, reported, modified, removed, Waiter, at_start, take_event,
  on_turn, interrupted, advance, run,
}

-- The creation of the file waits in the queue.
abbrev announced : String → List FsEvent → Bool
announced base [] = false
announced base (e ∷ es) = if e.create && (e.name == base) then true else announced base es

-- Behind Add the watcher is on, and a file that is there while the caller watches is announced.
record IsNoticed (base : String) (w : Waiter) : Type 0 where
  again : w.phase ≡ looking_again → w.watched ≡ true
  on : w.phase ≡ watching → w.watched ≡ true
  due : w.phase ≡ watching → w.file_exists ≡ true → announced base w.queue ≡ true

announced-append :
    (base : String) (es : List FsEvent) (e : FsEvent)
    → announced base (es ++ e ∷ []) ≡ (announced base es || (e.create && (e.name == base)))
announced-append base [] e = ground arith
announced-append base (x ∷ es) e = ground (arith, announced-append base es e)

take_event-IsNoticed :
    (base : String) (w : Waiter) (queue : List FsEvent)
    → w.queue ≡ queue
    → IsNoticed base w
    → IsNoticed base (take_event base queue w)
take_event-IsNoticed base w [] q h = h
take_event-IsNoticed base w (x ∷ rest) q h = ground (arith, q)

on_turn-IsNoticed :
    (base : String) (e : Option String) (w : Waiter) (ph : Phase)
    → w.phase ≡ ph
    → IsNoticed base w
    → IsNoticed base (on_turn base e ph w)
on_turn-IsNoticed base e w looking p h = ground (arith, p)
on_turn-IsNoticed base (some e) w making p h = ground (arith, p)
on_turn-IsNoticed base none w making p h = ground (arith, p)
on_turn-IsNoticed base (some e) w adding p h = ground (arith, p)
on_turn-IsNoticed base none w adding p h = ground (arith, p)
on_turn-IsNoticed base e w looking_again p h = ground (arith, p)
on_turn-IsNoticed base e w watching p h = take_event-IsNoticed base w w.queue refl h
on_turn-IsNoticed base e w (returned r) p h = h

interrupted-IsNoticed :
    (base message : String) (w : Waiter) (ph : Phase)
    → IsNoticed base w
    → IsNoticed base (interrupted message ph w)
interrupted-IsNoticed base message w watching h = ground arith
interrupted-IsNoticed base message w looking h = h
interrupted-IsNoticed base message w making h = h
interrupted-IsNoticed base message w adding h = h
interrupted-IsNoticed base message w looking_again h = h
interrupted-IsNoticed base message w (returned r) h = h

-- The watcher loses the creation of this file by none of the inputs.
abbrev pub sees : String → List Input → Bool
sees base [] = true
sees base (unseen name ∷ is) = if name == base then false else sees base is
sees base (created name ∷ is) = sees base is
sees base (modified name ∷ is) = sees base is
sees base (removed name ∷ is) = sees base is
sees base (turn e ∷ is) = sees base is
sees base (cancelled ∷ is) = sees base is
sees base (closed ∷ is) = sees base is
sees base (reported ∷ is) = sees base is

sees_parts :
    (base : String) (i : Input) (is : List Input)
    → sees base (i ∷ is) ≡ true
    → (sees base (i ∷ []) ≡ true) × (sees base is ≡ true)
sees_parts base (unseen name) is h = ground (arith, h)
sees_parts base (created name) is h = (refl, h)
sees_parts base (modified name) is h = (refl, h)
sees_parts base (removed name) is h = (refl, h)
sees_parts base (turn e) is h = (refl, h)
sees_parts base cancelled is h = (refl, h)
sees_parts base closed is h = (refl, h)
sees_parts base reported is h = (refl, h)

advance-IsNoticed :
    (base : String) (i : Input) (w : Waiter)
    → sees base (i ∷ []) ≡ true
    → IsNoticed base w
    → IsNoticed base (advance base i w)
unfolding advance
advance-IsNoticed base reported w l h = h
advance-IsNoticed base (unseen name) w l h = elim (Bool-cases (name == base)) [
  | inl e ↦ absurd (ground (arith, l, e))
  | inr e ↦ ground (arith, e)
]
advance-IsNoticed base (turn e) w l h = on_turn-IsNoticed base e w w.phase refl h
advance-IsNoticed base cancelled w l h = interrupted-IsNoticed base "context canceled" w w.phase h
advance-IsNoticed base closed w l h = interrupted-IsNoticed base "watcher closed" w w.phase h
advance-IsNoticed base (created name) w l h =
    ground (arith, announced-append base w.queue (record { create = true; name = name }))
advance-IsNoticed base (modified name) w l h =
    ground (arith, announced-append base w.queue (record { create = false; name = name }))
advance-IsNoticed base (removed name) w l h =
    ground (arith, announced-append base w.queue (record { create = false; name = name }))

run-IsNoticed :
    (base : String) (is : List Input) (w : Waiter)
    → sees base is ≡ true
    → IsNoticed base w
    → IsNoticed base (run base is w)
unfolding run
run-IsNoticed base [] w l h = h
run-IsNoticed base (i ∷ is) w l h =
    let (now, later) = sees_parts base i is l in
    run-IsNoticed base is (advance base i w) later (advance-IsNoticed base i w now h)

-- The caller takes its turns, and its calls succeed.
abbrev pub turns : ℕ → List Input
turns zero = []
turns (suc n) = turn none ∷ turns n

-- The first turn of several, in a known phase.
first_turn :
    (base : String) (n : ℕ) (w : Waiter) (ph : Phase)
    → w.phase ≡ ph
    → (run base (turns (suc n)) w).phase ≡ (run base (turns n) (on_turn base none ph w)).phase
unfolding run advance
first_turn base n w ph e = ap (λ p. (run base (turns n) (on_turn base none p w)).phase) e

returned-stays :
    (base : String) (n : ℕ) (w : Waiter)
    → w.phase ≡ returned none
    → (run base (turns n) w).phase ≡ returned none
unfolding run
returned-stays base zero w e = e
returned-stays base (suc n) w e = first_turn base n w (returned none) e ∙ returned-stays base n w e

watching-returns :
    (base : String) (n : ℕ) (w : Waiter) (queue : List FsEvent)
    → w.queue ≡ queue
    → w.phase ≡ watching
    → announced base queue ≡ true
    → length queue ≤ n
    → (run base (turns n) w).phase ≡ returned none
watching-returns base zero w [] q e a l = absurd (ground (arith, a))
watching-returns base zero w (x ∷ rest) q e a l = absurd (omega arith)
watching-returns base (suc n) w [] q e a l = absurd (ground (arith, a))
watching-returns base (suc n) w (x ∷ rest) q e a l =
    first_turn base n w watching e
    ∙ ap (λ es. (run base (turns n) (take_event base es w)).phase) q
    ∙ (elim (Bool-cases (x.create && (x.name == base))) [
      | inl c ↦ rw c (returned-stays base n (record w { phase = returned none; queue = rest }) refl)
      | inr c ↦ rw c (
          watching-returns base n (record w { queue = rest }) rest refl e (ground (arith, c, a))
            (omega arith))
    ])

-- A caller that has yet to look finds the file.
found_by_looking :
    (base : String) (n : ℕ) (w : Waiter) (ph : Phase)
    → w.phase ≡ ph
    → on_turn base none ph w ≡ record w { phase = returned none }
    → (run base (turns (suc n)) w).phase ≡ returned none
found_by_looking base n w ph e step =
    first_turn base n w ph e
    ∙ ap (λ v. (run base (turns n) v).phase) step
    ∙ returned-stays base n (record w { phase = returned none }) refl

found_again :
    (base : String) (n : ℕ) (w : Waiter)
    → w.phase ≡ looking_again
    → w.file_exists ≡ true
    → (run base (turns (suc n)) w).phase ≡ returned none
found_again base n w e there = found_by_looking base n w looking_again e (ground (arith, there))

found_behind_adding :
    (base : String) (n : ℕ) (w : Waiter)
    → w.phase ≡ adding
    → w.file_exists ≡ true
    → (run base (turns (suc (suc n))) w).phase ≡ returned none
found_behind_adding base n w e there =
    first_turn base (suc n) w adding e
    ∙ found_again base n (record w { phase = looking_again; watched = true }) refl there

noticed-returns :
    (base : String) (n : ℕ) (w : Waiter) (ph : Phase)
    → w.phase ≡ ph
    → IsNoticed base w
    → w.file_exists ≡ true
    → ((e : String) → ph ≢ returned (some e))
    → length w.queue ≤ n
    → (run base (turns (suc (suc (suc n)))) w).phase ≡ returned none
noticed-returns base n w looking e h there ok l =
    found_by_looking base (suc (suc n)) w looking e (ground (arith, there))
noticed-returns base n w making e h there ok l =
    first_turn base (suc (suc n)) w making e
    ∙ found_behind_adding base n (record w { phase = adding }) refl there
noticed-returns base n w adding e h there ok l = found_behind_adding base (suc n) w e there
noticed-returns base n w looking_again e h there ok l = found_again base (suc (suc n)) w e there
noticed-returns base n w watching e h there ok l =
    watching-returns base (suc (suc (suc n))) w w.queue refl e (h.due e there) (omega arith)
noticed-returns base n w (returned none) e h there ok l =
    returned-stays base (suc (suc (suc n))) w e
noticed-returns base n w (returned (some x)) e h there ok l = absurd (ok x refl)

start-IsNoticed : (base : String) (there : Bool) → IsNoticed base (at_start there)
start-IsNoticed base there = ground arith

-- However the file and its neighbours came and went, before the caller looked, while it set the
-- watcher up or later, and whatever errors the watcher reported: if the watcher has lost no creation
-- of the file, the file is there and the caller has not returned an error, then it returns nil, at
-- the latest after three turns more than there are events in its queue, if its calls succeed.
pub run-returns :
    (base : String) (there : Bool) (is : List Input) (n : ℕ)
    → sees base is ≡ true
    → (run base is (at_start there)).file_exists ≡ true
    → ((e : String) → (run base is (at_start there)).phase ≢ returned (some e))
    → length (run base is (at_start there)).queue ≤ n
    → (run base (turns (suc (suc (suc n)))) (run base is (at_start there))).phase ≡ returned none
run-returns base there is n seen f ok l =
    let w = run base is (at_start there) in
    noticed-returns base n w w.phase refl
      (run-IsNoticed base is (at_start there) seen (start-IsNoticed base there)) f ok l

waits :
    (base : String) (n : ℕ) (w : Waiter)
    → w.phase ≡ watching
    → w.queue ≡ []
    → (run base (turns n) w).phase ≡ watching
unfolding run
waits base zero w p q = p
waits base (suc n) w p q =
    first_turn base n w watching p
    ∙ ap (λ es. (run base (turns n) (take_event base es w)).phase) q
    ∙ waits base n w p q

-- If the watcher loses the creation of the file while the caller watches and nothing else waits in its
-- queue, then the caller goes on waiting for any number of its turns, although the file is there and
-- the watcher has reported an error.
pub unseen_waits :
    (base : String) (n : ℕ) (w : Waiter)
    → w.phase ≡ watching
    → w.queue ≡ []
    → ((run base (unseen base ∷ reported ∷ []) w).file_exists ≡ true)
      × ((run base (turns n) (run base (unseen base ∷ reported ∷ []) w)).phase ≡ watching)
unfolding run advance
unseen_waits base n w p q = (
  ground (arith, eq_iff base base),
  waits base n (record w { file_exists = w.file_exists || base == base }) p q,
)
