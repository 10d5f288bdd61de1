-- ===== src/Commands/Firewall/Rules.antt =====
-- For which interface the rules are applied, and when the goroutine hangs.
use qcontroller.Base.{
  ℕ, zero, suc, ◌≡◌, ◌⊎◌, refl, ap, ◌∙◌, arith, String, Bool, true, false, List, [], ◌∷◌, is_empty,
  Bool-cases, inl, inr, subst, sym, if◌then◌else◌,
}
use qcontroller.Commands.Firewall.{
  Links, pending, closed, Phase, selecting, draining, returned, Event, done, subscription_closed,
  link, tick, turn, interface_changed, Reconciler, at_start, one_more, arrived, closes, take_link,
  drain, apply, round, run,
}

-- The interface of the last Connect.
abbrev pub last_connected : List String → String
last_connected [] = ""
last_connected (i ∷ is) = i

-- Connect was last called for the interface that is known, or none is known.
abbrev pub IsCurrent : Reconciler → Type 0
IsCurrent r = (is_empty r.iface ≡ true) ⊎ (last_connected r.connected ≡ r.iface)

IsCurrent-apply : (r : Reconciler) → IsCurrent (apply r)
IsCurrent-apply r = elim (Bool-cases (is_empty r.iface)) [
  | inl e ↦ inl (ground (arith, e))
  | inr e ↦ inr (ground (arith, e))
]

IsCurrent-take_link : (l : Links) (r : Reconciler) → IsCurrent r → IsCurrent (take_link l r)
IsCurrent-take_link closed r c = c
IsCurrent-take_link (pending zero) r c = c
IsCurrent-take_link (pending (suc n)) r c = c

IsCurrent-drain : (l : Links) (r : Reconciler) → IsCurrent r → IsCurrent (drain l r)
unfolding drain
IsCurrent-drain closed r c = c
IsCurrent-drain (pending zero) r c = IsCurrent-apply r
IsCurrent-drain (pending (suc n)) r c = c

IsCurrent-if :
    (b : Bool) (q r : Reconciler) → IsCurrent q → IsCurrent r → IsCurrent (if b then q else r)
IsCurrent-if true q r c d = c
IsCurrent-if false q r c d = d

IsCurrent-round : (e : Event) (ph : Phase) (r : Reconciler) → IsCurrent r → IsCurrent (round e ph r)
unfolding round
IsCurrent-round arrived ph r c = c
IsCurrent-round closes ph r c = c
IsCurrent-round done selecting r c = c
IsCurrent-round (interface_changed i) selecting r c =
    IsCurrent-if r.subscribed (apply (record r { iface = i })) r
      (IsCurrent-apply (record r { iface = i })) c
IsCurrent-round subscription_closed selecting r c = c
IsCurrent-round link selecting r c = IsCurrent-take_link r.links r c
IsCurrent-round tick selecting r c = IsCurrent-apply r
IsCurrent-round turn draining r c = IsCurrent-drain r.links r c
IsCurrent-round turn selecting r c = c
IsCurrent-round turn returned r c = c
IsCurrent-round done draining r c = c
IsCurrent-round done returned r c = c
IsCurrent-round (interface_changed i) draining r c = c
IsCurrent-round (interface_changed i) returned r c = c
IsCurrent-round subscription_closed draining r c = c
IsCurrent-round subscription_closed returned r c = c
IsCurrent-round link draining r c = c
IsCurrent-round link returned r c = c
IsCurrent-round tick draining r c = c
IsCurrent-round tick returned r c = c

run-keeps_IsCurrent : (es : List Event) (r : Reconciler) → IsCurrent r → IsCurrent (run es r)
unfolding run
run-keeps_IsCurrent [] r c = c
run-keeps_IsCurrent (e ∷ es) r c =
    run-keeps_IsCurrent es (round e r.phase r) (IsCurrent-round e r.phase r c)

-- Whatever comes and in whatever order: Connect was last called for the interface that the goroutine
-- knows, if it knows one.
pub run-IsCurrent : (es : List Event) → IsCurrent (run es at_start)
run-IsCurrent es = run-keeps_IsCurrent es at_start (inl refl)

-- A turn of the goroutine while it drains, or an update that arrives meanwhile.
pub data Meanwhile : Type 0 where
  own_turn arrival : Meanwhile

abbrev pub event_of : Meanwhile → Event
event_of own_turn = turn
event_of arrival = arrived

abbrev pub turns : List Meanwhile → ℕ
turns [] = 0
turns (own_turn ∷ ms) = suc (turns ms)
turns (arrival ∷ ms) = turns ms

abbrev pub arrivals : List Meanwhile → ℕ
arrivals [] = 0
arrivals (own_turn ∷ ms) = arrivals ms
arrivals (arrival ∷ ms) = suc (arrivals ms)

-- The goroutine is back in its select, and has called Connect once more if it knows an interface.
abbrev pub HasApplied : Reconciler → Reconciler → Type 0
HasApplied r q = (q.phase ≡ selecting) × (q.connected ≡ (apply r).connected)

-- It is in the phase, and has not called Connect since.
abbrev pub StaysIn : Phase → Reconciler → Reconciler → Type 0
StaysIn ph r q = (q.phase ≡ ph) × (q.connected ≡ r.connected)

run-first :
    (e : Event) (es : List Event) (r : Reconciler) (ph : Phase)
    → r.phase ≡ ph
    → run (e ∷ es) r ≡ run es (round e ph r)
unfolding run
run-first e es r ph p = ap (λ x. run es (round e x r)) p

-- While the goroutine drains a closed channel, an event changes nothing but the channel's state.
round-draining :
    (e : Event) (r : Reconciler)
    → r.phase ≡ draining
    → r.links ≡ closed
    → StaysIn draining r (round e draining r) × ((round e draining r).links ≡ closed)
unfolding round drain
round-draining arrived r p c = ((p, refl), ap one_more c)
round-draining closes r p c = ((p, refl), refl)
round-draining turn r p c =
    subst (λ l. StaysIn draining r (drain l r) × ((drain l r).links ≡ closed)) (sym c)
      ((p, refl), c)
round-draining done r p c = ((p, refl), c)
round-draining subscription_closed r p c = ((p, refl), c)
round-draining link r p c = ((p, refl), c)
round-draining tick r p c = ((p, refl), c)
round-draining (interface_changed i) r p c = ((p, refl), c)

hangs :
    (es : List Event) (r : Reconciler)
    → r.phase ≡ draining
    → r.links ≡ closed
    → StaysIn draining r (run es r)
unfolding run
hangs [] r p c = (p, refl)
hangs (e ∷ es) r p c =
    let ((q, same), c') = round-draining e r p c in
    let (last, unchanged) = hangs es (round e draining r) q c' in
    rw (run-first e es r draining p) (last, unchanged ∙ same)

-- When netlink has closed its channel, a goroutine to which the select gives the channel drains
-- forever, whatever turns it takes and whatever else comes, the end of the command included: it never
-- calls Connect again.
pub closed_hangs :
    (es : List Event) (r : Reconciler)
    → r.phase ≡ selecting
    → r.links ≡ closed
    → StaysIn draining r (run (link ∷ es) r)
unfolding round
closed_hangs es r up c =
    rw (run-first link es r selecting up, ap (λ l. run es (take_link l r)) c)
      (hangs es (record r { phase = draining }) refl c)
