-- ===== src/Events/Pump/Order.antt =====
-- What reaches the event service, and in which order.
use qcontroller.Base.{
  ℕ, ◌+◌, ◌≤◌, ◌≡◌, refl, sym, ◌∙◌, ap, arith, Bool, true, false, Option, none, some, List, [], ◌∷◌,
  ◌++◌, if◌then◌else◌, map, ltb, length, Bool-cases, inl, inr,
}
use mathlib.Core.List.{append-nil, append_assoc, map-append}
use qcontroller.Events.Publisher.{Publisher, Update, QueueFull, publish}
use qcontroller.Events.Pump.{
  Phase, connecting, retrying, sending, backing_off, returned, Input, offered, stream_open,
  stream_refused, elapsed, cancelled, taken, Pump, send_next, on_phase, advance, run,
  new_event_publisher,
}

abbrev if_queued : Update → Option QueueFull → List Update
if_queued u none = u ∷ []
if_queued u (some e) = []

abbrev accepted_by : Input → Pump → List Update
accepted_by (offered u) p = if_queued u (publish u p.publisher).1
accepted_by stream_open p = []
accepted_by stream_refused p = []
accepted_by elapsed p = []
accepted_by cancelled p = []
accepted_by (taken sent) p = []

-- The updates for which publish returned nil, in order.
abbrev pub accepted : List Input → Pump → List Update
accepted [] p = []
accepted (i ∷ is) p = accepted_by i p ++ accepted is (advance i p)

-- The number of the updates that Send has not taken.
abbrev pub lost : List (Update × Bool) → ℕ
lost [] = 0
lost ((u, sent) ∷ log) = (if sent then 0 else 1) + lost log

-- What an input opens.
abbrev opens : Input → ℕ
opens stream_open = 1
opens _ = 0

-- The streams that were opened.
abbrev pub opened : List Input → ℕ
opened [] = 0
opened (i ∷ is) = opens i + opened is

-- What was given to Send, and what waits in the channel.
abbrev pub seen : Pump → List Update
seen p = map (λ x. x.0) p.log ++ p.publisher.queue

seen-publish :
    (log : List (Update × Bool)) (u : Update) (q : Publisher)
    → map (λ x. x.0) log ++ (publish u q).0.queue
      ≡ (map (λ x. x.0) log ++ q.queue) ++ if_queued u (publish u q).1
unfolding publish
seen-publish log u q = elim (Bool-cases (ltb (length q.queue) q.capacity)) [
  | inl e ↦ rw e (sym (append_assoc (map (λ x. x.0) log) q.queue (u ∷ [])))
  | inr e ↦ rw e (sym (append-nil (map (λ x. x.0) log ++ q.queue)))
]

seen-send_next :
    (sent : Bool) (p : Pump) (queue : List Update)
    → p.publisher.queue ≡ queue
    → seen (send_next sent p queue) ≡ seen p
seen-send_next sent p [] e = refl
seen-send_next sent p (u ∷ rest) e =
    ap (λ l. l ++ rest) (map-append (λ x. x.0) p.log ((u, sent) ∷ []))
    ∙ append_assoc (map (λ x. x.0) p.log) (u ∷ []) rest
    ∙ ap (λ l. map (λ x. x.0) p.log ++ l) (sym e)

lost-append :
    (log : List (Update × Bool)) (u : Update) (sent : Bool)
    → lost (log ++ (u, sent) ∷ []) ≡ lost log + (if sent then 0 else 1)
lost-append [] u sent = ground arith
lost-append ((v, s) ∷ log) u sent = ground (arith, lost-append log u sent)

abbrev is_sending : Phase → ℕ
is_sending sending = 1
is_sending _ = 0

seen-on_phase : (i : Input) (p : Pump) (ph : Phase) → p.phase ≡ ph → seen (on_phase i p ph) ≡ seen p
seen-on_phase (taken sent) p sending e = seen-send_next sent p p.publisher.queue refl
seen-on_phase (taken sent) p connecting e = refl
seen-on_phase (taken sent) p retrying e = refl
seen-on_phase (taken sent) p backing_off e = refl
seen-on_phase (taken sent) p returned e = refl
seen-on_phase stream_open p ph e = ground (arith)
seen-on_phase stream_refused p ph e = ground (arith)
seen-on_phase elapsed p ph e = ground (arith)
seen-on_phase cancelled p ph e = ground (arith)
seen-on_phase (offered u) p ph e = ground (arith)

seen-advance : (i : Input) (p : Pump) → seen (advance i p) ≡ seen p ++ accepted_by i p
unfolding advance
seen-advance (offered u) p = seen-publish p.log u p.publisher
seen-advance stream_open p = seen-on_phase stream_open p p.phase refl ∙ sym (append-nil (seen p))
seen-advance stream_refused p =
    seen-on_phase stream_refused p p.phase refl ∙ sym (append-nil (seen p))
seen-advance elapsed p = seen-on_phase elapsed p p.phase refl ∙ sym (append-nil (seen p))
seen-advance cancelled p = seen-on_phase cancelled p p.phase refl ∙ sym (append-nil (seen p))
seen-advance (taken sent) p = seen-on_phase (taken sent) p p.phase refl ∙ sym (append-nil (seen p))

seen-run : (is : List Input) (p : Pump) → seen (run is p) ≡ seen p ++ accepted is p
unfolding run
seen-run [] p = sym (append-nil (seen p))
seen-run (i ∷ is) p =
    seen-run is (advance i p)
    ∙ ap (λ l. l ++ accepted is (advance i p)) (seen-advance i p)
    ∙ append_assoc (seen p) (accepted_by i p) (accepted is (advance i p))

lost-send_next :
    (sent : Bool) (p : Pump) (queue : List Update)
    → p.phase ≡ sending
    → lost (send_next sent p queue).log + is_sending (send_next sent p queue).phase ≤ lost p.log + 1
lost-send_next sent p [] e = ground (arith, e)
lost-send_next true p (u ∷ rest) e = omega (arith, lost-append p.log u true)
lost-send_next false p (u ∷ rest) e = omega (arith, lost-append p.log u false)

lost-on_phase :
    (i : Input) (p : Pump) (ph : Phase)
    → p.phase ≡ ph
    → lost (on_phase i p ph).log + is_sending (on_phase i p ph).phase
      ≤ lost p.log + is_sending ph + opens i
lost-on_phase (taken sent) p sending e = omega (arith, lost-send_next sent p p.publisher.queue e)
lost-on_phase (taken sent) p connecting e = ground (arith, e)
lost-on_phase (taken sent) p retrying e = ground (arith, e)
lost-on_phase (taken sent) p backing_off e = ground (arith, e)
lost-on_phase (taken sent) p returned e = ground (arith, e)
lost-on_phase stream_open p ph e = ground (arith, e)
lost-on_phase stream_refused p ph e = ground (arith, e)
lost-on_phase elapsed p ph e = ground (arith, e)
lost-on_phase cancelled p ph e = ground (arith, e)
lost-on_phase (offered u) p ph e = ground (arith, e)

lost-advance :
    (i : Input) (p : Pump)
    → lost (advance i p).log + is_sending (advance i p).phase
      ≤ lost p.log + is_sending p.phase + opens i
unfolding advance
lost-advance (offered u) p = omega arith
lost-advance stream_open p = lost-on_phase stream_open p p.phase refl
lost-advance stream_refused p = lost-on_phase stream_refused p p.phase refl
lost-advance elapsed p = lost-on_phase elapsed p p.phase refl
lost-advance cancelled p = lost-on_phase cancelled p p.phase refl
lost-advance (taken sent) p = lost-on_phase (taken sent) p p.phase refl

lost-run :
    (is : List Input) (p : Pump)
    → lost (run is p).log + is_sending (run is p).phase
      ≤ lost p.log + is_sending p.phase + opened is
unfolding run
lost-run [] p = omega arith
lost-run (i ∷ is) p = omega (arith, lost-run is (advance i p), lost-advance i p)

-- Whatever happens to the streams and whenever the updates come: the updates for which publish
-- returned nil are, in this order, those given to Send, once each, and behind them those that wait in
-- the channel; and Send has failed for at most one update of each stream that was opened.
pub run-accepted :
    (is : List Input)
    → (let p = run is new_event_publisher in
        (accepted is new_event_publisher ≡ map (λ x. x.0) p.log ++ p.publisher.queue)
        × (lost p.log ≤ opened is))
unfolding new_event_publisher
run-accepted is =
    let start = new_event_publisher in (sym (seen-run is start), omega (arith, lost-run is start))
