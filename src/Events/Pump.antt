-- ===== src/Events/Pump.antt =====
-- NewEventPublisher of src/pkg/events/eventpublisher.go: the goroutine that sends what is queued to the
-- event service, over a stream that it opens again when it breaks.
pub mod Order
use qcontroller.Base.{ℕ, Bool, true, false, Option, none, some, List, [], ◌∷◌, ◌++◌, if◌then◌else◌}
use qcontroller.Events.Publisher.{Publisher, Update, QueueFull, publish}

-- Where the goroutine is: it opens a stream, waits after a refusal, sends, waits after a break, or has
-- returned.
pub data Phase : Type 0 where
  connecting retrying sending backing_off returned : Phase

-- What happens next: a method publishes an update, `cli.Publish` answers, the timer or the context
-- fires, or the loop takes an event of the channel, which Send takes or not.
pub data Input : Type 0 where
  offered : Update → Input
  stream_open stream_refused elapsed cancelled : Input
  taken : Bool → Input

-- The publisher, the phase, and what was given to Send, with whether it returned nil.
pub record Pump : Type 0 where
  pub publisher : Publisher
  pub phase : Phase
  pub log : List (Update × Bool)

-- NewEventPublisher, with its channel of 100 places
unfoldable pub new_event_publisher : Pump
new_event_publisher = record {
  publisher = record { queue = []; capacity = 100; cache = [] };
  phase = connecting;
  log = [];
}

-- The loop over the channel: a Send that fails breaks the stream, and the event is not kept.
abbrev pub send_next : Bool → Pump → List Update → Pump
send_next sent p [] = p
send_next sent p (u ∷ rest) = record p {
  publisher = record p.publisher { queue = rest };
  phase = if sent then sending else backing_off;
  log = p.log ++ (u, sent) ∷ [];
}

abbrev pub on_phase : Input → Pump → Phase → Pump
on_phase stream_open p connecting = record p { phase = sending }
on_phase stream_refused p connecting = record p { phase = retrying }
on_phase elapsed p retrying = record p { phase = connecting }
on_phase cancelled p retrying = record p { phase = returned }
on_phase (taken sent) p sending = send_next sent p p.publisher.queue
on_phase cancelled p sending = record p { phase = returned }
on_phase elapsed p backing_off = record p { phase = connecting }
on_phase cancelled p backing_off = record p { phase = returned }
on_phase _ p _ = p

-- One input; none that the goroutine does not wait for changes anything.
unfoldable pub advance : Input → Pump → Pump
advance (offered u) p = record p { publisher = (publish u p.publisher).0 }
advance stream_open p = on_phase stream_open p p.phase
advance stream_refused p = on_phase stream_refused p p.phase
advance elapsed p = on_phase elapsed p p.phase
advance cancelled p = on_phase cancelled p p.phase
advance (taken sent) p = on_phase (taken sent) p p.phase

unfoldable pub run : List Input → Pump → Pump
unfolding advance
run [] p = p
run (i ∷ is) p = run is (advance i p)
