-- ===== src/Commands/Subscriber.antt =====
-- src/qcontrollerd/cmd/node_subscriber.go: the goroutine that passes the events of a node on to the
-- broadcaster of the orchestrator, with the node's event service on the other side of its stream.
pub mod Round
use qcontroller.Base.{
  ℕ, String, Bool, true, false, Option, none, some, List, [], ◌∷◌, ◌++◌, map, if◌then◌else◌,
}
use qcontroller.Vm.{Info}
use qcontroller.Events.Publisher.{Update, vm_event, vm_updated_type}

-- orchestrator.v1.Event
pub record NodeEvent : Type 0 where
  pub node : String
  pub update : Update

-- Where the goroutine is: it asks for the infos, subscribes, receives, waits for two seconds, or has
-- returned.
pub data Phase : Type 0 where
  seeding subscribing receiving waiting returned : Phase

-- Info answers, Subscribe answers, the event service of the node registers the stream, the node
-- publishes an update (that may be nil), Recv gives the next message or an error, the timer or the
-- context fires.
pub data Input : Type 0 where
  answered : Option (List Info) → Input
  subscribed : Bool → Input
  published : Option Update → Input
  registered received broken elapsed cancelled : Input

-- The phase, whether the node has registered the stream of the call of Subscribe, what the stream
-- holds, and the calls of bc.Send so far; the broadcaster drops an event for which it has no room.
pub record Feed : Type 0 where
  pub phase : Phase
  pub is_registered : Bool
  pub stream : List (Option Update)
  pub send_calls : List NodeEvent

-- seedNodeState: its calls of bc.Send
unfoldable pub seed_node_state : String → Option (List Info) → List NodeEvent
seed_node_state node none = []
seed_node_state node (some infos) =
    map
      (λ info. record {
        node = node;
        update = record { timestamp = 0; payload = vm_event vm_updated_type info };
      })
      infos

-- The call of bc.Send, where the update is not nil
abbrev pub passed_on : String → Option Update → List NodeEvent
passed_on node none = []
passed_on node (some u) = record { node = node; update = u } ∷ []

abbrev receive : String → Feed → List (Option Update) → Feed
receive node f [] = f
receive node f (m ∷ rest) = record f {
  stream = rest;
  send_calls = f.send_calls ++ passed_on node m;
}

abbrev pub deliver : Option Update → Feed → Feed
deliver m f = if f.is_registered then record f { stream = f.stream ++ m ∷ [] } else f

-- An input in a phase; none that the goroutine does not wait for changes anything. The node may
-- register the stream before or after Subscribe has answered here.
unfoldable pub subscribe_to_node_events : String → Input → Phase → Feed → Feed
unfolding seed_node_state
subscribe_to_node_events node (answered a) seeding f = record f {
  phase = subscribing;
  is_registered = false;
  stream = [];
  send_calls = f.send_calls ++ seed_node_state node a;
}
subscribe_to_node_events node cancelled seeding f = record f { phase = returned }
subscribe_to_node_events node (subscribed ok) subscribing f =
    if ok then record f { phase = receiving } else record f { phase = waiting }
subscribe_to_node_events node registered subscribing f = record f { is_registered = true }
subscribe_to_node_events node registered receiving f = record f { is_registered = true }
subscribe_to_node_events node (published m) subscribing f = deliver m f
subscribe_to_node_events node (published m) receiving f = deliver m f
subscribe_to_node_events node received receiving f = receive node f f.stream
subscribe_to_node_events node broken receiving f = record f { phase = waiting }
subscribe_to_node_events node elapsed waiting f = record f { phase = seeding }
subscribe_to_node_events node cancelled waiting f = record f { phase = returned }
subscribe_to_node_events node _ _ f = f

unfoldable pub run : String → List Input → Feed → Feed
run node [] f = f
run node (i ∷ is) f = run node is (subscribe_to_node_events node i f.phase f)
