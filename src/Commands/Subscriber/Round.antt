-- ===== src/Commands/Subscriber/Round.antt =====
-- What a round of the subscription passes on, and what it misses.
use qcontroller.Base.{String, Bool, true, Option, List, [], ◌∷◌, ◌++◌, map}
use qcontroller.Vm.{Info}
use qcontroller.Events.Publisher.{Update}
use qcontroller.Commands.Subscriber.{
  NodeEvent, Phase, Input, answered, subscribed, published, received, registered, Feed, passed_on,
}

-- The calls of bc.Send for updates; those that are nil are left out.
abbrev pub all_passed_on : String → List (Option Update) → List NodeEvent
all_passed_on node [] = []
all_passed_on node (m ∷ ms) = passed_on node m ++ all_passed_on node ms

-- One Recv for each message.
abbrev pub all_received : List (Option Update) → List Input
all_received [] = []
all_received (m ∷ ms) = received ∷ all_received ms

abbrev feed : Phase → Bool → List (Option Update) → List NodeEvent → Feed
feed phase reg stream calls = record {
  phase = phase;
  is_registered = reg;
  stream = stream;
  send_calls = calls;
}

-- Behind the registration, `vs` are published and received.
abbrev behind : List (Option Update) → List Input
behind vs = registered ∷ (map published vs ++ all_received vs)

-- A round in which the infos were answered, then `us` were published, then Subscribe succeeded, then
-- `ts` were published, then the node registered the stream, and then `vs` were published and received.
abbrev pub round :
    Option (List Info)
    → List (Option Update)
    → List (Option Update)
    → List (Option Update)
    → List Input
round infos us ts vs =
    answered infos
    ∷ (map published us
        ++ (subscribed true
            ∷ (map published ts ++ (registered ∷ (map published vs ++ all_received vs)))))
