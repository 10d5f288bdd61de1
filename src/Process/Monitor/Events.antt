-- ===== src/Process/Monitor/Events.antt =====
-- What an event says about an instance, and the reasons for its socket to be ready.
use qcontroller.Base.{◌≡◌, String, true, false, none, some, List, ◌∷◌}
use qcontroller.Process.Monitor.{
  Step, Message, InstanceMessage, Generic, QapiResult, greets, returns,
}

-- The step sends a ping with this id to the instance.
abbrev pub Pings : Step → String → String → Type 0
Pings s id name =
    (m : InstanceMessage) × ((s.instance_message ≡ some m)
      × ((m.is_add ≡ true) × ((m.instance_name ≡ name) × (s.ping ≡ some id))))

pub data Asked (id name : String) : List Step → Type 0 where
  now : {s : Step} {past : List Step} → Pings s id name → Asked id name (s ∷ past)
  before : {s : Step} {past : List Step} → Asked id name past → Asked id name (s ∷ past)

-- The step's message is a greeting of the instance with a version that is not zero, and the
-- instance has returned from qmp_capabilities.
abbrev pub Negotiates : Step → String → Type 0
Negotiates s name =
    (m : Message) × (g : Generic) × ((s.message ≡ some m)
      × ((m.instance_name ≡ name)
          × ((m.generic ≡ some g) × ((greets g ≡ true) × (returns s.capabilities ≡ true)))))

-- The step's message is a result without an error and with this id.
abbrev pub Answers : Step → String → Type 0
Answers s id =
    (m : Message) × (g : Generic) × (r : QapiResult) × ((s.message ≡ some m)
      × ((m.generic ≡ some g) × ((g.result ≡ some r) × ((r.id ≡ id) × (r.has_error ≡ false)))))

abbrev pub Disconnects : Step → String → Type 0
Disconnects s name =
    (m : Message) × ((s.message ≡ some m)
      × ((m.instance_name ≡ name) × ((m.is_generic ≡ true) × (m.generic ≡ none))))

pub data Cause (name : String) : List Step → Type 0 where
  negotiated : {s : Step} {past : List Step} → Negotiates s name → Cause name (s ∷ past)
  answered_ping :
      {s : Step} {past : List Step} {id : String}
      → Asked id name (s ∷ past)
      → Answers s id
      → Cause name (s ∷ past)
  still :
      {s : Step} {past : List Step} → Cause name past → ¬ Disconnects s name → Cause name (s ∷ past)
