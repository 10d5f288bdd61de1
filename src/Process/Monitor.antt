-- ===== src/Process/Monitor.antt =====
-- src/pkg/qemu/process/instancemonitor.go: which sockets of QEMU and of the guest agents are ready
-- for commands. The client of the protocol is an argument: a step is one event of its channel, with
-- what the calls made while the event is handled return.
pub mod Events
pub mod Pings
pub mod Causes
pub mod Turns
use qcontroller.Base.{
  ℕ, String, ◌==◌, Bool, true, false, not, ◌&&◌, ◌||◌, if◌then◌else◌, eqb, Option, none, some, List,
  [], ◌∷◌, Result, ok, err, Dict, lookup, insert, delete,
}

-- client.QAPIResult: whether it has an error and a return value
pub record QapiResult : Type 0 where
  pub id : String
  pub has_error : Bool
  pub has_return : Bool

-- qapi.VersionInfo's Qemu
pub record Version : Type 0 where
  pub major : ℕ
  pub minor : ℕ
  pub micro : ℕ

-- The bytes of a message: what json.Unmarshal makes of them as a greeting and as a result, none if
-- it fails.
pub record Generic : Type 0 where
  pub greeting : Option Version
  pub result : Option QapiResult

-- monitor.Message; `is_generic` is its type, MessageGeneric or another.
pub record Message : Type 0 where
  pub instance_name : String
  pub is_generic : Bool
  pub generic : Option Generic

-- monitor.InstanceMessage; `is_add` is its type, InstanceMessageAdd or another.
pub record InstanceMessage : Type 0 where
  pub instance_name : String
  pub is_add : Bool

-- An event of the channel, and the calls that may follow: the id of a guest ping that was prepared
-- and handed over, and the answer to qmp_capabilities, where all the calls have gone well.
pub record Step : Type 0 where
  pub instance_message : Option InstanceMessage
  pub message : Option Message
  pub ping : Option String
  pub capabilities : Option QapiResult

-- The map `ready` and the local map `requests` of the goroutine.
pub record Monitor : Type 0 where
  pub ready : Dict Bool
  pub requests : Dict String

abbrev pub new_monitor : Monitor
new_monitor = record { ready = []; requests = [] }

-- Execute: the client's call is made only for an instance that is ready.
pub data ExecuteError : Type 0 where
  not_ready : ExecuteError
  client_error : String → ExecuteError

abbrev pub by_client {ℓ} : {A : Type ℓ} → Result String A → Result ExecuteError A
by_client (ok a) = ok a
by_client (err e) = err (ExecuteError.client_error e)

unfoldable pub execute {ℓ} :
    {A : Type ℓ} → Monitor → String → Result String A → Result ExecuteError A
unfolding lookup
execute mon name call = elim (lookup name mon.ready) [
  | none ↦ err ExecuteError.not_ready
  | some is_ready ↦ if is_ready then by_client call else err ExecuteError.not_ready
]

-- On the event that an instance was added, a guest ping is sent and its id is kept.
abbrev pub with_ping : String → Option String → Monitor → Monitor
with_ping name none mon = mon
with_ping name (some id) mon = record mon { requests = insert id name mon.requests }

unfoldable pub on_instance : Step → Monitor → Monitor
unfolding insert
on_instance s mon = elim s.instance_message [
  | none ↦ mon
  | some m ↦ if m.is_add then with_ping m.instance_name s.ping mon else mon
]

abbrev pub is_nonzero : Version → Bool
is_nonzero v = (not (eqb v.major 0) || not (eqb v.minor 0)) || not (eqb v.micro 0)

abbrev pub greets : Generic → Bool
greets g = elim g.greeting [ none ↦ false | some v ↦ is_nonzero v ]

abbrev pub returns : Option QapiResult → Bool
returns none = false
returns (some r) = r.has_return

-- The loop that deletes the requests of one instance, over the entries of the map.
unfoldable pub forget : String → Dict String → Dict String → Dict String
unfolding delete
forget name [] requests = requests
forget name ((id, i) ∷ entries) requests =
    forget name entries (if i == name then delete id requests else requests)

abbrev pub negotiated : String → Monitor → Monitor
negotiated name mon = record {
  ready = insert name true mon.ready;
  requests = forget name mon.requests mon.requests;
}

-- A result whose id is that of a ping
abbrev pub answered : QapiResult → Monitor → String → Monitor
answered r mon name = record {
  ready = if r.has_error then mon.ready else insert name true mon.ready;
  requests = delete r.id mon.requests;
}

unfoldable pub on_result : Generic → Monitor → Monitor
unfolding insert lookup delete
on_result g mon = elim g.result [
  | none ↦ mon
  | some r ↦ elim (lookup r.id mon.requests) [ none ↦ mon | some name ↦ answered r mon name ]
]

abbrev pub disconnected : String → Monitor → Monitor
disconnected name mon = record mon { ready = delete name mon.ready }

-- What the goroutine does with a message.
unfoldable pub on_generic : Option QapiResult → String → Generic → Monitor → Monitor
unfolding on_result forget
on_generic capabilities name g mon =
    let other = on_result g mon in
    if greets g && returns capabilities then negotiated name mon else other

unfoldable pub on_message : Step → Monitor → Monitor
unfolding on_generic
on_message s mon = elim s.message [
  | none ↦ mon
  | some m ↦ elim m.generic [
    | none ↦ if m.is_generic then disconnected m.instance_name mon else mon
    | some g ↦ on_generic s.capabilities m.instance_name g mon
  ]
]

-- One round of the goroutine, and its run; the last step stands first.
unfoldable pub handle : Step → Monitor → Monitor
unfolding on_instance on_message
handle s mon = on_message s (on_instance s mon)

unfoldable pub run : List Step → Monitor
unfolding handle
run [] = new_monitor
run (s ∷ past) = handle s (run past)
