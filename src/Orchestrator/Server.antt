-- ===== src/Orchestrator/Server.antt =====
-- server.go: requests are passed on to the manager of the node that they name.
use qcontroller.Base.{
  String, ◌<>◌, ◌≡◌, Bool, Option, none, some, ◌==◌, List, [], ◌∷◌, if◌then◌else◌, Result, ok, err,
  Dict, lookup, insert, map, arith, lookup-insert, Option-cases, inl, inr,
}
use qcontroller.Db.View.{answer}
use qcontroller.Vm.{Info}
use qcontroller.Orchestrator.Remote.{CreateRequest}

-- The interface node.Manager, with what its methods answer.
pub record Manager : Type 0 where
  pub endpoint : String
  pub create : CreateRequest → Option String
  pub start : String → Option String
  pub stop : String → Bool → Option String
  pub remove : String → Option String
  pub info : String → Result String (List Info)

pub data Fault : Type 0 where
  node_not_found : String → Fault
  internal : String → Fault

-- The error event that a failed start sends to the broadcaster.
pub record ErrorEvent : Type 0 where
  pub node : String
  pub message : String
  pub resource : String

-- settings.v1.Node, as far as the server reads it
pub record Node : Type 0 where
  pub name : String
  pub endpoint : String

pub record NodeInfo : Type 0 where
  pub node : String
  pub info : Info

-- NewServer: `connect` is newRemoteNodeManager
unfoldable pub add_nodes :
    (Node → Result String Manager) → List Node → Dict Manager → Result String (Dict Manager)
add_nodes connect [] d = ok d
add_nodes connect (n ∷ ns) d = elim (connect n) [
  | err e ↦ err e
  | ok nm ↦ add_nodes connect ns (insert n.name nm d)
]

unfoldable pub new_server :
    (Node → Result String Manager) → List Node → Result String (Dict Manager)
unfolding add_nodes
new_server connect nodes = add_nodes connect nodes []

-- getNode
unfoldable pub get_node : Dict Manager → String → Result Fault Manager
get_node nodes name = elim (lookup name nodes) [
  | none ↦ err (node_not_found name)
  | some nm ↦ ok nm
]

abbrev report : String → Option String → Option Fault
report context none = none
report context (some e) = some (internal (context <> e))

-- The goroutine of Create and of Start: the events that it sends.
unfoldable pub start_async : Manager → String → String → List ErrorEvent
start_async nm node name = elim (nm.start name) [
  | none ↦ []
  | some e ↦ record { node = node; message = e; resource = name } ∷ []
]

-- Create: its error, and what its goroutine sends if it starts one
unfoldable pub create :
    Dict Manager → String → CreateRequest → Bool → Option Fault × List ErrorEvent
unfolding get_node start_async
create nodes node req and_start = elim (get_node nodes node) [
  | err e ↦ (some e, [])
  | ok nm ↦ elim (nm.create req) [
    | some e ↦ (some (internal ("failed to create: " <> e)), [])
    | none ↦ (none, if and_start then start_async nm node req.name else [])
  ]
]

-- Start
unfoldable pub start : Dict Manager → String → String → Option Fault × List ErrorEvent
unfolding get_node start_async
start nodes node name = elim (get_node nodes node) [
  | err e ↦ (some e, [])
  | ok nm ↦ (none, start_async nm node name)
]

-- Stop
unfoldable pub stop : Dict Manager → String → String → Bool → Option Fault
unfolding get_node
stop nodes node name force = elim (get_node nodes node) [
  | err e ↦ some e
  | ok nm ↦ report "failed to stop: " (nm.stop name force)
]

-- Remove
unfoldable pub remove : Dict Manager → String → String → Option Fault
unfolding get_node
remove nodes node name = elim (get_node nodes node) [
  | err e ↦ some e
  | ok nm ↦ report "failed to remove: " (nm.remove name)
]

abbrev tag : String → Info → NodeInfo
tag node info = record { node = node; info = info }

-- Info
unfoldable pub info : Dict Manager → String → String → Result Fault (List NodeInfo)
unfolding get_node
info nodes node name = elim (get_node nodes node) [
  | err e ↦ err e
  | ok nm ↦ elim (nm.info name) [
    | err e ↦ err (internal ("failed to get info: " <> e))
    | ok infos ↦ ok (map (tag node) infos)
  ]
]

-- ListNodes, in the order of the dictionary
unfoldable pub list_nodes : Dict Manager → List Node
list_nodes [] = []
list_nodes ((name, nm) ∷ d) = record { name = name; endpoint = nm.endpoint } ∷ list_nodes d

-- The last configured node of a name.
abbrev pub configured : List Node → String → Option Node
configured [] name = none
configured (n ∷ ns) name = elim (configured ns name) [
  | some m ↦ some m
  | none ↦ if n.name == name then some n else none
]

abbrev pub connected :
    (Node → Result String Manager) → Option Node → Option Manager → Option Manager
connected connect none o = o
connected connect (some n) o = elim (connect n) [ ok nm ↦ some nm | err _ ↦ none ]

add_nodes-lookup :
    (connect : Node → Result String Manager) (ns : List Node) (d s : Dict Manager) (name : String)
    → add_nodes connect ns d ≡ ok s
    → lookup name s ≡ connected connect (configured ns name) (lookup name d)
unfolding add_nodes
add_nodes-lookup connect [] d s name h = ground (arith, h)
add_nodes-lookup connect (n ∷ ns) d s name h = elim (Option-cases (answer (connect n))) [
  | inl e ↦ absurd (ground (arith, e))
  | inr (nm, e) ↦ ground (
    arith,
    e,
    add_nodes-lookup connect ns (insert n.name nm d) s name,
    lookup-insert name n.name nm d,
  )
]

-- A server that has started passes the requests for a name on to the manager that connecting to
-- the last node configured under that name gave, and refuses those for any other name.
pub new_server-get_node :
    (connect : Node → Result String Manager) (ns : List Node) (s : Dict Manager) (name : String)
    → new_server connect ns ≡ ok s
    → get_node s name ≡ (elim (connected connect (configured ns name) none) [
      | none ↦ err (node_not_found name)
      | some nm ↦ ok nm
    ])
unfolding new_server get_node lookup
new_server-get_node connect ns s name h = ground (arith, add_nodes-lookup connect ns [] s name h)
