-- ===== src/LocalManager.antt =====
-- src/pkg/controller/vm/local_manager.go: the node manager of the local node, over a `State` S.
-- What the QEMU service answers during one operation is a `Qemu`; the calls made to it are kept.
pub mod Store
pub mod Start
pub mod Remove
pub mod Report
pub mod Threads
use qcontroller.Base.{
  String, ◌<>◌, Bool, true, not, Option, none, some, List, [], ◌∷◌, ◌++◌, Result, ok, err,
  if◌then◌else◌, is_empty,
}
use qcontroller.Vm.{
  State, running, starting, stopped, Instance, Hardware, CloudInit, RuntimeInfo, Info, is_stopped,
  same_state, state_name,
}
use qcontroller.Db.{DbErr, no_instance_removed}
use qcontroller.Controller.{StateOps}

-- process.v1.QemuConfig with its NetworkConfig
pub record StartRequest : Type 0 where
  pub id : String
  pub image_id : String
  pub hardware : Hardware
  pub mac : String
  pub cloud_init : Option CloudInit

pub data Call : Type 0 where
  start_call : StartRequest → Call
  stop_call : String → Bool → Call
  remove_call : String → Call
  list_call : Call
  info_call : List String → Call

-- The answers of the QEMU service: an error, or nil or a value. `dial` is that of `grpcutil.Dial`.
pub record Qemu : Type 0 where
  pub dial : Option String
  pub start : StartRequest → Option String
  pub stop : String → Bool → Option String
  pub list : Result String (List String)
  pub info : List String → Result String (List RuntimeInfo)

pub data VmErr : Type 0 where
  already_exists not_found not_stopped no_mac_address : VmErr
  mac_generation rpc : String → VmErr
  database : DbErr → VmErr

-- A returned error or nil, or a nil dereference.
pub data Reply : Type 0 where
  done : Reply
  failed : VmErr → Reply
  panic : Reply

abbrev pub network_yaml : String → String
network_yaml mac =
    "version: 2\nethernets:\n  id0:\n    match:\n      macaddress: " <> mac
    <> "\n    dhcp4: true\n    dhcp-identifier: mac\n"

abbrev pub lacks_network : Option CloudInit → Bool
lacks_network none = true
lacks_network (some c) = is_empty c.network_config

abbrev pub with_network : Option CloudInit → String → CloudInit
with_network none net = record { userdata = ""; network_config = net }
with_network (some c) net = record c { network_config = net }

-- The cloud-init that Start sends: the instance's, or one with a generated network configuration.
unfoldable pub start_cloud_init : Instance → Result VmErr (Option CloudInit)
start_cloud_init inst =
    if lacks_network inst.cloudinit
    then (elim inst.hwaddr [
      | none ↦ err no_mac_address
      | some mac ↦ ok (some (with_network inst.cloudinit (network_yaml mac)))
    ])
    else ok inst.cloudinit

-- The request; `none` is the nil dereference of `inst.Hardware.Cpus` or `*inst.Hwaddr`.
abbrev pub start_request : Instance → Option CloudInit → Option StartRequest
start_request inst ci = elim inst.hardware [
  | none ↦ none
  | some h ↦ elim inst.hwaddr [
    | none ↦ none
    | some mac ↦ some (record {
      id = inst.id;
      image_id = inst.image_id;
      hardware = h;
      mac = mac;
      cloud_init = ci;
    })
  ]
]

unfoldable pub instance_to_info : Instance → Info
instance_to_info inst = record {
  name = inst.id;
  spec = some (record { vm = inst.hardware; image = inst.image_id; cloud_init = inst.cloudinit });
  status = some (record {
    state = state_name inst.state;
    hwaddr = elim inst.hwaddr [ none ↦ "" | some mac ↦ mac ];
    runtime = none;
  });
}

module _ (S : StateOps) where
  pub record World : Type 0 where
    pub store : S.Store
    pub calls : List Call

  abbrev say : Call → World → World
  say c w = record w { calls = w.calls ++ c ∷ [] }

  -- Create; `mac` is the answer of `utils.GenerateRandomMAC`, and `node` is `n.name`.
  unfoldable pub create :
      String
      → Result String String
      → String
      → String
      → Hardware
      → Option CloudInit
      → World
      → World × Reply
  create node mac id image_id hardware cloudinit w = elim (S.get w.store id) [
    | ok _ ↦ (w, failed already_exists)
    | err _ ↦ elim mac [
      | err e ↦ (w, failed (mac_generation e))
      | ok hwaddr ↦
          let (s, e) = S.update w.store (record {
            id = id;
            hardware = some hardware;
            hwaddr = some hwaddr;
            image_id = image_id;
            state = stopped;
            cloudinit = cloudinit;
            node = node;
          }) in
          (record w { store = s }, elim e [ none ↦ done | some x ↦ failed (database x) ])
    ]
  ]

  -- setInstanceState; a failed update is only logged
  unfoldable pub set_instance_state : String → State → S.Store → S.Store
  set_instance_state id state s = elim (S.get s id) [
    | err _ ↦ s
    | ok inst ↦
        if same_state inst.state state then s else (S.update s (record inst { state = state })).0
  ]

  abbrev set_state : String → State → World → World
  set_state id state w = record w { store = set_instance_state id state w.store }

  -- The part of Start behind the request's construction.
  abbrev pub send_start : Qemu → String → Option StartRequest → World → World × Reply
  send_start q id none w = (w, panic)
  send_start q id (some req) w = elim (q.start req) [
    | some e ↦ (set_state id stopped (say (start_call req) w), failed (rpc e))
    | none ↦ (set_state id running (say (start_call req) w), done)
  ]

  abbrev pub dial_start : Qemu → Instance → Option CloudInit → World → World × Reply
  dial_start q inst ci w = elim q.dial [
    | some e ↦ (set_state inst.id stopped w, failed (rpc e))
    | none ↦ send_start q inst.id (start_request inst ci) w
  ]

  unfoldable pub start_found : Qemu → Instance → World → World × Reply
  start_found q inst w =
      if not (is_stopped inst.state)
      then (w, failed not_stopped)
      else (elim (start_cloud_init inst) [
        | err e ↦ (w, failed e)
        | ok ci ↦ dial_start q inst ci (set_state inst.id starting w)
      ])

  -- Start
  unfoldable pub start : Qemu → String → World → World × Reply
  unfolding start_found
  start q name w = elim (S.get w.store name) [
    | err _ ↦ (w, failed not_found)
    | ok inst ↦ start_found q inst w
  ]

  abbrev as_reply : Option String → Reply
  as_reply none = done
  as_reply (some e) = failed (rpc e)

  -- Stop
  unfoldable pub stop : Qemu → String → Bool → World → World × Reply
  stop q name force w = elim q.dial [
    | some e ↦ (w, failed (rpc e))
    | none ↦ (say (stop_call name force) w, as_reply (q.stop name force))
  ]

  -- Failures of the clean-up on the QEMU side are only logged.
  abbrev clean_up : Qemu → String → World → World
  clean_up q name w = elim q.dial [ some _ ↦ w | none ↦ say (remove_call name) w ]

  abbrev remove_reply : Qemu → String → World → Option DbErr → World × Reply
  remove_reply q name w none = (clean_up q name w, done)
  remove_reply q name w (some no_instance_removed) = (w, done)
  remove_reply q name w (some e) = (w, failed (database e))

  -- Remove
  unfoldable pub remove : Qemu → String → World → World × Reply
  remove q name w = elim (S.get w.store name) [
    | err _ ↦ (w, done)
    | ok inst ↦
        if not (is_stopped inst.state)
        then (w, failed not_stopped)
        else (let (s, e) = S.remove w.store name in remove_reply q name (record w { store = s }) e)
  ]
