-- ===== src/Process/Info.antt =====
-- What process.go asks of a running instance: executeQMPCommand, the MAC and IP addresses, the
-- statistics, and Info over them; and Stop. `send` is the lifecycle loop's answer to a command,
-- `prepare` stands for the generated Prepare functions, and a `Return` has what json.Unmarshal makes
-- of the bytes for each of the types they are read as, none if it fails.
pub mod Answers
use qcontroller.Base.{
  ℕ, ◌%◌, ◌^◌, String, ◌<>◌, ◌==◌, Bool, true, false, not, ◌&&◌, if◌then◌else◌, eqb, Option, none,
  some, List, [], ◌∷◌, Result, ok, err, ◌>>=◌, ◌>>◌,
}
use qcontroller.Vm.{RuntimeInfo, MemoryStats, DiskStats}
use qcontroller.Process.Loop.{Answer, executed, instance_not_running, RequestKind, Action}
use qcontroller.Process.Loop

pub data Request : Type 0 where
  system_powerdown : Request
  qom_list : (path : String) → Request
  qom_get : (path property : String) → Request
  query_block : Request

-- qapi.ObjectPropertyInfo
pub record Property : Type 0 where
  pub name : String
  pub kind : String

-- qapi.ImageInfo, as far as parseBlockInfo reads it
pub record ImageInfo : Type 0 where
  pub format : String
  pub virtual_size : ℕ
  pub actual_size : Option ℕ

-- The wrapper of parseGuestStats
pub record GuestStats : Type 0 where
  pub total_memory : ℕ
  pub available_memory : ℕ
  pub free_memory : ℕ
  pub disk_caches : ℕ
  pub last_update : ℕ

-- A block's entry is none where `Inserted` is nil.
pub record Return : Type 0 where
  pub properties : Option (List Property)
  pub text : Option String
  pub blocks : Option (List (Option ImageInfo))
  pub guest_stats : Option GuestStats

-- The first property with the name "mac"
abbrev pub find_mac : List Property → Result String Property
find_mac [] = err "mac property not found"
find_mac (p ∷ ps) = if p.name == "mac" then ok p else find_mac ps

abbrev pub of_kind_str : Property → Result String (Unit {0})
of_kind_str p = if p.kind == "str" then ok tt else err "unexpected mac property type"

abbrev pub unmarshalled {ℓ} : {A : Type ℓ} → Option A → Result String A
unmarshalled none = err "failed to unmarshal"
unmarshalled (some a) = ok a

-- parseGuestStats
unfoldable pub parse_guest_stats : Return → Option MemoryStats
parse_guest_stats r = elim r.guest_stats [
  | none ↦ none
  | some g ↦
      if eqb g.last_update 0
      then none
      else some (record {
        total_memory = g.total_memory;
        available_memory = g.available_memory;
        free_memory = g.free_memory;
        disk_caches = g.disk_caches;
      })
]

abbrev pub disk_of : ImageInfo → Option DiskStats
disk_of img = elim img.actual_size [
  | none ↦ none
  | some used ↦
      if img.format == "qcow2"
      then some (record { total_bytes = img.virtual_size % 2 ^ 64; used_bytes = used % 2 ^ 64 })
      else none
]

-- The loop of parseBlockInfo.
abbrev pub first_disk : List (Option ImageInfo) → Option DiskStats
first_disk [] = none
first_disk (none ∷ blocks) = first_disk blocks
first_disk (some img ∷ blocks) = elim (disk_of img) [ none ↦ first_disk blocks | some d ↦ some d ]

-- parseBlockInfo
unfoldable pub parse_block_info : Return → Option DiskStats
parse_block_info r = elim r.blocks [ none ↦ none | some blocks ↦ first_disk blocks ]

abbrev pub virtio_path : String → String
virtio_path id = "/machine/peripheral/" <> (id <> "/virtio-backend")

module _ (prepare : Request → Result String String) (send : String → RequestKind → String → Answer)
    (get : String → Option Return) where
  abbrev pub answer_of : Answer → Result String String
  answer_of (executed r) = r
  answer_of instance_not_running = err "instance is not running"

  abbrev pub got : Option Return → Result String Return
  got none = err "timeout or empty response from QMP command"
  got (some r) = ok r

  -- executeQMPCommand; `get` is the wait for the return value, none if there is none in time.
  abbrev pub execute_qmp_command : String → String → Result String Return
  execute_qmp_command id req = answer_of (send id Loop.qmp req) >>= λ result. got (get result)

  abbrev pub asked : String → Request → Result String Return
  asked id req = prepare req >>= λ text. execute_qmp_command id text

  -- getMacAddressForInstance
  unfoldable pub mac_address : String → Result String String
  mac_address id = asked id (qom_list (virtio_path id)) >>= λ listed.
      unmarshalled listed.properties >>= find_mac >>= of_kind_str >>= λ _.
      asked id (qom_get (virtio_path id) "mac") >>= λ value. unmarshalled value.text

  -- getDiskStatsForInstance and getMemoryStatsForInstance
  abbrev pub stats_of {ℓ} : {A : Type ℓ} → (Return → Option A) → Result String Return → Option A
  stats_of parse (err e) = none
  stats_of parse (ok r) = parse r

  abbrev pub disk_stats : String → Option DiskStats
  disk_stats id = stats_of parse_block_info (asked id query_block)

  abbrev pub memory_stats : String → Option MemoryStats
  memory_stats id =
      stats_of parse_guest_stats
        (asked id (qom_get ("/machine/peripheral/balloon-" <> id) "guest-stats"))

  module _ {κ} {Ip : Type κ} (resolve : String → Result String Ip) (ip_string : Ip → String) where
    abbrev pub resolved : Result String Ip → List String
    resolved (err e) = []
    resolved (ok ip) = ip_string ip ∷ []

    -- getIPAddressesForInstance: a MAC that the resolver does not know is no error.
    unfoldable pub ip_addresses : String → Result String (List String)
    unfolding mac_address
    ip_addresses id = mac_address id >>= λ mac. ok (resolved (resolve mac))

    abbrev pub or_empty : Result String (List String) → List String
    or_empty (err e) = []
    or_empty (ok ips) = ips

    unfoldable pub runtime_info : String → RuntimeInfo
    unfolding ip_addresses
    runtime_info id = record {
      name = id;
      memory_stats = memory_stats id;
      disk_stats = disk_stats id;
      ipaddresses = or_empty (ip_addresses id);
    }

    -- Info
    unfoldable pub info : List String → List RuntimeInfo
    unfolding runtime_info
    info [] = []
    info (id ∷ ids) = runtime_info id ∷ info ids

-- Stop: what it hands to the lifecycle loop, if it gets so far.
pub record StopRequest : Type 0 where
  pub id : String
  pub force : Bool

unfoldable pub stop_action : (Request → Result String String) → StopRequest → Result String Action
stop_action prepare req =
    if req.force
    then ok (Action.force_stop req.id)
    else (prepare system_powerdown >>= λ text. ok (Action.command req.id Loop.qmp text))
