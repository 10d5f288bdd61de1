-- ===== src/Vm.antt =====
-- The messages of schema/protos/vm, services/controller and settings that the program keeps.
use qcontroller.Base.{ℕ, String, Option, List, Bool, true, false}

-- vm.statemachine.v1.State
pub data State : Type 0 where
  unspecified starting running requesting_stop stopped unknown : State

pub State-discrete : Discrete State
State-discrete = hlevel

abbrev pub is_stopped : State → Bool
is_stopped stopped = true
is_stopped _ = false

abbrev pub is_running : State → Bool
is_running running = true
is_running _ = false

-- `State.String()`
unfoldable pub state_name : State → String
state_name unspecified = "STATE_UNSPECIFIED"
state_name starting = "STATE_STARTING"
state_name running = "STATE_RUNNING"
state_name requesting_stop = "STATE_REQUESTINGSTOP"
state_name stopped = "STATE_STOPPED"
state_name unknown = "STATE_UNKNOWN"

-- `a == b` on two states
abbrev pub same_state : State → State → Bool
same_state unspecified unspecified = true
same_state starting starting = true
same_state running running = true
same_state requesting_stop requesting_stop = true
same_state stopped stopped = true
same_state unknown unknown = true
same_state _ _ = false

pub record CloudInit : Type 0 where
  pub userdata : String
  pub network_config : String

-- settings.v1.VM
pub record Hardware : Type 0 where
  pub cpus : ℕ
  pub memory : ℕ
  pub disk : ℕ

-- vm.statemachine.v1.Instance; a pointer field that may be nil is an `Option`
pub record Instance : Type 0 where
  pub id : String
  pub hardware : Option Hardware
  pub hwaddr : Option String
  pub image_id : String
  pub state : State
  pub cloudinit : Option CloudInit
  pub node : String

-- settings.v1: DiskStats and MemoryStats
pub record DiskStats : Type 0 where
  pub total_bytes : ℕ
  pub used_bytes : ℕ

pub record MemoryStats : Type 0 where
  pub total_memory : ℕ
  pub available_memory : ℕ
  pub free_memory : ℕ
  pub disk_caches : ℕ

-- vm.runtime.v1.RuntimeInfo
pub record RuntimeInfo : Type 0 where
  pub name : String
  pub memory_stats : Option MemoryStats
  pub disk_stats : Option DiskStats
  pub ipaddresses : List String

-- services.controller.v1: Info with its VMSpec and VMStatus
pub record Spec : Type 0 where
  pub vm : Option Hardware
  pub image : String
  pub cloud_init : Option CloudInit

pub record Status : Type 0 where
  pub state : String
  pub hwaddr : String
  pub runtime : Option RuntimeInfo

pub record Info : Type 0 where
  pub name : String
  pub spec : Option Spec
  pub status : Option Status
