-- ===== src/Process/Service.antt =====
-- Start, List, Remove and reattachOnStartup of process.go. The file system,
-- the network manager, the image client and package qemu are a `Host`; an instance is a number, and
-- the platform and the binaries, which are copied from the settings, are left out.
pub mod Start
pub mod Alive
use qcontroller.Base.{
  String, ◌<>◌, ℕ, Bool, true, false, not, ◌&&◌, Option, none, some, ◌==◌, eqb, List, [], ◌∷◌,
  if◌then◌else◌, Result, ok, err,
}
use qcontroller.Vm.{CloudInit, Hardware}
use qcontroller.LocalManager.{StartRequest}

-- qemu.Config with its CloudInitConfig
pub record QemuConfig : Type 0 where
  pub hardware : Hardware
  pub hwaddr : String
  pub userdata : String
  pub network_config : String

-- What os.Stat says of the image: only an error that is os.IsNotExist starts a download.
pub data Stat : Type 0 where
  present is_not_exist stat_error : Stat

pub record Entry : Type 0 where
  pub name : String
  pub is_dir : Bool

pub record Host : Type 0 where
  pub make_dir : String → Option String
  pub stat_image : String → Stat
  pub download : String → String → Option String
  pub finalize : String → Option String
  pub network : Option (String → Option String)
  pub platform : Option String
  pub start_qemu : String → QemuConfig → Result String ℕ
  pub read_dir : Result String (List Entry)
  pub pidfile : String → Option ℕ
  pub alive : ℕ → Bool
  pub attach : String → ℕ → Result String ℕ
  pub remove_all : String → Option String

pub data Failure : Type 0 where
  already_exists failed_precondition : String → Failure
  internal : String → Failure

abbrev pub has_id : String → List String → Bool
has_id id [] = false
has_id id (x ∷ xs) = if x == id then true else has_id id xs

abbrev pub as_config : StartRequest → QemuConfig
as_config req = elim req.cloud_init [
  | none ↦ record { hardware = req.hardware; hwaddr = req.mac; userdata = ""; network_config = "" }
  | some ci ↦ record {
    hardware = req.hardware;
    hwaddr = req.mac;
    userdata = ci.userdata;
    network_config = ci.network_config;
  }
]

-- The download to a temporary file and its renaming.
abbrev fetch : Host → StartRequest → Option Failure
fetch h req = elim (h.download req.image_id req.id) [
  | some e ↦ some (internal ("failed to download image: " <> e))
  | none ↦ elim (h.finalize req.id) [
    | some e ↦ some (internal ("failed to finalize image: " <> e))
    | none ↦ none
  ]
]

abbrev ensure_image : Host → StartRequest → Option Failure
ensure_image h req = elim (h.stat_image req.id) [
  | is_not_exist ↦ fetch h req
  | present ↦ none
  | stat_error ↦ none
]

-- CreateInterface, if there is a network manager; a failed RemoveInterface is only logged.
abbrev pub ensure_interface : Host → String → Option Failure
ensure_interface h id = elim h.network [
  | none ↦ none
  | some create_interface ↦ elim (create_interface id) [
    | some e ↦ some (internal ("method Start failed: " <> e))
    | none ↦ none
  ]
]

unfoldable pub launch : Host → StartRequest → Result Failure ℕ
launch h req = elim h.platform [
  | some e ↦ err (internal ("failed to build platform config: " <> e))
  | none ↦ elim (h.start_qemu req.id (as_config req)) [
    | err e ↦ err (internal ("method Start failed: " <> e))
    | ok i ↦ ok i
  ]
]

-- Start, given the ids that are starting: the instance that it sends to the lifecycle loop under
-- the id of the request, or its error. The id is starting until the method returns.
unfoldable pub start : Host → List String → StartRequest → Result Failure ℕ
unfolding launch
start h starting req =
    if has_id req.id starting
    then err (already_exists ("instance " <> req.id <> " is already starting"))
    else (elim (h.make_dir req.id) [
      | some e ↦ err (internal ("failed to create instance dir: " <> e))
      | none ↦ elim (ensure_image h req) [
        | some e ↦ err e
        | none ↦ elim (ensure_interface h req.id) [ some e ↦ err e | none ↦ launch h req ]
      ]
    ])

abbrev is_alive : Host → Option ℕ → Bool
is_alive h none = false
is_alive h (some pid) = h.alive pid

abbrev pub list_entries : Host → List Entry → List String
list_entries h [] = []
list_entries h (e ∷ es) =
    let rest = list_entries h es in
    if e.is_dir && is_alive h (h.pidfile e.name) then e.name ∷ rest else rest

-- List
unfoldable pub list : Host → Result Failure (List String)
list h = elim h.read_dir [
  | err e ↦ err (internal ("failed to read instances dir: " <> e))
  | ok entries ↦ ok (list_entries h entries)
]

-- Remove
unfoldable pub remove : Host → String → Option Failure
remove h id =
    if is_alive h (h.pidfile id)
    then some (failed_precondition ("instance " <> id <> " is still running"))
    else (elim (h.remove_all id) [
      | some e ↦ some (internal ("failed to remove instance dir: " <> e))
      | none ↦ none
    ])

abbrev attach_alive : Host → String → ℕ → List (String × ℕ) → List (String × ℕ)
attach_alive h id pid rest =
    if h.alive pid then (elim (h.attach id pid) [ err _ ↦ rest | ok i ↦ (id, i) ∷ rest ]) else rest

abbrev attach_entry : Host → Entry → List (String × ℕ) → List (String × ℕ)
attach_entry h e rest =
    if e.is_dir
    then (elim (h.pidfile e.name) [ none ↦ rest | some pid ↦ attach_alive h e.name pid rest ])
    else rest

abbrev pub reattach_entries : Host → List Entry → List (String × ℕ)
reattach_entries h [] = []
reattach_entries h (e ∷ es) = attach_entry h e (reattach_entries h es)

-- reattachOnStartup: the instances that it sends to the lifecycle loop
unfoldable pub reattach : Host → List (String × ℕ)
reattach h = elim h.read_dir [ err _ ↦ [] | ok entries ↦ reattach_entries h entries ]
