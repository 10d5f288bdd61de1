-- ===== src/Commands/Platform.antt =====
-- The network of the VMs of a node: src/qcontrollerd/cmd/config_linux.go and qemu_darwin.go, with
-- src/pkg/utils/network/bridge_darwin.go and src/pkg/protos/platform_config_darwin.go, which the QEMU
-- service asks.
pub mod Agrees
pub mod Inside
use qcontroller.Base.{
  String, ◌<>◌, Bool, true, false, not, ◌&&◌, ◌||◌, Option, none, some, List, [], ◌∷◌, Result, ok,
  err, ◌>>=◌, ◌>>◌, if◌then◌else◌, is_empty, ◌==◌, ℕ,
}
use qcontroller.Network.Ip.{Address, Subnet, contains, equal}
use qcontroller.Network.Scan.{Interface}

-- settings.v1.MacosSettings; `other` is a number that the enum does not name.
pub data Mode : Type 0 where
  unspecified bridged shared other : Mode

pub record Shared : Type 0 where
  pub subnet : String
  pub start_address : String
  pub end_address : String

pub record MacosSettings : Type 0 where
  pub mode : Mode
  pub bridged_interface : Option String
  pub shared_network : Option Shared

-- qemu.DarwinNetworkConfig
pub data DarwinNetwork : Type 0 where
  vmnet_bridged : String → DarwinNetwork
  vmnet_shared : String → String → String → DarwinNetwork

-- What the command passes on to the ARP scanner and the DNS forwarder.
pub record Scanned : Type 0 where
  pub subnet : Subnet
  pub ifc_name : String
  pub dns_listen_ip : Option Address

-- The host: `parse_cidr` is net.ParseCIDR, `mask_text` prints a mask, `net_text` is IPNet.String, and
-- an address of an interface that is a *net.IPNet comes with its subnet; `to4` is none for an address
-- that is not of IPv4. `default_interface` is the answer of GetDefaultInterface.
pub record Host : Type 0 where
  pub parse_cidr : String → Result String (Address × Subnet)
  pub mask_text : List ℕ → String
  pub net_text : Subnet → String
  pub to4 : Address → Option Address
  pub default_interface : Result String String
  pub addresses : String → Result String (List (Option (Address × Subnet)))

module _ (h : Host) where
  abbrev configured : Option String → Option String
  configured none = none
  configured (some i) = if is_empty i then none else some i

  -- GetBridgeInterface of bridge_darwin.go
  unfoldable pub get_bridge_interface : Option MacosSettings → Result String String
  get_bridge_interface none = ok ""
  get_bridge_interface (some s) = elim s.mode [
    | bridged ↦ elim (configured s.bridged_interface) [
      | some i ↦ ok i
      | none ↦ elim h.default_interface [
        | err e ↦ err ("failed to get default interface for bridged mode: " <> e)
        | ok i ↦ ok i
      ]
    ]
    | _ ↦ ok ""
  ]

  -- The shared mode of buildPlatformConfig.
  abbrev shared_config : Option Shared → Result String DarwinNetwork
  shared_config none = err "shared mode requires shared configuration"
  shared_config (some s) = elim (h.parse_cidr s.subnet) [
    | err e ↦ err ("invalid subnet in macOS settings: " <> e)
    | ok (ip, net) ↦ ok (vmnet_shared s.start_address s.end_address (h.mask_text net.mask))
  ]

  -- buildPlatformConfig of platform_config_darwin.go
  unfoldable pub build_platform_config : Option MacosSettings → Result String DarwinNetwork
  build_platform_config none = err "macOS settings required"
  build_platform_config (some s) = elim s.mode [
    | bridged ↦ elim (get_bridge_interface (some s)) [
      | err e ↦ err ("failed to get bridge interface: " <> e)
      | ok i ↦ ok (vmnet_bridged i)
    ]
    | shared ↦ shared_config s.shared_network
    | _ ↦ err "unsupported macOS network mode"
  ]

  -- The subnet of the first address of the bridge interface.
  abbrev first_subnet : String → List (Option (Address × Subnet)) → Result String Scanned
  first_subnet i [] = err ("no addresses found for interface " <> i)
  first_subnet i (none ∷ rest) = err "address is not an IPNet"
  first_subnet i (some (a, net) ∷ rest) =
      ok (record { subnet = net; ifc_name = i; dns_listen_ip = h.to4 a })

  abbrev bridged_network : Option MacosSettings → Result String Scanned
  bridged_network s = elim (get_bridge_interface s) [
    | err e ↦ err ("failed to get bridge interface: " <> e)
    | ok i ↦ elim (h.addresses i) [ err e ↦ err e | ok as' ↦ first_subnet i as' ]
  ]

  abbrev shared_subnet : Option Shared → Result String Scanned
  shared_subnet none = err "macOS shared mode requires subnet configuration"
  shared_subnet (some s) =
      if is_empty s.subnet
      then err "macOS shared mode requires subnet configuration"
      else (elim (h.parse_cidr s.subnet) [
        | err e ↦ err ("invalid subnet in macOS settings: " <> e)
        | ok (ip, net) ↦ ok (record { subnet = net; ifc_name = ""; dns_listen_ip = none })
      ])

  -- The choice of what to scan in the command of qemu_darwin.go.
  unfoldable pub choose_network : Option MacosSettings → Result String Scanned
  choose_network none = err "macOS shared mode requires subnet configuration"
  choose_network (some s) = elim s.mode [
    | bridged ↦ bridged_network (some s)
    | _ ↦ shared_subnet s.shared_network
  ]

  -- The loop over the addresses of one interface in findHostIPForSubnet.
  abbrev ip_inside : Subnet → List (Option Address) → Option Address
  ip_inside net [] = none
  ip_inside net (none ∷ as') = ip_inside net as'
  ip_inside net (some a ∷ as') =
      let rest = ip_inside net as' in
      elim (h.to4 a) [ none ↦ rest | some ip ↦ if contains net ip then some ip else rest ]

  abbrev usable_addrs : Interface → List (Option Address)
  usable_addrs i = if i.loopback || not i.up then [] else elim i.addrs [ err _ ↦ [] | ok as' ↦ as' ]

  -- findHostIPForSubnet on the interfaces of the host
  unfoldable pub find_host_ip_for_subnet : Subnet → List Interface → Result String Address
  find_host_ip_for_subnet net [] = err "no interface found for subnet"
  find_host_ip_for_subnet net (i ∷ is) =
      let rest = find_host_ip_for_subnet net is in
      elim (ip_inside net (usable_addrs i)) [ some ip ↦ ok ip | none ↦ rest ]

-- settings.v1.LinuxSettings
pub record Dhcp : Type 0 where
  pub start : String
  pub end : String

pub record NetworkSettings : Type 0 where
  pub name : String
  pub gateway_ip : String
  pub bridge_ip : String
  pub dhcp : Option Dhcp

pub record LinuxConfig : Type 0 where
  pub name : String
  pub bridge_ip : Address
  pub gateway_ip : Address
  pub start_ip : Address
  pub end_ip : Address
  pub subnet : Subnet

pub data ConfigErr : Type 0 where
  invalid : String → ConfigErr
  nil_dereference : ConfigErr

module _ (h : Host) where
  abbrev parsed : String → String → Result ConfigErr (Address × Subnet)
  parsed field s = elim (h.parse_cidr s) [
    | ok p ↦ ok p
    | err e ↦ err (invalid ("failed to parse " <> field <> " " <> s <> ": " <> e))
  ]

  abbrev check : Bool → String → Result ConfigErr (Unit {0})
  check true message = ok tt
  check false message = err (invalid message)

  abbrev same_net : Subnet → Subnet → Bool
  same_net a b = h.net_text a == h.net_text b

  abbrev dhcp_of : Option Dhcp → Result ConfigErr Dhcp
  dhcp_of none = err nil_dereference
  dhcp_of (some d) = ok d

  network_config : NetworkSettings → Result ConfigErr LinuxConfig
  network_config n = do
    host ← parsed "host_ip" n.gateway_ip
    bridge ← parsed "bridge_ip" n.bridge_ip
    check (same_net bridge.1 host.1) "bridge and host subnets are not same"
    check (not (equal bridge.0 host.0)) "bridge_ip cannot be same as host_ip"
    d ← dhcp_of n.dhcp
    start ← parsed "dhcp_start" d.start
    last ← parsed "dhcp_end" d.end
    check (same_net start.1 host.1) "dhcp_start and network subnets are not same"
    check (same_net last.1 host.1) "dhcp_end and network subnets are not same"
    ok (record {
      name = n.name;
      bridge_ip = bridge.0;
      gateway_ip = host.0;
      start_ip = start.0;
      end_ip = last.0;
      subnet = host.1;
    })

  -- NewLinuxConfig; the inner option is the message Network
  unfoldable pub new_linux_config : Option (Option NetworkSettings) → Result ConfigErr LinuxConfig
  unfolding network_config
  new_linux_config none = err (invalid "linux settings cannot be nil")
  new_linux_config (some none) = err nil_dereference
  new_linux_config (some (some n)) = network_config n
