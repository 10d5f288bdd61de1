-- ===== src/Network/Scan.antt =====
-- src/pkg/utils/network/arp/scanner.go: one ARP scan of a subnet. The interfaces of the machine,
-- the connection and what each read of it brings are arguments.
pub mod Heard
pub mod Requests
pub mod Results
use qcontroller.Base.{
  ℕ, zero, suc, ◌+◌, List, [], ◌∷◌, ◌++◌, Option, none, some, Bool, true, false, ◌||◌, ◌&&◌, not,
  if◌then◌else◌, eqb, leb, String, Result, ok, err, ◌>>=◌, ◌>>◌, Dict, insert, is_empty, length,
}
use qcontroller.Network.Ip.{Address, Subnet, contains, subnet_hosts}
use qcontroller.Network.Packets.{Bytes}
use qcontroller.Network.Frame.{ArpReply, build_arp_request, parse_arp_reply}

-- net.Interface with what its Addrs gives: an entry is none where it is not a *net.IPNet.
pub record Interface : Type 0 where
  pub name : String
  pub hardware_addr : Bytes
  pub up : Bool
  pub loopback : Bool
  pub addrs : Result String (List (Option Address))

-- What one Recv returns
pub record Read : Type 0 where
  pub frames : List Bytes
  pub failed : Bool

-- The machine during one scan: its interfaces, the connections it opens, the results of the calls
-- of Recv by their number, and how many of them there are from the last request to the deadline.
pub record World : Type 0 where
  pub interface_by_name : String → Result String Interface
  pub interfaces : Result String (List Interface)
  pub open_conn : Interface → Result String (Unit {0})
  pub recv : ℕ → Read
  pub late : ℕ

-- scannerImpl
pub record Scanner : Type 0 where
  pub ifc_name : String
  pub subnet : Subnet

abbrev pub any_inside : Subnet → List (Option Address) → Bool
any_inside s [] = false
any_inside s (none ∷ as') = any_inside s as'
any_inside s (some a ∷ as') = contains s a || any_inside s as'

abbrev pub has_address : Subnet → Result String (List (Option Address)) → Bool
has_address s (err e) = false
has_address s (ok as') = any_inside s as'

-- The loops of findInterfaceForSubnet.
unfoldable pub find_interface : Subnet → List Interface → Result String Interface
find_interface s [] = err "no interface found for subnet"
find_interface s (i ∷ is) =
    let rest = find_interface s is in
    if (i.loopback || not i.up) || not (has_address s i.addrs) then rest else ok i

-- resolveInterface
unfoldable pub resolve_interface : Scanner → World → Result String Interface
unfolding find_interface
resolve_interface s w =
    if not (is_empty s.ifc_name)
    then w.interface_by_name s.ifc_name
    else (w.interfaces >>= find_interface s.subnet)

-- The variables of Scan, with the frames it has handed to Send and its calls of Recv.
pub record Progress : Type 0 where
  pub current_hosts : Dict Address
  pub current_batch : ℕ
  pub calls : ℕ
  pub sent : List Bytes

abbrev pub batch_size : ℕ
batch_size = 10

abbrev pub start : Progress
start = record { current_hosts = []; current_batch = 0; calls = 0; sent = [] }

abbrev pub addressed : Interface → Address → Bytes × Address
addressed iface ip = (iface.hardware_addr, ip)

module _ (to4 : Address → Bytes) where
  -- The first IPv4 address of the interface that lies in the subnet.
  abbrev pub source_ip : Subnet → List (Option Address) → Result String Address
  source_ip s [] = err "no IPv4 address found on interface"
  source_ip s (none ∷ as') = source_ip s as'
  source_ip s (some a ∷ as') =
      let rest = source_ip s as' in
      if not (eqb (length (to4 a)) 0) && contains s (to4 a) then ok (to4 a) else rest

  abbrev pub with_source : Scanner → Interface → Result String (Bytes × Address)
  with_source s iface = iface.addrs >>= source_ip s.subnet >>= λ ip. ok (addressed iface ip)

  -- What Scan does before the first request.
  abbrev pub set_up : Scanner → World → Result String (Bytes × Address)
  set_up s w = resolve_interface s w >>= λ iface. w.open_conn iface >> with_source s iface

module _ (mac_string : Bytes → String) where
  -- The loop over the frames of one read.
  abbrev pub hear : Subnet → Dict Address → Bytes → Dict Address
  hear s hosts f = elim (parse_arp_reply f) [
    | none ↦ hosts
    | some r ↦ if contains s r.ip then insert (mac_string r.mac) r.ip hosts else hosts
  ]

  unfoldable pub hear_all : Subnet → Dict Address → List Bytes → Dict Address
  hear_all s hosts [] = hosts
  hear_all s hosts (f ∷ fs) = hear_all s (hear s hosts f) fs

  -- The loop until the deadline.
  unfoldable pub listen : Subnet → World → ℕ → Progress → Progress
  unfolding hear_all
  listen s w zero p = p
  listen s w (suc left) p =
      let r = w.recv p.calls in
      let heard = if r.failed then record p { calls = suc p.calls } else record p {
        calls = suc p.calls;
        current_hosts = hear_all s p.current_hosts r.frames;
      } in
      listen s w left heard

module _ (to4 : Address → Bytes) (mac_string : Bytes → String) where
  -- The loop over SubnetHosts.
  unfoldable pub request_all : Subnet → World → Bytes → Address → List Address → Progress → Progress
  unfolding hear_all
  request_all s w src_mac src_ip [] p = p
  request_all s w src_mac src_ip (target ∷ targets) p =
      let frame = build_arp_request to4 src_mac src_ip target in
      let more = suc p.current_batch in
      let asked =
        if leb batch_size more
        then record {
          current_hosts = hear_all mac_string s p.current_hosts (w.recv p.calls).frames;
          current_batch = 0;
          calls = suc p.calls;
          sent = p.sent ++ (frame ∷ []);
        }
        else record {
          current_hosts = p.current_hosts;
          current_batch = more;
          calls = p.calls;
          sent = p.sent ++ (frame ∷ []);
        } in
      request_all s w src_mac src_ip targets asked

  abbrev pub exchange : Subnet → World → Bytes → Address → List Address → Progress
  exchange s w src_mac src_ip targets =
      listen mac_string s w w.late (request_all s w src_mac src_ip targets start)

  -- Scan: none if the loop over SubnetHosts does not end on the fuel.
  unfoldable pub scan : ℕ → Scanner → World → Option (Result String Progress)
  scan fuel s w = elim (set_up to4 s w) [
    | err e ↦ some (err e)
    | ok (src_mac, src_ip) ↦ elim (subnet_hosts fuel s.subnet) [
      | none ↦ none
      | some targets ↦ some (ok (exchange s.subnet w src_mac src_ip targets))
    ]
  ]
