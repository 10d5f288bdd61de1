-- ===== src/Tests/Scans.antt =====
-- The theorems on the ARP scan and the resolver at a small subnet.
use qcontroller.Base.{
  ℕ, ◌≡◌, refl, List, [], ◌∷◌, none, some, true, false, String, ok, err, lookup, if◌then◌else◌, eqb,
}
use qcontroller.Network.Ip.{
  Address, subnet_hosts, hosts_from, next_ip, increment, contains, mask_ip, equal, is_broadcast,
  broadcast,
}
use qcontroller.Network.Ip.Range.{cidr}
use qcontroller.Network.Packets.{Bytes, byte}
use qcontroller.Network.Frame.{parse_arp_reply}
use qcontroller.Network.Frame.Replies.{reply_frame}
use qcontroller.Network.Scan.{
  Scanner, World, Interface, Read, Progress, scan, find_interface, resolve_interface, exchange,
}
use qcontroller.Network.Scan.Results.{scan-lookup}

abbrev bridge : Address
bridge = 192 ∷ 168 ∷ 71 ∷ 9 ∷ []

abbrev pub guest : Address
guest = 192 ∷ 168 ∷ 71 ∷ 12 ∷ []

abbrev own_mac : Bytes
own_mac = 82 ∷ 84 ∷ 0 ∷ 18 ∷ 52 ∷ 86 ∷ []

abbrev pub guest_mac : Bytes
guest_mac = 82 ∷ 84 ∷ 0 ∷ 171 ∷ 205 ∷ 239 ∷ []

abbrev pub same_ip : Address → Bytes
same_ip ip = ip

abbrev pub mac_name : Bytes → String
mac_name m = if eqb (byte 5 m) 239 then "52:54:00:ab:cd:ef" else "52:54:00:12:34:56"

abbrev vmnet : Interface
vmnet = record {
  name = "bridge100";
  hardware_addr = own_mac;
  up = true;
  loopback = false;
  addrs = ok (none ∷ some bridge ∷ []);
}

abbrev pub scanner : Scanner
scanner = record { ifc_name = ""; subnet = cidr 29 bridge }

-- The guest answers in the first read after the requests, the second read fails.
abbrev answering : ℕ → Read
answering n = record {
  frames = reply_frame own_mac guest_mac guest bridge [] ∷ [];
  failed = eqb n 1;
}

abbrev pub world : World
world = record {
  interface_by_name = λ _. err "no such network interface";
  interfaces = ok (vmnet ∷ []);
  open_conn = λ _. ok tt;
  recv = answering;
  late = 2;
}

abbrev hosts : List Address
hosts =
    (192 ∷ 168 ∷ 71 ∷ 9 ∷ [])
    ∷ (192 ∷ 168 ∷ 71 ∷ 10 ∷ [])
    ∷ (192 ∷ 168 ∷ 71 ∷ 11 ∷ [])
    ∷ (192 ∷ 168 ∷ 71 ∷ 12 ∷ [])
    ∷ (192 ∷ 168 ∷ 71 ∷ 13 ∷ [])
    ∷ (192 ∷ 168 ∷ 71 ∷ 14 ∷ [])
    ∷ []

hosts_listed : subnet_hosts 8 (cidr 29 bridge) ≡ some hosts
unfolding subnet_hosts hosts_from next_ip increment contains mask_ip equal is_broadcast broadcast
hosts_listed = refl

abbrev outcome : Progress
outcome = exchange same_ip mac_name (cidr 29 bridge) world own_mac bridge hosts

finished : scan same_ip mac_name 8 scanner world ≡ some (ok outcome)
unfolding scan resolve_interface find_interface contains mask_ip equal subnet_hosts hosts_from
    next_ip increment is_broadcast broadcast
finished = refl

scan-lookup_example : lookup "52:54:00:ab:cd:ef" outcome.current_hosts ≡ some guest
unfolding parse_arp_reply contains mask_ip equal
scan-lookup_example =
    scan-lookup same_ip mac_name 8 scanner world outcome hosts "52:54:00:ab:cd:ef" finished
      hosts_listed
