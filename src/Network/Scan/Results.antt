-- ===== src/Network/Scan/Results.antt =====
-- What a finished scan promises: a request to every host of the subnet, and for every MAC address
-- the last answer that came from the subnet.
use mathlib.Core.Option
use qcontroller.Base.{
  err, Result, All, length, ◌-◌, ◌*◌, ◌^◌, ◌<◌, ◌≤◌, ℕ, ◌≡◌, arith, refl, sym, ◌∙◌, List, [], ◌∷◌,
  Option, none, some, true, ◌&&◌, String, lookup, Option-cases, Bool-cases, inl, inr, map, ok,
  bind_ok, Result-cases, ◌>>=◌, ◌>>◌, not, eqb,
}
use qcontroller.Network.Ip.{Address, Subnet, contains, subnet_hosts}
use qcontroller.Network.Ip.Value.{IsByte}
use qcontroller.Network.Ip.Range.{cidr}
use qcontroller.Network.Ip.Hosts.{subnet_hosts_exact}
use qcontroller.Network.Packets.{Bytes}
use qcontroller.Network.Frame.{build_arp_request}
use qcontroller.Network.Scan.{
  Scanner, World, Interface, Progress, exchange, scan, set_up, source_ip, resolve_interface,
  with_source, addressed,
}
use qcontroller.Network.Scan.Heard.{lookup-hear_all_empty, last_answer, last_answer-inside}
use qcontroller.Network.Scan.Requests.{exchange-Ends, heard_by}

module _ (to4 : Address → Bytes) where
  source_ip-inside :
      (s : Subnet) (as' : List (Option Address)) {a : Address}
      → source_ip to4 s as' ≡ ok a
      → contains s a ≡ true
  source_ip-inside s [] h = cc
  source_ip-inside s (none ∷ as') h = source_ip-inside s as' h
  source_ip-inside s (some b ∷ as') {a} h =
      elim (Bool-cases (not (eqb (length (to4 b)) 0) && contains s (to4 b))) [
        | inl e ↦ ground (arith, e)
        | inr e ↦ source_ip-inside s as' (rw (source_ip, e) at h)
      ]

  -- Before the first request the scan has an interface and an address of it in the subnet.
  set_up-inside :
      (s : Scanner) (w : World) {mac : Bytes} {src : Address}
      → set_up to4 s w ≡ ok (mac, src)
      → (iface : Interface) × ((resolve_interface s w ≡ ok iface)
          × ((mac ≡ iface.hardware_addr) × (contains s.subnet src ≡ true)))
  set_up-inside s w {mac} {src} h =
      let (iface, found, opened) =
        bind_ok (resolve_interface s w) (λ iface. w.open_conn iface >> with_source to4 s iface) h in
      let (_, _, sourced) = bind_ok (w.open_conn iface) (λ _. with_source to4 s iface) opened in
      let (ip, picked, pair) =
        bind_ok (iface.addrs >>= source_ip to4 s.subnet) (λ ip. ok (addressed iface ip)) sourced in
      let (as', _, is_source) = bind_ok iface.addrs (source_ip to4 s.subnet) picked in
      (
        iface,
        (
          found,
          (ground (arith, pair), ground (arith, pair, source_ip-inside s.subnet as' is_source)),
        ),
      )

module _ (to4 : Address → Bytes) (mac_string : Bytes → String) where
  -- A finished scan has set itself up, its list of hosts has ended, and it is the exchange with them.
  scan_parts :
      (fuel : ℕ) (s : Scanner) (w : World) {p : Progress}
      → scan to4 mac_string fuel s w ≡ some (ok p)
      → (mac : Bytes) × (src : Address) × (targets : List Address) × ((set_up to4 s w
            ≡ ok (mac, src))
          × ((subnet_hosts fuel s.subnet ≡ some targets)
              × (p ≡ exchange to4 mac_string s.subnet w mac src targets)))
  unfolding scan
  scan_parts fuel s w h = elim (Result-cases (set_up to4 s w)) [
    | inl (e, failed) ↦ absurd (ground (arith, failed))
    | inr ((mac, src), up) ↦ elim (Option-cases (subnet_hosts fuel s.subnet)) [
      | inl endless ↦ absurd (ground (arith, up, endless))
      | inr (targets, hosts) ↦ (mac, src, targets, (up, (hosts, ground (arith, up, hosts))))
    ]
  ]

  -- Of a finished scan, the answer for a MAC address is the last one among the frames heard: the frames of
  -- the read after every tenth request, and those of each read up to the deadline that did not fail.
  pub scan-lookup :
      (fuel : ℕ) (s : Scanner) (w : World) (p : Progress) (targets : List Address) (mac : String)
      → scan to4 mac_string fuel s w ≡ some (ok p)
      → subnet_hosts fuel s.subnet ≡ some targets
      → lookup mac p.current_hosts ≡ last_answer mac_string s.subnet mac (heard_by w targets)
  scan-lookup fuel s w p targets mac h e =
      let (src_mac, src, ts, (_, (hosts, at))) = scan_parts fuel s w h in
      let same : ts ≡ targets = Option.some_inj.0 (sym hosts ∙ e) in
      let heard = (exchange-Ends to4 mac_string s.subnet w src_mac src targets).0 in
      rw (at, same, heard) (lookup-hear_all_empty mac_string s.subnet mac (heard_by w targets))

  -- A finished scan has handed to Send one request for each host of the subnet, in order, from the
  -- address of the interface it resolved and from an IPv4 address of it inside the subnet.
  pub scan-requests :
      (fuel : ℕ) (s : Scanner) (w : World) (p : Progress) (targets : List Address)
      → scan to4 mac_string fuel s w ≡ some (ok p)
      → subnet_hosts fuel s.subnet ≡ some targets
      → (iface : Interface) × (src : Address) × ((resolve_interface s w ≡ ok iface)
          × ((contains s.subnet src ≡ true)
              × (p.sent ≡ map (build_arp_request to4 iface.hardware_addr src) targets)))
  scan-requests fuel s w p targets h e =
      let (src_mac, src, ts, (up, (hosts, at))) = scan_parts fuel s w h in
      let same : ts ≡ targets = Option.some_inj.0 (sym hosts ∙ e) in
      let sent = (exchange-Ends to4 mac_string s.subnet w src_mac src targets).1.1 in
      let (iface, (found, (own, inside))) = set_up-inside to4 s w up in
      (iface, src, (found, (inside, rw (at, same, sent, own) refl)))

  -- Every address that a finished scan has found lies in the subnet.
  pub scan-inside :
      (fuel : ℕ) (s : Scanner) (w : World) (p : Progress) (mac : String) (a : Address)
      → scan to4 mac_string fuel s w ≡ some (ok p)
      → lookup mac p.current_hosts ≡ some a
      → contains s.subnet a ≡ true
  scan-inside fuel s w p mac a h found =
      let (src_mac, src, ts, (_, (hosts, _))) = scan_parts fuel s w h in
      last_answer-inside mac_string s.subnet mac (heard_by w ts)
        (sym (scan-lookup fuel s w p ts mac h hosts) ∙ found)

  -- A scan of a subnet whose prefix is neither empty nor longer than its address always returns,
  -- with the hosts found or an error, on any fuel from the number of the subnet's addresses on.
  scan-ends :
      (fuel p : ℕ) (name : String) (ip : Address) (w : World)
      → 0 < p
      → p ≤ 8 * length ip
      → All IsByte ip
      → 2 ^ (8 * length ip - p) ≤ fuel
      → (r : Result String Progress) × (scan to4 mac_string fuel
            (record { ifc_name = name; subnet = cidr p ip })
            w
          ≡ some r)
  unfolding scan
  scan-ends fuel p name ip w hp hlen h f =
      let s : Scanner = record { ifc_name = name; subnet = cidr p ip } in
      elim (Result-cases (set_up to4 s w)) [
        | inl (e, failed) ↦ (err e, rw (scan, failed) refl)
        | inr ((mac, src), up) ↦ elim (Option-cases (subnet_hosts fuel (cidr p ip))) [
          | inl endless ↦
              let listed = subnet_hosts_exact fuel p ip hp hlen h f in
              absurd (ground (arith, rw endless at listed))
          | inr (targets, hosts) ↦ (
            ok (exchange to4 mac_string (cidr p ip) w mac src targets),
            rw (scan, up, hosts) refl,
          )
        ]
      ]
