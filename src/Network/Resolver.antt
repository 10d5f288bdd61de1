-- ===== src/Network/Resolver.antt =====
-- src/pkg/utils/network/arp/resolver.go: the goroutine that scans again and again, and LookupIP.
pub mod Known
use qcontroller.Base.{
  ℕ, List, [], ◌∷◌, ◌++◌, Option, none, some, String, Result, ok, err, ◌>>=◌, Dict, lookup,
}
use qcontroller.Network.Ip.{Address}
use qcontroller.Network.Packets.{Bytes}
use qcontroller.Network.Scan.{Scanner, World, Progress, scan}

module _ (to4 : Address → Bytes) (mac_string : Bytes → String) where
  -- A scan that fails leaves the hosts that are known, any other replaces them.
  abbrev pub updated : Dict Address → Result String Progress → Dict Address
  updated known (err e) = known
  updated known (ok p) = p.current_hosts

  -- The goroutine of start: the first scan and those of the ticks, each with the machine as it is
  -- then. After a scan that does not end nothing more happens.
  unfoldable pub known_hosts : ℕ → Scanner → List World → Dict Address → Dict Address
  known_hosts fuel s [] known = known
  known_hosts fuel s (w ∷ ws) known = elim (scan to4 mac_string fuel s w) [
    | none ↦ known
    | some r ↦ known_hosts fuel s ws (updated known r)
  ]

abbrev pub or_not_found : Option Address → Result String Address
or_not_found none = err "MAC address not found"
or_not_found (some ip) = ok ip

module _ (mac_string : Bytes → String) (parse_mac : String → Result String Bytes) where
  -- LookupIP
  unfoldable pub lookup_ip : Dict Address → String → Result String Address
  unfolding lookup
  lookup_ip known mac =
      parse_mac mac >>= λ mac_addr. or_not_found (lookup (mac_string mac_addr) known)
