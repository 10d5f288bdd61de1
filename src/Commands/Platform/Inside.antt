-- ===== src/Commands/Platform/Inside.antt =====
-- The addresses that the commands choose lie in the network that they are chosen for.
use qcontroller.Base.{
  String, ◌≡◌, arith, true, false, Option, none, some, List, [], ◌∷◌, ok, Bool-cases, Result-cases,
  Option-cases, inl, inr, eq_iff,
}
use qcontroller.Network.Ip.{Address, Subnet, contains, equal}
use qcontroller.Network.Scan.{Interface}
use qcontroller.Commands.Platform.{
  Host, ip_inside, usable_addrs, find_host_ip_for_subnet, NetworkSettings, LinuxConfig,
  new_linux_config, network_config,
}

-- net.ParseCIDR gives an address with the network that it lies in, and a network that it gives is
-- known by its text.
pub record IsCidr (h : Host) : Type 0 where
  pub inside :
      (s : String) (a : Address) (net : Subnet)
      → h.parse_cidr s ≡ ok (a, net)
      → contains net a ≡ true
  pub by_text :
      (s t : String) (a b : Address) (x y : Subnet)
      → h.parse_cidr s ≡ ok (a, x)
      → h.parse_cidr t ≡ ok (b, y)
      → h.net_text x ≡ h.net_text y
      → x ≡ y

-- All addresses of a configuration lie in its subnet, and the bridge does not have the gateway's.
pub record IsOneNetwork (c : LinuxConfig) : Type 0 where
  pub gateway : contains c.subnet c.gateway_ip ≡ true
  pub bridge : contains c.subnet c.bridge_ip ≡ true
  pub start : contains c.subnet c.start_ip ≡ true
  pub last : contains c.subnet c.end_ip ≡ true
  pub apart : equal c.bridge_ip c.gateway_ip ≡ false

module _ (h : Host) (C : IsCidr h) where
  -- When NewLinuxConfig succeeds, the gateway, the bridge and the ends of the DHCP range lie in the
  -- subnet of the configuration, and the address of the bridge is not that of the gateway, if
  -- ParseCIDR gives each address its network and a network is known by its text.
  pub new_linux_config-IsOneNetwork :
      (n : NetworkSettings) (c : LinuxConfig)
      → new_linux_config h (some (some n)) ≡ ok c
      → IsOneNetwork c
  unfolding new_linux_config network_config
  new_linux_config-IsOneNetwork n c e = elim (Result-cases (h.parse_cidr n.gateway_ip)) [
    | inl (x, f) ↦ absurd (ground (arith, e, f))
    | inr ((gw, gn), f) ↦ elim (Result-cases (h.parse_cidr n.bridge_ip)) [
      | inl (x, g) ↦ absurd (ground (arith, e, f, g))
      | inr ((br, bn), g) ↦ elim (Option-cases n.dhcp) [
        | inl i ↦ absurd (ground (arith, e, f, g, i))
        | inr (d, i) ↦ elim (Result-cases (h.parse_cidr d.start)) [
          | inl (x, j) ↦ absurd (ground (arith, e, f, g, i, j))
          | inr ((st, sn), j) ↦ elim (Result-cases (h.parse_cidr d.end)) [
            | inl (x, k) ↦ absurd (ground (arith, e, f, g, i, j, k))
            | inr ((en, dn), k) ↦ ground (
              arith,
              e,
              f,
              g,
              i,
              j,
              k,
              C.inside n.gateway_ip gw gn f,
              C.inside n.bridge_ip br bn g,
              C.inside d.start st sn j,
              C.inside d.end en dn k,
              eq_iff (h.net_text bn) (h.net_text gn),
              eq_iff (h.net_text sn) (h.net_text gn),
              eq_iff (h.net_text dn) (h.net_text gn),
              C.by_text n.bridge_ip n.gateway_ip br gw bn gn g f,
              C.by_text d.start n.gateway_ip st gw sn gn j f,
              C.by_text d.end n.gateway_ip en gw dn gn k f,
            )
          ]
        ]
      ]
    ]
  ]

module _ (h : Host) where
  ip_inside-contains :
      (net : Subnet) (as' : List (Option Address)) (ip : Address)
      → ip_inside h net as' ≡ some ip
      → contains net ip ≡ true
  ip_inside-contains net [] ip e = absurd (ground (arith, e))
  ip_inside-contains net (none ∷ as') ip e = ip_inside-contains net as' ip e
  ip_inside-contains net (some a ∷ as') ip e = elim (Option-cases (h.to4 a)) [
    | inl f ↦ ip_inside-contains net as' ip (ground (arith, e, f))
    | inr (b, f) ↦ elim (Bool-cases (contains net b)) [
      | inl g ↦ ground (arith, e, f, g)
      | inr g ↦ ip_inside-contains net as' ip (ground (arith, e, f, g))
    ]
  ]

  find_host_ip-contains :
      (net : Subnet) (is : List Interface) (ip : Address)
      → find_host_ip_for_subnet h net is ≡ ok ip
      → contains net ip ≡ true
  unfolding find_host_ip_for_subnet
  find_host_ip-contains net [] ip e = absurd (ground (arith, e))
  find_host_ip-contains net (i ∷ is) ip e =
      elim (Option-cases (ip_inside h net (usable_addrs h i))) [
        | inl f ↦ find_host_ip-contains net is ip (ground (arith, e, f))
        | inr (b, f) ↦ ip_inside-contains net (usable_addrs h i) ip (ground (arith, e, f))
      ]
