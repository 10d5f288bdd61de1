-- ===== src/Commands/Platform/Agrees.antt =====
-- The command scans the network to which the QEMU service attaches the VMs.
use qcontroller.Base.{
  String, ◌≡◌, inl, inr, refl, arith, Option, none, some, List, [], ◌∷◌, Result, ok, err,
  Result-cases, Option-cases, subst,
}
use qcontroller.Network.Ip.{Address, Subnet}
use qcontroller.Commands.Platform.{
  Mode, unspecified, bridged, shared, other, Shared, MacosSettings, DarwinNetwork, vmnet_bridged,
  vmnet_shared, Scanned, Host, get_bridge_interface, build_platform_config, choose_network,
  shared_subnet, shared_config, first_subnet,
}

-- The scanner listens on the interface to which the VMs are bridged, in the subnet of its first
-- address; or it looks for the interface of the subnet that the VMs share, whose mask vmnet gets.
abbrev pub AreSameNetwork : Host → Scanned → DarwinNetwork → Type 0
AreSameNetwork h c (vmnet_bridged i) =
    (c.ifc_name ≡ i)
    × (a : Address) × (rest : List (Option (Address × Subnet))) × (h.addresses i
        ≡ ok (some (a, c.subnet) ∷ rest))
AreSameNetwork h c (vmnet_shared start end mask) =
    (c.ifc_name ≡ "") × (mask ≡ h.mask_text c.subnet.mask)

module _ (h : Host) where
  bridged_same :
      (i : String) (as' : Result String (List (Option (Address × Subnet)))) (c : Scanned)
      → h.addresses i ≡ as'
      → (elim as' [ err e ↦ err e | ok l ↦ first_subnet h i l ]) ≡ ok c
      → AreSameNetwork h c (vmnet_bridged i)
  bridged_same i (err e) c p q = absurd (ground (arith, q))
  bridged_same i (ok []) c p q = absurd (ground (arith, q))
  bridged_same i (ok (none ∷ rest)) c p q = absurd (ground (arith, q))
  bridged_same i (ok (some (a, net) ∷ rest)) c p q =
      (ground (arith, q), a, rest, ground (arith, p, q))

  shared_same :
      (s : Shared) (c : Scanned) (p : DarwinNetwork)
      → shared_subnet h (some s) ≡ ok c
      → shared_config h (some s) ≡ ok p
      → AreSameNetwork h c p
  shared_same s c (vmnet_bridged i) x y = absurd (ground (arith, y))
  shared_same s c (vmnet_shared start last mask) x y = (ground (arith, x), ground (arith, x, y))

  in_mode :
      (m : Mode) (s : MacosSettings) (c : Scanned) (p : DarwinNetwork)
      → s.mode ≡ m
      → choose_network h (some s) ≡ ok c
      → build_platform_config h (some s) ≡ ok p
      → AreSameNetwork h c p
  unfolding choose_network build_platform_config
  in_mode unspecified s c p e x y = absurd (ground (arith, e, y))
  in_mode other s c p e x y = absurd (ground (arith, e, y))
  in_mode shared s c p e x y = elim (Option-cases s.shared_network) [
    | inl f ↦ absurd (ground (arith, e, f, y))
    | inr (n, f) ↦ shared_same n c p (ground (arith, e, f, x)) (ground (arith, e, f, y))
  ]
  in_mode bridged s c p e x y = elim (Result-cases (get_bridge_interface h (some s))) [
    | inl (m, f) ↦ absurd (ground (arith, e, f, y))
    | inr (i, f) ↦
        let is_i : vmnet_bridged i ≡ p = ground (arith, e, f, y) in
        subst (λ d. AreSameNetwork h c d) is_i
          (bridged_same i (h.addresses i) c refl (ground (arith, e, f, x)))
  ]

  -- On macOS, if the command has chosen a network and the QEMU service has built its configuration,
  -- for one answer of GetDefaultInterface, then they agree: in bridged mode the scanner listens on
  -- the interface to which the VMs are bridged, in the subnet of its first address; in shared mode
  -- it looks for the interface of a subnet, whose mask is the one that the VMs' network gets.
  pub choose_network-build_platform_config :
      (s : Option MacosSettings) (c : Scanned) (p : DarwinNetwork)
      → choose_network h s ≡ ok c
      → build_platform_config h s ≡ ok p
      → AreSameNetwork h c p
  unfolding choose_network build_platform_config
  choose_network-build_platform_config none c p x y = absurd (ground (arith, y))
  choose_network-build_platform_config (some s) c p x y = in_mode s.mode s c p refl x y
