-- ===== src/Network/Resolver/Known.antt =====
-- What the resolver knows comes from its last scan that succeeded.
use qcontroller.Base.{
  ℕ, ◌≡◌, arith, refl, List, [], ◌∷◌, Option, none, some, true, String, Result, ok, err, bind_ok,
  Option-cases, Dict, lookup, inl, inr, All,
}
use qcontroller.Network.Ip.{Address, contains}
use qcontroller.Network.Packets.{Bytes}
use qcontroller.Network.Scan.{Scanner, World, scan}
use qcontroller.Network.Scan.Results.{scan-inside}
use qcontroller.Network.Resolver.{known_hosts, lookup_ip, or_not_found}

found_ok : {o : Option Address} {a : Address} → or_not_found o ≡ ok a → o ≡ some a
found_ok {o = none} h = cc
found_ok {o = some b} h = ground (arith, h)

abbrev AllInside : Scanner → Dict Address → Type 0
AllInside s known =
    (mac : String) (a : Address) → lookup mac known ≡ some a → contains s.subnet a ≡ true

module _ (to4 : Address → Bytes) (mac_string : Bytes → String) where
  known_hosts-AllInside :
      (fuel : ℕ) (s : Scanner) (ws : List World) (known : Dict Address)
      → AllInside s known
      → AllInside s (known_hosts to4 mac_string fuel s ws known)
  unfolding known_hosts
  known_hosts-AllInside fuel s [] known h = h
  known_hosts-AllInside fuel s (w ∷ ws) known h =
      elim (Option-cases (scan to4 mac_string fuel s w)) [
        | inl endless ↦ rw (known_hosts, endless) h
        | inr (ok p, done) ↦
            rw (known_hosts, done)
              (known_hosts-AllInside fuel s ws p.current_hosts
                (λ mac a. scan-inside to4 mac_string fuel s w p mac a done))
        | inr (err e, done) ↦ rw (known_hosts, done) (known_hosts-AllInside fuel s ws known h)
      ]

module _ (to4 : Address → Bytes) (mac_string : Bytes → String)
    (parse_mac : String → Result String Bytes) where
  -- Whatever scans a resolver has made since it was started, successful, failed or endless, an
  -- address that its LookupIP returns lies in the subnet of its scanner.
  pub lookup_ip-inside :
      (fuel : ℕ) (s : Scanner) (ws : List World) (mac : String) (a : Address)
      → lookup_ip mac_string parse_mac (known_hosts to4 mac_string fuel s ws []) mac ≡ ok a
      → contains s.subnet a ≡ true
  unfolding lookup_ip lookup
  lookup_ip-inside fuel s ws mac a h =
      let (m, _, found) =
        bind_ok (parse_mac mac)
          (λ m. or_not_found (lookup (mac_string m) (known_hosts to4 mac_string fuel s ws []))) h in
      known_hosts-AllInside to4 mac_string fuel s ws [] (λ mac a h. cc) (mac_string m) a
        (found_ok found)

  abbrev pub Fails : ℕ → Scanner → World → Type 0
  Fails fuel s w = (e : String) × (scan to4 mac_string fuel s w ≡ some (err e))

  -- Scans that fail leave what the resolver knew before them: LookupIP answers every MAC address
  -- after them as it did before.
  pub lookup_ip-Fails :
      (fuel : ℕ) (s : Scanner) (ws : List World) (known : Dict Address) (mac : String)
      → All (Fails fuel s) ws
      → lookup_ip mac_string parse_mac (known_hosts to4 mac_string fuel s ws known) mac
        ≡ lookup_ip mac_string parse_mac known mac
  unfolding known_hosts
  lookup_ip-Fails fuel s [] known mac h = refl
  lookup_ip-Fails fuel s (w ∷ ws) known mac ((e, failed), h) =
      rw (known_hosts, failed) (lookup_ip-Fails fuel s ws known mac h)
