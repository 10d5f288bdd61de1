-- ===== src/Network/Scan/Heard.antt =====
-- The hosts that the reads leave: for every MAC address the last reply from the subnet.
use qcontroller.Base.{
  ◌≡◌, arith, refl, List, [], ◌∷◌, ◌++◌, Option, none, some, true, ◌&&◌, if◌then◌else◌, String,
  ◌==◌, Dict, lookup, lookup-insert, Option-cases, inl, inr,
}
use qcontroller.Network.Ip.{Address, Subnet, contains}
use qcontroller.Network.Packets.{Bytes}
use qcontroller.Network.Frame.{parse_arp_reply}
use qcontroller.Network.Scan.{hear, hear_all}

module _ (mac_string : Bytes → String) where
  -- The address that a frame gives for a MAC address, and the last one of several frames.
  abbrev pub answer : Subnet → String → Bytes → Option Address
  answer s mac f = elim (parse_arp_reply f) [
    | none ↦ none
    | some r ↦ if contains s r.ip && (mac_string r.mac == mac) then some r.ip else none
  ]

  abbrev pub later : Option Address → Option Address → Option Address
  later before none = before
  later before (some a) = some a

  abbrev pub last_answer : Subnet → String → List Bytes → Option Address
  last_answer s mac [] = none
  last_answer s mac (f ∷ fs) = later (answer s mac f) (last_answer s mac fs)

  lookup-hear :
      (s : Subnet) (hosts : Dict Address) (mac : String) (f : Bytes)
      → lookup mac (hear mac_string s hosts f) ≡ later (lookup mac hosts) (answer s mac f)
  lookup-hear s hosts mac f = elim (Option-cases (parse_arp_reply f)) [
    | inl e ↦ rw (hear, answer, e) refl
    | inr (r, e) ↦
        rw (hear, answer, e) (ground (arith, lookup-insert mac (mac_string r.mac) r.ip hosts))
  ]

  later_assoc : (a b c : Option Address) → later (later a b) c ≡ later a (later b c)
  later_assoc a b none = refl
  later_assoc a b (some c) = refl

  pub lookup-hear_all :
      (s : Subnet) (hosts : Dict Address) (mac : String) (fs : List Bytes)
      → lookup mac (hear_all mac_string s hosts fs)
        ≡ later (lookup mac hosts) (last_answer s mac fs)
  unfolding hear_all
  lookup-hear_all s hosts mac [] = refl
  lookup-hear_all s hosts mac (f ∷ fs) =
      rw (lookup-hear_all s (hear mac_string s hosts f) mac fs, lookup-hear s hosts mac f)
        (later_assoc (lookup mac hosts) (answer s mac f) (last_answer s mac fs))

  -- From no hosts on, it is the last answer of the frames.
  pub lookup-hear_all_empty :
      (s : Subnet) (mac : String) (fs : List Bytes)
      → lookup mac (hear_all mac_string s [] fs) ≡ last_answer s mac fs
  unfolding lookup
  lookup-hear_all_empty s mac fs =
      rw (lookup-hear_all s [] mac fs)
        (elim (Option-cases (last_answer s mac fs)) [ inl e ↦ rw e refl | inr (a, e) ↦ rw e refl ])

  pub hear_all-append :
      (s : Subnet) (hosts : Dict Address) (fs gs : List Bytes)
      → hear_all mac_string s hosts (fs ++ gs)
        ≡ hear_all mac_string s (hear_all mac_string s hosts fs) gs
  unfolding hear_all
  hear_all-append s hosts [] gs = refl
  hear_all-append s hosts (f ∷ fs) gs = hear_all-append s (hear mac_string s hosts f) fs gs

  -- An address that a frame gives lies in the subnet.
  pub last_answer-inside :
      (s : Subnet) (mac : String) (fs : List Bytes) {a : Address}
      → last_answer s mac fs ≡ some a
      → contains s a ≡ true
  last_answer-inside s mac [] h = cc
  last_answer-inside s mac (f ∷ fs) h = elim (Option-cases (last_answer s mac fs)) [
    | inr (b, e) ↦ ground (arith, e, last_answer-inside s mac fs e)
    | inl e ↦ elim (Option-cases (parse_arp_reply f)) [
      | inl p ↦ ground (arith, e, p)
      | inr (r, p) ↦ ground (arith, e, p)
    ]
  ]
