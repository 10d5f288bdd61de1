-- ===== src/Network/Ip.antt =====
-- src/pkg/utils/network/ip/ip.go. An address is the list of its bytes; `mask_ip`, `contains` and
-- `equal` are what net.IP and net.IPNet do for an address and a mask of one length.
pub mod Value
pub mod Bits
pub mod Mask
pub mod Range
pub mod Hosts
use Prim.Native.Nat.{bit_and, bit_or}
use qcontroller.Base.{
  ℕ, zero, suc, ◌+◌, ◌-◌, ◌%◌, Bool, true, false, ◌&&◌, List, [], ◌∷◌, if◌then◌else◌, Option, none,
  some, eqb,
}

abbrev pub Address : Type 0
Address = List ℕ

pub record Subnet : Type 0 where
  pub ip : Address
  pub mask : List ℕ

-- `next[i]++` on a byte
abbrev pub increment_byte : ℕ → ℕ
increment_byte b = (b + 1) % 256

-- The loop of nextIP from the last byte; the flag is whether it goes on to the byte before.
unfoldable pub increment : Address → Address × Bool
increment [] = ([], true)
increment (b ∷ bs) =
    let (bs', carry) = increment bs in
    if carry then (increment_byte b ∷ bs', eqb (increment_byte b) 0) else (b ∷ bs', false)

-- nextIP
unfoldable pub next_ip : Address → Address
unfolding increment
next_ip ip = (increment ip).0

unfoldable pub mask_ip : Address → List ℕ → Address
mask_ip (b ∷ bs) (m ∷ ms) = bit_and b m ∷ mask_ip bs ms
mask_ip _ _ = []

unfoldable pub equal : Address → Address → Bool
equal [] [] = true
equal (a ∷ xs) (b ∷ ys) = eqb a b && equal xs ys
equal _ _ = false

unfoldable pub contains : Subnet → Address → Bool
unfolding mask_ip equal
contains s ip = equal (mask_ip s.ip s.mask) (mask_ip ip s.mask)

-- The loop of isBroadcast.
unfoldable pub broadcast : Address → List ℕ → Address
broadcast (b ∷ bs) (m ∷ ms) = bit_or b (255 - m) ∷ broadcast bs ms
broadcast _ _ = []

-- isBroadcast
unfoldable pub is_broadcast : Address → Subnet → Bool
unfolding broadcast equal
is_broadcast ip s = equal ip (broadcast s.ip s.mask)

abbrev pub prepend_unless {ℓ} : {A : Type ℓ} → Bool → A → Option (List A) → Option (List A)
prepend_unless skip a none = none
prepend_unless skip a (some as') = if skip then some as' else some (a ∷ as')

-- The loop of SubnetHosts for a consumer that takes every address; none if the fuel runs out.
unfoldable pub hosts_from : ℕ → Subnet → Address → Option (List Address)
unfolding next_ip contains is_broadcast
hosts_from zero s ip = none
hosts_from (suc fuel) s ip = elim (contains s ip) [
  | false ↦ some []
  | true ↦ prepend_unless (is_broadcast ip s) ip (hosts_from fuel s (next_ip ip))
]

-- SubnetHosts
unfoldable pub subnet_hosts : ℕ → Subnet → Option (List Address)
unfolding hosts_from
subnet_hosts fuel s = hosts_from fuel s (next_ip (mask_ip s.ip s.mask))
