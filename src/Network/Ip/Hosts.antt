-- ===== src/Network/Ip/Hosts.antt =====
-- SubnetHosts visits the addresses between the network's and the broadcast address, in order.
use native.Mathlib.Nat.{div-eq_of_lt}
use qcontroller.Base.{
  ℕ, zero, suc, ◌+◌, ◌-◌, ◌*◌, ◌/◌, ◌^◌, ◌<◌, ◌≤◌, ◌≡◌, inl, inr, arith, refl, ap, true, false,
  List, [], ◌∷◌, length, All, lt-cases, Option, none, some, map,
}
use mathlib.Core.Option
use qcontroller.Network.Ip.{
  Address, Subnet, mask_ip, contains, is_broadcast, next_ip, hosts_from, subnet_hosts,
  prepend_unless,
}
use qcontroller.Network.Ip.Value.{
  IsByte, weight, value, value-lt-weight, value-next_ip, next_ip-IsByte, length-next_ip,
}
use qcontroller.Network.Ip.Mask.{
  prefix_mask, block, block-pos, block-zero, block-power, value-mask_ip, mask_ip-IsByte,
  length-mask_ip,
}
use qcontroller.Network.Ip.Range.{
  cidr, network, contains-range, is_broadcast-last, block-fits, leaves,
}

abbrev pub range : ℕ → ℕ → List ℕ
range from zero = []
range from (suc k) = from ∷ range (from + 1) k

-- Outside the subnet the loop stops.
stops :
    (fuel : ℕ) (s : Subnet) (a : Address)
    → contains s a ≡ false
    → 0 < fuel
    → hosts_from fuel s a ≡ some []
unfolding hosts_from
stops zero s a e f = absurd (omega arith)
stops (suc fuel) s a e f = rw (hosts_from, e) refl

-- Inside it goes on with the next address.
goes_on :
    (fuel : ℕ) (s : Subnet) (a : Address)
    → contains s a ≡ true
    → hosts_from (suc fuel) s a
      ≡ prepend_unless (is_broadcast a s) a (hosts_from fuel s (next_ip a))
unfolding hosts_from
goes_on fuel s a e = rw (hosts_from, e) refl

prepended :
    (o : Option (List Address)) (a : Address) (vs : List ℕ)
    → Option.map (map value) o ≡ some vs
    → Option.map (map value) (prepend_unless false a o) ≡ some (value a ∷ vs)
prepended none a vs e = cc
prepended (some as') a vs e = rw (Option.some_inj.0 e) refl

-- The numbers of the addresses that the loop yields from the k-th address before the end on.
from_inside :
    (p k fuel : ℕ) (ip a : Address)
    → 0 < p
    → 0 < length ip
    → All IsByte ip
    → All IsByte a
    → length a ≡ length ip
    → network p ip ≤ value a
    → value a + suc k ≡ network p ip + block p (length ip)
    → suc k < fuel
    → Option.map (map value) (hosts_from fuel (cidr p ip) a) ≡ some (range (value a) k)
from_inside p zero (suc (suc fuel)) ip a hp hn h ha l lo e f =
    let last : value a ≡ network p ip + (block p (length ip) - 1) = omega arith in
    let isin = (contains-range p ip a h ha l).1 (lo, omega arith) in
    rw
      (
        goes_on (suc fuel) (cidr p ip) a isin,
        (is_broadcast-last p ip a h ha l).1 last,
        stops (suc fuel) (cidr p ip) (next_ip a) (leaves p ip a hp hn h ha l last) (omega arith),
      )
      refl
from_inside p (suc k) (suc (suc fuel)) ip a hp hn h ha l lo e f =
    let isin = (contains-range p ip a h ha l).1 (lo, omega arith) in
    let inner : is_broadcast a (cidr p ip) ≡ false =
      ground (arith, (is_broadcast-last p ip a h ha l).0) in
    let next : value (next_ip a) ≡ value a + 1 =
      ground (arith, value-next_ip a ha, ap weight l, block-fits p ip h) in
    let rest =
      from_inside p k (suc fuel) ip (next_ip a) hp hn h (next_ip-IsByte a ha)
        (omega (arith, l, length-next_ip a)) (omega (arith, lo)) (omega (arith, e))
        (omega (arith, f)) in
    rw
      (
        goes_on (suc fuel) (cidr p ip) a isin,
        inner,
        prepended (hosts_from (suc fuel) (cidr p ip) (next_ip a)) a (range (value a + 1) k)
            (rw next at rest),
      )
      refl
from_inside p k zero ip a hp hn h ha l lo e f = absurd (omega arith)
from_inside p k (suc zero) ip a hp hn h ha l lo e f = absurd (omega arith)

-- The loop from the address after the network's own.
from_start :
    (fuel p : ℕ) (ip a : Address)
    → 0 < p
    → 0 < length ip
    → All IsByte ip
    → All IsByte a
    → length a ≡ length ip
    → value a ≡ network p ip
    → block p (length ip) ≤ fuel
    → Option.map (map value) (hosts_from fuel (cidr p ip) (next_ip a))
      ≡ some (range (network p ip + 1) (block p (length ip) - 2))
from_start fuel p ip a hp hn h ha l e f = elim (lt-cases 1 (block p (length ip))) [
  | inl more ↦
      let next : value (next_ip a) ≡ network p ip + 1 =
        ground (arith, value-next_ip a ha, ap weight l, block-fits p ip h) in
      let visited =
        from_inside p (block p (length ip) - 2) fuel ip (next_ip a) hp hn h (next_ip-IsByte a ha)
          (omega (arith, l, length-next_ip a)) (omega (arith, next)) (omega (arith, next))
          (omega arith) in
      rw next at visited
  | inr one ↦
      let last : value a ≡ network p ip + (block p (length ip) - 1) = omega (arith, e) in
      let nothing : block p (length ip) - 2 ≡ 0 = omega arith in
      rw
        (
          nothing,
          stops fuel (cidr p ip) (next_ip a) (leaves p ip a hp hn h ha l last)
              (omega (arith, block-pos p (length ip))),
        )
        refl
]

-- For an address of bytes and a prefix that is neither empty nor longer than the address,
-- SubnetHosts ends, on any fuel from the number 2 ^ (8 * n - p) of the subnet's addresses on, and
-- yields in order the addresses between the network's own address and the broadcast address, none
-- if there are none between.
pub subnet_hosts_exact :
    (fuel p : ℕ) (ip : Address)
    → 0 < p
    → p ≤ 8 * length ip
    → All IsByte ip
    → 2 ^ (8 * length ip - p) ≤ fuel
    → Option.map (map value) (subnet_hosts fuel (cidr p ip))
      ≡ some (
          range
            (value ip / 2 ^ (8 * length ip - p) * 2 ^ (8 * length ip - p) + 1)
            (2 ^ (8 * length ip - p) - 2))
unfolding subnet_hosts
subnet_hosts_exact fuel p ip hp hlen h f = rw (← block-power p (length ip) hlen) (
    from_start fuel p ip (mask_ip ip (prefix_mask p (length ip))) hp (omega arith) h
      (mask_ip-IsByte p ip h) (length-mask_ip p ip) (value-mask_ip p ip h)
      (rw (← block-power p (length ip) hlen) at f))

-- With the empty prefix the loop wraps around and never ends: no fuel suffices.
hosts_never_end : (fuel : ℕ) (ip : Address) → All IsByte ip → subnet_hosts fuel (cidr 0 ip) ≡ none
unfolding subnet_hosts hosts_from
hosts_never_end fuel ip h =
    rounds fuel (next_ip (mask_ip ip (prefix_mask 0 (length ip))))
      (omega (arith, length-mask_ip 0 ip, length-next_ip (mask_ip ip (prefix_mask 0 (length ip)))))
      (next_ip-IsByte (mask_ip ip (prefix_mask 0 (length ip))) (mask_ip-IsByte 0 ip h))
  where
    rounds :
        (fuel : ℕ) (a : Address)
        → length a ≡ length ip
        → All IsByte a
        → hosts_from fuel (cidr 0 ip) a ≡ none
    rounds zero a l ha = refl
    rounds (suc fuel) a l ha =
        let all : block 0 (length ip) ≡ weight (length ip) = block-zero (length ip) in
        let own : network 0 ip ≡ 0 = rw (all, div-eq_of_lt (value-lt-weight ip h)) (omega arith) in
        let inside =
          (contains-range 0 ip a h ha l).1
            (omega (arith, own), omega (arith, own, all, ap weight l, value-lt-weight a ha)) in
        rw
          (
            goes_on fuel (cidr 0 ip) a inside,
            rounds fuel (next_ip a) (omega (arith, l, length-next_ip a)) (next_ip-IsByte a ha),
          )
          refl
