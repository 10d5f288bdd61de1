-- ===== src/Network/Ip/Range.antt =====
-- The addresses of a subnet are an interval of numbers: where the loop of SubnetHosts goes on and stops.
use native.Mathlib.Nat.{
  div-eq_of_lt-le, div-add-mod', mod-lt, add-mul, lt_of_mul-lt-mul_right, mul-le-mul_right,
}
use qcontroller.Base.{
  ℕ, ◌+◌, ◌-◌, ◌*◌, ◌/◌, ◌<◌, ◌≤◌, ◌≡◌, ◌↔◌, arith, refl, ap, true, false, length, All,
}
use qcontroller.Network.Ip.{Address, Subnet, mask_ip, broadcast, contains, is_broadcast, next_ip}
use qcontroller.Network.Ip.Value.{
  IsByte, weight, value, value-lt-weight, equal-value, value-next_ip, next_ip-IsByte,
  length-next_ip,
}
use qcontroller.Network.Ip.Mask.{
  prefix_mask, block, block-pos, block-lt-weight, weight-block, value-mask_ip, value-broadcast,
  mask_ip-IsByte, broadcast-IsByte, length-mask_ip, length-broadcast,
}

-- net.ParseCIDR's network of an address and the number of leading ones
abbrev pub cidr : ℕ → Address → Subnet
cidr p ip = record { ip = ip; mask = prefix_mask p (length ip) }

-- the number of the network's own address
abbrev pub network : ℕ → Address → ℕ
network p ip = value ip / block p (length ip) * block p (length ip)

-- A number lies in the block of another if and only if both have the same quotient.
multiple-range : (v q b : ℕ) → 0 < b → (v / b * b ≡ q * b) ↔ ((q * b ≤ v) × (v < q * b + b))
multiple-range v q b pos = (
  λ e. omega (arith, div-add-mod' v b, mod-lt v pos),
  λ (lo, hi). rw (div-eq_of_lt-le b lo (omega (arith, add-mul q 1 b))) refl,
)

pub contains-range :
    (p : ℕ) (ip a : Address)
    → All IsByte ip
    → All IsByte a
    → length a ≡ length ip
    → (contains (cidr p ip) a ≡ true)
      ↔ ((network p ip ≤ value a) × (value a < network p ip + block p (length ip)))
unfolding contains
contains-range p ip a h ha l =
    let len : length (mask_ip a (prefix_mask p (length ip))) ≡ length a =
      rw (← l) (length-mask_ip p a) in
    let bytes : All IsByte (mask_ip a (prefix_mask p (length ip))) =
      rw (← l) (mask_ip-IsByte p a ha) in
    let num : value (mask_ip a (prefix_mask p (length ip)))
        ≡ value a / block p (length ip) * block p (length ip) =
      rw (← l) (value-mask_ip p a ha) in
    let (same, back) =
      equal-value (mask_ip ip (prefix_mask p (length ip))) (mask_ip a (prefix_mask p (length ip)))
        (omega (arith, l, len, length-mask_ip p ip)) (mask_ip-IsByte p ip h) bytes in
    let (inside, outside) =
      multiple-range (value a) (value ip / block p (length ip)) (block p (length ip))
        (block-pos p (length ip)) in
    (
      λ e. inside (omega (arith, same e, num, value-mask_ip p ip h)),
      λ r. back (omega (arith, outside r, num, value-mask_ip p ip h)),
    )

pub is_broadcast-last :
    (p : ℕ) (ip a : Address)
    → All IsByte ip
    → All IsByte a
    → length a ≡ length ip
    → (is_broadcast a (cidr p ip) ≡ true) ↔ (value a ≡ network p ip + (block p (length ip) - 1))
unfolding is_broadcast
is_broadcast-last p ip a h ha l = rw (← value-broadcast p ip h) (
    equal-value a (broadcast ip (prefix_mask p (length ip)))
      (omega (arith, l, length-broadcast p ip)) ha (broadcast-IsByte p ip h))

-- The block lies below the number of addresses.
pub block-fits :
    (p : ℕ) (ip : Address) → All IsByte ip → network p ip + block p (length ip) ≤ weight (length ip)
block-fits p ip h =
    let B = block p (length ip) in
    let M = value ip / block p (length ip) in
    let (q, e) = weight-block p (length ip) in
    let below : M * B < q * B =
      omega (arith, value-lt-weight ip h, e, div-add-mod' (value ip) (block p (length ip))) in
    let fewer : M + 1 ≤ q = omega (arith, lt_of_mul-lt-mul_right B below) in
    omega
      (arith, e, mul-le-mul_right (block p (length ip)) fewer, add-mul M 1 (block p (length ip)))

-- After the last address comes one outside the subnet.
pub leaves :
    (p : ℕ) (ip a : Address)
    → 0 < p
    → 0 < length ip
    → All IsByte ip
    → All IsByte a
    → length a ≡ length ip
    → value a ≡ network p ip + (block p (length ip) - 1)
    → contains (cidr p ip) (next_ip a) ≡ false
leaves p ip a hp hn h ha l e =
    let B = block p (length ip) in
    let next = value-next_ip a ha in
    let small = block-lt-weight p (length ip) hp hn in
    let pos = block-pos p (length ip) in
    let (inside, _) =
      contains-range p ip (next_ip a) h (next_ip-IsByte a ha)
        (omega (arith, l, length-next_ip a)) in
    ground (arith, inside, next, ap weight l, small, pos)
