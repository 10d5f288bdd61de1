-- ===== src/Network/Ip/Mask.antt =====
-- A mask of leading ones keeps the number of the subnet and clears the number of the host.
use native.Mathlib.Nat.{
  one-le-pow, mul-pos, add-mul, mul-add-div_right, div-eq_of_lt, div-div-eq-div-mul, mul_assoc,
  mul_comm, add-zero, suc-mul, two-pow-succ, mul-lt-mul_of_pos_right,
}
use qcontroller.Base.{
  ℕ, zero, suc, ◌+◌, ◌-◌, ◌*◌, ◌/◌, ◌^◌, ◌<◌, ◌≤◌, ◌≡◌, inl, inr, arith, refl, List, [], ◌∷◌,
  length, All, lt-cases,
}
use qcontroller.Network.Ip.{Address, mask_ip, broadcast}
use qcontroller.Network.Ip.Bits.{
  mask_byte, bit_and-mask_byte, bit_or-mask_byte, byte_quotient, short,
}
use qcontroller.Network.Ip.Value.{IsByte, weight, value, value-lt-weight, weight-pos}

-- net.CIDRMask: n bytes whose first p bits are ones
abbrev pub prefix_mask : ℕ → ℕ → List ℕ
prefix_mask p zero = []
prefix_mask p (suc n) = mask_byte p ∷ prefix_mask (p - 8) n

-- the number of addresses that share the first p bits
abbrev pub block : ℕ → ℕ → ℕ
block p zero = 1
block p (suc n) = 2 ^ (8 - p) * block (p - 8) n

pub block-zero : (n : ℕ) → block 0 n ≡ weight n
block-zero zero = refl
block-zero (suc n) = omega (arith, block-zero n)

two_pow-pos : (k : ℕ) → 0 < 2 ^ k
two_pow-pos k = omega (arith, one-le-pow k 2 (omega arith))

pub block-pos : (p n : ℕ) → 0 < block p n
block-pos p zero = omega arith
block-pos p (suc n) = mul-pos (two_pow-pos (8 - p)) (block-pos (p - 8) n)

weight_split : (c k q m w : ℕ) → w ≡ q * m → c * k ≡ 256 → 256 * w ≡ c * q * (k * m)
weight_split c k q m w e h =
    rw
      (
        e,
        ← h,
        mul_assoc c k (q * m),
        mul_assoc c q (k * m),
        ← mul_assoc k q m,
        mul_comm k q,
        mul_assoc q k m,
      )
      refl

pub weight-block : (p n : ℕ) → (q : ℕ) × (weight n ≡ q * block p n)
weight-block p zero = (1, omega arith)
weight-block p (suc n) =
    let (q, e) = weight-block (p - 8) n in
    (
      256 / 2 ^ (8 - p) * q,
      weight_split (256 / 2 ^ (8 - p)) (2 ^ (8 - p)) q (block (p - 8) n) (weight n) e
          (byte_quotient (8 - p) (omega arith)),
    )

-- A multiple of the block in front changes neither the block nor what is left of it.
div-block : (b w v k q : ℕ) → 0 < k → w ≡ q * k → (b * w + v) / k * k ≡ b * w + v / k * k
div-block b w v k q pos e =
    rw (e, ← mul_assoc b q k, mul-add-div_right pos (b * q) v) (add-mul (b * q) (v / k) k)

-- Where the mask ends in the first byte, the rest of the address is cleared.
div-head : (b w v k : ℕ) → v < w → (b * w + v) / (k * w) * (k * w) ≡ b / k * k * w
div-head b w v k h =
    rw
      (
        mul_comm k w,
        ← div-div-eq-div-mul (b * w + v) w k,
        mul-add-div_right {m = w} (omega arith) b v,
        div-eq_of_lt h,
        add-zero b,
        mul_comm w k,
        mul_assoc (b / k) k w,
      )
      refl

pub length-mask_ip :
    (p : ℕ) (ip : Address) → length (mask_ip ip (prefix_mask p (length ip))) ≡ length ip
unfolding mask_ip
length-mask_ip p [] = refl
length-mask_ip p (b ∷ bs) = omega (arith, length-mask_ip (p - 8) bs)

pub length-broadcast :
    (p : ℕ) (ip : Address) → length (broadcast ip (prefix_mask p (length ip))) ≡ length ip
unfolding broadcast
length-broadcast p [] = refl
length-broadcast p (b ∷ bs) = omega (arith, length-broadcast (p - 8) bs)

-- A whole byte of ones keeps the byte; a mask that ends in this byte has no ones after it.
whole_byte : (p : ℕ) → 8 ≤ p → 2 ^ (8 - p) ≡ 1
whole_byte p h = let none_left : 8 - p ≡ 0 = omega arith in rw none_left refl

rest_block : (p n : ℕ) → p < 8 → block (p - 8) n ≡ weight n
rest_block p n h = let none_left : p - 8 ≡ 0 = omega arith in rw none_left (block-zero n)

-- The head's part of the quotient and the tail's, put together.
div-parts :
    (p b v n : ℕ)
    → v < weight n
    → b / 2 ^ (8 - p) * 2 ^ (8 - p) * weight n + v / block (p - 8) n * block (p - 8) n
      ≡ (b * weight n + v) / block p (suc n) * block p (suc n)
div-parts p b v n h = elim (lt-cases p 8) [
  | inr whole ↦
      let (q, e) = weight-block (p - 8) n in
      let one : (m : ℕ) → 1 * m ≡ m = λ m. omega arith in
      let same : b / 1 * 1 ≡ b = omega arith in
      rw
        (
          whole_byte p whole,
          one (block (p - 8) n),
          same,
          div-block b (weight n) v (block (p - 8) n) q (block-pos (p - 8) n) e,
        )
        refl
  | inl ends ↦
      rw (rest_block p n ends, div-head b (weight n) v (2 ^ (8 - p)) h, div-eq_of_lt h)
        (omega arith)
]

-- The number of the masked address is that of the address without what is below the block.
pub value-mask_ip :
    (p : ℕ) (ip : Address)
    → All IsByte ip
    → value (mask_ip ip (prefix_mask p (length ip)))
      ≡ value ip / block p (length ip) * block p (length ip)
unfolding mask_ip
value-mask_ip p [] h = omega arith
value-mask_ip p (b ∷ bs) (hb, hbs) =
    rw ((bit_and-mask_byte p b hb).0, length-mask_ip (p - 8) bs, value-mask_ip (p - 8) bs hbs)
      (div-parts p b (value bs) (length bs) (value-lt-weight bs hbs))

last_part : (k w : ℕ) → 0 < k → 0 < w → (k - 1) * w + (w - 1) ≡ k * w - 1
last_part zero w hk hw = absurd (omega arith)
last_part (suc k) w hk hw =
    let before : suc k - 1 ≡ k = omega arith in rw before (omega (arith, suc-mul k w))

-- Below the block's multiple, the last number of the block in the same two parts.
last-parts : (p n : ℕ) → (2 ^ (8 - p) - 1) * weight n + (block (p - 8) n - 1) ≡ block p (suc n) - 1
last-parts p n = elim (lt-cases p 8) [
  | inr whole ↦ rw (whole_byte p whole) (omega arith)
  | inl ends ↦
      rw (rest_block p n ends)
        (last_part (2 ^ (8 - p)) (weight n) (two_pow-pos (8 - p)) (weight-pos n))
]

-- The number of the broadcast address is the last one of the block.
pub value-broadcast :
    (p : ℕ) (ip : Address)
    → All IsByte ip
    → value (broadcast ip (prefix_mask p (length ip)))
      ≡ value ip / block p (length ip) * block p (length ip) + (block p (length ip) - 1)
unfolding broadcast
value-broadcast p [] h = omega arith
value-broadcast p (b ∷ bs) (hb, hbs) =
    rw
      (
        (bit_or-mask_byte p b hb).0,
        length-broadcast (p - 8) bs,
        value-broadcast (p - 8) bs hbs,
        ← div-parts p b (value bs) (length bs) (value-lt-weight bs hbs),
      )
      (omega (
        arith,
        last-parts p (length bs),
        add-mul (b / 2 ^ (8 - p) * 2 ^ (8 - p)) (2 ^ (8 - p) - 1) (weight (length bs)),
        mul-pos (two_pow-pos (8 - p)) (block-pos (p - 8) (length bs)),
        block-pos (p - 8) (length bs),
      ))

pub mask_ip-IsByte :
    (p : ℕ) (ip : Address) → All IsByte ip → All IsByte (mask_ip ip (prefix_mask p (length ip)))
unfolding mask_ip
mask_ip-IsByte p [] h = tt
mask_ip-IsByte p (b ∷ bs) (hb, hbs) = ((bit_and-mask_byte p b hb).1, mask_ip-IsByte (p - 8) bs hbs)

pub broadcast-IsByte :
    (p : ℕ) (ip : Address) → All IsByte ip → All IsByte (broadcast ip (prefix_mask p (length ip)))
unfolding broadcast
broadcast-IsByte p [] h = tt
broadcast-IsByte p (b ∷ bs) (hb, hbs) =
    ((bit_or-mask_byte p b hb).1, broadcast-IsByte (p - 8) bs hbs)

le_multiple : (q b : ℕ) → 0 < q * b → b ≤ q * b
le_multiple zero b h = absurd (omega arith)
le_multiple (suc q) b h = omega (arith, suc-mul q b)

pub block-le-weight : (p n : ℕ) → block p n ≤ weight n
block-le-weight p n =
    let (q, e) = weight-block p n in grind (arith, weight-pos n, le_multiple q (block p n))

pub block-lt-weight : (p n : ℕ) → 0 < p → 0 < n → block p n < weight n
block-lt-weight p zero hp hn = absurd (omega arith)
block-lt-weight p (suc n) hp hn = elim (lt-cases p 8) [
  | inr whole ↦ rw (whole_byte p whole) (omega (arith, block-le-weight (p - 8) n, weight-pos n))
  | inl ends ↦
      rw (rest_block p n ends)
        (mul-lt-mul_of_pos_right (short (8 - p) (omega arith)) (weight-pos n))
]

-- A prefix that the address holds leaves 2 ^ (8 * n - p) addresses.
pow-add : (m k : ℕ) → 2 ^ (m + k) ≡ 2 ^ m * 2 ^ k
pow-add zero k = let none_added : 0 + k ≡ k = omega arith in rw none_added (omega arith)
pow-add (suc m) k =
    let shift : suc m + k ≡ suc (m + k) = omega arith in
    rw (shift, two-pow-succ (m + k), two-pow-succ m, pow-add m k, add-mul (2 ^ m) (2 ^ m) (2 ^ k))
      refl

pub block-power : (p n : ℕ) → p ≤ 8 * n → block p n ≡ 2 ^ (8 * n - p)
block-power p zero h = let bits : 8 * zero - p ≡ 0 = omega arith in rw bits refl
block-power p (suc n) h =
    let bits : 8 * suc n - p ≡ (8 - p) + (8 * n - (p - 8)) = omega arith in
    rw (bits, pow-add (8 - p) (8 * n - (p - 8)), block-power (p - 8) n (omega arith)) refl
