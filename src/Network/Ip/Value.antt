-- ===== src/Network/Ip/Value.antt =====
-- An address as a number: nextIP adds one, and two addresses of one length differ in it.
use native.Mathlib.Nat.{add-mul, mul-add-div_right, div-eq_of_lt}
use qcontroller.Base.{
  ℕ, zero, suc, ◌+◌, ◌*◌, ◌/◌, ◌<◌, ◌≡◌, ◌↔◌, ◌⊎◌, inl, inr, arith, refl, ap, true, false, [], ◌∷◌,
  if◌then◌else◌, eqb, length, All, Bool-cases,
}
use qcontroller.Network.Ip.{Address, increment, next_ip, increment_byte, equal}

abbrev pub IsByte : ℕ → Type 0
IsByte b = b < 256

-- 256 to the number of bytes
abbrev pub weight : ℕ → ℕ
weight zero = 1
weight (suc n) = 256 * weight n

-- the big-endian number of an address
abbrev pub value : Address → ℕ
value [] = 0
value (b ∷ bs) = b * weight (length bs) + value bs

pub value-lt-weight : (ip : Address) → All IsByte ip → value ip < weight (length ip)
value-lt-weight [] h = omega arith
value-lt-weight (b ∷ bs) (hb, hbs) = grind (arith, value-lt-weight bs hbs)

pub weight-pos : (n : ℕ) → 0 < weight n
weight-pos zero = omega arith
weight-pos (suc n) = omega (arith, weight-pos n)

pub length-increment : (ip : Address) → length (increment ip).0 ≡ length ip
unfolding increment
length-increment [] = refl
length-increment (b ∷ bs) = ground (arith, length-increment bs)

pub increment-IsByte : (ip : Address) → All IsByte ip → All IsByte (increment ip).0
unfolding increment
increment-IsByte [] h = tt
increment-IsByte (b ∷ bs) (hb, hbs) = ground (arith, increment-IsByte bs hbs)

-- Either no carry leaves the address and one is added, or every byte was 255.
increment-value :
    (ip : Address)
    → All IsByte ip
    → (((increment ip).1 ≡ false) × (value (increment ip).0 ≡ value ip + 1))
      ⊎ (((increment ip).1 ≡ true)
          × (value (increment ip).0 ≡ 0)
          × (value ip + 1 ≡ weight (length ip)))
unfolding increment
increment-value [] h = inr (refl, refl, omega arith)
increment-value (b ∷ bs) (hb, hbs) = elim (increment-value bs hbs) [
  | inl (c, v) ↦ inl (rw c refl, rw (c, length-increment bs) (omega (arith, v)))
  | inr (c, v, full) ↦ elim (Bool-cases (eqb (increment_byte b) 0)) [
    | inl last ↦
        let top : b ≡ 255 = ground arith in
        inr (rw c last, rw (c, top) (omega (arith, v)), rw top (omega (arith, full)))
    | inr inner ↦
        let next : increment_byte b ≡ b + 1 = ground arith in
        inl (
          rw c inner,
          rw (c, next, length-increment bs, v)
              (omega (arith, full, add-mul b 1 (weight (length bs)))),
        )
  ]
]

-- nextIP adds one to the number of an address, modulo the number of addresses of its length.
pub value-next_ip :
    (ip : Address)
    → All IsByte ip
    → value (next_ip ip) ≡ (if eqb (value ip + 1) (weight (length ip)) then 0 else value ip + 1)
unfolding next_ip
value-next_ip ip h = ground (
  arith,
  increment-value ip h,
  value-lt-weight ip h,
  value-lt-weight (increment ip).0 (increment-IsByte ip h),
  length-increment ip,
)

pub next_ip-IsByte : (ip : Address) → All IsByte ip → All IsByte (next_ip ip)
unfolding next_ip
next_ip-IsByte ip h = increment-IsByte ip h

pub length-next_ip : (ip : Address) → length (next_ip ip) ≡ length ip
unfolding next_ip
length-next_ip ip = length-increment ip

-- Two heads over tails below the weight are equal if the numbers are.
heads_eq : (a b x y w : ℕ) → x < w → y < w → a * w + x ≡ b * w + y → a ≡ b
heads_eq a b x y w hx hy e = omega (
  arith,
  mul-add-div_right {m = w} (omega arith) a x,
  mul-add-div_right {m = w} (omega arith) b y,
  div-eq_of_lt hx,
  div-eq_of_lt hy,
  ap (λ (t : ℕ). t / w) e,
)

-- On two addresses of one length, `equal` compares the numbers.
pub equal-value :
    (a b : Address)
    → length a ≡ length b
    → All IsByte a
    → All IsByte b
    → (equal a b ≡ true) ↔ (value a ≡ value b)
unfolding equal
equal-value [] [] l ha hb = (λ _. refl, λ _. refl)
equal-value [] (y ∷ ys) l ha hb = absurd (omega arith)
equal-value (x ∷ xs) [] l ha hb = absurd (omega arith)
equal-value (x ∷ xs) (y ∷ ys) l (hx, hxs) (hy, hys) =
    let lens : length xs ≡ length ys = omega arith in
    let tails = equal-value xs ys lens hxs hys in
    let low = value-lt-weight xs hxs in
    let low' = value-lt-weight ys hys in
    (
      λ h. ground (arith, tails.0, ap weight lens),
      λ h.
          let heads : x ≡ y =
            heads_eq x y (value xs) (value ys) (weight (length ys)) (rw lens at low) low'
              (rw lens at h) in
          let rest : value xs ≡ value ys = omega (arith, rw (lens, heads) at h) in
          ground (arith, tails.1 rest),
    )
