-- ===== src/Network/Ip/Bits.antt =====
-- The bit operations of one byte with a mask of leading ones, as arithmetic.
use Prim.Native.Nat.{bit_and, bit_or}
use qcontroller.Base.{
  ℕ, zero, suc, ◌+◌, ◌-◌, ◌*◌, ◌/◌, ◌^◌, ◌<◌, ◌≡◌, arith, refl, Bool, true, ◌&&◌, eqb, ltb,
}

-- net.CIDRMask: the byte of the mask with p ones to go
abbrev pub mask_byte : ℕ → ℕ
mask_byte p = 256 - 2 ^ (8 - p)

-- Over a small range, every value is checked by evaluation.
all_below : ℕ → (ℕ → Bool) → Bool
all_below zero q = true
all_below (suc n) q = q n && all_below n q

all_below_sound : (n : ℕ) (q : ℕ → Bool) (x : ℕ) → all_below n q ≡ true → x < n → q x ≡ true
unfolding all_below
all_below_sound zero q x h lt = absurd (omega arith)
all_below_sound (suc n) q x h lt = ground (arith, all_below_sound n q x)

and_test : ℕ → ℕ → Bool
and_test k b =
    eqb (bit_and b (256 - 2 ^ k)) (b / 2 ^ k * 2 ^ k) && ltb (bit_and b (256 - 2 ^ k)) 256

or_test : ℕ → ℕ → Bool
or_test k b =
    eqb (bit_or b (255 - (256 - 2 ^ k))) (b / 2 ^ k * 2 ^ k + (2 ^ k - 1))
    && ltb (bit_or b (255 - (256 - 2 ^ k))) 256

tables : all_below 9 (λ k. all_below 256 (and_test k) && all_below 256 (or_test k)) ≡ true
unfolding all_below and_test or_test
tables = refl

row : (k : ℕ) → k < 9 → (all_below 256 (and_test k) && all_below 256 (or_test k)) ≡ true
row k h =
    all_below_sound 9 (λ k. all_below 256 (and_test k) && all_below 256 (or_test k)) k tables h

pub bit_and-mask_byte :
    (p b : ℕ)
    → b < 256
    → (bit_and b (mask_byte p) ≡ b / 2 ^ (8 - p) * 2 ^ (8 - p)) × (bit_and b (mask_byte p) < 256)
unfolding and_test
bit_and-mask_byte p b h =
    ground (arith, row (8 - p) (omega arith), all_below_sound 256 (and_test (8 - p)) b)

pub bit_or-mask_byte :
    (p b : ℕ)
    → b < 256
    → (bit_or b (255 - mask_byte p) ≡ b / 2 ^ (8 - p) * 2 ^ (8 - p) + (2 ^ (8 - p) - 1))
      × (bit_or b (255 - mask_byte p) < 256)
unfolding or_test
bit_or-mask_byte p b h =
    ground (arith, row (8 - p) (omega arith), all_below_sound 256 (or_test (8 - p)) b)

-- the number of such blocks in a byte
quotient_test : ℕ → Bool
quotient_test k = eqb (256 / 2 ^ k * 2 ^ k) 256

quotients : all_below 9 quotient_test ≡ true
unfolding all_below quotient_test
quotients = refl

pub byte_quotient : (k : ℕ) → k < 9 → 256 / 2 ^ k * 2 ^ k ≡ 256
unfolding quotient_test
byte_quotient k h = ground (arith, all_below_sound 9 quotient_test k quotients h)

-- A power of two with fewer than eight bits is less than 256.
short_test : ℕ → Bool
short_test k = ltb (2 ^ k) 256

short_tables : all_below 8 short_test ≡ true
unfolding all_below short_test
short_tables = refl

pub short : (k : ℕ) → k < 8 → 2 ^ k < 256
unfolding short_test
short k h = ground (arith, all_below_sound 8 short_test k short_tables h)
