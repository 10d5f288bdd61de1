-- ===== src/Network/Packets/RoundTrip.antt =====
-- What the kernel writes into a read buffer, as the comment on bpf_hdr describes it, is what
-- bpfPackets reads back.
use qcontroller.Base.{
  ℕ, zero, suc, ◌+◌, ◌-◌, ◌*◌, ◌/◌, ◌%◌, ◌^◌, ◌<◌, ◌≤◌, ◌≡◌, arith, refl, ap, sym, ◌∙◌, List, [],
  ◌∷◌, ◌++◌, none, some, length, map, take, drop, All, length-append,
}
use qcontroller.Network.Packets.{Bytes, frame_at, packets_from, bpf_packets, uint16, uint32}

pub record Packet : Type 0 where
  pub seconds : ℕ
  pub microseconds : ℕ
  pub data_length : ℕ
  -- what the header has after its twenty bytes
  pub alignment : Bytes
  pub frame : Bytes

abbrev pub put_uint16 : ℕ → Bytes → Bytes
put_uint16 x rest = x % 256 ∷ x / 256 % 256 ∷ rest

abbrev pub put_uint32 : ℕ → Bytes → Bytes
put_uint32 x rest = put_uint16 x (put_uint16 (x / 65536) rest)

abbrev pub zeros : ℕ → Bytes
zeros zero = []
zeros (suc n) = 0 ∷ zeros n

abbrev pub padding : ℕ → ℕ
padding n = (4 - n % 4) % 4

abbrev pub body_size : Packet → ℕ
body_size p = length p.alignment + 20 + length p.frame

-- The twenty bytes of the header.
abbrev pub header : Packet → Bytes
header p = put_uint32 p.seconds (
    put_uint32 p.microseconds (
      put_uint32 (length p.frame)
        (put_uint32 p.data_length (put_uint16 (length p.alignment + 20) (put_uint16 0 [])))))

-- One packet, padded to a multiple of four bytes, and what comes after it.
abbrev pub put_packet : Packet → Bytes → Bytes
put_packet p rest =
    header p ++ (p.alignment ++ (p.frame ++ (zeros (padding (body_size p)) ++ rest)))

abbrev pub put_packets : List Packet → Bytes
put_packets [] = []
put_packets (p ∷ ps) = put_packet p (put_packets ps)

-- The frame is not empty, and the lengths fit the fields of the header.
abbrev pub Fits : Packet → Type 0
Fits p = (0 < length p.frame) × ((length p.frame < 2 ^ 32) × (length p.alignment + 20 < 2 ^ 16))

length-zeros : (n : ℕ) → length (zeros n) ≡ n
length-zeros zero = refl
length-zeros (suc n) = omega (arith, length-zeros n)

get_uint16 : (x : ℕ) → x < 65536 → x % 256 + 256 * (x / 256 % 256) ≡ x
get_uint16 x h = omega arith

get_uint32 :
    (x : ℕ)
    → x < 4294967296
    → x % 256 + 256 * (x / 256 % 256) + 65536 * (x / 65536 % 256 + 256 * (x / 65536 / 256 % 256))
      ≡ x
get_uint32 x h =
    let high : x / 65536 < 65536 = omega arith in omega (arith, get_uint16 (x / 65536) high)

module _ {ℓ} {A : Type ℓ} where
  drop_nil : (n : ℕ) → drop {A = A} n [] ≡ []
  drop_nil zero = refl
  drop_nil (suc n) = refl

  drop-drop : (m n : ℕ) (xs : List A) → drop (m + n) xs ≡ drop n (drop m xs)
  drop-drop zero n xs = let at : 0 + n ≡ n = omega arith in rw at refl
  drop-drop (suc m) n [] =
      let at : suc m + n ≡ suc (m + n) = omega arith in rw (at, drop_nil n) refl
  drop-drop (suc m) n (x ∷ xs) =
      let at : suc m + n ≡ suc (m + n) = omega arith in rw at (drop-drop m n xs)

  drop-length : (xs ys : List A) → drop (length xs) (xs ++ ys) ≡ ys
  drop-length [] ys = refl
  drop-length (x ∷ xs) ys = drop-length xs ys

  take-append : (xs ys : List A) → take (length xs) (xs ++ ys) ≡ xs
  take-append [] ys = refl
  take-append (x ∷ xs) ys = ap (λ (t : List A). x ∷ t) (take-append xs ys)

length-put_packet :
    (p : Packet) (rest : Bytes)
    → length (put_packet p rest) ≡ body_size p + padding (body_size p) + length rest
length-put_packet p rest = omega (
  arith,
  length-append p.alignment (p.frame ++ (zeros (padding (body_size p)) ++ rest)),
  length-append p.frame (zeros (padding (body_size p)) ++ rest),
  length-append (zeros (padding (body_size p))) rest,
  length-zeros (padding (body_size p)),
)

-- The bytes from the frame on, and those after the packet.
drop_body :
    (p : Packet) (rest : Bytes)
    → drop (length p.alignment + 20) (put_packet p rest)
      ≡ p.frame ++ (zeros (padding (body_size p)) ++ rest)
drop_body p rest =
    let tail = p.frame ++ (zeros (padding (body_size p)) ++ rest) in
    let at : length p.alignment + 20 ≡ length (header p) + length p.alignment = omega arith in
    ap (λ (n : ℕ). drop n (put_packet p rest)) at
    ∙ (drop-drop (length (header p)) (length p.alignment) (put_packet p rest)
        ∙ drop-length p.alignment tail)

drop_packet :
    (p : Packet) (rest : Bytes)
    → drop (body_size p + padding (body_size p)) (put_packet p rest) ≡ rest
drop_packet p rest =
    let pad = zeros (padding (body_size p)) in
    let at : padding (body_size p) ≡ length pad = sym (length-zeros (padding (body_size p))) in
    drop-drop (body_size p) (padding (body_size p)) (put_packet p rest)
    ∙ (ap (λ (xs : Bytes). drop (padding (body_size p)) xs)
          (drop-drop (length p.alignment + 20) (length p.frame) (put_packet p rest)
            ∙ (ap (λ (xs : Bytes). drop (length p.frame) xs) (drop_body p rest)
                ∙ drop-length p.frame (pad ++ rest)))
        ∙ (ap (λ (n : ℕ). drop n (pad ++ rest)) at ∙ drop-length pad rest))

-- A round over a header whose lengths stay within the buffer.
round :
    (buffer : Bytes) (offset hl cl : ℕ)
    → uint16 16 (drop offset buffer) ≡ hl
    → uint32 8 (drop offset buffer) ≡ cl
    → 20 ≤ hl
    → 0 < cl
    → offset + hl + cl ≤ length buffer
    → frame_at buffer offset
      ≡ some (take cl (drop (offset + hl) buffer), (offset + hl + cl + 3) / 4 * 4)
unfolding frame_at
round buffer offset hl cl eh ec h20 pos fits = rw (frame_at, eh, ec) (ground arith)

-- At a packet at a multiple of four bytes, one round reads its frame and goes to the next one.
reads_packet :
    (buffer : Bytes) (offset : ℕ) (p : Packet) (rest : Bytes)
    → Fits p
    → offset % 4 ≡ 0
    → drop offset buffer ≡ put_packet p rest
    → length buffer ≡ offset + length (put_packet p rest)
    → frame_at buffer offset ≡ some (p.frame, offset + (body_size p + padding (body_size p)))
reads_packet buffer offset p rest (some_bytes, (short, small)) aligned at len =
    let body = drop-drop offset (length p.alignment + 20) buffer in
    let next : (offset + (length p.alignment + 20) + length p.frame + 3) / 4 * 4
        ≡ offset + (body_size p + padding (body_size p)) =
      omega arith in
    let one =
      round buffer offset (length p.alignment + 20) (length p.frame)
        (rw at (get_uint16 (length p.alignment + 20) small))
        (rw at (get_uint32 (length p.frame) short)) (omega arith) some_bytes
        (omega (arith, len, length-put_packet p rest)) in
    rw
      (
        body,
        at,
        drop_body p rest,
        take-append p.frame (zeros (padding (body_size p)) ++ rest),
        next,
      )
      at one

-- Past the last packet the loop stops.
stops : (buffer : Bytes) (offset : ℕ) → length buffer ≤ offset → frame_at buffer offset ≡ none
unfolding frame_at
stops buffer offset h = ground arith

packets_from-put_packets :
    (fuel : ℕ) (buffer : Bytes) (offset : ℕ) (ps : List Packet)
    → All Fits ps
    → offset % 4 ≡ 0
    → drop offset buffer ≡ put_packets ps
    → length buffer ≡ offset + length (put_packets ps)
    → length ps < fuel
    → packets_from fuel buffer offset ≡ some (map (λ p. p.frame) ps)
unfolding packets_from
packets_from-put_packets zero buffer offset ps h aligned at len f = absurd (omega arith)
packets_from-put_packets (suc fuel) buffer offset [] h aligned at len f =
    rw (packets_from, stops buffer offset (omega (arith, len))) refl
packets_from-put_packets (suc fuel) buffer offset (p ∷ ps) (hp, hps) aligned at len f =
    let rest =
      packets_from-put_packets fuel buffer (offset + (body_size p + padding (body_size p))) ps hps
        (omega arith)
        (drop-drop offset (body_size p + padding (body_size p)) buffer
          ∙ (ap (λ (xs : Bytes). drop (body_size p + padding (body_size p)) xs) at
              ∙ drop_packet p (put_packets ps)))
        (omega (arith, len, length-put_packet p (put_packets ps))) (omega arith) in
    rw (packets_from, reads_packet buffer offset p (put_packets ps) hp aligned at len, rest) refl

-- From the bytes of any packets whose frames are not empty and whose lengths fit the header's
-- fields, bpfPackets reads back exactly their frames, in order, on any fuel above the number of packets.
pub bpf_packets-put_packets :
    (fuel : ℕ) (ps : List Packet)
    → All Fits ps
    → length ps < fuel
    → bpf_packets fuel (put_packets ps) ≡ some (map (λ p. p.frame) ps)
unfolding bpf_packets
bpf_packets-put_packets fuel ps h f =
    packets_from-put_packets fuel (put_packets ps) 0 ps h (omega arith) refl (omega arith) f
