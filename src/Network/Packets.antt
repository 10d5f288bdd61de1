-- ===== src/Network/Packets.antt =====
-- src/pkg/utils/network/arp/bpf_darwin.go, bpfPackets: the frames of one read buffer.
pub mod Ends
pub mod RoundTrip
use qcontroller.Base.{
  ℕ, zero, suc, ◌+◌, ◌*◌, ◌/◌, List, [], ◌∷◌, Option, none, some, Bool, true, false, ◌||◌,
  if◌then◌else◌, eqb, ltb, leb, length, take, drop,
}

abbrev pub Bytes : Type 0
Bytes = List ℕ

-- A byte of a slice; a caller has checked that it is there.
abbrev pub byte : ℕ → Bytes → ℕ
byte i [] = 0
byte zero (b ∷ bs) = b
byte (suc i) (b ∷ bs) = byte i bs

-- binary.NativeEndian on a little-endian machine
abbrev pub uint16 : ℕ → Bytes → ℕ
uint16 i bs = byte i bs + 256 * byte (i + 1) bs

abbrev pub uint32 : ℕ → Bytes → ℕ
uint32 i bs = uint16 i bs + 65536 * uint16 (i + 2) bs

-- bpfHdrSize
abbrev pub bpf_hdr_size : ℕ
bpf_hdr_size = 20

-- One round of the loop of bpfPackets: the frame at an offset and the offset of the next, or none
-- where the loop stops.
unfoldable pub frame_at : Bytes → ℕ → Option (Bytes × ℕ)
frame_at buffer offset =
    let n = length buffer in
    let hdr = drop offset buffer in
    let caplen = uint32 8 hdr in
    let hdrlen = uint16 16 hdr in
    let packet_offset = offset + hdrlen in
    let packet_end = packet_offset + caplen in
    if leb n offset
    then none
    else if ltb n (offset + bpf_hdr_size)
    then none
    else if eqb hdrlen 0 || eqb caplen 0
    then none
    else if ltb n packet_end
    then none
    else some (take caplen (drop packet_offset buffer), (packet_end + 3) / 4 * 4)

abbrev pub prepend : Bytes → Option (List Bytes) → Option (List Bytes)
prepend f none = none
prepend f (some fs) = some (f ∷ fs)

-- The loop of bpfPackets for a consumer that takes every frame; none if the fuel runs out.
unfoldable pub packets_from : ℕ → Bytes → ℕ → Option (List Bytes)
unfolding frame_at
packets_from zero buffer offset = none
packets_from (suc fuel) buffer offset = elim (frame_at buffer offset) [
  | none ↦ some []
  | some (f, next) ↦ prepend f (packets_from fuel buffer next)
]

-- bpfPackets
unfoldable pub bpf_packets : ℕ → Bytes → Option (List Bytes)
unfolding packets_from
bpf_packets fuel buffer = packets_from fuel buffer 0
