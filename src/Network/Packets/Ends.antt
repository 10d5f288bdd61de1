-- ===== src/Network/Packets/Ends.antt =====
-- The loop of bpfPackets ends: every frame moves the offset towards the end of the buffer.
use qcontroller.Base.{
  ℕ, zero, suc, ◌+◌, ◌<◌, ◌≡◌, arith, refl, List, [], ◌∷◌, some, length, inl, inr, Option-cases,
}
use qcontroller.Network.Packets.{Bytes, frame_at, packets_from, bpf_packets}

advances :
    (buffer : Bytes) (offset : ℕ) (f : Bytes) (next : ℕ)
    → frame_at buffer offset ≡ some (f, next)
    → (offset < length buffer) × (offset < next)
unfolding frame_at
advances buffer offset f next e = ground arith

-- Any two amounts of fuel that the loop cannot use up give the same frames.
packets_from-ends :
    (fuel fuel' : ℕ) (buffer : Bytes) (offset : ℕ)
    → length buffer < fuel + offset
    → length buffer < fuel' + offset
    → 0 < fuel
    → 0 < fuel'
    → (frames : List Bytes) × ((packets_from fuel buffer offset ≡ some frames)
        × (packets_from fuel' buffer offset ≡ some frames))
unfolding packets_from
packets_from-ends zero fuel' buffer offset h h' pos pos' = absurd (omega arith)
packets_from-ends (suc fuel) zero buffer offset h h' pos pos' = absurd (omega arith)
packets_from-ends (suc fuel) (suc fuel') buffer offset h h' pos pos' =
    elim (Option-cases (frame_at buffer offset)) [
      | inl stop ↦ ([], (rw (packets_from, stop) refl, rw (packets_from, stop) refl))
      | inr ((f, next), go) ↦
          let (below, more) = advances buffer offset f next go in
          let (frames, (e, e')) =
            packets_from-ends fuel fuel' buffer next (omega arith) (omega arith) (omega arith)
              (omega arith) in
          (f ∷ frames, (rw (packets_from, go, e) refl, rw (packets_from, go, e') refl))
    ]

-- On fuel above the length of the buffer bpfPackets ends with a list of frames, whatever the bytes
-- are, and more fuel gives the same list.
pub bpf_packets_end :
    (fuel : ℕ) (buffer : Bytes)
    → length buffer < fuel
    → (frames : List Bytes) × ((bpf_packets fuel buffer ≡ some frames)
        × (bpf_packets (suc (length buffer)) buffer ≡ some frames))
unfolding bpf_packets
bpf_packets_end fuel buffer h =
    packets_from-ends fuel (suc (length buffer)) buffer 0 (omega arith) (omega arith) (omega arith)
      (omega arith)
