-- ===== src/Network/Scan/Requests.antt =====
-- What one scan sends, and which frames it has heard when it ends.
use mathlib.Core.List.{append-nil, append_assoc}
use qcontroller.Base.{
  ℕ, zero, suc, ◌+◌, ◌/◌, ◌<◌, ◌≡◌, arith, refl, sym, ◌∙◌, List, [], ◌∷◌, ◌++◌, if◌then◌else◌,
  String, Bool-cases, inl, inr, length, map, leb,
}
use qcontroller.Network.Ip.{Address, Subnet}
use qcontroller.Network.Packets.{Bytes}
use qcontroller.Network.Frame.{build_arp_request}
use qcontroller.Network.Scan.{
  World, Progress, start, hear_all, request_all, listen, exchange, batch_size,
}
use qcontroller.Network.Scan.Heard.{hear_all-append}

-- The frames of so many reads from a number on, and those of the reads that did not fail.
abbrev pub early_frames : World → ℕ → ℕ → List Bytes
early_frames w from zero = []
early_frames w from (suc n) = (w.recv from).frames ++ early_frames w (suc from) n

abbrev pub late_frames : World → ℕ → ℕ → List Bytes
late_frames w from zero = []
late_frames w from (suc n) =
    (if (w.recv from).failed then [] else (w.recv from).frames) ++ late_frames w (suc from) n

-- Every tenth request is followed by a read, and reads follow until the deadline.
abbrev pub heard_by : World → List Address → List Bytes
heard_by w targets =
    early_frames w 0 (length targets / 10) ++ late_frames w (length targets / 10) w.late

module _ (to4 : Address → Bytes) (mac_string : Bytes → String) where
  -- Where a phase of the scan ends: the hosts of what it heard, the calls and the frames sent.
  abbrev pub Ends : Subnet → Progress → Progress → List Bytes → ℕ → List Bytes → Type 0
  Ends s p q heard calls sent =
      (q.current_hosts ≡ hear_all mac_string s p.current_hosts heard)
      × ((q.calls ≡ p.calls + calls) × (q.sent ≡ p.sent ++ sent))

  listen-Ends :
      (s : Subnet) (w : World) (left : ℕ) (p : Progress)
      → Ends s p (listen mac_string s w left p) (late_frames w p.calls left) left []
  unfolding listen hear_all
  listen-Ends s w zero p = (refl, (omega arith, sym (append-nil p.sent)))
  listen-Ends s w (suc left) p = elim (Bool-cases (w.recv p.calls).failed) [
    | inl e ↦
        let (h, (c, m)) = listen-Ends s w left (record p { calls = suc p.calls }) in
        (rw (listen, e) h, (rw (listen, e) (omega (arith, c)), rw (listen, e) m))
    | inr e ↦
        let hosts = hear_all mac_string s p.current_hosts (w.recv p.calls).frames in
        let (h, (c, m)) =
          listen-Ends s w left (record p { calls = suc p.calls; current_hosts = hosts }) in
        (
          rw (listen, e)
              (h
                ∙ sym (
                    hear_all-append mac_string s p.current_hosts (w.recv p.calls).frames
                      (late_frames w (suc p.calls) left))),
          (rw (listen, e) (omega (arith, c)), rw (listen, e) m),
        )
  ]

  request_all-Ends :
      (s : Subnet) (w : World) (src_mac : Bytes) (src_ip : Address) (targets : List Address)
      (p : Progress)
      → p.current_batch < 10
      → Ends s p
          (request_all to4 mac_string s w src_mac src_ip targets p)
          (early_frames w p.calls ((p.current_batch + length targets) / 10))
          ((p.current_batch + length targets) / 10)
          (map (build_arp_request to4 src_mac src_ip) targets)
  unfolding request_all hear_all
  request_all-Ends s w src_mac src_ip [] p h =
      let none_due : (p.current_batch + 0) / 10 ≡ 0 = omega arith in
      (rw none_due refl, (omega arith, sym (append-nil p.sent)))
  request_all-Ends s w src_mac src_ip (target ∷ targets) p h =
      let frame = build_arp_request to4 src_mac src_ip target in
      let frames = map (build_arp_request to4 src_mac src_ip) targets in
      elim (Bool-cases (leb batch_size (suc p.current_batch))) [
        | inl full ↦
            let due : (p.current_batch + suc (length targets)) / 10
                ≡ suc ((0 + length targets) / 10) =
              ground arith in
            let hosts = hear_all mac_string s p.current_hosts (w.recv p.calls).frames in
            let (h, (c, m)) =
              request_all-Ends s w src_mac src_ip targets
                (record {
                  current_hosts = hosts;
                  current_batch = 0;
                  calls = suc p.calls;
                  sent = p.sent ++ (frame ∷ []);
                })
                (omega arith) in
            (
              rw (request_all, full, due)
                  (h
                    ∙ sym (
                        hear_all-append mac_string s p.current_hosts (w.recv p.calls).frames
                          (early_frames w (suc p.calls) ((0 + length targets) / 10)))),
              (
                rw (request_all, full) (omega (arith, c, due)),
                rw (request_all, full) (m ∙ append_assoc p.sent (frame ∷ []) frames),
              ),
            )
        | inr room ↦
            let due : (p.current_batch + suc (length targets)) / 10
                ≡ (suc p.current_batch + length targets) / 10 =
              omega arith in
            let (h, (c, m)) =
              request_all-Ends s w src_mac src_ip targets
                (record {
                  current_hosts = p.current_hosts;
                  current_batch = suc p.current_batch;
                  calls = p.calls;
                  sent = p.sent ++ (frame ∷ []);
                })
                (ground arith) in
            (
              rw (request_all, room, due) h,
              (
                rw (request_all, room, due) c,
                rw (request_all, room) (m ∙ append_assoc p.sent (frame ∷ []) frames),
              ),
            )
      ]

  pub exchange-Ends :
      (s : Subnet) (w : World) (src_mac : Bytes) (src_ip : Address) (targets : List Address)
      → Ends s start
          (exchange to4 mac_string s w src_mac src_ip targets)
          (heard_by w targets)
          (length targets / 10 + w.late)
          (map (build_arp_request to4 src_mac src_ip) targets)
  exchange-Ends s w src_mac src_ip targets =
      let asked = request_all to4 mac_string s w src_mac src_ip targets start in
      let batches : (0 + length targets) / 10 ≡ length targets / 10 = omega arith in
      let (h, (c, m)) = request_all-Ends s w src_mac src_ip targets start (omega arith) in
      let (h', (c', m')) = listen-Ends s w w.late asked in
      let early : asked.current_hosts
          ≡ hear_all mac_string s [] (early_frames w 0 (length targets / 10)) =
        rw batches at h in
      let calls : asked.calls ≡ length targets / 10 = omega (arith, c) in
      (
        h'
            ∙ (rw (early, calls)
                (sym (
                  hear_all-append mac_string s [] (early_frames w 0 (length targets / 10))
                    (late_frames w (length targets / 10) w.late)))),
        (omega (arith, c', calls), m' ∙ (append-nil asked.sent ∙ m)),
      )
