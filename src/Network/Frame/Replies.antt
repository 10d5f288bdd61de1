-- ===== src/Network/Frame/Replies.antt =====
-- Which frames the scan takes for replies, and what the filter leaves of them.
use qcontroller.Base.{
  ℕ, ◌+◌, ◌≤◌, ◌≡◌, arith, refl, ap, sym, ◌∙◌, List, [], ◌∷◌, ◌++◌, Option, none, some, false,
  if◌then◌else◌, eqb, ltb, length, drop, inl, inr, Bool-cases, is_none,
}
use qcontroller.Network.Ip.{Address}
use qcontroller.Network.Packets.{Bytes}
use qcontroller.Network.Frame.{
  ArpReply, big_uint16, put_big_uint16, copied, build_arp_request, parse_arp_reply, Instruction,
  arp_reply_filter,
}

-- The reply of a host as RFC 826 has it: the receiver's address in front, the operation 2 and the
-- sender's addresses, then the receiver's addresses and the padding of the link.
abbrev pub reply_frame : Bytes → Bytes → Bytes → Bytes → Bytes → Bytes
reply_frame dst_mac mac ip dst_ip padding =
    copied 6 dst_mac
    ++ (copied 6 mac
        ++ (put_big_uint16 2054
            ++ (put_big_uint16 1
                ++ (put_big_uint16 2048
                    ++ ((6 ∷ 4 ∷ [])
                        ++ (put_big_uint16 2
                            ++ (copied 6 mac
                                ++ (copied 4 ip
                                    ++ (copied 6 dst_mac ++ (copied 4 dst_ip ++ padding))))))))))

-- The scan does not take a request, its own included, for a reply: whatever the addresses are,
-- parseARPReply refuses the frame that buildARPRequest builds.
pub parse_arp_reply-build_arp_request :
    (to4 : Address → Bytes) (src_mac : Bytes) (src_ip dst_ip : Address)
    → parse_arp_reply (build_arp_request to4 src_mac src_ip dst_ip) ≡ none
unfolding parse_arp_reply
parse_arp_reply-build_arp_request to4 src_mac src_ip dst_ip = refl

copied_exact : (xs : Bytes) → copied (length xs) xs ≡ xs
copied_exact [] = refl
copied_exact (x ∷ xs) = ap (λ (t : Bytes). x ∷ t) (copied_exact xs)

copied-length : {n : ℕ} (xs : Bytes) → length xs ≡ n → copied n xs ≡ xs
copied-length xs e = ap (λ (n : ℕ). copied n xs) (sym e) ∙ copied_exact xs

abbrev reply : Bytes → Address → Option ArpReply
reply mac ip = some (record { mac = mac; ip = ip })

-- parseARPReply reads the sender's MAC and IPv4 address from the reply of a host, whatever padding
-- the link has put after it.
pub parse_arp_reply-reply_frame :
    (dst_mac mac ip dst_ip padding : Bytes)
    → length mac ≡ 6
    → length ip ≡ 4
    → parse_arp_reply (reply_frame dst_mac mac ip dst_ip padding)
      ≡ some (record { mac = mac; ip = ip })
unfolding parse_arp_reply
parse_arp_reply-reply_frame dst_mac mac ip dst_ip padding m i =
    let long : ltb (length (reply_frame dst_mac mac ip dst_ip padding)) 42 ≡ false = ground arith in
    rw long (
      ap (λ (t : Bytes). reply t (copied 4 ip)) (copied-length mac m)
      ∙ ap (λ (t : Bytes). reply mac t) (copied-length ip i))

-- A virtual machine for classic BPF: a filter's verdict on a frame, from the accumulator.
module _ (run : List Instruction → Bytes → ℕ → ℕ)
    (run_load : (off : ℕ) (is : List Instruction) (frame : Bytes) (a : ℕ)
      → off + 2 ≤ length frame
      → run (Instruction.load_absolute off 2 ∷ is) frame a ≡ run is frame (big_uint16 off frame))
    (run_jump : (val skip : ℕ) (is : List Instruction) (frame : Bytes) (a : ℕ)
      → run (Instruction.jump_if_equal val skip ∷ is) frame a
        ≡ run (if eqb a val then is else drop skip is) frame a)
    (run_return : (val : ℕ) (is : List Instruction) (frame : Bytes) (a : ℕ)
      → run (Instruction.ret_constant val ∷ is) frame a ≡ val) where
  -- For a virtual machine that loads, jumps and returns as classic BPF does, the filter's verdict on
  -- a frame of 42 bytes or more is to keep all of it if parseARPReply takes it for a reply, and to
  -- drop it otherwise.
  pub arp_reply_filter-parse_arp_reply :
      (frame : Bytes)
      → 42 ≤ length frame
      → run arp_reply_filter frame 0 ≡ (if is_none (parse_arp_reply frame) then 0 else 4294967295)
  unfolding parse_arp_reply
  arp_reply_filter-parse_arp_reply frame h =
      let first = run_jump 2054 3 (drop 2 arp_reply_filter) frame (big_uint16 12 frame) in
      let second = run_jump 2 1 (drop 4 arp_reply_filter) frame (big_uint16 20 frame) in
      rw (run_load 12 (drop 1 arp_reply_filter) frame 0 (omega arith))
        (elim (Bool-cases (eqb (big_uint16 12 frame) 2054)) [
          | inr other ↦
              rw other at first
              ∙ (run_return 0 [] frame (big_uint16 12 frame) ∙ ground (arith, other))
          | inl arp ↦
              (rw arp at first)
              ∙ (run_load 20 (drop 3 arp_reply_filter) frame (big_uint16 12 frame) (omega arith)
                  ∙ elim (Bool-cases (eqb (big_uint16 20 frame) 2)) [
                    | inr other ↦
                        (rw other at second)
                        ∙ (run_return 0 [] frame (big_uint16 20 frame) ∙ ground (arith, other))
                    | inl is_reply ↦
                        (rw is_reply at second)
                        ∙ (run_return 4294967295 (drop 5 arp_reply_filter) frame
                              (big_uint16 20 frame)
                            ∙ ground (arith, is_reply))
                  ])
        ])
