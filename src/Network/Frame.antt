-- ===== src/Network/Frame.antt =====
-- src/pkg/utils/network/arp/arp.go and the filter of bpf_darwin.go: the frames of an ARP scan.
pub mod Replies
use qcontroller.Base.{
  ℕ, zero, suc, ◌+◌, ◌-◌, ◌*◌, ◌/◌, ◌%◌, List, [], ◌∷◌, ◌++◌, Option, none, some, Bool, true, false,
  if◌then◌else◌, eqb, ltb, not, length, take, drop,
}
use qcontroller.Network.Ip.{Address}
use qcontroller.Network.Packets.{Bytes, byte}

-- arpReply
pub record ArpReply : Type 0 where
  pub mac : Bytes
  pub ip : Address

-- binary.BigEndian
abbrev pub big_uint16 : ℕ → Bytes → ℕ
big_uint16 i bs = 256 * byte i bs + byte (i + 1) bs

abbrev pub put_big_uint16 : ℕ → Bytes
put_big_uint16 x = x / 256 % 256 ∷ x % 256 ∷ []

-- `copy` into a slice of zeros
abbrev pub copied : ℕ → Bytes → Bytes
copied zero src = []
copied (suc n) src = byte 0 src ∷ copied n (drop 1 src)

-- buildARPRequest; `to4` is net.IP's To4, which gives nothing for an address that is not of IPv4.
module _ (to4 : Address → Bytes) where
  abbrev pub build_arp_request : Bytes → Address → Address → Bytes
  build_arp_request src_mac src_ip dst_ip =
      copied 6 (255 ∷ 255 ∷ 255 ∷ 255 ∷ 255 ∷ 255 ∷ [])
      ++ (copied 6 src_mac
          ++ (put_big_uint16 2054
              ++ (put_big_uint16 1
                  ++ (put_big_uint16 2048
                      ++ ((6 ∷ 4 ∷ [])
                          ++ (put_big_uint16 1
                              ++ (copied 6 src_mac
                                  ++ (copied 4 (to4 src_ip)
                                      ++ (copied 6 (0 ∷ 0 ∷ 0 ∷ 0 ∷ 0 ∷ 0 ∷ [])
                                          ++ copied 4 (to4 dst_ip))))))))))

-- parseARPReply
unfoldable pub parse_arp_reply : Bytes → Option ArpReply
parse_arp_reply frame =
    if ltb (length frame) 42
    then none
    else if not (eqb (big_uint16 12 frame) 2054)
    then none
    else if not (eqb (big_uint16 20 frame) 2)
    then none
    else some
        (record { mac = copied 6 (take 6 (drop 22 frame)); ip = copied 4 (take 4 (drop 28 frame)) })

-- bpf.Instruction, as far as arpReplyFilter uses it
pub data Instruction : Type 0 where
  load_absolute : (off size : ℕ) → Instruction
  jump_if_equal : (val skip_false : ℕ) → Instruction
  ret_constant : (val : ℕ) → Instruction

-- arpReplyFilter
abbrev pub arp_reply_filter : List Instruction
arp_reply_filter =
    Instruction.load_absolute 12 2
    ∷ Instruction.jump_if_equal 2054 3
    ∷ Instruction.load_absolute 20 2
    ∷ Instruction.jump_if_equal 2 1
    ∷ Instruction.ret_constant 4294967295
    ∷ Instruction.ret_constant 0
    ∷ []
