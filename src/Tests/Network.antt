-- ===== src/Tests/Network.antt =====
-- The theorems on the network's parts at small addresses, frames and buffers.
use mathlib.Core.Option
use qcontroller.Base.{
  ℕ, zero, suc, ◌≡◌, arith, refl, List, [], ◌∷◌, some, if◌then◌else◌, eqb, drop, map, Bool-cases,
  inl, inr,
}
use qcontroller.Network.Ip.{Address, subnet_hosts}
use qcontroller.Network.Ip.Value.{value}
use qcontroller.Network.Ip.Range.{cidr}
use qcontroller.Network.Ip.Hosts.{range, subnet_hosts_exact}
use qcontroller.Network.Packets.{Bytes, bpf_packets}
use qcontroller.Network.Packets.RoundTrip.{Packet, put_packets, bpf_packets-put_packets}
use qcontroller.Network.Frame.{big_uint16, parse_arp_reply, Instruction, arp_reply_filter}
use qcontroller.Network.Frame.Replies.{reply_frame, arp_reply_filter-parse_arp_reply}

abbrev bridge : Address
bridge = 192 ∷ 168 ∷ 71 ∷ 9 ∷ []

-- 192.168.71.9/29 has the hosts 192.168.71.9 to 192.168.71.14.
subnet_hosts_exact_example :
    Option.map (map value) (subnet_hosts 8 (cidr 29 bridge)) ≡ some (range 3232253705 6)
subnet_hosts_exact_example =
    subnet_hosts_exact 8 29 bridge (omega arith) (omega arith)
      (omega arith, (omega arith, (omega arith, (omega arith, tt)))) (omega arith)

abbrev two_packets : List Packet
two_packets =
    record {
      seconds = 7;
      microseconds = 99;
      data_length = 3;
      alignment = [];
      frame = 1 ∷ 2 ∷ 3 ∷ [];
    }
    ∷ record {
      seconds = 8;
      microseconds = 1;
      data_length = 2;
      alignment = 0 ∷ 0 ∷ [];
      frame = 5 ∷ [];
    }
    ∷ []

bpf_packets-put_packets_example :
    bpf_packets 3 (put_packets two_packets) ≡ some ((1 ∷ 2 ∷ 3 ∷ []) ∷ (5 ∷ []) ∷ [])
bpf_packets-put_packets_example =
    bpf_packets-put_packets 3 two_packets
      ((omega arith, (omega arith, omega arith)), ((omega arith, (omega arith, omega arith)), tt))
      (omega arith)

abbrev mac_a : Bytes
mac_a = 82 ∷ 84 ∷ 0 ∷ 18 ∷ 52 ∷ 86 ∷ []

abbrev mac_b : Bytes
mac_b = 82 ∷ 84 ∷ 0 ∷ 171 ∷ 205 ∷ 239 ∷ []

abbrev guest : Address
guest = 192 ∷ 168 ∷ 71 ∷ 12 ∷ []

-- A virtual machine for the three instructions, which skips as many as the last jump says.
unfoldable execute : ℕ → List Instruction → Bytes → ℕ → ℕ
execute skip [] frame a = 0
execute (suc skip) (i ∷ is) frame a = execute skip is frame a
execute zero (Instruction.load_absolute off size ∷ is) frame a =
    execute 0 is frame (big_uint16 off frame)
execute zero (Instruction.jump_if_equal val skip ∷ is) frame a =
    execute (if eqb a val then 0 else skip) is frame a
execute zero (Instruction.ret_constant val ∷ is) frame a = val

execute_skip :
    (skip : ℕ) (is : List Instruction) (frame : Bytes) (a : ℕ)
    → execute skip is frame a ≡ execute 0 (drop skip is) frame a
unfolding execute
execute_skip zero is frame a = refl
execute_skip (suc skip) [] frame a = refl
execute_skip (suc skip) (i ∷ is) frame a = execute_skip skip is frame a

execute_jump :
    (val skip : ℕ) (is : List Instruction) (frame : Bytes) (a : ℕ)
    → execute 0 (Instruction.jump_if_equal val skip ∷ is) frame a
      ≡ execute 0 (if eqb a val then is else drop skip is) frame a
unfolding execute
execute_jump val skip is frame a = elim (Bool-cases (eqb a val)) [
  | inl e ↦ rw (execute, e) refl
  | inr e ↦ rw (execute, e) (execute_skip skip is frame a)
]

arp_reply_filter-parse_arp_reply_example :
    execute 0 arp_reply_filter (reply_frame mac_a mac_b guest bridge []) 0 ≡ 4294967295
unfolding execute parse_arp_reply
arp_reply_filter-parse_arp_reply_example =
    arp_reply_filter-parse_arp_reply (execute 0) (λ off is frame a h. refl) execute_jump
      (λ val is frame a. refl) (reply_frame mac_a mac_b guest bridge []) (omega arith)
