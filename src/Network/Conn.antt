-- ===== src/Network/Conn.antt =====
-- src/pkg/utils/network/arp/conn_darwin.go and conn_linux.go, with the ioctls of bpf_darwin.go: the raw
-- connections of a scan, as the system calls that they make.
pub mod Closes
use qcontroller.Base.{
  ℕ, zero, suc, ◌+◌, ◌*◌, ◌/◌, ◌%◌, ◌<>◌, String, List, [], ◌∷◌, ◌++◌, Option, none, some, Bool,
  true, false, if◌then◌else◌, eqb, leb, take, Result, ok, err,
}
use qcontroller.Network.Packets.{Bytes, bpf_packets}
use qcontroller.Network.Frame.{copied}

-- What is asked of a descriptor behind its opening; `bind` is of AF_PACKET, `attach` of BPF.
pub data Ask : Type 0 where
  buffer_length immediate filter promiscuous nonblocking : Ask
  attach : Bytes → Ask
  bind : ℕ → ℕ → Ask

-- A system call; an opening with the descriptor that it gave.
pub data Call : Type 0 where
  opened : String → Option ℕ → Call
  asked : ℕ → Ask → Call
  closed : ℕ → Call

-- The answers of the kernel: a descriptor, and an error or nil. `buf_len` is what BIOCGBLEN writes,
-- and `assembles` what golang.org/x/net/bpf says of the filter.
pub record Kernel : Type 0 where
  pub descriptor : String → Option ℕ
  pub ask : ℕ → Ask → Option String
  pub buf_len : ℕ
  pub assembles : Option String

-- openBPF: the first of some devices that can be opened, and the calls; `device` is `Sprintf`.
unfoldable pub open_bpf_from : Kernel → (ℕ → String) → ℕ → ℕ → Option ℕ × List Call
open_bpf_from k device zero i = (none, [])
open_bpf_from k device (suc left) i =
    let (fd, calls) = open_bpf_from k device left (i + 1) in
    elim (k.descriptor (device i)) [
      | some fd' ↦ (some fd', opened (device i) (some fd') ∷ [])
      | none ↦ (fd, opened (device i) none ∷ calls)
    ]

-- maxBPFDevices
abbrev max_bpf_devices : ℕ
max_bpf_devices = 256

-- open_bpf
unfoldable pub open_bpf : Kernel → (ℕ → String) → Option ℕ × List Call
open_bpf k device = open_bpf_from k device max_bpf_devices 0

pub record Conn : Type 0 where
  pub fd : ℕ
  pub buf_size : ℕ

-- A step of newRawConn that closes the descriptor when it fails.
abbrev pub or_close :
    Kernel → ℕ → Ask → String → Result String Conn × List Call → Result String Conn × List Call
or_close k fd a message (r, calls) = elim (k.ask fd a) [
  | none ↦ (r, asked fd a ∷ calls)
  | some e ↦ (err (message <> e), asked fd a ∷ closed fd ∷ [])
]

-- setBPFFilterARPReply, where an assembly that fails makes no call
abbrev filtered : Kernel → ℕ → Result String Conn × List Call → Result String Conn × List Call
filtered k fd rest = elim k.assembles [
  | some e ↦ (err ("failed to set BPF filter: " <> e), closed fd ∷ [])
  | none ↦ or_close k fd filter "failed to set BPF filter: BIOCSETF failed: " rest
]

-- setBPFPromisc, whose failure is only logged
abbrev promiscuous_too : ℕ → Result String Conn × List Call → Result String Conn × List Call
promiscuous_too fd (r, calls) = (r, asked fd promiscuous ∷ calls)

-- newRawConn of conn_darwin.go behind openBPF; `name` is the field of the ifreq
unfoldable pub set_up_bpf : Kernel → Bytes → ℕ → Result String Conn × List Call
set_up_bpf k name fd =
    or_close k fd buffer_length "failed to get BPF buffer size: BIOCGBLEN failed: " (
      or_close k fd (attach name) "failed to bind BPF to interface: BIOCSETIF failed: " (
        or_close k fd immediate "failed to set immediate mode: BIOCIMMEDIATE failed: " (
          filtered k fd (
            promiscuous_too fd (
              or_close k fd nonblocking "failed to set non-blocking mode: "
                (ok (record { fd = fd; buf_size = k.buf_len }), []))))))

-- newRawConn of conn_darwin.go
unfoldable pub on_device : Kernel → Bytes → Option ℕ × List Call → Result String Conn × List Call
unfolding set_up_bpf
on_device k name (none, calls) = (err "failed to open BPF device: no available BPF devices", calls)
on_device k name (some fd, calls) = let (r, calls') = set_up_bpf k name fd in (r, calls ++ calls')

unfoldable pub new_bpf_conn : Kernel → (ℕ → String) → Bytes → Result String Conn × List Call
new_bpf_conn k device iface = on_device k (copied 16 iface) (open_bpf k device)

-- htons
unfoldable pub htons : ℕ → ℕ
htons v = v / 256 + v % 256 * 256

-- ETH_P_ARP
abbrev eth_p_arp : ℕ
eth_p_arp = 2054

-- newRawConn of conn_linux.go; BufSize is a constant
unfoldable pub new_packet_conn : Kernel → ℕ → Result String Conn × List Call
unfolding htons
new_packet_conn k ifindex = elim (k.descriptor "AF_PACKET") [
  | none ↦ (err "failed to open AF_PACKET socket", opened "AF_PACKET" none ∷ [])
  | some fd ↦
      let (r, calls) =
        or_close k fd (bind (htons eth_p_arp) ifindex) "failed to bind to interface: " (
          or_close k fd nonblocking "failed to set non-blocking mode: "
            (ok (record { fd = fd; buf_size = 65536 }), [])) in
      (r, opened "AF_PACKET" (some fd) ∷ calls)
]

-- Recv of conn_darwin.go on what `syscall.Read` gave: an error, or the number of the bytes that it
-- wrote into the buffer, where nothing is none; on fuel for the packets.
unfoldable pub recv_bpf : ℕ → Result String ℕ → Bytes → Result String (Option (List Bytes))
recv_bpf fuel (err e) buf = err e
recv_bpf fuel (ok n) buf = if eqb n 0 then ok (some []) else ok (bpf_packets fuel (take n buf))

-- Recv of conn_linux.go
unfoldable pub recv_packet : Result String ℕ → Bytes → Result String (List Bytes)
recv_packet (err e) buf = err e
recv_packet (ok n) buf = if eqb n 0 then ok [] else ok (take n buf ∷ [])
