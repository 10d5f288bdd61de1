-- ===== src/Network/Conn/Closes.antt =====
-- newRawConn leaves no descriptor behind that its caller does not get.
use qcontroller.Base.{
  ℕ, zero, suc, ◌+◌, ◌≡◌, refl, arith, String, List, [], ◌∷◌, ◌++◌, Option, none, some, Bool, true,
  false, if◌then◌else◌, eqb, Result, ok, err, Option-cases, inl, inr, All, ◌∙◌, ap, sym,
}
use mathlib.Core.List.{append-nil}
use qcontroller.Network.Packets.{Bytes}
use qcontroller.Network.Frame.{copied}
use qcontroller.Network.Conn.{
  Kernel, Ask, Call, opened, asked, closed, Conn, open_bpf_from, open_bpf, set_up_bpf, new_bpf_conn,
  on_device, new_packet_conn, immediate, filter, nonblocking, attach, bind, htons,
}

-- Some later call closes the descriptor.
abbrev pub closes : ℕ → List Call → Bool
closes fd [] = false
closes fd (closed x ∷ r) = if eqb x fd then true else closes fd r
closes fd (opened d o ∷ r) = closes fd r
closes fd (asked x a ∷ r) = closes fd r

-- The descriptors that the calls open and do not close afterwards.
abbrev pub left_open : List Call → List ℕ
left_open [] = []
left_open (opened d (some fd) ∷ r) =
    let rest = left_open r in if closes fd r then rest else fd ∷ rest
left_open (opened d none ∷ r) = left_open r
left_open (closed x ∷ r) = left_open r
left_open (asked x a ∷ r) = left_open r

-- What a caller of newRawConn holds.
abbrev pub held : Result String Conn → List ℕ
held (err e) = []
held (ok c) = c.fd ∷ []

-- The descriptor of an answer was given every request, and the kernel refused none of them.
abbrev pub WasAsked : Kernel → List Ask → Result String Conn → Type 0
WasAsked k asks (err e) = Unit
WasAsked k asks (ok c) = All (λ a. k.ask c.fd a ≡ none) asks

set_up_bpf-closes :
    (k : Kernel) (name : Bytes) (fd : ℕ)
    → (left_open (opened "" (some fd) ∷ (set_up_bpf k name fd).1) ≡ held (set_up_bpf k name fd).0)
      × WasAsked k (attach name ∷ immediate ∷ filter ∷ nonblocking ∷ []) (set_up_bpf k name fd).0
unfolding set_up_bpf
set_up_bpf-closes k name fd = ground arith

-- With what comes after the opening of a device: only the one that could be opened stays.
abbrev found_first : Option ℕ → List Call → List Call
found_first none rest = rest
found_first (some fd) rest = opened "" (some fd) ∷ rest

left_open-open_bpf_from :
    (k : Kernel) (device : ℕ → String) (left i : ℕ) (rest : List Call)
    → left_open ((open_bpf_from k device left i).1 ++ rest)
      ≡ left_open (found_first (open_bpf_from k device left i).0 rest)
unfolding open_bpf_from
left_open-open_bpf_from k device zero i rest = refl
left_open-open_bpf_from k device (suc left) i rest = elim (Option-cases (k.descriptor (device i))) [
  | inl e ↦ ground (arith, e, left_open-open_bpf_from k device left (i + 1) rest)
  | inr (fd, e) ↦ ground (arith, e)
]

on_device-closes :
    (k : Kernel) (name : Bytes) (found : Option ℕ × List Call)
    → ((rest : List Call) → left_open (found.1 ++ rest) ≡ left_open (found_first found.0 rest))
    → (left_open (on_device k name found).1 ≡ held (on_device k name found).0)
      × WasAsked k (attach name ∷ immediate ∷ filter ∷ nonblocking ∷ []) (on_device k name found).0
unfolding on_device
on_device-closes k name (none, calls) h = (ap left_open (sym (append-nil calls)) ∙ h [], tt)
on_device-closes k name (some fd, calls) h =
    let (c, a) = set_up_bpf-closes k name fd in (h (set_up_bpf k name fd).1 ∙ c, a)

-- On macOS newRawConn leaves a descriptor open only where it returns a connection, and then the one
-- of the connection alone, which has been bound to the interface, made immediate, filtered for
-- replies and made non-blocking without an error.
pub new_bpf_conn-closes :
    (k : Kernel) (device : ℕ → String) (iface : Bytes)
    → (left_open (new_bpf_conn k device iface).1 ≡ held (new_bpf_conn k device iface).0)
      × WasAsked k
          (attach (copied 16 iface) ∷ immediate ∷ filter ∷ nonblocking ∷ [])
          (new_bpf_conn k device iface).0
unfolding new_bpf_conn open_bpf
new_bpf_conn-closes k device iface =
    on_device-closes k (copied 16 iface) (open_bpf k device)
      (left_open-open_bpf_from k device 256 0)

new_packet_conn-closes :
    (k : Kernel) (ifindex : ℕ)
    → (left_open (new_packet_conn k ifindex).1 ≡ held (new_packet_conn k ifindex).0)
      × WasAsked k (bind (htons 2054) ifindex ∷ nonblocking ∷ []) (new_packet_conn k ifindex).0
unfolding new_packet_conn
new_packet_conn-closes k ifindex = ground arith
