-- ===== src/Tests/Instances.antt =====
-- The theorems on the instance monitor, Info and Stop with one guest.
use qcontroller.Base.{
  ◌≡◌, arith, refl, [], ◌∷◌, Option, none, some, true, false, String, Result, ok, lookup, insert,
  delete, All,
}
use qcontroller.Process.Monitor.{
  Step, Message, Generic, QapiResult, execute, run, handle, on_instance, on_message, on_generic,
  on_result, forget,
}
use qcontroller.Process.Monitor.Causes.{execute-Cause}
use qcontroller.Process.Monitor.Events.{Cause}
use qcontroller.Process.Loop.{Answer, executed, RequestKind}
use qcontroller.Process.Info.{Request, Return, info}
use qcontroller.Process.Info.{runtime_info, ip_addresses, mac_address}
use qcontroller.Network.Resolver.{known_hosts, lookup_ip}
use qcontroller.Network.Scan.{
  scan, resolve_interface, find_interface, request_all, listen, hear_all,
}
use qcontroller.Network.Frame.{parse_arp_reply}
use qcontroller.Network.Ip.{
  subnet_hosts, hosts_from, next_ip, increment, is_broadcast, broadcast, contains, mask_ip, equal,
}
use qcontroller.Tests.Scans.{scanner, world, same_ip, mac_name, guest_mac}
use qcontroller.Process.Info.Answers.{info-IsInside, IsInside, resolver}
use qcontroller.Network.Ip.{Address}
use qcontroller.Network.Packets.{Bytes}

abbrev greeting : Generic
greeting = record {
  greeting = some (record { major = 9; minor = 1; micro = 0 });
  result = some (record { id = ""; has_error = false; has_return = false });
}

abbrev capable : QapiResult
capable = record { id = "q1"; has_error = false; has_return = true }

-- The sockets of one instance: both are added, and the one of QEMU greets.
abbrev added : Step
added = record {
  instance_message = some (record { instance_name = "qga:vm1"; is_add = true });
  message = none;
  ping = some "p1";
  capabilities = none;
}

abbrev hello : Message
hello = record { instance_name = "qmp:vm1"; is_generic = true; generic = some greeting }

abbrev greeted : Step
greeted = record {
  instance_message = none;
  message = some hello;
  ping = none;
  capabilities = some capable;
}

-- The guest agent answers the ping.
abbrev pong : Message
pong = record {
  instance_name = "qga:vm1";
  is_generic = true;
  generic = some (record {
    greeting = some (record { major = 0; minor = 0; micro = 0 });
    result = some (record { id = "p1"; has_error = false; has_return = true });
  });
}

abbrev answered : Step
answered = record { instance_message = none; message = some pong; ping = none; capabilities = none }

abbrev running : Result String String
running = ok "running"

ready_answer : execute (run (answered ∷ greeted ∷ added ∷ [])) "qga:vm1" running ≡ ok "running"
unfolding execute run handle on_instance on_message on_generic on_result forget lookup insert delete
ready_answer = refl

execute-Cause_example : Cause "qga:vm1" (answered ∷ greeted ∷ added ∷ [])
execute-Cause_example =
    execute-Cause (answered ∷ greeted ∷ added ∷ []) "qga:vm1" running
      (λ e. absurd (ground (arith, ready_answer, e)))

abbrev prepared : Request → Result String String
prepared req = ok "{}"

abbrev one_runs : String → RequestKind → String → Answer
one_runs id kind req = executed (ok req)

-- One reply that has everything
abbrev everything : String → Option Return
everything text = some (record {
  properties = some (record { name = "mac"; kind = "str" } ∷ []);
  text = some "52:54:00:ab:cd:ef";
  blocks = none;
  guest_stats = none;
})

abbrev shown : Address → String
shown a = "192.168.71.12"

abbrev parsed : String → Result String Bytes
parsed s = ok guest_mac

info-IsInside_example :
    All
      (λ i. All (IsInside shown scanner) i.ipaddresses)
      (info prepared one_runs everything
        (resolver same_ip mac_name parsed 8 scanner (world ∷ []))
        shown
        ("vm1" ∷ []))
info-IsInside_example =
    info-IsInside prepared one_runs everything same_ip mac_name parsed shown 8 scanner (world ∷ [])
      ("vm1" ∷ [])

-- The guest that answered the scan is reported.
reported :
    (runtime_info prepared one_runs everything
      (resolver same_ip mac_name parsed 8 scanner (world ∷ []))
      shown
      "vm1").ipaddresses
    ≡ "192.168.71.12" ∷ []
unfolding runtime_info ip_addresses mac_address known_hosts lookup_ip scan resolve_interface
    find_interface subnet_hosts hosts_from next_ip increment is_broadcast broadcast request_all
    listen hear_all parse_arp_reply lookup insert delete contains mask_ip equal
reported = refl
