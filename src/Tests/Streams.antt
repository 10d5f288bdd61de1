-- ===== src/Tests/Streams.antt =====
-- The theorems on the publisher's goroutine, the subscription to a node and the wait for a file at
-- concrete inputs.
use qcontroller.Base.{◌≡◌, ◌≤◌, ◌++◌, arith, refl, String, none, true, false, List, [], ◌∷◌, map}
use qcontroller.Events.Publisher.{Update, error_event}
use qcontroller.Events.Pump
use qcontroller.Events.Pump.{
  Input, offered, stream_open, stream_refused, elapsed, taken, new_event_publisher,
}
use qcontroller.Events.Pump.Order.{accepted, lost, opened, run-accepted}
use qcontroller.Commands.Subscriber
use qcontroller.Commands.Subscriber.{Feed, seeding}
use qcontroller.Commands.Firewall
use qcontroller.Commands.Firewall.{Reconciler}
use qcontroller.Commands.Firewall.Rules.{
  IsCurrent, run-IsCurrent, Meanwhile, own_turn, arrival, StaysIn, closed_hangs,
}
use qcontroller.Utils.File
use qcontroller.Utils.File.{
  at_start, returned, looking, created, modified, turn, Waiter, watching, unseen, reported,
}
use qcontroller.Utils.File.Wait.{turns, run-returns, unseen_waits}

abbrev failure : String → Update
failure name = record { timestamp = 0; payload = error_event "failed" name }

-- The second update breaks the first stream.
abbrev broken_once : List Input
broken_once =
    offered (failure "a")
    ∷ stream_refused
    ∷ elapsed
    ∷ stream_open
    ∷ offered (failure "b")
    ∷ taken true
    ∷ taken false
    ∷ offered (failure "c")
    ∷ elapsed
    ∷ stream_open
    ∷ taken true
    ∷ []

run-accepted_example :
    (accepted broken_once new_event_publisher
      ≡ map (λ x. x.0) (Pump.run broken_once new_event_publisher).log
        ++ (Pump.run broken_once new_event_publisher).publisher.queue)
    × (lost (Pump.run broken_once new_event_publisher).log ≤ opened broken_once)
run-accepted_example = run-accepted broken_once

abbrev new_feed : Feed
new_feed = record { phase = seeding; is_registered = false; stream = []; send_calls = [] }

-- The file comes between the two looks, and another one before it.
abbrev busy_directory : List File.Input
busy_directory =
    turn none
    ∷ turn none
    ∷ turn none
    ∷ created "other"
    ∷ modified "other"
    ∷ unseen "other"
    ∷ reported
    ∷ turn none
    ∷ created "vm.sock"
    ∷ []

run-returns_example :
    (File.run "vm.sock" (turns 6) (File.run "vm.sock" busy_directory (at_start false))).phase
    ≡ returned none
unfolding File.run
run-returns_example =
    run-returns "vm.sock" false busy_directory 3 refl refl (λ e h. absurd (ground (arith, h)))
      (omega arith)

abbrev listening : Waiter
listening = record { phase = watching; file_exists = false; watched = true; queue = [] }

unseen_waits_example :
    ((File.run "vm.sock" (unseen "vm.sock" ∷ reported ∷ []) listening).file_exists ≡ true)
    × ((File.run "vm.sock"
          (turns 9)
          (File.run "vm.sock" (unseen "vm.sock" ∷ reported ∷ []) listening)).phase
        ≡ watching)
unseen_waits_example = unseen_waits "vm.sock" 9 listening refl refl

-- Docker makes two links while the default interface changes.
abbrev links_made : List Firewall.Event
links_made =
    Firewall.arrived
    ∷ Firewall.interface_changed "eth0"
    ∷ Firewall.arrived
    ∷ Firewall.link
    ∷ Firewall.turn
    ∷ Firewall.turn
    ∷ Firewall.interface_changed "wlan0"
    ∷ Firewall.tick
    ∷ []

run-IsCurrent_example : IsCurrent (Firewall.run links_made Firewall.at_start)
run-IsCurrent_example = run-IsCurrent links_made

-- Two updates wait, and one more arrives during the drain.
abbrev draining_two : Reconciler
draining_two = record Firewall.at_start {
  iface = "eth0";
  links = Firewall.pending 2;
  phase = Firewall.draining;
}

abbrev one_arrives : List Meanwhile
one_arrives = own_turn ∷ arrival ∷ own_turn ∷ own_turn ∷ own_turn ∷ []

abbrev stopped_listening : Reconciler
stopped_listening = record Firewall.at_start { links = Firewall.closed }

closed_hangs_example :
    StaysIn Firewall.draining stopped_listening
      (Firewall.run (Firewall.link ∷ Firewall.turn ∷ Firewall.done ∷ []) stopped_listening)
closed_hangs_example = closed_hangs (Firewall.turn ∷ Firewall.done ∷ []) stopped_listening refl refl
