-- ===== src/Process/Info/Answers.antt =====
-- What Info reports and what Stop changes, with the lifecycle loop and the address resolver.
use qcontroller.Base.{
  ℕ, ◌≡◌, arith, refl, ap, ◌<>◌, String, ◌==◌, eq_iff, ◌&&◌, true, Option, none, some, List, [],
  ◌∷◌, map, All, Result, ok, err, bind_ok, Result-cases, Option-cases, Bool-cases, String-cases,
  inl, inr, lookup, lookup-delete, if◌then◌else◌,
}
use qcontroller.Process.Loop.{
  Answer, executed, instance_not_running, RequestKind, Action, State, step,
}
use qcontroller.Process.Loop
use qcontroller.Process.Info.{
  Request, Return, info, runtime_info, ip_addresses, mac_address, asked, or_empty, StopRequest,
  stop_action, virtio_path,
}
use qcontroller.Network.Ip.{Address, contains}
use qcontroller.Network.Packets.{Bytes}
use qcontroller.Network.Scan.{Scanner, World}
use qcontroller.Network.Resolver.{known_hosts, lookup_ip}
use qcontroller.Network.Resolver.Known.{lookup_ip-inside}

ok_eq : {a b : Action} → (let m : Result String Action = ok a in m) ≡ ok b → a ≡ b
ok_eq h = ground (arith, h)

module _ (prepare : Request → Result String String) (send : String → RequestKind → String → Answer)
    (get : String → Option Return) where
  -- What asks a command of an instance that is not running fails.
  asked_not_running :
      (id : String) (req : Request)
      → ((text : String) → send id Loop.qmp text ≡ instance_not_running)
      → (e : String) × (asked prepare send get id req ≡ err e)
  asked_not_running id req h = elim (Result-cases (prepare req)) [
    | inl (e, failed) ↦ (e, rw failed refl)
    | inr (text, ready) ↦ ("instance is not running", rw (ready, asked, h text) refl)
  ]

  module _ {κ} {Ip : Type κ} (resolve : String → Result String Ip) (ip_string : Ip → String) where
    -- Info answers every request, with one entry for each id, in the order of the request; for an instance
    -- that is not running the entry has the name alone.
    pub info_not_running :
        (ids : List String)
        → All (λ id. (text : String) → send id Loop.qmp text ≡ instance_not_running) ids
        → info prepare send get resolve ip_string ids
          ≡ map
              (λ id. record { name = id; memory_stats = none; disk_stats = none; ipaddresses = [] })
              ids
    unfolding info runtime_info ip_addresses mac_address
    info_not_running [] h = refl
    info_not_running (id ∷ ids) (hid, h) =
        let (_, memory) =
          asked_not_running id
            (Request.qom_get ("/machine/peripheral/balloon-" <> id) "guest-stats") hid in
        let (_, disk) = asked_not_running id Request.query_block hid in
        let (_, listed) = asked_not_running id (Request.qom_list (virtio_path id)) hid in
        rw
          (
            info,
            runtime_info,
            memory,
            disk,
            ip_addresses,
            mac_address,
            listed,
            info_not_running ids h,
          )
          refl

-- The text of an address in the subnet of a scanner
abbrev pub IsInside : (Address → String) → Scanner → String → Type 0
IsInside ip_string s text = (a : Address) × ((text ≡ ip_string a) × (contains s.subnet a ≡ true))

module _ (to4 : Address → Bytes) (mac_string : Bytes → String)
    (parse_mac : String → Result String Bytes) where
  -- LookupIP of a resolver that has made these scans
  abbrev pub resolver : ℕ → Scanner → List World → String → Result String Address
  resolver fuel s ws = lookup_ip mac_string parse_mac (known_hosts to4 mac_string fuel s ws [])

module _ (prepare : Request → Result String String) (send : String → RequestKind → String → Answer)
    (get : String → Option Return) (to4 : Address → Bytes) (mac_string : Bytes → String)
    (parse_mac : String → Result String Bytes) (ip_string : Address → String) where
  ip_addresses-IsInside :
      (fuel : ℕ) (s : Scanner) (ws : List World) (id : String)
      → All (IsInside ip_string s) (
          or_empty prepare send get (resolver to4 mac_string parse_mac fuel s ws) ip_string (
            ip_addresses prepare send get
              (resolver to4 mac_string parse_mac fuel s ws)
              ip_string
              id))
  unfolding ip_addresses
  ip_addresses-IsInside fuel s ws id = elim (Result-cases (mac_address prepare send get id)) [
    | inl (e, failed) ↦ rw (ip_addresses, failed) tt
    | inr (mac, read) ↦ elim (Result-cases (resolver to4 mac_string parse_mac fuel s ws mac)) [
      | inl (e, unknown) ↦ rw (ip_addresses, read, unknown) tt
      | inr (a, known) ↦
          rw (ip_addresses, read, known)
            ((a, (refl, lookup_ip-inside to4 mac_string parse_mac fuel s ws mac a known)), tt)
    ]
  ]

  -- Whatever the instances answer and whatever scans the resolver has made, every address that Info
  -- reports is the text of an address in the subnet of the resolver's scanner.
  pub info-IsInside :
      (fuel : ℕ) (s : Scanner) (ws : List World) (ids : List String)
      → All
          (λ i. All (IsInside ip_string s) i.ipaddresses)
          (info prepare send get (resolver to4 mac_string parse_mac fuel s ws) ip_string ids)
  unfolding info runtime_info
  info-IsInside fuel s ws [] = tt
  info-IsInside fuel s ws (id ∷ ids) =
      (ip_addresses-IsInside fuel s ws id, info-IsInside fuel s ws ids)

forced_step :
    (execute : String → String → Result String String) (k : String) (s t : State) (id : String)
    → step execute (Action.force_stop k) s ≡ some t
    → lookup id t.instances ≡ (if k == id then none else lookup id s.instances)
unfolding step
forced_step execute k s t id e = elim (Option-cases (lookup k s.instances)) [
  | inl absent ↦ elim (String-cases k id) [
    | inl same ↦
        ground (arith, e, absent, eq_iff k id, same, ap (λ (j : String). lookup j s.instances) same)
    | inr other ↦ ground (arith, e, absent, eq_iff k id, other)
  ]
  | inr (i, present) ↦ ground (arith, e, present, lookup-delete id k s.instances)
]

command_step :
    (execute : String → String → Result String String) (k text : String) (s t : State)
    → step execute (Action.command k Loop.qmp text) s ≡ some t
    → t.instances ≡ s.instances
unfolding step
command_step execute k text s t e = ground (arith, e, Option-cases (lookup k s.instances))

-- The step of the lifecycle loop on what Stop hands to it takes the instance off the running ones
-- if the request is forced, and leaves the running instances as they are if it is not; every other
-- instance stays as it was.
pub stop_action-step :
    (prepare : Request → Result String String) (execute : String → String → Result String String)
    (req : StopRequest) (a : Action) (s t : State) (id : String)
    → stop_action prepare req ≡ ok a
    → step execute a s ≡ some t
    → lookup id t.instances ≡ (if req.force && req.id == id then none else lookup id s.instances)
unfolding stop_action
stop_action-step prepare execute req a s t id h e = elim (Bool-cases req.force) [
  | inl forced ↦
      let handed : Action.force_stop req.id ≡ a = ok_eq (rw (stop_action, forced) at h) in
      rw forced (forced_step execute req.id s t id (rw (← handed) at e))
  | inr polite ↦
      let (text, ready, sent) =
        bind_ok (prepare Request.system_powerdown)
          (λ text. ok (Action.command req.id Loop.qmp text)) (rw (stop_action, polite) at h) in
      rw (polite, command_step execute req.id text s t (rw (← ok_eq sent) at e)) refl
]
