-- ===== src/Db/View.antt =====
-- What a successful write leaves under every key: the instances, and the owners of addresses.
use qcontroller.Base.{
  String, Bool, true, false, not, ◌&&◌, ◌≡◌, arith, Option, none, some, ◌==◌, eq_iff, if◌then◌else◌,
  ok, err, Result, is_empty, ◌>>=◌, Option-cases, bind_ok, guarded_ok, inl, inr, ◌⊎◌,
}
use qcontroller.Badger.{Fault, key_not_found, io, Badger, IsLawful, Codec, IsFaithful}
use qcontroller.Vm.{Instance, is_stopped}
use qcontroller.Db.Keys.{
  instance_key, hwaddr_key, instance_key-eq, hwaddr_key-eq, instance_key-hwaddr_key,
  hwaddr_key-instance_key,
}
use qcontroller.Db.{
  DbErr, text_of, check, get, drop_old, update_txn, update, remove_txn, remove, tolerate, lift,
  decoded, owner_check, drop_index, drop_address,
}

abbrev pub answer {ℓ κ} : {E : Type ℓ} {A : Type κ} → Result E A → Option A
answer (ok a) = some a
answer (err _) = none

abbrev drops : String → Option String → Bool
drops mac a = not (is_empty (text_of a)) && not (text_of a == mac)

abbrev drops_old : String → Option Instance → Bool
drops_old mac none = false
drops_old mac (some old) = drops mac old.hwaddr

abbrev old_address : Option Instance → String
old_address none = ""
old_address (some old) = text_of old.hwaddr

-- The index entry that writing an instance with address `mac` over `old` removes.
abbrev pub is_stale : String → Option Instance → String → Bool
is_stale mac none h = false
is_stale mac (some old) h =
    let a = text_of old.hwaddr in not (is_empty a) && not (a == mac) && a == h

module _ {Bytes : Type 0} (B : Badger Bytes) (C : Codec Bytes Instance) where
  -- The stored instance with this id.
  abbrev pub find : B.Txn → String → Option Instance
  find t id = answer (get B C t id)

  -- The id to which the index gives this address.
  abbrev pub owner : B.Txn → String → Option String
  owner t mac = elim (B.get t (hwaddr_key mac)) [ ok b ↦ some (C.to_string b) | err _ ↦ none ]

  module _ (L : IsLawful B) (F : IsFaithful C) where
    get-tolerate :
        (t u : B.Txn) (k j : String)
        → tolerate B C t (B.delete t k) ≡ ok u
        → B.get u j ≡ (if k == j then err key_not_found else B.get t j)
    get-tolerate t u k j h = ground (arith, L.get-delete t k u j, L.delete_missing t k, eq_iff k j)

    get-drop_index :
        (t u : B.Txn) (mac : String) (a : Option String) (j : String)
        → drop_index B C t mac a ≡ ok u
        → B.get u j
          ≡ (if drops mac a && hwaddr_key (text_of a) == j then err key_not_found else B.get t j)
    get-drop_index t u mac none j h = ground arith
    get-drop_index t u mac (some a) j h = ground (arith, get-tolerate t u (hwaddr_key a) j)

    -- `drop_old` deletes at most the stale index entry.
    get-drop_old :
        (t u : B.Txn) (mac : String) (r : Result Fault Bytes) (j : String)
        → drop_old B C t mac r ≡ ok u
        → let o = answer (lift r >>= λ val. decoded (C.unmarshal val)) in
          B.get u j ≡ (
            if drops_old mac o && hwaddr_key (old_address o) == j
            then err key_not_found
            else B.get t j)
    unfolding drop_old
    get-drop_old t u mac (ok b) j h = elim (Option-cases (C.unmarshal b)) [
      | inl e ↦ ground (arith, e)
      | inr (old, e) ↦ ground (arith, e, get-drop_index t u mac old.hwaddr j)
    ]
    get-drop_old t u mac (err key_not_found) j h = ground arith
    get-drop_old t u mac (err (io e)) j h = ground arith

    find-set :
        (t u : B.Txn) (inst : Instance) (b : Bytes) (j : String)
        → C.marshal inst ≡ some b
        → B.set t (instance_key inst.id) b ≡ ok u
        → find u j ≡ (if inst.id == j then some inst else find t j)
    unfolding get
    find-set t u inst b j m h = ground (
      arith,
      L.get-set t (instance_key inst.id) b u (instance_key j),
      instance_key-eq inst.id j,
      F.unmarshal-marshal inst b m,
    )

    -- What the function of `Update` leaves, when it returns nil.
    pub record Written (t u : B.Txn) (inst : Instance) (mac : String) : Type 0 where
      pub instances : (j : String) → find u j ≡ (if inst.id == j then some inst else find t j)
      pub owners :
          (h : String)
          → owner u h ≡ (
              if mac == h
              then some inst.id
              else if is_stale mac (find t inst.id) h
              then none
              else owner t h)
      pub was_free : (owner t mac ≡ none) ⊎ (owner t mac ≡ some inst.id)

    module _ (t t₁ t₂ u : B.Txn) (inst : Instance) (mac : String) (b : Bytes)
        (free : owner_check B C inst.id (B.get t (hwaddr_key mac)) ≡ ok tt)
        (dropped : drop_old B C t mac (B.get t (instance_key inst.id)) ≡ ok t₁)
        (encoded : decoded (C.marshal inst) ≡ ok b)
        (stored : lift (B.set t₁ (instance_key inst.id) b) ≡ ok t₂)
        (indexed : lift (B.set t₂ (hwaddr_key mac) (C.of_string inst.id)) ≡ ok u) where
      find-written : (j : String) → find u j ≡ (if inst.id == j then some inst else find t j)
      unfolding get
      find-written j = ground (
        arith,
        find-set t₁ t₂ inst b j,
        get-drop_old t t₁ mac (B.get t (instance_key inst.id)) (instance_key j) dropped,
        hwaddr_key-instance_key j mac,
        hwaddr_key-instance_key j (old_address (find t inst.id)),
        L.get-set t₂ (hwaddr_key mac) (C.of_string inst.id) u (instance_key j),
      )

      owner-written :
          (h : String)
          → owner u h ≡ (
              if mac == h
              then some inst.id
              else if is_stale mac (find t inst.id) h
              then none
              else owner t h)
      unfolding get
      owner-written h = ground (
        arith,
        get-drop_old t t₁ mac (B.get t (instance_key inst.id)) (hwaddr_key h) dropped,
        hwaddr_key-eq mac h,
        hwaddr_key-eq (old_address (find t inst.id)) h,
        instance_key-hwaddr_key inst.id h,
        L.get-set t₁ (instance_key inst.id) b t₂ (hwaddr_key h),
        L.get-set t₂ (hwaddr_key mac) (C.of_string inst.id) u (hwaddr_key h),
        F.to_string-of_string inst.id,
      )

      mac_free : (owner t mac ≡ none) ⊎ (owner t mac ≡ some inst.id)
      mac_free = elim (Option-cases (answer (B.get t (hwaddr_key mac)))) [
        | inl e ↦ inl (ground arith)
        | inr (v, e) ↦ inr (ground (arith, eq_iff (C.to_string v) inst.id))
      ]

      written : Written t u inst mac
      written = record { instances = find-written; owners = owner-written; was_free = mac_free }

    update_txn-Written :
        (t u : B.Txn) (inst : Instance) (mac : String)
        → update_txn B C t inst mac ≡ ok u
        → Written t u inst mac
    unfolding update_txn
    update_txn-Written t u inst mac h =
        let key = instance_key inst.id in
        let old = answer (lift (B.get t key) >>= λ val. decoded (C.unmarshal val)) in
        let (_, free, h₁) = bind_ok (owner_check B C inst.id (B.get t (hwaddr_key mac))) _ h in
        let (t₁, dropped, h₂) = bind_ok (drop_old B C t mac (B.get t key)) _ h₁ in
        let (b, encoded, h₃) = bind_ok (decoded (C.marshal inst)) _ h₂ in
        let (t₂, stored, h₄) = bind_ok (lift (B.set t₁ key b)) _ h₃ in
        written t t₁ t₂ u inst mac b free dropped encoded stored h₄

    -- A successful Update passed the checks and wrote the instance and its index entry.
    pub update-Written :
        (t u : B.Txn) (inst : Instance)
        → update B C t inst ≡ (u, none)
        → (check inst ≡ none) × Written t u inst (text_of inst.hwaddr)
    unfolding update
    update-Written t u inst h =
        (ground arith, update_txn-Written t u inst (text_of inst.hwaddr) (ground arith))

    pub update_failed :
        (t u : B.Txn) (inst : Instance) (e : DbErr) → update B C t inst ≡ (u, some e) → u ≡ t
    unfolding update
    update_failed t u inst e h = ground arith

    -- What the function of `Remove` leaves, when it returns nil.
    pub record Removed (t u : B.Txn) (id : String) : Type 0 where
      pub inst : Instance
      pub was_stored : find t id ≡ some inst
      pub was_stopped : is_stopped inst.state ≡ true
      pub instances : (j : String) → find u j ≡ (if id == j then none else find t j)
      pub owners :
          (h : String)
          → owner u h ≡ (
              if not (is_empty (text_of inst.hwaddr)) && text_of inst.hwaddr == h
              then none
              else owner t h)

    get-drop_address :
        (t u : B.Txn) (a : Option String) (j : String)
        → drop_address B C t a ≡ ok u
        → B.get u j ≡ (
            if not (is_empty (text_of a)) && hwaddr_key (text_of a) == j
            then err key_not_found
            else B.get t j)
    get-drop_address t u none j h = ground arith
    get-drop_address t u (some a) j h = ground (arith, get-tolerate t u (hwaddr_key a) j)

    module _ (t t₁ u : B.Txn) (id : String) (i : Instance) (found : get B C t id ≡ ok i)
        (stopped : is_stopped i.state ≡ true) (dropped : drop_address B C t i.hwaddr ≡ ok t₁)
        (deleted : lift (B.delete t₁ (instance_key id)) ≡ ok u) where
      find-removed : (j : String) → find u j ≡ (if id == j then none else find t j)
      unfolding get
      find-removed j = ground (
        arith,
        get-drop_address t t₁ i.hwaddr (instance_key j) dropped,
        hwaddr_key-instance_key j (text_of i.hwaddr),
        instance_key-eq id j,
        L.get-delete t₁ (instance_key id) u (instance_key j),
      )

      owner-removed :
          (h : String)
          → owner u h ≡ (
              if not (is_empty (text_of i.hwaddr)) && text_of i.hwaddr == h
              then none
              else owner t h)
      unfolding get
      owner-removed h = ground (
        arith,
        get-drop_address t t₁ i.hwaddr (hwaddr_key h) dropped,
        hwaddr_key-eq (text_of i.hwaddr) h,
        instance_key-hwaddr_key id h,
        L.get-delete t₁ (instance_key id) u (hwaddr_key h),
      )

      removed : Removed t u id
      removed = record {
        inst = i;
        was_stored = cc found;
        was_stopped = stopped;
        instances = find-removed;
        owners = owner-removed;
      }

    get_of_parts :
        (t : B.Txn) (id : String) (b : Bytes) (i : Instance)
        → lift (B.get t (instance_key id)) ≡ ok b
        → decoded (C.unmarshal b) ≡ ok i
        → get B C t id ≡ ok i
    unfolding get
    get_of_parts t id b i read parsed = rw read parsed

    remove_txn-Removed : (t u : B.Txn) (id : String) → remove_txn B C t id ≡ ok u → Removed t u id
    unfolding remove_txn
    remove_txn-Removed t u id h =
        let (b, read, h₁) = bind_ok (lift (B.get t (instance_key id))) _ h in
        let (i, parsed, h₂) = bind_ok (decoded (C.unmarshal b)) _ h₁ in
        let (stopped, h₃) = guarded_ok (is_stopped i.state) _ _ h₂ in
        let (t₁, dropped, h₄) = bind_ok (drop_address B C t i.hwaddr) _ h₃ in
        removed t t₁ u id i (get_of_parts t id b i read parsed) stopped dropped h₄

    pub remove-Removed : (t u : B.Txn) (id : String) → remove B C t id ≡ (u, none) → Removed t u id
    unfolding remove
    remove-Removed t u id h = remove_txn-Removed t u id (ground arith)

    pub remove_failed :
        (t u : B.Txn) (id : String) (e : DbErr) → remove B C t id ≡ (u, some e) → u ≡ t
    unfolding remove
    remove_failed t u id e h = ground arith
