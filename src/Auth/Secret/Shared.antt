-- ===== src/Auth/Secret/Shared.antt =====
-- Two processes that return a secret return the same one.
use mathlib.Core.Option
use qcontroller.Base.{
  ℕ, String, ◌≡◌, arith, refl, sym, ap, ◌∙◌, Bool, true, false, List, [], ◌∷◌, Option, none, some,
  ltb, length, Result, ok, err, Option-cases, Bool-cases, inl, inr,
}
use qcontroller.Auth.Secret.{
  Bytes, Place, reading, creating, writing, returned, Outcome, File, loaded, on_read, on_create,
  on_write, advance, Race, race, turn, run,
}

abbrev is_writing : Place → Bool
is_writing (writing s) = true
is_writing _ = false

-- The secret that a process has returned
abbrev secret_of : Place → Option Bytes
secret_of (returned (ok s)) = some s
secret_of _ = none

-- While one process writes, the file is empty and the other has no secret.
abbrev Guarded : File → Place → Place → Type 0
Guarded file p q =
    is_writing p ≡ true → (file ≡ some []) × ((is_writing q ≡ false) × (secret_of q ≡ none))

-- While none writes, a secret that was returned is what the file has.
abbrev Held : File → Place → Place → Type 0
Held file p q =
    (s : Bytes) → is_writing p ≡ false → is_writing q ≡ false → secret_of p ≡ some s → file ≡ some s

abbrev Fair : File → Place → Place → Type 0
Fair file p q = Guarded file p q × (Guarded file q p × (Held file p q × Held file q p))

on_read_facts :
    (e : Option String) (random : Result String Bytes) (file : File)
    → (is_writing (on_read e random file) ≡ false)
      × ((s : Bytes)
          → secret_of (on_read e random file) ≡ some s
          → (file ≡ some s) × (ltb (length s) 32 ≡ false))
on_read_facts (some e) random file = (refl, λ s h. absurd cc)
on_read_facts none random (some content) = elim (Bool-cases (ltb (length content) 32)) [
  | inl short ↦ (rw (loaded, short) refl, λ s h. absurd (ground (arith, short, h)))
  | inr long ↦ (rw (loaded, long) refl, λ s h. ground (arith, long, h))
]
on_read_facts none (err e) none = (refl, λ s h. absurd cc)
on_read_facts none (ok secret) none = (refl, λ s h. absurd cc)

read-Fair :
    (o : Outcome) (file : File) (q : Place)
    → Fair file reading q
    → Fair file (on_read o.read_error o.random file) q
read-Fair o file q (g, (g', (h, h'))) =
    let place = on_read o.read_error o.random file in
    let (waits, holds) = on_read_facts o.read_error o.random file in
    (
      λ w. absurd (ground (arith, waits, w)),
      (
        λ w.
            let (empty, _) = g' w in
            (
              empty,
              (
                waits,
                elim (Option-cases (secret_of place)) [
                  | inl nothing ↦ nothing
                  | inr (s, got) ↦ absurd (ground (arith, empty, holds s got))
                ],
              ),
            ),
        (λ s _ _ got. (holds s got).0, λ s wq _ got. h' s wq refl got),
      ),
    )

create-Fair :
    (e : Option String) (s : Bytes) (file : File) (q : Place)
    → Fair file (creating s) q
    → Fair (on_create e s file).0 (on_create e s file).1 q
create-Fair (some e) s file q (g, (g', (h, h'))) = (
  λ w. absurd cc,
  (λ w. let (empty, _) = g' w in (empty, (refl, refl)), (λ _ _ _ nothing. absurd cc, h')),
)
create-Fair none s (some content) q (g, (g', (h, h'))) = (
  λ w. absurd cc,
  (λ w. let (empty, _) = g' w in (empty, (refl, refl)), (λ _ _ _ nothing. absurd cc, h')),
)
create-Fair none s none q (g, (g', (h, h'))) =
    let idle : is_writing q ≡ false = elim (Bool-cases (is_writing q)) [
      | inl w ↦ absurd (ground (arith, (g' w).0))
      | inr idle ↦ idle
    ] in
    let nothing : secret_of q ≡ none = elim (Option-cases (secret_of q)) [
      | inl nothing ↦ nothing
      | inr (y, got) ↦ absurd (ground (arith, h' y idle refl got))
    ] in
    (
      λ _. (refl, (idle, nothing)),
      (λ w. absurd (ground (arith, w, idle)), (λ _ w _ _. absurd cc, λ _ _ w _. absurd cc)),
    )

write-Fair :
    (n : Option ℕ) (s : Bytes) (file : File) (q : Place)
    → Fair file (writing s) q
    → Fair (on_write n s).0 (on_write n s).1 q
write-Fair (some n) s file q (g, (g', (h, h'))) =
    let (_, (idle, nothing)) = g refl in
    (
      λ w. absurd cc,
      (
        λ w. absurd (ground (arith, w, idle)),
        (λ _ _ _ got. absurd cc, λ _ _ _ got. absurd (ground (arith, got, nothing))),
      ),
    )
write-Fair none s file q (g, (g', (h, h'))) =
    let (_, (idle, nothing)) = g refl in
    (
      λ w. absurd cc,
      (
        λ w. absurd (ground (arith, w, idle)),
        (λ _ _ _ got. got, λ _ _ _ got. absurd (ground (arith, got, nothing))),
      ),
    )

advance-Fair :
    (o : Outcome) (file : File) (p q : Place)
    → Fair file p q
    → Fair (advance o file p).0 (advance o file p).1 q
unfolding advance
advance-Fair o file reading q F = read-Fair o file q F
advance-Fair o file (creating s) q F = create-Fair o.open_error s file q F
advance-Fair o file (writing s) q F = write-Fair o.write_fails s file q F
advance-Fair o file (returned r) q F = F

swap-Fair : (file : File) (p q : Place) → Fair file p q → Fair file q p
swap-Fair file p q (g, (g', (h, h'))) =
    (g', (g, (λ s wq wp got. h' s wq wp got, λ s wp wq got. h s wp wq got)))

run-Fair :
    (schedule : List (Bool × Outcome)) (r : Race)
    → Fair r.file r.first r.second
    → Fair (run schedule r).file (run schedule r).first (run schedule r).second
unfolding run turn
run-Fair [] r F = F
run-Fair ((true, o) ∷ rest) r F =
    run-Fair rest (turn true o r) (advance-Fair o r.file r.first r.second F)
run-Fair ((false, o) ∷ rest) r F =
    let moved = advance-Fair o r.file r.second r.first (swap-Fair r.file r.first r.second F) in
    run-Fair rest (turn false o r)
      (swap-Fair (advance o r.file r.second).0 (advance o r.file r.second).1 r.first moved)

-- Two processes that call LoadOrCreateSecret at once on one path, whatever is there before, in any
-- order of their system calls and with any errors of these: if both return a secret it is the
-- same, and it is what the file holds.
pub run-agree :
    (schedule : List (Bool × Outcome)) (file : File) (s t : Bytes)
    → (run schedule (race file)).first ≡ returned (ok s)
    → (run schedule (race file)).second ≡ returned (ok t)
    → (s ≡ t) × ((run schedule (race file)).file ≡ some s)
run-agree schedule file s t hs ht =
    let r = run schedule (race file) in
    let (_, (_, (h, h'))) =
      run-Fair schedule (race file)
        (λ w. absurd cc, (λ w. absurd cc, (λ _ _ _ got. absurd cc, λ _ _ _ got. absurd cc))) in
    let first_done : is_writing r.first ≡ false = ap is_writing hs in
    let second_done : is_writing r.second ≡ false = ap is_writing ht in
    let held = h s first_done second_done (ap secret_of hs) in
    let held' = h' t second_done first_done (ap secret_of ht) in
    (Option.some_inj.0 (sym held ∙ held'), held)
