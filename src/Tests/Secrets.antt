-- ===== src/Tests/Secrets.antt =====
-- The theorem on the secret file with two processes that start at once.
use qcontroller.Base.{◌≡◌, refl, Bool, true, false, List, [], ◌∷◌, none, some, ok}
use qcontroller.Auth.Secret.{Bytes, Outcome, race, run, turn, advance}
use qcontroller.Auth.Secret.Shared.{run-agree}

abbrev key : Bytes
key =
    1 ∷ 2 ∷ 3 ∷ 4 ∷ 5 ∷ 6 ∷ 7 ∷ 8 ∷ 9 ∷ 10 ∷ 11 ∷ 12 ∷ 13 ∷ 14 ∷ 15 ∷ 16 ∷ 17 ∷ 18 ∷ 19 ∷ 20 ∷ 21
    ∷ 22 ∷ 23 ∷ 24 ∷ 25 ∷ 26 ∷ 27 ∷ 28 ∷ 29 ∷ 30 ∷ 31 ∷ 32 ∷ []

abbrev fine : Outcome
fine = record { read_error = none; random = ok key; open_error = none; write_fails = none }

-- The second process finds the file that the first has just created, and reads it once it is written.
abbrev both_start : List (Bool × Outcome)
both_start =
    (true, fine) ∷ (false, fine) ∷ (true, fine) ∷ (false, fine) ∷ (true, fine) ∷ (false, fine) ∷ []

run-agree_example : (key ≡ key) × ((run both_start (race none)).file ≡ some key)
unfolding run turn advance
run-agree_example = run-agree both_start none key key refl refl
