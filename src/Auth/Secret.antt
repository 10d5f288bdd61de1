-- ===== src/Auth/Secret.antt =====
-- src/pkg/auth/secret.go: LoadOrCreateSecret as the system calls of two processes that start at once
-- on one path. A schedule says which of them goes on, and what its next call returns.
pub mod Shared
use qcontroller.Base.{
  ℕ, zero, suc, String, Bool, true, false, List, [], ◌∷◌, Option, none, some, if◌then◌else◌, ltb,
  length, take, Result, ok, err,
}

abbrev pub Bytes : Type 0
Bytes = List ℕ

-- Where a process is: before ReadFile, with a new secret before OpenFile, with the empty file it
-- has created before Write, or behind its return.
pub data Place : Type 0 where
  reading : Place
  creating : Bytes → Place
  writing : Bytes → Place
  returned : Result String Bytes → Place

-- What the next call returns, where that does not follow from the file: an error of ReadFile other
-- than os.ErrNotExist, the bytes of rand.Read, an error of OpenFile other than os.ErrExist, and the
-- number of bytes after which Write fails.
pub record Outcome : Type 0 where
  pub read_error : Option String
  pub random : Result String Bytes
  pub open_error : Option String
  pub write_fails : Option ℕ

abbrev pub File : Type 0
File = Option Bytes

abbrev pub loaded : Bytes → Place
loaded content =
    if ltb (length content) 32
    then returned (err "session secret is shorter than 32 bytes")
    else returned (ok content)

abbrev pub generated : Result String Bytes → Place
generated (err e) = returned (err e)
generated (ok secret) = creating secret

abbrev pub on_read : Option String → Result String Bytes → File → Place
on_read (some e) random file = returned (err e)
on_read none random (some content) = loaded content
on_read none random none = generated random

-- O_EXCL: a file that is there now is read instead.
abbrev pub on_create : Option String → Bytes → File → File × Place
on_create (some e) secret file = (file, returned (err e))
on_create none secret (some content) = (some content, reading)
on_create none secret none = (some [], writing secret)

abbrev pub on_write : Option ℕ → Bytes → File × Place
on_write (some n) secret = (some (take n secret), returned (err "write session secret"))
on_write none secret = (some secret, returned (ok secret))

-- One call of a process: the file behind it, and where the process is then.
unfoldable pub advance : Outcome → File → Place → File × Place
advance o file reading = (file, on_read o.read_error o.random file)
advance o file (creating secret) = on_create o.open_error secret file
advance o file (writing secret) = on_write o.write_fails secret
advance o file (returned r) = (file, returned r)

pub record Race : Type 0 where
  pub file : File
  pub first : Place
  pub second : Place

abbrev pub race : File → Race
race file = record { file = file; first = reading; second = reading }

unfoldable pub turn : Bool → Outcome → Race → Race
unfolding advance
turn true o r =
    let (file, place) = advance o r.file r.first in
    record { file = file; first = place; second = r.second }
turn false o r =
    let (file, place) = advance o r.file r.second in
    record { file = file; first = r.first; second = place }

unfoldable pub run : List (Bool × Outcome) → Race → Race
unfolding turn
run [] r = r
run ((who, o) ∷ rest) r = run rest (turn who o r)
