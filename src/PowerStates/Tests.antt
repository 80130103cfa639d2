-- ===== src/PowerStates/Tests.antt =====
-- Numbers written as strokes in place of decimals, and the theorem at an input.
use heartbeats.Base.{
  ℕ, zero, suc, ◌≤◌, ◌≡◌, refl, false, Option, none, some, List, [], ◌∷◌, ◌++◌, arith, length, ◌==◌,
  if◌then◌else◌, ◌>>=◌,
}
use heartbeats.MachineStates.{MachineState}
use heartbeats.PowerStates.{
  Text, Numbers, Options, read_states_file, print_header, print_names, print_states,
}
use heartbeats.PowerStates.Rows.{AreDigits, AreConversions, AreRows}
use heartbeats.PowerStates.RoundTrip.{selected, read-print_states}

-- A number is as many digits 1, and a digit 0.
show_strokes : ℕ → Text
show_strokes zero = 48 ∷ []
show_strokes (suc n) = 49 ∷ show_strokes n

scan_strokes : Text → Option (ℕ × Text)
scan_strokes [] = none
scan_strokes (c ∷ text) =
    let rest = scan_strokes text in
    if c == 48
    then some (0, text)
    else if c == 49
    then (rest >>= λ out. some (suc out.0, out.1))
    else none

abbrev strokes : Numbers
strokes = record { show = show_strokes; scan = scan_strokes }

strokes_shown : (n : ℕ) → (c : ℕ) × (text : Text) × (show_strokes n ≡ c ∷ text)
unfolding show_strokes
strokes_shown zero = (48, [], refl)
strokes_shown (suc n) = (49, show_strokes n, refl)

strokes_digits : (n : ℕ) → AreDigits (show_strokes n)
unfolding show_strokes
strokes_digits zero = omega arith
strokes_digits (suc n) = (omega arith, omega arith, strokes_digits n)

strokes_scanned : (n : ℕ) (rest : Text) → scan_strokes (show_strokes n ++ rest) ≡ some (n, rest)
unfolding show_strokes scan_strokes
strokes_scanned zero rest = refl
strokes_scanned (suc n) rest = rw (strokes_scanned n rest) refl

no_strokes : scan_strokes [] ≡ none
unfolding scan_strokes
no_strokes = refl

conversions : AreConversions strokes
conversions = record {
  shown = strokes_shown;
  digits = strokes_digits;
  scanned = λ n rest fits apart. strokes_scanned n rest;
  scan_end = no_strokes;
}

abbrev table : List MachineState
table =
    record { speed = 0; power = 0; cores = 0 ∷ 0 ∷ [] }
    ∷ record { speed = 2; power = 3; cores = 2 ∷ 0 ∷ [] }
    ∷ []

abbrev show_all : Options
show_all = record { skip_redundant = false; skip_unoptimal = false; skip_equivalent = false }

abbrev same_order : List MachineState → List MachineState
same_order states = states

rows : AreRows strokes conversions 2 table
rows = (
  record { speed = omega arith; power = omega arith; cores = omega arith; count = refl },
  (record { speed = omega arith; power = omega arith; cores = omega arith; count = refl }, tt),
)

short : length (print_header strokes 2) ≤ 511
unfolding print_header print_names show_strokes
short = omega arith

read-print_states_example :
    read_states_file strokes (some (print_states strokes show_all same_order table 2))
    ≡ some (some (selected strokes conversions show_all table 0 table, 2))
read-print_states_example =
    read-print_states strokes conversions show_all same_order table 2 (omega arith) (omega arith)
      short rows
