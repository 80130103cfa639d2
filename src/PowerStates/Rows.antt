-- ===== src/PowerStates/Rows.antt =====
-- A row that is printed is read back.
use mathlib.Core.List.{append_assoc}
use heartbeats.Base.{
  ℕ, zero, suc, ◌^◌, ◌≤◌, ◌<◌, ◌≡◌, refl, ap, ◌∙◌, sym, subst, none, some, List, [], ◌∷◌, ◌++◌,
  arith, length, length-append,
}
use heartbeats.MachineStates.{MachineState}
use heartbeats.PowerStates.{
  Text, Numbers, skip_space, scan_number, read_cores, read_row, read_rows, print_cores, print_row,
}

abbrev pub AreDigits : Text → Type 0
AreDigits [] = Unit {0}
AreDigits (c ∷ text) = (48 ≤ c) × (c ≤ 57) × AreDigits text

-- What comes before the digits in the order of the characters, as white space does.
abbrev pub StandsApart : Text → Type 0
StandsApart [] = Unit {0}
StandsApart (c ∷ text) = c < 48

-- What the C standard says of the conversions of an `unsigned long`: one or more digits are printed,
-- and such a number is read back up to white space; there is none at the end of the file.
pub record AreConversions (numbers : Numbers) : Type 0 where
  pub shown : (n : ℕ) → (c : ℕ) × (text : Text) × (numbers.show n ≡ c ∷ text)
  pub digits : (n : ℕ) → AreDigits (numbers.show n)
  pub scanned :
      (n : ℕ) (rest : Text)
      → n < 2 ^ 64
      → StandsApart rest
      → numbers.scan (numbers.show n ++ rest) ≡ some (n, rest)
  pub scan_end : numbers.scan [] ≡ none

abbrev pub FitAll : List ℕ → Type 0
FitAll [] = Unit {0}
FitAll (n ∷ ns) = (n < 2 ^ 64) × FitAll ns

-- A row of `core_count` cores, of values that fit.
pub record IsRow (core_count : ℕ) (state : MachineState) : Type 0 where
  pub speed : state.speed < 2 ^ 64
  pub power : state.power < 2 ^ 64
  pub cores : FitAll state.cores
  pub count : length state.cores ≡ core_count

skip_digits : (c : ℕ) (text : Text) → 48 ≤ c → c ≤ 57 → skip_space (c ∷ text) ≡ c ∷ text
skip_digits c text low high = ground arith

module _ (numbers : Numbers) (conversions : AreConversions numbers) where
  skip-show : (n : ℕ) (rest : Text) → skip_space (numbers.show n ++ rest) ≡ numbers.show n ++ rest
  skip-show n rest =
      let (c, text, e) = conversions.shown n in
      let (low, high, more) = subst AreDigits e (conversions.digits n) in
      (rw (e) (skip_digits c (text ++ rest) low high))

  pub scan-show :
      (n : ℕ) (rest : Text)
      → n < 2 ^ 64
      → StandsApart rest
      → scan_number numbers (numbers.show n ++ rest) ≡ some (n, rest)
  scan-show n rest fits apart =
      ap numbers.scan (skip-show n rest) ∙ conversions.scanned n rest fits apart

  cores_apart :
      (cores : List ℕ) (rest : Text)
      → StandsApart rest
      → StandsApart (print_cores numbers cores ++ rest)
  unfolding print_cores
  cores_apart [] rest apart = apart
  cores_apart (core ∷ cores) rest apart = omega arith

  read-print_cores :
      (cores : List ℕ) (rest : Text)
      → FitAll cores
      → StandsApart rest
      → read_cores numbers (length cores) (print_cores numbers cores ++ rest) ≡ some (cores, rest)
  unfolding read_cores print_cores
  read-print_cores [] rest fit apart = refl
  read-print_cores (core ∷ cores) rest (fits, fit) apart =
      let one =
        scan-show core (print_cores numbers cores ++ rest) fits (cores_apart cores rest apart) in
      rw
        (
          append_assoc (numbers.show core) (print_cores numbers cores) rest,
          one,
          read-print_cores cores rest fit apart,
        )
        refl

  row_text :
      (state : MachineState) (rest : Text)
      → print_row numbers state ++ rest
        ≡ numbers.show state.speed
          ++ (9 ∷ (numbers.show state.power ++ (print_cores numbers state.cores ++ (10 ∷ rest))))
  unfolding print_row
  row_text state rest =
      append_assoc (numbers.show state.speed) _ rest
      ∙ ap (λ t. numbers.show state.speed ++ (9 ∷ t))
          (append_assoc (numbers.show state.power) (print_cores numbers state.cores ++ (10 ∷ []))
              rest
            ∙ ap (λ t. numbers.show state.power ++ t)
                (append_assoc (print_cores numbers state.cores) (10 ∷ []) rest))

  pub read-print_row :
      (core_count : ℕ) (state : MachineState) (rest : Text)
      → IsRow core_count state
      → read_row numbers core_count (print_row numbers state ++ rest) ≡ some (state, rest)
  unfolding read_row
  read-print_row core_count state rest row =
      let after_power = print_cores numbers state.cores ++ (10 ∷ rest) in
      let speed =
        scan-show state.speed (9 ∷ (numbers.show state.power ++ after_power)) row.speed
          (omega arith) in
      let power =
        scan-show state.power after_power row.power
          (cores_apart state.cores (10 ∷ rest) (omega arith)) in
      let cores =
        ap (λ n. read_cores numbers n after_power) (sym row.count)
        ∙ read-print_cores state.cores (10 ∷ rest) row.cores (omega arith) in
      rw (row_text state rest, speed, power, cores) refl

  unfoldable pub print_rows : List MachineState → Text
  print_rows [] = []
  print_rows (state ∷ states) = print_row numbers state ++ print_rows states

  abbrev pub AreRows : ℕ → List MachineState → Type 0
  AreRows core_count [] = Unit {0}
  AreRows core_count (state ∷ states) = IsRow core_count state × AreRows core_count states

  row_length :
      (state : MachineState) (rest : Text) → length rest < length (print_row numbers state ++ rest)
  unfolding print_row
  row_length state rest =
      let tail = 9 ∷ (numbers.show state.power ++ (print_cores numbers state.cores ++ (10 ∷ []))) in
      omega (
        arith,
        length-append (numbers.show state.speed ++ tail) rest,
        length-append (numbers.show state.speed) tail,
      )

  end_lem : (core_count : ℕ) → read_row numbers core_count [] ≡ none
  unfolding read_row
  end_lem core_count = rw (conversions.scan_end) refl

  pub read-print_rows :
      (states : List MachineState) (core_count fuel : ℕ)
      → AreRows core_count states
      → length (print_rows states) < fuel
      → read_rows numbers fuel core_count (print_rows states) ≡ some states
  unfolding read_rows print_rows
  read-print_rows states core_count zero rows enough = absurd (omega arith)
  read-print_rows [] core_count (suc fuel) rows enough = rw (read_rows, end_lem core_count) refl
  read-print_rows (state ∷ states) core_count (suc fuel) (row, rows) enough =
      let rest =
        read-print_rows states core_count fuel rows
          (omega (arith, row_length state (print_rows states))) in
      rw (read_rows, read-print_row core_count state (print_rows states) row, rest) refl
