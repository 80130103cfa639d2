-- ===== src/PowerStates/RoundTrip.antt =====
-- A table that is printed is read back.
use mathlib.Core.List.{append_assoc}
use heartbeats.Base.{
  ℕ, zero, suc, ◌+◌, ◌^◌, ◌≤◌, ◌<◌, ◌≡◌, refl, ap, ◌∙◌, sym, subst, false, Option, none, some, List,
  [], ◌∷◌, ◌++◌, arith, length, length-append, if◌then◌else◌, Bool-cases, inl, inr, Option-cases,
  ltb,
}
use heartbeats.MachineStates.{MachineState}
use heartbeats.PowerStates.{
  Text, Numbers, Options, first_line, split_tokens, core_word, core_number, first_columns,
  count_cores, read_states_file, read_rows, print_names, print_header, print_row, print_from,
  print_states, is_skipped,
}
use heartbeats.PowerStates.Rows.{AreConversions, AreRows, print_rows, read-print_rows}
use heartbeats.PowerStates.Tokens.{
  IsWord, IsLine, IsWord-digits, IsLine-word, IsLine-append, first_line_lem, IsToken, IsToken-word,
  IsToken-append, split_token, split_tab,
}

module _ (numbers : Numbers) (conversions : AreConversions numbers) where
  abbrev name : ℕ → Text
  name j = core_word ++ numbers.show j

  name-IsWord : (j : ℕ) → IsWord (name j)
  name-IsWord j = (
    omega arith,
    (
      omega arith,
      (omega arith, (omega arith, IsWord-digits (numbers.show j) (conversions.digits j))),
    ),
  )

  name-IsToken : (j : ℕ) → IsToken (name j)
  name-IsToken j = IsToken-word (name j) (name-IsWord j)

  last_name : (j : ℕ) → j < 2 ^ 64 → core_number numbers (name j ++ (10 ∷ [])) ≡ some j
  last_name j fits = rw (conversions.scanned j (10 ∷ []) fits (omega arith)) refl

  -- A token before the last does not count.
  count_cons :
      (token : Text) (tokens : List Text) (result : Option ℕ)
      → ((acc : Option ℕ) → count_cores numbers tokens acc ≡ result)
      → (acc : Option ℕ) → count_cores numbers (token ∷ tokens) acc ≡ result
  unfolding count_cores
  count_cons token tokens result h acc = elim (Option-cases (core_number numbers token)) [
    | inl e ↦ rw (count_cores, e) (h acc)
    | inr (n, e) ↦ rw (count_cores, e) (h (some (n + 1)))
  ]

  count_names :
      (k j : ℕ)
      → j + k < 2 ^ 64
      → (acc : Option ℕ)
      → count_cores numbers
          (split_tokens (name j ++ (print_names numbers (suc j) k ++ (10 ∷ []))))
          acc
        ≡ some (j + k + 1)
  unfolding print_names count_cores
  count_names zero j fits acc =
      let whole = IsToken-append (name j) (10 ∷ []) (name-IsToken j) (refl, tt) in
      let sum : j + 1 ≡ j + 0 + 1 = omega arith in
      rw (split_token (name j ++ (10 ∷ [])) whole, count_cores, last_name j (omega arith))
        (ap some sum)
  count_names (suc k) j fits acc =
      let others = name (suc j) ++ (print_names numbers (suc (suc j)) k ++ (10 ∷ [])) in
      let cut = split_tab (name j) others (name-IsToken j) in
      let shape =
        append_assoc (numbers.show (suc j)) (print_names numbers (suc (suc j)) k) (10 ∷ []) in
      let sum : suc j + k + 1 ≡ j + suc k + 1 = omega arith in
      rw (shape, cut)
        (count_cons (name j) (split_tokens others) (some (j + suc k + 1))
          (λ acc'. count_names k (suc j) (omega arith) acc' ∙ ap some sum) acc)

  -- The header without the end of its line.
  abbrev header_line : ℕ → Text
  header_line core_count = first_columns ++ print_names numbers 0 core_count

  print_names-IsLine : (n j : ℕ) → IsLine (print_names numbers j n)
  unfolding print_names
  print_names-IsLine zero j = tt
  print_names-IsLine (suc n) j =
      IsLine-append (9 ∷ name j) (print_names numbers (suc j) n)
        ((λ e. absurd (omega arith)), IsLine-word (name j) (name-IsWord j))
        (print_names-IsLine n (suc j))

  -- The header names the number of the cores.
  count_header :
      (n : ℕ)
      → suc n < 2 ^ 64
      → count_cores numbers (split_tokens (header_line (suc n) ++ (10 ∷ []))) none ≡ some (suc n)
  unfolding print_names
  count_header n fits =
      let names = name 0 ++ (print_names numbers 1 n ++ (10 ∷ [])) in
      let shape = append_assoc (numbers.show 0) (print_names numbers 1 n) (10 ∷ []) in
      let speed : Text = 115 ∷ 112 ∷ 101 ∷ 101 ∷ 100 ∷ [] in
      let power : Text = 112 ∷ 111 ∷ 119 ∷ 101 ∷ 114 ∷ [] in
      let is_speed = IsToken-word speed (omega arith) in
      let is_power = IsToken-word power (omega arith) in
      let sum : 0 + n + 1 ≡ suc n = omega arith in
      rw (shape, split_tab speed (power ++ (9 ∷ names)) is_speed, split_tab power names is_power)
        (count_cons speed (power ∷ split_tokens names) (some (suc n))
          (count_cons power (split_tokens names) (some (suc n))
            (λ acc. count_names n 0 (omega arith) acc ∙ ap some sum))
          none)

  -- The states of a table that `options` lets pass.
  abbrev pub selected : Options → List MachineState → ℕ → List MachineState → List MachineState
  selected options states i [] = []
  selected options states i (state ∷ rest) =
      let others = selected options states (suc i) rest in
      if is_skipped numbers options states i state then others else state ∷ others

  print_from_lem :
      (options : Options) (states rest : List MachineState) (i : ℕ)
      → print_from numbers options states i rest
        ≡ print_rows numbers conversions (selected options states i rest)
  unfolding print_from print_rows
  print_from_lem options states [] i = refl
  print_from_lem options states (state ∷ rest) i =
      elim (Bool-cases (is_skipped numbers options states i state)) [
        | inl skipped ↦ rw (skipped) (print_from_lem options states rest (suc i))
        | inr printed ↦
            rw (printed)
              (ap (λ t. print_row numbers state ++ t) (print_from_lem options states rest (suc i)))
      ]

  AreRows-selected :
      (options : Options) (states rest : List MachineState) (i n : ℕ)
      → AreRows numbers conversions n rest
      → AreRows numbers conversions n (selected options states i rest)
  AreRows-selected options states [] i n rows = tt
  AreRows-selected options states (state ∷ rest) i n (row, rows) =
      elim (Bool-cases (is_skipped numbers options states i state)) [
        | inl skipped ↦ rw (skipped) (AreRows-selected options states rest (suc i) n rows)
        | inr printed ↦ rw (printed) (row, AreRows-selected options states rest (suc i) n rows)
      ]

  read_text :
      (c n : ℕ) (text line rest : Text) (states : List MachineState)
      → first_line 511 (c ∷ text) ≡ (line, rest)
      → count_cores numbers (split_tokens line) none ≡ some (suc n)
      → read_rows numbers (suc (length rest)) (suc n) rest ≡ some states
      → read_states_file numbers (some (c ∷ text)) ≡ some (some (states, suc n))
  unfolding read_states_file
  read_text c n text line rest states cut counted read =
      let some_core : ltb (suc n) 1 ≡ false = ground arith in
      rw (cut, counted, some_core, read) refl

  header_text :
      (n : ℕ) (body : Text) → print_header numbers n ++ body ≡ header_line n ++ (10 ∷ body)
  unfolding print_header
  header_text n body =
      append_assoc first_columns (print_names numbers 0 n ++ (10 ∷ [])) body
      ∙ ap (λ t. first_columns ++ t) (append_assoc (print_names numbers 0 n) (10 ∷ []) body)

  header_fits : (n : ℕ) → length (print_header numbers n) ≤ 511 → length (header_line n) < 511
  unfolding print_header
  header_fits n short = omega (
    arith,
    length-append first_columns (print_names numbers 0 n),
    length-append first_columns (print_names numbers 0 n ++ (10 ∷ [])),
    length-append (print_names numbers 0 n) (10 ∷ []),
  )

  -- What is printed for a machine of one core or more is read back as the states that the options let
  -- pass, in the order of `qsort`, with the number of the cores: if every sorted state has that many
  -- cores and values below 2^64, and the header has at most 511 characters.
  pub read-print_states :
      (options : Options) (qsort : List MachineState → List MachineState)
      (unsorted : List MachineState) (n : ℕ)
      → 0 < n
      → n < 2 ^ 64
      → length (print_header numbers n) ≤ 511
      → AreRows numbers conversions n (qsort unsorted)
      → read_states_file numbers (some (print_states numbers options qsort unsorted n))
        ≡ some (some (selected options (qsort unsorted) 0 (qsort unsorted), n))
  unfolding print_states
  read-print_states options qsort unsorted zero some_core fits short rows = absurd (omega arith)
  read-print_states options qsort unsorted (suc n) some_core fits short rows =
      let states = qsort unsorted in
      let kept = selected options states 0 states in
      let body = print_from numbers options states 0 states in
      let is_line =
        IsLine-append first_columns (print_names numbers 0 (suc n)) (omega arith)
          (print_names-IsLine (suc n) 0) in
      let cut = first_line_lem (header_line (suc n)) body 511 is_line (header_fits (suc n) short) in
      let listed = print_from_lem options states states 0 in
      let valid = AreRows-selected options states states 0 (suc n) rows in
      let read =
        read-print_rows numbers conversions kept (suc n)
          (suc (length (print_rows numbers conversions kept))) valid (omega arith) in
      let read' =
        subst (λ t. read_rows numbers (suc (length t)) (suc n) t ≡ some kept) (sym listed) read in
      ap (λ t. read_states_file numbers (some t)) (header_text (suc n) body)
      ∙ read_text 115 n _ (header_line (suc n) ++ (10 ∷ [])) body kept cut (count_header n fits)
          read'
