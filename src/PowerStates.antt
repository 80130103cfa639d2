-- ===== src/PowerStates.antt =====
-- src/powerstates.c: prints the table of the machine's states, and reads such a table back.
--
-- A text is the list of its character codes. The C library's conversions of numbers are the record
-- `Numbers`; skipping white space in front of a number is written out. The states that are read are
-- in a list, which stands for the block that grows. A variable that has not been set is `none`, and
-- its use a fault.
pub mod Rows
pub mod Tokens
pub mod RoundTrip
mod Tests
use heartbeats.Base.{
  ℕ, zero, suc, ◌+◌, Bool, not, ◌&&◌, ◌||◌, Option, none, some, List, [], ◌∷◌, ◌++◌, leb, ltb, ◌==◌,
  if◌then◌else◌, ◌>>=◌, length, store, ℤ, pos, negsuc,
}
use heartbeats.MachineStates.{
  MachineState, create_machine_states, redundant_state, drop_equivalent, pareto_optimal,
}

abbrev pub Text : Type 0
Text = List ℕ

-- "%lu" of `printf`, and "%lu" of `scanf` behind the white space: the number, and the text after it.
pub record Numbers : Type 0 where
  pub show : ℕ → Text
  pub scan : Text → Option (ℕ × Text)

-- A static variable is passed in and out; the argument is the number of lines of /proc/cpuinfo that
-- name a processor, if it could be opened.
pub get_core_count : ℕ → Option ℕ → ℕ
get_core_count count lines =
    if count == 0
    then elim lines [ none ↦ 1 | some found ↦ if ltb found 1 then 1 else found ]
    else count

pub fill_from : List ℕ → List ℕ → ℕ → Option (List ℕ)
fill_from [] f i = some f
fill_from (frequency ∷ freqs) f i = store f i frequency >>= λ f'. fill_from freqs f' (suc i)

-- The block is what `malloc` returns. The array and the return code.
pub create_freq_array : List ℕ → Option (List ℕ) → Option (List ℕ × ℤ)
unfolding fill_from
create_freq_array freq_list none = some ([], negsuc 0)
create_freq_array freq_list (some block) =
    fill_from freq_list block 0 >>= λ f. some (f, pos (length freq_list))

abbrev pub is_space : ℕ → Bool
is_space c = leb 9 c && leb c 13 || c == 32

abbrev pub skip_space : Text → Text
skip_space [] = []
skip_space (c ∷ text) = if is_space c then skip_space text else c ∷ text

-- `fgets` with room for `n` characters: the line, and the text after it.
pub first_line : ℕ → Text → Text × Text
first_line zero text = ([], text)
first_line (suc n) [] = ([], [])
first_line (suc n) (c ∷ text) =
    let (line, rest) = first_line n text in if c == 10 then (c ∷ [], text) else (c ∷ line, rest)

abbrev pub onto_first : ℕ → List Text → List Text
onto_first c [] = (c ∷ []) ∷ []
onto_first c (token ∷ tokens) = (c ∷ token) ∷ tokens

-- The tokens of `strsep` at blanks and tabs.
pub split_tokens : Text → List Text
split_tokens [] = [] ∷ []
split_tokens (c ∷ text) =
    if c == 32 || c == 9 then [] ∷ split_tokens text else onto_first c (split_tokens text)

abbrev pub strip : Text → Text → Option Text
strip [] text = some text
strip (c ∷ word) [] = none
strip (c ∷ word) (d ∷ text) = if c == d then strip word text else none

abbrev pub core_word : Text
core_word = 99 ∷ 111 ∷ 114 ∷ 101 ∷ []

-- "speed", a tab and "power".
abbrev pub first_columns : Text
first_columns = 115 ∷ 112 ∷ 101 ∷ 101 ∷ 100 ∷ 9 ∷ 112 ∷ 111 ∷ 119 ∷ 101 ∷ 114 ∷ []

-- What the command line asks for.
pub record Options : Type 0 where
  pub skip_redundant : Bool
  pub skip_unoptimal : Bool
  pub skip_equivalent : Bool

module _ (numbers : Numbers) where
  -- "%lu" of `fscanf`.
  abbrev pub scan_number : Text → Option (ℕ × Text)
  scan_number text = numbers.scan (skip_space text)

  -- `sscanf` with "core%d".
  abbrev pub core_number : Text → Option ℕ
  core_number token = strip core_word token >>= λ text. numbers.scan text >>= λ out. some out.0

  -- The loop over the tokens, from `*core_count`.
  pub count_cores : List Text → Option ℕ → Option ℕ
  count_cores [] core_count = core_count
  count_cores (token ∷ tokens) core_count = elim (core_number token) [
    | none ↦ count_cores tokens core_count
    | some n ↦ count_cores tokens (some (n + 1))
  ]

  -- The loop over the cores of a row.
  pub read_cores : ℕ → Text → Option (List ℕ × Text)
  read_cores zero text = some ([], text)
  read_cores (suc j) text = do
    (core, rest) ← scan_number text
    (cores, rest') ← read_cores j rest
    some (core ∷ cores, rest')

  abbrev pub end_of_row : MachineState → Text → Option (MachineState × Text)
  end_of_row state [] = none
  end_of_row state (c ∷ text) = if c == 10 then some (state, text) else none

  -- One pass of the loop; `none` goes to the end.
  pub read_row : ℕ → Text → Option (MachineState × Text)
  unfolding read_cores
  read_row core_count text = do
    (speed, rest) ← scan_number text
    (power, rest') ← scan_number rest
    (cores, rest'') ← read_cores core_count rest'
    end_of_row (record { speed = speed; power = power; cores = cores }) rest''

  -- The loop, on fuel.
  pub read_rows : ℕ → ℕ → Text → Option (List MachineState)
  unfolding read_row
  read_rows zero core_count text = none
  read_rows (suc fuel) core_count text = elim (read_row core_count text) [
    | none ↦ some []
    | some (state, rest) ↦ read_rows fuel core_count rest >>= λ states. some (state ∷ states)
  ]

  -- A file that does not open, or has no line, gives a null pointer. `buf` has 512 characters, one of
  -- them for the end.
  pub read_states_file : Option Text → Option (Option (List MachineState × ℕ))
  read_states_file none = some none
  read_states_file (some []) = some none
  read_states_file (some (c ∷ text)) = do
    let (line, rest) = first_line 511 (c ∷ text)
    core_count ← count_cores (split_tokens line) none
    if ltb core_count 1
        then some none
        else (read_rows (suc (length rest)) core_count rest >>= λ states.
            some (some (states, core_count)))

  -- The loop that prints the names of the cores, from `j`, for `n` further cores.
  pub print_names : ℕ → ℕ → Text
  print_names j zero = []
  print_names j (suc n) = 9 ∷ core_word ++ (numbers.show j ++ print_names (suc j) n)

  pub print_header : ℕ → Text
  unfolding print_names
  print_header core_count = first_columns ++ (print_names 0 core_count ++ (10 ∷ []))

  pub print_cores : List ℕ → Text
  print_cores [] = []
  print_cores (core ∷ cores) = 9 ∷ numbers.show core ++ print_cores cores

  pub print_row : MachineState → Text
  unfolding print_cores
  print_row state =
      numbers.show state.speed
      ++ (9 ∷ numbers.show state.power ++ (print_cores state.cores ++ (10 ∷ [])))

  -- The tests of the loop that prints, for the state of index `i`.
  pub is_skipped : Options → List MachineState → ℕ → MachineState → Bool
  is_skipped options states i state =
      options.skip_redundant && redundant_state state
      || options.skip_equivalent && drop_equivalent state i states
      || options.skip_unoptimal && not (pareto_optimal state i states)

  -- The loop that prints, from `i`.
  pub print_from : Options → List MachineState → ℕ → List MachineState → Text
  unfolding is_skipped print_row
  print_from options states i [] = []
  print_from options states i (state ∷ rest) =
      let printed = print_from options states (suc i) rest in
      if is_skipped options states i state then printed else print_row state ++ printed

  -- `main` behind its options, for the states and the number of cores that it has read or made.
  pub print_states :
      Options → (List MachineState → List MachineState) → List MachineState → ℕ → Text
  unfolding print_header print_from
  print_states options qsort unsorted core_count =
      let states = qsort unsorted in print_header core_count ++ print_from options states 0 states

  -- `main` behind its options: the file that is named, if one is, or the machine that `core_count`
  -- and `freq_array` describe. `scratch` is the memory that `malloc` gives to the generator. A null
  -- pointer comes with a count that nothing has set, and sorting it is a fault.
  pub main :
      Options
      → (List MachineState → List MachineState)
      → Option (Option Text)
      → MachineState
      → ℕ
      → List ℕ
      → Option Text
  main options qsort none scratch core_count freq_array =
      create_machine_states scratch core_count freq_array >>= λ out.
      some (print_states options qsort out.0 core_count)
  main options qsort (some file) scratch core_count freq_array = do
    read ← read_states_file file
    (states, count) ← read
    some (print_states options qsort states count)
