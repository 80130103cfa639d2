-- ===== src/Heartbeat.antt =====
-- src/heartbeat-shared.c and inc/heartbeat.h: an application registers heartbeats in a ring of
-- records that lives, with a block of counters, in shared memory.
--
-- A block of memory is a list; a read or write outside it is a fault, `none`, and a null pointer is
-- the empty block. The clock's reading is an argument of `heartbeat`. `int64_t` values that only count
-- up are natural numbers, the others are integers; overflow of a signed sum, which C leaves
-- undefined, is not modelled.
pub mod Invariant
pub mod Wrap
pub mod WrapShape
pub mod Beat
pub mod Session
pub mod History
pub mod Stores
pub mod Window
pub mod Fixture
mod Tests
use heartbeats.Base.{
  ℕ, suc, ◌+◌, ◌*◌, ◌%◌, Bool, true, false, Option, none, some, List, [], ◌∷◌, ◌++◌, ltb, leb, ◌==◌,
  if◌then◌else◌, ◌>>=◌, length, get_elem?, store, take, drop, ℤ, pos, negsuc, ◌-ℤ◌, eqb_ℤ,
  int_of_u64,
}
use heartbeats.Double.{Double}

-- `heartbeat_record_t`
pub record HeartbeatRecord (D : Type 0) : Type 0 where
  pub beat : ℕ
  pub tag : ℤ
  pub timestamp : ℤ
  pub global_rate : D
  pub window_rate : D
  pub instant_rate : D

-- `HB_global_state_t`
pub record GlobalState (D : Type 0) : Type 0 where
  pub pid : ℤ
  pub min_heartrate : D
  pub max_heartrate : D
  pub window_size : ℕ
  pub counter : ℕ
  pub buffer_depth : ℕ
  pub buffer_index : ℕ
  pub read_index : ℕ
  pub valid : Bool

-- `heartbeat_t`. `text_file` holds the records printed so far; `none` is a null pointer.
pub record Heartbeat (D : Type 0) : Type 0 where
  pub first_timestamp : ℤ
  pub last_timestamp : ℤ
  pub window : List ℤ
  pub current_index : ℕ
  pub steady_state : Bool
  pub last_average_time : D
  pub log : List (HeartbeatRecord D)
  pub text_file : Option (List (HeartbeatRecord D))
  pub state : GlobalState D

-- What the operating system answers to the calls of `heartbeat_init`: the attached segments and the
-- allocated window (`none` for a failure), whether HEARTBEAT_ENABLED_DIR is set, and whether the log
-- file and the file that announces the process could be opened.
pub record Answers (D : Type 0) : Type 0 where
  pub pid : ℤ
  pub state_segment : Option (GlobalState D)
  pub log_segment : Option (List (HeartbeatRecord D))
  pub window_block : List ℤ
  pub enabled_dir : Bool
  pub text_opens : Bool
  pub file_opens : Bool

-- `a[i] = v` at an `int` index.
abbrev pub store_int {ℓ} : {A : Type ℓ} → List A → ℤ → A → Option (List A)
store_int xs (pos i) v = store xs i v
store_int xs (negsuc i) v = none

-- The `n` elements that `memcpy` reads from offset `i`.
abbrev pub read_block {ℓ} : {A : Type ℓ} → List A → ℕ → ℕ → Option (List A)
read_block xs i n = if leb (i + n) (length xs) then some (take n (drop i xs)) else none

-- The elements `ys` that `memcpy` writes from offset `i`.
abbrev pub write_block {ℓ} : {A : Type ℓ} → List A → ℕ → List A → Option (List A)
write_block xs i ys =
    if leb (i + length ys) (length xs)
    then some (take i xs ++ (ys ++ drop (i + length ys) xs))
    else none

module _ {D : Type 0} where
  -- The part of `heartbeat_init` behind the test of HEARTBEAT_ENABLED_DIR.
  pub register : Heartbeat D → Answers D → GlobalState D → D → D → ℕ → ℕ → Heartbeat D × ℕ
  register hb answers state min_target max_target window_size buffer_depth = (
    record hb {
      first_timestamp = negsuc 0;
      last_timestamp = negsuc 0;
      window = answers.window_block;
      current_index = 0;
      steady_state = false;
      log = elim answers.log_segment [ none ↦ [] | some block ↦ block ];
      state = record state {
        min_heartrate = min_target;
        max_heartrate = max_target;
        window_size = window_size;
        counter = 0;
        buffer_depth = buffer_depth;
        buffer_index = 0;
        read_index = 0;
        valid = false;
      };
    },
    if answers.file_opens then elim answers.log_segment [ none ↦ 2 | some block ↦ 0 ] else 1,
  )

  -- The header line of the text file is not kept. Writing it to a file that did not open is a fault.
  unfoldable pub open_text : Heartbeat D → Answers D → Bool → Option (Heartbeat D)
  open_text hb answers true =
      if answers.text_opens then some (record hb { text_file = some [] }) else none
  open_text hb answers false = some (record hb { text_file = none })

  -- The result is the structure and the return code. `log_name` tells whether a name was given.
  pub heartbeat_init : Heartbeat D → Answers D → D → D → ℕ → ℕ → Bool → Option (Heartbeat D × ℕ)
  unfolding register open_text
  heartbeat_init hb answers min_target max_target window_size buffer_depth log_name = do
    segment ← answers.state_segment
    let state = record segment { pid = answers.pid }
    hb' ← open_text (record hb { state = state }) answers log_name
    if answers.enabled_dir
        then some (register hb' answers state min_target max_target window_size buffer_depth)
        else some (hb', 1)

  -- Prints every record of the ring. A ring that is not there in full is a fault.
  pub hb_flush_buffer : Heartbeat D → Option (Heartbeat D)
  hb_flush_buffer hb = elim hb.text_file [
    | none ↦ some hb
    | some printed ↦
        if leb hb.state.buffer_depth (length hb.log)
        then some (record hb { text_file = some (printed ++ take hb.state.buffer_depth hb.log) })
        else none
  ]

  -- The test of the first index at the end of `heartbeat`, which brings it back to the start of the
  -- ring. A remainder by the depth 0 is a fault.
  unfoldable pub rewind : Heartbeat D → Option (Heartbeat D)
  unfolding hb_flush_buffer
  rewind hb =
      if hb.state.buffer_depth == 0
      then none
      else if hb.state.buffer_index % hb.state.buffer_depth == 0
      then (do
        hb' ← hb_flush_buffer hb
        some (record hb' { state = record hb'.state { buffer_index = 0 } }))
      else some hb

  -- The test of the index to read.
  unfoldable pub rewind_read : Heartbeat D → Option (Heartbeat D)
  rewind_read hb =
      if hb.state.buffer_depth == 0
      then none
      else if hb.state.read_index % hb.state.buffer_depth == 0
      then some (record hb { state = record hb.state { read_index = 0 } })
      else some hb

  pub wrap_indices : Heartbeat D → Option (Heartbeat D)
  unfolding rewind rewind_read
  wrap_indices hb = rewind hb >>= rewind_read

  -- Returns what stands at `read_index`: `hb_get_current` copies this record out.
  unfoldable pub hb_get_current : Heartbeat D → Option (HeartbeatRecord D)
  hb_get_current hb = get_elem? hb.log hb.state.read_index

  pub hb_get_global_rate : Heartbeat D → Option D
  hb_get_global_rate hb = get_elem? hb.log hb.state.read_index >>= λ r. some r.global_rate

  pub hb_get_windowed_rate : Heartbeat D → Option D
  hb_get_windowed_rate hb = get_elem? hb.log hb.state.read_index >>= λ r. some r.window_rate

  unfoldable pub hb_get_min_rate : Heartbeat D → D
  hb_get_min_rate hb = hb.state.min_heartrate

  pub hb_get_max_rate : Heartbeat D → D
  hb_get_max_rate hb = hb.state.max_heartrate

  pub hb_get_window_size : Heartbeat D → ℕ
  hb_get_window_size hb = hb.state.window_size

  -- The caller's array after the copies, and the count returned. The argument `n` of the source is
  -- not used there.
  unfoldable pub hb_get_history :
      Heartbeat D → List (HeartbeatRecord D) → ℕ → Option (List (HeartbeatRecord D) × ℕ)
  hb_get_history hb records n =
      let bi = hb.state.buffer_index in
      let depth = hb.state.buffer_depth in
      if ltb bi hb.state.counter
      then (do
        old ← read_block hb.log bi (bi * depth)
        records' ← write_block records 0 old
        new ← read_block hb.log 0 bi
        records'' ← write_block records' (bi * depth) new
        some (records'', depth))
      else (do
        all ← read_block hb.log 0 bi
        records' ← write_block records 0 all
        some (records', bi))

module _ {D : Type 0} ⦃d : Double D⦄ where
  open d use {of_int, add, sub, mul, div, narrow}

  -- The loop over the window, from its `average_time`.
  pub add_times : List ℤ → D → D
  add_times [] total = total
  add_times (time ∷ times) total = add_times times (add total (of_int time))

  -- `fps`, at an average time.
  unfoldable pub rate_of : D → D
  rate_of average_time =
      narrow (mul (div (of_int (pos 1)) (narrow average_time)) (of_int (pos 1000000000)))

  abbrev pub filling : Heartbeat D → ℤ → Option (Heartbeat D × D)
  filling hb time = do
    window ← store hb.window hb.current_index time
    let average =
        div (add_times (take (suc hb.current_index) window) (of_int (pos 0)))
          (add (of_int (pos hb.current_index)) (of_int (pos 1)))
    let full = suc hb.current_index == hb.state.window_size
    some (
      record hb {
        window = window;
        last_average_time = average;
        current_index = if full then 0 else suc hb.current_index;
        steady_state = full;
      },
      average,
    )

  abbrev pub sliding : Heartbeat D → ℤ → Option (Heartbeat D × D)
  sliding hb time = do
    oldest ← get_elem? hb.window hb.current_index
    let size = of_int (pos hb.state.window_size)
    let average = add (sub hb.last_average_time (div (of_int oldest) size)) (div (of_int time) size)
    window ← store hb.window hb.current_index time
    some (
      record hb {
        window = window;
        last_average_time = average;
        current_index =
            if suc hb.current_index == hb.state.window_size then 0 else suc hb.current_index;
      },
      average,
    )

  pub hb_window_average : Heartbeat D → ℤ → Option (Heartbeat D × D)
  unfolding rate_of add_times
  hb_window_average hb time = do
    (hb', average) ← if hb.steady_state then sliding hb time else filling hb time
    some (hb', rate_of average)

  -- The branch of `heartbeat` for the first time stamp.
  pub first_beat : Heartbeat D → ℤ → ℤ → Option (Heartbeat D)
  first_beat hb tag time = do
    window ← store hb.window 0 (pos 0)
    log ← store hb.log 0 (record {
      beat = hb.state.counter;
      tag = tag;
      timestamp = time;
      global_rate = of_int (pos 0);
      window_rate = of_int (pos 0);
      instant_rate = of_int (pos 0);
    })
    some (record hb {
      first_timestamp = time;
      last_timestamp = time;
      window = window;
      log = log;
      state = record hb.state {
        counter = hb.state.counter + 1;
        buffer_index = hb.state.buffer_index + 1;
        valid = true;
      };
    })

  -- The record that a later beat logs, at its window rate and the time of the beat before.
  unfoldable pub later_record : Heartbeat D → ℤ → ℤ → D → ℤ → HeartbeatRecord D
  later_record hb tag time window_heartrate old_last_time = record {
    beat = hb.state.counter;
    tag = tag;
    timestamp = time;
    global_rate =
        mul
          (div (add (of_int (pos hb.state.counter)) (of_int (pos 1)))
            (of_int (time -ℤ hb.first_timestamp)))
          (of_int (pos 1000000000));
    window_rate = window_heartrate;
    instant_rate =
        mul (div (of_int (pos 1)) (of_int (time -ℤ old_last_time))) (of_int (pos 1000000000));
  }

  pub later_beat : Heartbeat D → ℤ → ℤ → Option (Heartbeat D)
  later_beat hb tag time = do
    let index = int_of_u64 hb.state.buffer_index
    (hb', window_heartrate) ←
        hb_window_average (record hb { last_timestamp = time }) (time -ℤ hb.last_timestamp)
    log ← store_int hb'.log index (later_record hb' tag time window_heartrate hb.last_timestamp)
    wrap_indices (record hb' {
      log = log;
      state = record hb'.state {
        buffer_index = hb'.state.buffer_index + 1;
        counter = hb'.state.counter + 1;
        read_index = hb'.state.read_index + 1;
      };
    })

  -- Registers a heartbeat at the clock's reading `time`, and returns it.
  pub heartbeat : Heartbeat D → ℤ → ℤ → Option (Heartbeat D × ℤ)
  heartbeat hb tag time = do
    hb' ←
        if eqb_ℤ hb.first_timestamp (negsuc 0)
        then first_beat hb tag time
        else later_beat hb tag time
    some (hb', time)
