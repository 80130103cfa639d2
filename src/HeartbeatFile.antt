-- ===== src/HeartbeatFile.antt =====
-- src/heartbeat-file.c: heartbeats registered in a file. The process keeps its state and its ring in
-- memory of its own, and appends each record to the file, which a monitor reads.
--
-- The file is its head, the two targets and the window size, and the list of the records behind it.
-- The source uses a member `window_size` of heartbeat_t that inc/heartbeat.h has commented out; it is
-- a field here. The functions that only read are those of the other registration, on the shared part.
pub mod Session
pub mod Beats
pub mod Fixture
mod Tests
use heartbeats.Base.{
  ℕ, suc, ◌+◌, Bool, true, false, Option, none, some, List, [], ◌∷◌, ◌++◌, ◌==◌, if◌then◌else◌,
  ◌>>=◌, get_elem?, store, take, ℤ, pos, negsuc, pos_part, ◌-ℤ◌, eqb_ℤ, int_of_u64,
}
use heartbeats.Double.{Double}
use heartbeats.Heartbeat
use heartbeats.Heartbeat.{
  HeartbeatRecord, GlobalState, Heartbeat, Answers, store_int, open_text, wrap_indices,
  later_record, rate_of,
}

pub record BinaryFile (D : Type 0) : Type 0 where
  pub min_heartrate : D
  pub max_heartrate : D
  pub window_size : ℕ
  pub records : List (HeartbeatRecord D)

-- `heartbeat_t`: `shared` has the members that both registrations use.
pub record FileHeartbeat (D : Type 0) : Type 0 where
  pub shared : Heartbeat D
  pub window_size : ℕ
  pub file : BinaryFile D

module _ {D : Type 0} where
  -- `heartbeat_init`. A file that does not open is written to all the same, which is a fault.
  -- `answers.state_segment` is the memory that `malloc` returns for the state.
  pub heartbeat_init :
      FileHeartbeat D → Answers D → D → D → ℕ → ℕ → Bool → Option (FileHeartbeat D × ℕ)
  unfolding open_text
  heartbeat_init hb answers min_target max_target window_size buffer_depth log_name = do
    segment ← answers.state_segment
    let state = record segment { pid = answers.pid }
    opened ← open_text (record hb.shared { state = state }) answers log_name
    if answers.file_opens
        then some (
          record {
            shared = record opened {
              first_timestamp = negsuc 0;
              last_timestamp = negsuc 0;
              window = answers.window_block;
              current_index = 0;
              log = elim answers.log_segment [ none ↦ [] | some block ↦ block ];
              state = record state {
                min_heartrate = min_target;
                max_heartrate = max_target;
                counter = 0;
                buffer_index = 0;
                read_index = 0;
                buffer_depth = buffer_depth;
              };
            };
            window_size = window_size;
            file = record {
              min_heartrate = min_target;
              max_heartrate = max_target;
              window_size = state.window_size;
              records = [];
            };
          },
          elim answers.log_segment [ none ↦ 2 | some block ↦ 0 ],
        )
        else none

  unfoldable pub hb_get_current : FileHeartbeat D → Option (HeartbeatRecord D)
  hb_get_current hb = get_elem? hb.shared.log hb.shared.state.read_index

  pub hb_get_global_rate : FileHeartbeat D → Option D
  hb_get_global_rate hb =
      get_elem? hb.shared.log hb.shared.state.read_index >>= λ r. some r.global_rate

  pub hb_get_windowed_rate : FileHeartbeat D → Option D
  hb_get_windowed_rate hb =
      get_elem? hb.shared.log hb.shared.state.read_index >>= λ r. some r.window_rate

  pub hb_get_min_rate : FileHeartbeat D → D
  hb_get_min_rate hb = hb.shared.state.min_heartrate

  pub hb_get_max_rate : FileHeartbeat D → D
  hb_get_max_rate hb = hb.shared.state.max_heartrate

  unfoldable pub hb_get_window_size : FileHeartbeat D → ℕ
  hb_get_window_size hb = hb.shared.state.window_size

  -- The text of the function is that of the other registration.
  pub hb_get_history :
      FileHeartbeat D → List (HeartbeatRecord D) → ℕ → Option (List (HeartbeatRecord D) × ℕ)
  hb_get_history hb records n = Heartbeat.hb_get_history hb.shared records n

-- The loop over the window. `average_time` is an `int64_t`: each sum is cut to an integer.
pub add_times : {D : Type 0} → Double D → List ℤ → ℤ → ℤ
add_times d [] total = total
add_times d (time ∷ times) total =
    add_times d times (d.to_int (d.add (d.of_int total) (d.of_int time)))

module _ {D : Type 0} ⦃d : Double D⦄ where
  open d use {of_int, add, sub, div, to_int}

  abbrev pub next_index : FileHeartbeat D → ℕ
  next_index hb =
      if suc hb.shared.current_index == hb.window_size then 0 else suc hb.shared.current_index

  abbrev pub filling : FileHeartbeat D → ℤ → Option (FileHeartbeat D × ℤ)
  filling hb time = do
    window ← store hb.shared.window hb.shared.current_index time
    let total = add_times d (take (suc hb.shared.current_index) window) (pos 0)
    let average =
        to_int (div (of_int total) (add (of_int (pos hb.shared.current_index)) (of_int (pos 1))))
    some (
      record hb {
        shared = record hb.shared {
          window = window;
          last_average_time = of_int average;
          current_index = next_index hb;
          steady_state = suc hb.shared.current_index == hb.window_size;
        };
      },
      average,
    )

  abbrev pub sliding : FileHeartbeat D → ℤ → Option (FileHeartbeat D × ℤ)
  sliding hb time = do
    oldest ← get_elem? hb.shared.window hb.shared.current_index
    let size = of_int (pos hb.window_size)
    let rest = to_int (sub hb.shared.last_average_time (div (of_int oldest) size))
    let average = to_int (add (of_int rest) (div (of_int time) size))
    window ← store hb.shared.window hb.shared.current_index time
    some (
      record hb {
        shared = record hb.shared {
          window = window;
          last_average_time = of_int average;
          current_index = next_index hb;
        };
      },
      average,
    )

  pub hb_window_average : FileHeartbeat D → ℤ → Option (FileHeartbeat D × D)
  unfolding rate_of add_times
  hb_window_average hb time = do
    (hb', average) ← if hb.shared.steady_state then sliding hb time else filling hb time
    some (hb', rate_of (of_int average))

  -- The branch of `heartbeat` for the first time stamp. The index of the record is 0.
  pub first_beat : FileHeartbeat D → ℤ → ℤ → Option (FileHeartbeat D × ℕ)
  first_beat hb tag time = do
    window ← store hb.shared.window 0 time
    log ← store hb.shared.log 0 (record {
      beat = hb.shared.state.counter;
      tag = tag;
      timestamp = time;
      global_rate = of_int (pos 0);
      window_rate = of_int (pos 0);
      instant_rate = of_int (pos 0);
    })
    some (
      record hb {
        shared = record hb.shared {
          first_timestamp = time;
          last_timestamp = time;
          window = window;
          log = log;
          state = record hb.shared.state {
            counter = hb.shared.state.counter + 1;
            buffer_index = hb.shared.state.buffer_index + 1;
          };
        };
      },
      0,
    )

  -- The other branch, with the index at which it has logged.
  pub later_beat : FileHeartbeat D → ℤ → ℤ → Option (FileHeartbeat D × ℕ)
  later_beat hb tag time = do
    let last = hb.shared.last_timestamp
    (hb', window_heartrate) ←
        hb_window_average (record hb { shared = record hb.shared { last_timestamp = time } })
          (time -ℤ last)
    let index = int_of_u64 hb'.shared.state.buffer_index
    log ← store_int hb'.shared.log index (later_record hb'.shared tag time window_heartrate last)
    shared ← wrap_indices (record hb'.shared {
      log = log;
      state = record hb'.shared.state {
        buffer_index = hb'.shared.state.buffer_index + 1;
        counter = hb'.shared.state.counter + 1;
        read_index = hb'.shared.state.read_index + 1;
      };
    })
    some (record hb' { shared = shared }, pos_part index)

  -- `heartbeat`, at the clock's reading. `opens` tells whether the file could be opened again: writing
  -- to it otherwise is a fault.
  pub heartbeat : FileHeartbeat D → ℤ → ℤ → Bool → Option (FileHeartbeat D × ℤ)
  heartbeat hb tag time opens = do
    (hb', index) ←
        if eqb_ℤ hb.shared.first_timestamp (negsuc 0)
        then first_beat hb tag time
        else later_beat hb tag time
    entry ← get_elem? hb'.shared.log index
    if opens
        then some (
          record hb' { file = record hb'.file { records = hb'.file.records ++ (entry ∷ []) } },
          time,
        )
        else none
