-- ===== src/Control/Start.antt =====
-- How src/combined.c builds the table of actuators and fills in those of the core count and of the
-- frequencies, with the answers of the operating system as arguments. Allocation does not fail.
pub mod Index
pub mod Controls
use heartbeats.Base.{
  ℕ, zero, suc, ◌+◌, ◌%◌, ◌/◌, Bool, true, false, not, ◌&&◌, ◌||◌, Option, none, some, List, [],
  ◌∷◌, ◌++◌, ltb, ◌==◌, if◌then◌else◌, length, ℤ, pos, negsuc, u64_of_int,
}
use heartbeats.Control.Actuators.{
  Kind, FreqScalerData, Actuator, freq_data, no_data, core_count, global_freq, single_freq,
  machine_spd,
}
use heartbeats.Control.Speed.{int64_of_u64}

-- The count of lines of /proc/cpuinfo that name a processor, at least 1; `none` if it does not open.
pub get_core_count : Option ℕ → ℕ
get_core_count none = 1
get_core_count (some count) = if ltb count 1 then 1 else count

-- The loop over the bits of the affinity mask, from its `value`. The first argument is fuel: the mask
-- has 32 bits.
pub count_bits : ℕ → ℕ → ℕ → ℕ
count_bits zero affinity value = value
count_bits (suc fuel) affinity value =
    let rest = count_bits fuel (affinity / 2) (value + affinity % 2) in
    if affinity == 0 then value else rest

-- `affinity` is what `taskset -p` has printed, if it ran and printed a number.
unfoldable pub core_init : Option ℕ → ℕ → Actuator → Actuator × ℤ
unfolding count_bits
core_init none cores act = (act, negsuc 0)
core_init (some affinity) cores act =
    let count = count_bits 32 affinity 0 in
    (record act { value = pos count; set_value = pos count; min = pos 1; max = pos cores }, pos 0)

-- The loop of `get_freq_index` from `i`.
pub index_from : ℕ → List ℕ → ℕ → ℤ
index_from i [] freq = negsuc 0
index_from i (f ∷ freqs) freq =
    let rest = index_from (suc i) freqs freq in if f == freq then pos i else rest

pub get_freq_index : List ℕ → ℕ → ℤ
unfolding index_from
get_freq_index freq_array freq = index_from 0 freq_array freq

-- What cpufreq answers for a core: the hardware limits, whether there is a policy, whether its governor
-- is `userspace`, whether it is after the attempt to change it, the frequencies in the order of their
-- list, and the current one.
pub record FreqAnswers : Type 0 where
  pub hardware_limits : Option (ℕ × ℕ)
  pub policy : Bool
  pub userspace : Bool
  pub userspace_after : Bool
  pub available : List ℕ
  pub freq_kernel : ℕ

-- `single_freq_init`, with the new data block as it is while nothing has been written to it.
unfoldable pub single_freq_init : FreqAnswers → FreqScalerData → Actuator → Actuator × ℤ
unfolding get_freq_index
single_freq_init answers block act =
    let started = record act { data_of = freq_data block } in
    elim answers.hardware_limits [
      | none ↦ (started, negsuc 0)
      | some limits ↦
          let limited = record started {
            min = int64_of_u64 limits.0;
            max = int64_of_u64 limits.1;
          } in
          let steered = answers.policy && (answers.userspace || answers.userspace_after) in
          let freqs = answers.available in
          if not steered || ltb (length freqs) 1 then (limited, negsuc 0) else (
            record limited {
              value = int64_of_u64 answers.freq_kernel;
              set_value = int64_of_u64 answers.freq_kernel;
              data_of = freq_data (record {
                freq_array = freqs;
                cur_index = get_freq_index freqs (u64_of_int (int64_of_u64 answers.freq_kernel));
              });
            },
            pos 0,
          )
    ]

unfoldable pub global_freq_init : FreqAnswers → FreqScalerData → Actuator → Actuator × ℤ
unfolding single_freq_init
global_freq_init answers block act =
    let (act', err) = single_freq_init answers block (record act { core = pos 0 }) in
    (record act' { core = negsuc 0 }, err)

-- The entries of the table of actuators, before their initialisation.
abbrev control : Kind → ℤ → ℤ → Actuator
control id pid core = record {
  id = id;
  pid = pid;
  core = core;
  value = pos 0;
  set_value = pos 0;
  min = pos 0;
  max = pos 0;
  data_of = no_data;
}

abbrev pub speed_control : ℤ → Actuator
speed_control app = control machine_spd app (negsuc 0)

abbrev pub single_control : ℕ → Actuator
single_control i = control single_freq (negsuc 0) (pos i)

abbrev pub global_control : Actuator
global_control = control global_freq (negsuc 0) (negsuc 0)

abbrev pub core_control : ℤ → Actuator
core_control app = control core_count app (negsuc 0)

-- The loop over the cores from `i`, with `n` left.
unfoldable pub singles_from : ℕ → ℕ → List Actuator
singles_from zero i = []
singles_from (suc n) i = single_control i ∷ singles_from n (suc i)

-- The table for the application `app` on `cores` cores.
unfoldable pub main_controls : ℕ → ℤ → List Actuator
unfolding singles_from
main_controls cores app =
    speed_control app ∷ (singles_from cores 0 ++ (global_control ∷ core_control app ∷ []))
