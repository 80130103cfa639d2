-- ===== src/FrequencyScaler2/Tests.antt =====
-- Runs over whole numbers in place of `double`, and the theorem at an input.
use heartbeats.Base.{true, length, ◌≡◌, ℕ, refl, false, none, some, List, [], ◌∷◌, arith, ℤ, pos}
use heartbeats.Double.{whole}
use heartbeats.Heartbeat.Fixture.{blank, stale}
use heartbeats.Monitor.{HeartRateMonitor, hrm_get_window_size}
use heartbeats.FrequencyTable.{
  get_available_freqs_size, store_available_freqs, store_from, get_init_frequency,
}
use heartbeats.Adapt.Start.{ready, attach}
use heartbeats.FrequencyScaler2.Begin.{start-IsTuned}
use heartbeats.Adapt.{HeartData, Reading, first_pace}
use heartbeats.Adapt.Runs.{IsPaced, HasRun}
use heartbeats.FrequencyScaler2.{Setting, Scaler, start, main_loop}
use heartbeats.FrequencyScaler2.Bounds.{IsTuned, IsReported, scaler2-HasRun}

abbrev freqs : List ℕ
freqs = 2400 ∷ 1600 ∷ 800 ∷ []

-- Each core runs at 1600.
abbrev frequency_of : List Setting → ℕ → ℕ
frequency_of settings core = 1600

reported : IsReported freqs frequency_of
reported settings core = (1, refl)

abbrev readings : List (Reading ℤ)
readings =
    none
    ∷ some (record blank { beat = 5; window_rate = pos 3 })
    ∷ some (record blank { beat = 9; window_rate = pos 30 })
    ∷ []

abbrev empty : HeartData ℤ
empty = record { tag = pos 0; rate = pos 0 }

abbrev block : List (HeartData ℤ)
block = empty ∷ empty ∷ empty ∷ empty ∷ empty ∷ empty ∷ empty ∷ empty ∷ []

abbrev scaler : Scaler
scaler = record {
  current_counter = 1;
  current_core = 0;
  u_next = false;
  go_next = false;
  settings = [];
}

scaler2-HasRun_example :
    (last : ℕ) × HasRun (IsTuned freqs 0 2) 8 last (
      main_loop frequency_of freqs 2 3 2
        (pos 10)
        (pos 20)
        (pos 8)
        readings
        (first_pace 2 block, scaler))
scaler2-HasRun_example =
    scaler2-HasRun freqs 0 2 frequency_of reported 2 (pos 10) (pos 20) readings 8 0 0
      (first_pace 2 block) scaler
      (record { here = refl; before = refl; few = omega arith; room = refl })
      (record { inside = omega arith; risen = omega arith; few = omega arith; listed = tt })
      (omega arith) (omega arith)

abbrev monitor : HeartRateMonitor ℤ
monitor = record { state = some (record stale { window_size = 2 }); log = [] }

abbrev freq_block : List ℕ
freq_block = 0 ∷ 0 ∷ 0 ∷ []

started :
    start frequency_of 2 4 freqs freq_block true ((pos 42 ∷ []) ∷ []) (λ app. (monitor, 0)) block
    ≡ some (ready (freqs, first_pace 2 block, scaler))
unfolding start attach hrm_get_window_size get_available_freqs_size store_available_freqs store_from
    get_init_frequency
started = refl

block_fits : length freq_block ≡ get_available_freqs_size freqs
unfolding get_available_freqs_size
block_fits = refl

tuned_start :
    (freqs ≡ freqs)
    × IsPaced 8 0 (first_pace 2 block)
    × IsTuned freqs 0 2 scaler
    × (scaler.settings ≡ [])
tuned_start =
    start-IsTuned frequency_of 2 4 freqs freq_block true ((pos 42 ∷ []) ∷ []) (λ app. (monitor, 0))
      block freqs (first_pace 2 block) scaler reported block_fits started
