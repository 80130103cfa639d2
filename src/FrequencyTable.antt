-- ===== src/FrequencyTable.antt =====
-- The functions on the machine's frequencies, which src/frequencyscaler.c, src/frequencyscaler1.c and
-- src/frequencyscaler2.c each have a copy of.
--
-- A list of frequencies of libcpufreq is a list, and the array of them is a block. A frequency that
-- the kernel reports is an argument.
pub mod Laws
mod Tests
use heartbeats.Base.{
  ℕ, suc, Option, none, some, List, [], ◌∷◌, if◌then◌else◌, leb, ◌==◌, ◌>>=◌, store, Bool,
}

unfoldable pub get_available_freqs_size : List ℕ → ℕ
get_available_freqs_size [] = 0
get_available_freqs_size (freq ∷ freqs) = suc (get_available_freqs_size freqs)

-- The loop from index `i`. `count` is the number of frequencies, and its test lets it pass once more.
unfoldable pub store_from : ℕ → List ℕ → List ℕ → ℕ → Option (List ℕ)
store_from i [] freq_array count = some freq_array
store_from i (frequency ∷ frequencies) freq_array count =
    if leb i count
    then (store freq_array i frequency >>= λ freq_array'.
        store_from (suc i) frequencies freq_array' count)
    else some freq_array

unfoldable pub store_available_freqs : List ℕ → List ℕ → ℕ → Option (List ℕ)
unfolding store_from
store_available_freqs frequencies freq_array count = store_from 0 frequencies freq_array count

-- The index at which the array has the frequency that the kernel reports. The loop has no test of the
-- array's end.
unfoldable pub get_init_frequency : List ℕ → ℕ → Option ℕ
get_init_frequency [] curent_init_freq = none
get_init_frequency (frequency ∷ available_freqs) curent_init_freq =
    if frequency == curent_init_freq
    then some 0
    else (get_init_frequency available_freqs curent_init_freq >>= λ i. some (suc i))
