-- ===== src/FrequencyTable/Tests.antt =====
-- Each theorem at an input.
use heartbeats.Base.{ℕ, ◌≡◌, refl, some, List, [], ◌∷◌}
use heartbeats.FrequencyTable.{get_available_freqs_size, store_available_freqs}
use heartbeats.FrequencyTable.Laws.{store_available_freqs_lem}

abbrev freqs : List ℕ
freqs = 2400 ∷ 1600 ∷ 800 ∷ []

block_fits : 3 ≡ get_available_freqs_size freqs
unfolding get_available_freqs_size
block_fits = refl

three_stored :
    store_available_freqs freqs (0 ∷ 0 ∷ 0 ∷ []) (get_available_freqs_size freqs) ≡ some freqs
three_stored = store_available_freqs_lem freqs (0 ∷ 0 ∷ 0 ∷ []) block_fits
