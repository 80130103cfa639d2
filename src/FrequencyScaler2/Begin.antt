-- ===== src/FrequencyScaler2/Begin.antt =====
-- What src/frequencyscaler2.c has when it comes to its loop.
use heartbeats.Base.{
  ℕ, ◌≡◌, refl, sym, ap, subst, Bool, false, List, [], some, arith, length, ltb, ◌==◌, Bool-cases,
  inl, inr, ℤ, bind_some,
}
use heartbeats.Monitor.{HeartRateMonitor, hrm_get_window_size}
use heartbeats.FrequencyTable.{get_available_freqs_size}
use heartbeats.FrequencyTable.Laws.{store_available_freqs_lem}
use heartbeats.Adapt.{HeartData, Pace, first_pace}
use heartbeats.Adapt.Start.{ready, attach, then_start-ready, ready-injective}
use heartbeats.Adapt.Runs.{IsPaced}
use heartbeats.FrequencyScaler2.{Setting, Scaler, start}
use heartbeats.FrequencyScaler2.Bounds.{IsTuned, IsReported, init_lem}

module _ {D : Type 0} (frequency_of : List Setting → ℕ → ℕ) (cores ncpus : ℕ)
    (freqs freq_block : List ℕ) (enabled_dir : Bool) (listings : List (List ℤ))
    (init : ℤ → HeartRateMonitor D × ℕ) (block : List (HeartData D)) where
  abbrev fresh : ℕ → Scaler
  fresh i = record {
    current_counter = i;
    current_core = 0;
    u_next = false;
    go_next = false;
    settings = [];
  }

  -- The kernel reports frequencies that it has listed, and the block for them has a place for each.
  -- Where `start` comes to the loop, the array is the list of the frequencies, the loop is at beat 0
  -- with no records, and the scaler stands inside the array on core 0, with no settings made.
  pub start-IsTuned :
      (available_freqs : List ℕ) (pace : Pace D) (scaler : Scaler)
      → IsReported freqs frequency_of
      → length freq_block ≡ get_available_freqs_size freqs
      → start frequency_of cores ncpus freqs freq_block enabled_dir listings init block
        ≡ some (ready (available_freqs, pace, scaler))
      → (available_freqs ≡ freqs)
        × IsPaced (length block) 0 pace
        × IsTuned freqs 0 cores scaler
        × (scaler.settings ≡ [])
  unfolding start
  start-IsTuned available_freqs pace scaler reported room e =
      let stored = store_available_freqs_lem freqs freq_block room in
      let (i, found, inside) = init_lem freqs 0 cores frequency_of reported [] 0 in
      elim (Bool-cases (ltb ncpus cores)) [
        | inl too_many ↦ absurd (ground (arith, e, too_many))
        | inr enough ↦ elim (Bool-cases (get_available_freqs_size freqs == 0)) [
          | inl none_listed ↦ absurd (ground (arith, e, enough, none_listed))
          | inr some_listed ↦
              let e' = rw (start, enough, some_listed, stored, found) at e in
              let target : List ℕ × Pace D × Scaler = (available_freqs, pace, scaler) in
              let ((app, heart), attached, e2) =
                then_start-ready (attach enabled_dir listings init) _ target e' in
              let (w, read, e3) = bind_some (hrm_get_window_size heart) _ (ready target) e2 in
              let result = ready-injective (freqs, first_pace w block, fresh i) target e3 in
              let begun : IsPaced (length block) 0 (first_pace w block) = record {
                here = refl;
                before = refl;
                few = omega arith;
                room = refl;
              } in
              let tuned : IsTuned freqs 0 cores (fresh i) = record {
                inside = inside;
                risen = omega arith;
                few = omega arith;
                listed = tt;
              } in
              (
                sym (ap (λ r. r.0) result),
                subst (IsPaced (length block) 0) (ap (λ r. r.1) result) begun,
                subst (IsTuned freqs 0 cores) (ap (λ r. r.2) result) tuned,
                sym (ap (λ r. r.2.settings) result),
              )
        ]
      ]
