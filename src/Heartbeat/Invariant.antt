-- ===== src/Heartbeat/Invariant.antt =====
-- What holds of a registered application between two heartbeats, against the list of all the records
-- that it has logged.
use heartbeats.Base.{
  ℕ, ◌+◌, ◌^◌, ◌≤◌, ◌<◌, ◌≡◌, ◌≢◌, refl, ap, ◌⊎◌, inl, inr, Bool, Option, none, some, List, ◌++◌,
  arith, ltb, ◌==◌, length, take, ℤ, negsuc, eqb_ℤ, store-eq-set, length-set, get_elem?-some,
  Bool-cases, ◌∙◌,
}
use heartbeats.Double.{Double}
use heartbeats.Heartbeat.{HeartbeatRecord, Heartbeat, hb_window_average}

-- The ring holds what the last block of `past` has in it so far: `blocks`, the filled rings before,
-- and the first `buffer_index` records of `log` make up `past`.
pub record IsLogging {D : Type 0} (past blocks : List (HeartbeatRecord D)) (hb : Heartbeat D)
    : Type 0 where
  pub deep : 2 ≤ hb.state.buffer_depth
  pub int_depth : hb.state.buffer_depth ≤ 2 ^ 31
  pub room : length hb.log ≡ hb.state.buffer_depth
  pub inside : hb.state.buffer_index < hb.state.buffer_depth
  pub counted : hb.state.counter ≡ length past
  pub content : blocks ++ take hb.state.buffer_index hb.log ≡ past
  pub printed : (text : List (HeartbeatRecord D)) → hb.text_file ≡ some text → text ≡ blocks
  pub started : hb.state.valid ≡ ltb 0 hb.state.counter
  pub stamped : eqb_ℤ hb.first_timestamp (negsuc 0) ≡ (hb.state.counter == 0)
  pub fresh : hb.state.counter ≡ 0 → (hb.state.buffer_index ≡ 0) × (hb.state.read_index ≡ 0)
  pub reading :
      hb.state.counter ≢ 0
      → (hb.state.read_index + 1 ≡ hb.state.buffer_index)
        ⊎ ((hb.state.buffer_index ≡ 0) × (hb.state.read_index + 1 ≡ hb.state.buffer_depth))
  pub window_room : length hb.window ≡ hb.state.window_size
  pub window_inside : hb.current_index < hb.state.window_size

-- `hb` with other values in the fields that the window average sets.
abbrev pub with_window : {D : Type 0} → Heartbeat D → List ℤ → ℕ → Bool → D → Heartbeat D
with_window hb window i steady average = record hb {
  window = window;
  current_index = i;
  steady_state = steady;
  last_average_time = average;
}

-- The call returned, set no other field, and kept the window in its block.
abbrev KeepsWindow : {D : Type 0} → Heartbeat D → Option (Heartbeat D × D) → Type 0
KeepsWindow hb none = ⊥
KeepsWindow hb (some (hb', rate)) =
    (hb' ≡ with_window hb hb'.window hb'.current_index hb'.steady_state hb'.last_average_time)
    × (length hb'.window ≡ hb.state.window_size)
    × (hb'.current_index < hb.state.window_size)

abbrev pub WindowReturns : {D : Type 0} → Heartbeat D → Option (Heartbeat D × D) → Type 0
WindowReturns {D} hb out =
    (window : List ℤ) × (i : ℕ) × (steady : Bool) × (average : D) × (rate : D) × (out
      ≡ some (with_window hb window i steady average, rate))
    × (length window ≡ hb.state.window_size)
    × (i < hb.state.window_size)

KeepsWindow→returns :
    {D : Type 0} (hb : Heartbeat D) (out : Option (Heartbeat D × D))
    → KeepsWindow hb out
    → WindowReturns hb out
KeepsWindow→returns hb none k = absurd k
KeepsWindow→returns hb (some (hb', rate)) k = (
  hb'.window,
  hb'.current_index,
  hb'.steady_state,
  hb'.last_average_time,
  rate,
  ap (λ h. some (h, rate)) k.0,
  k.1,
  k.2,
)

module _ {D : Type 0} ⦃d : Double D⦄ where
  hb_window_average-KeepsWindow :
      (hb : Heartbeat D) (time : ℤ)
      → length hb.window ≡ hb.state.window_size
      → hb.current_index < hb.state.window_size
      → KeepsWindow hb (hb_window_average hb time)
  unfolding hb_window_average
  hb_window_average-KeepsWindow hb time room inside = elim (Bool-cases hb.steady_state) [
    | inl steady ↦
        let (oldest, e) = get_elem?-some hb.window hb.current_index (omega arith) in
        rw (steady, e, store-eq-set hb.window hb.current_index time (omega arith))
          (refl, length-set hb.window hb.current_index time ∙ room, ground arith)
    | inr growing ↦
        rw (growing, store-eq-set hb.window hb.current_index time (omega arith))
          (refl, length-set hb.window hb.current_index time ∙ room, ground arith)
  ]

  -- The window average returns, and keeps the window in its block.
  pub hb_window_average-returns :
      (hb : Heartbeat D) (time : ℤ)
      → length hb.window ≡ hb.state.window_size
      → hb.current_index < hb.state.window_size
      → WindowReturns hb (hb_window_average hb time)
  hb_window_average-returns hb time room inside =
      KeepsWindow→returns hb _ (hb_window_average-KeepsWindow hb time room inside)
