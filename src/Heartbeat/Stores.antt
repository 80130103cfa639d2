-- ===== src/Heartbeat/Stores.antt =====
-- src/heartbeat-shared.c, `heartbeat` once more, a store to the shared segments at a time: a monitor
-- in another process takes no lock, so it can read between any two of them.
--
-- The stores are taken in the order of the source. What a compiler may do with stores that are not
-- volatile, and a monitor's copy that is cut by a store, are not modelled.
pub mod Fields
pub mod Result
pub mod States
use heartbeats.Base.{
  ℕ, ◌+◌, ◌%◌, Option, none, some, List, [], ◌∷◌, ◌++◌, true, ◌==◌, if◌then◌else◌, ◌>>=◌, get_elem?,
  store, ℤ, pos, negsuc, ◌-ℤ◌, eqb_ℤ, int_of_u64,
}
use heartbeats.Double.{Double}
use heartbeats.Heartbeat.{
  HeartbeatRecord, Heartbeat, rewind, rewind_read, hb_window_average, later_record,
}

module _ {D : Type 0} where
  -- `hb->log[i].field = value`
  pub set_field : ℤ → (HeartbeatRecord D → HeartbeatRecord D) → Heartbeat D → Option (Heartbeat D)
  set_field (pos i) f hb = do
    r ← get_elem? hb.log i
    log ← store hb.log i (f r)
    some (record hb { log = log })
  set_field (negsuc i) f hb = none

  -- The stores one after the other, and the state after each.
  pub do_stores :
      List (Heartbeat D → Option (Heartbeat D)) → Heartbeat D → Option (List (Heartbeat D))
  do_stores [] hb = some []
  do_stores (one ∷ more) hb = do hb' ← one hb; states ← do_stores more hb'; some (hb' ∷ states)

  -- The fields of a record, in the order in which both branches of `heartbeat` set them.
  abbrev pub record_stores : ℤ → HeartbeatRecord D → List (Heartbeat D → Option (Heartbeat D))
  record_stores i r =
      set_field i (λ old. record old { beat = r.beat })
      ∷ set_field i (λ old. record old { tag = r.tag })
      ∷ set_field i (λ old. record old { timestamp = r.timestamp })
      ∷ set_field i (λ old. record old { window_rate = r.window_rate })
      ∷ set_field i (λ old. record old { instant_rate = r.instant_rate })
      ∷ set_field i (λ old. record old { global_rate = r.global_rate })
      ∷ []

  abbrev pub count : Heartbeat D → Heartbeat D
  count hb = record hb { state = record hb.state { counter = hb.state.counter + 1 } }

  abbrev pub advance : Heartbeat D → Heartbeat D
  advance hb = record hb { state = record hb.state { buffer_index = hb.state.buffer_index + 1 } }

  abbrev pub advance_read : Heartbeat D → Heartbeat D
  advance_read hb = record hb { state = record hb.state { read_index = hb.state.read_index + 1 } }

  abbrev pub set_valid : Heartbeat D → Heartbeat D
  set_valid hb = record hb { state = record hb.state { valid = true } }

  -- What the branch for the first time stamp stores behind its record.
  abbrev pub first_counts : List (Heartbeat D → Option (Heartbeat D))
  first_counts = (λ s. some (count s)) ∷ (λ s. some (advance s)) ∷ (λ s. some (set_valid s)) ∷ []

  -- What the other branch stores behind its record. The two tests at the end are at most one store
  -- to the shared state each.
  abbrev pub later_counts : List (Heartbeat D → Option (Heartbeat D))
  later_counts =
      (λ s. some (advance s))
      ∷ (λ s. some (count s))
      ∷ (λ s. some (advance_read s))
      ∷ rewind
      ∷ rewind_read
      ∷ []

module _ {D : Type 0} ⦃d : Double D⦄ where
  open d use {of_int}

  -- The record of the first beat.
  abbrev pub zero_record : Heartbeat D → ℤ → ℤ → HeartbeatRecord D
  zero_record hb tag time = record {
    beat = hb.state.counter;
    tag = tag;
    timestamp = time;
    global_rate = of_int (pos 0);
    window_rate = of_int (pos 0);
    instant_rate = of_int (pos 0);
  }

  pub first_stores : Heartbeat D → ℤ → ℤ → Option (List (Heartbeat D))
  unfolding do_stores
  first_stores hb tag time = do
    window ← store hb.window 0 (pos 0)
    do_stores (record_stores (pos 0) (zero_record hb tag time) ++ first_counts)
        (record hb { first_timestamp = time; last_timestamp = time; window = window })

  pub later_stores : Heartbeat D → ℤ → ℤ → Option (List (Heartbeat D))
  unfolding do_stores
  later_stores hb tag time = do
    let index = int_of_u64 hb.state.buffer_index
    (hb', window_heartrate) ←
        hb_window_average (record hb { last_timestamp = time }) (time -ℤ hb.last_timestamp)
    do_stores
        (record_stores index (later_record hb' tag time window_heartrate hb.last_timestamp)
          ++ later_counts)
        hb'

  -- The state after each store of a heartbeat to the shared segments.
  pub heartbeat_stores : Heartbeat D → ℤ → ℤ → Option (List (Heartbeat D))
  heartbeat_stores hb tag time =
      if eqb_ℤ hb.first_timestamp (negsuc 0)
      then first_stores hb tag time
      else later_stores hb tag time
