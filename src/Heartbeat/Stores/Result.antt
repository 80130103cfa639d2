-- ===== src/Heartbeat/Stores/Result.antt =====
-- The last state of the stores is the result of `heartbeat`.
use heartbeats.Base.{
  ◌+◌, ◌≡◌, refl, inl, inr, Option, none, some, List, ◌++◌, arith, length, store, ◌>>=◌, ℤ, pos,
  negsuc, get_elem?-some, store-eq-set, Option-cases, dec_lt, store_fault, eqb_ℤ, ◌-ℤ◌, int_of_u64,
  Bool-cases,
}
use heartbeats.Double.{Double}
use heartbeats.Heartbeat.{
  HeartbeatRecord, Heartbeat, first_beat, later_beat, heartbeat, later_record, hb_window_average,
  rewind, rewind_read, wrap_indices, store_int,
}
use heartbeats.Heartbeat.Stores.{
  set_field, do_stores, record_stores, zero_record, first_stores, later_stores, heartbeat_stores,
  first_counts, later_counts,
}
use heartbeats.Heartbeat.Stores.Fields.{do_stores-record_stores, do_stores_fault, last, with_record}
use heartbeats.Heartbeat.Stores.States.{moved}

module _ {D : Type 0} ⦃d : Double D⦄ where
  -- In the branch of the first beat the last state is the result.
  first_stores-first_beat :
      (hb : Heartbeat D) (tag time : ℤ)
      → (first_stores hb tag time >>= λ states. some (last hb states)) ≡ first_beat hb tag time
  unfolding first_stores first_beat do_stores
  first_stores-first_beat hb tag time = elim (Option-cases (store hb.window 0 (pos 0))) [
    | inl e ↦ rw e refl
    | inr (window, e) ↦ elim (dec_lt 0 (length hb.log)) [
      | yes inside ↦
          let (old, at) = get_elem?-some hb.log 0 inside in
          rw
            (
              e,
              do_stores-record_stores (started window) 0 old (zero_record hb tag time) first_counts
                  inside at,
              store-eq-set hb.log 0 (zero_record hb tag time) inside,
            )
            refl
      | no outside ↦
          rw
            (
              e,
              do_stores_fault (started window) 0 (zero_record hb tag time) first_counts
                  (omega arith),
              store_fault hb.log 0 (zero_record hb tag time) (omega arith),
            )
            refl
    ]
  ]
    where
      started : List ℤ → Heartbeat D
      started window = record hb { first_timestamp = time; last_timestamp = time; window = window }

  -- The same behind the window average.
  from_average :
      (start hb : Heartbeat D) (r : HeartbeatRecord D) (index : ℤ)
      → (do_stores (record_stores index r ++ later_counts) hb >>= λ states.
          some (last start states))
        ≡ (store_int hb.log index r >>= λ log. wrap_indices (record hb {
          log = log;
          state = record hb.state {
            buffer_index = hb.state.buffer_index + 1;
            counter = hb.state.counter + 1;
            read_index = hb.state.read_index + 1;
          };
        }))
  unfolding do_stores set_field wrap_indices
  from_average start hb r (negsuc i) = refl
  from_average start hb r (pos i) = elim (dec_lt i (length hb.log)) [
    | yes inside ↦
        let (old, at) = get_elem?-some hb.log i inside in
        let stored = do_stores-record_stores hb i old r later_counts inside at in
        let set_it = store-eq-set hb.log i r inside in
        elim (Option-cases (rewind (moved (with_record hb i r)))) [
          | inl e ↦ rw (stored, set_it, e) refl
          | inr (hb', e) ↦ elim (Option-cases (rewind_read hb')) [
            | inl e' ↦ rw (stored, set_it, e, e') refl
            | inr (hb'', e') ↦ rw (stored, set_it, e, e') refl
          ]
        ]
    | no outside ↦
        rw (do_stores_fault hb i r later_counts (omega arith), store_fault hb.log i r (omega arith))
          refl
  ]

  later_stores-later_beat :
      (hb : Heartbeat D) (tag time : ℤ)
      → (later_stores hb tag time >>= λ states. some (last hb states)) ≡ later_beat hb tag time
  unfolding later_stores later_beat do_stores
  later_stores-later_beat hb tag time =
      elim (Option-cases (hb_window_average ticked (time -ℤ hb.last_timestamp))) [
        | inl e ↦ rw e refl
        | inr ((hb', rate), e) ↦ rw e (
            from_average hb hb' (later_record hb' tag time rate hb.last_timestamp)
              (int_of_u64 hb.state.buffer_index))
      ]
    where
      ticked : Heartbeat D
      ticked = record hb { last_timestamp = time }

  -- The state after the last store of a heartbeat is its result, and the stores fault where it does.
  pub heartbeat_stores-heartbeat :
      (hb : Heartbeat D) (tag time : ℤ)
      → (heartbeat_stores hb tag time >>= λ states. some (last hb states, time))
        ≡ heartbeat hb tag time
  unfolding heartbeat_stores heartbeat
  heartbeat_stores-heartbeat hb tag time = elim (Bool-cases (eqb_ℤ hb.first_timestamp (negsuc 0))) [
    | inl e ↦ rw (e, paired (first_stores hb tag time), first_stores-first_beat hb tag time) refl
    | inr e ↦ rw (e, paired (later_stores hb tag time), later_stores-later_beat hb tag time) refl
  ]
    where
      paired :
          (o : Option (List (Heartbeat D)))
          → ◌>>=◌ {B = Heartbeat D × ℤ} o (λ states. some (last hb states, time))
            ≡ ((o >>= λ states. some (last hb states)) >>= λ hb'. some (hb', time))
      paired none = refl
      paired (some states) = refl
