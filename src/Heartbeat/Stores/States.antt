-- ===== src/Heartbeat/Stores/States.antt =====
-- The states between the stores of a heartbeat of a registered application.
use native.Mathlib.Nat.{mod-eq_of_lt, mod_self}
use heartbeats.Base.{
  ℕ, ◌%◌, ◌==◌, ◌≢◌, ◌<◌, ◌≡◌, refl, sym, true, false, int_of_u64-small, ◌∙◌, inl, inr, some, List,
  [], ◌∷◌, ◌++◌, arith, length, set, ℤ, pos, negsuc, get_elem?-some, length-set, store-eq-set,
  Option-cases, eqb_ℤ, ◌-ℤ◌, Bool-cases,
}
use heartbeats.Double.{Double}
use heartbeats.Heartbeat.{HeartbeatRecord, Heartbeat, later_record}
use heartbeats.Heartbeat.WrapShape.{rewound, rewound_read, rewind-rewound, rewind_read-rewound}
use heartbeats.Heartbeat.Invariant.{IsLogging, with_window, hb_window_average-returns}
use heartbeats.Heartbeat.Stores.{
  count, advance, advance_read, set_valid, do_stores, zero_record, first_stores, later_stores,
  heartbeat_stores, first_counts, later_counts,
}
use heartbeats.Heartbeat.Stores.Fields.{do_stores-record_stores, with_record, partly, map_records}

module _ {D : Type 0} where
  -- `rewound` leaves what a monitor reads of a record alone.
  abbrev pub Keeps : Heartbeat D → Heartbeat D → Type 0
  Keeps s s' =
      (s'.log ≡ s.log)
      × (s'.state.read_index ≡ s.state.read_index)
      × (s'.state.valid ≡ s.state.valid)
      × (s'.state.buffer_depth ≡ s.state.buffer_depth)

  pub rewound-Keeps : (s : Heartbeat D) → Keeps s (rewound s)
  unfolding rewound
  rewound-Keeps s = elim (Bool-cases (s.state.buffer_index % s.state.buffer_depth == 0)) [
    | inl e ↦ elim (Option-cases s.text_file) [
      | inl t ↦ rw (e, t) (refl, refl, refl, refl)
      | inr (text, t) ↦ rw (e, t) (refl, refl, refl, refl)
    ]
    | inr e ↦ rw e (refl, refl, refl, refl)
  ]

  -- The index to read goes back from the depth, and stays if it has not come there.
  pub rewound_read-depth :
      (s : Heartbeat D)
      → s.state.read_index ≡ s.state.buffer_depth
      → rewound_read s ≡ record s { state = record s.state { read_index = 0 } }
  unfolding rewound_read
  rewound_read-depth s full =
      let wraps : (s.state.read_index % s.state.buffer_depth == 0) ≡ true =
        rw (full, mod_self s.state.buffer_depth) refl in
      rw wraps refl

  pub rewound_read-inside :
      (s : Heartbeat D)
      → 0 < s.state.read_index
      → s.state.read_index < s.state.buffer_depth
      → rewound_read s ≡ s
  unfolding rewound_read
  rewound_read-inside s positive inside =
      let stays : (s.state.read_index % s.state.buffer_depth == 0) ≡ false =
        rw (mod-eq_of_lt inside) (ground arith) in
      rw stays refl

  -- The states of the first beat that follow those of its record.
  abbrev pub first_rest : Heartbeat D → List (Heartbeat D)
  first_rest s = count s ∷ advance (count s) ∷ set_valid (advance (count s)) ∷ []

  abbrev pub moved : Heartbeat D → Heartbeat D
  moved s = advance_read (count (advance s))

  -- Those of a later beat.
  abbrev pub later_rest : Heartbeat D → List (Heartbeat D)
  later_rest s =
      advance s
      ∷ count (advance s)
      ∷ moved s
      ∷ rewound (moved s)
      ∷ rewound_read (rewound (moved s))
      ∷ []

module _ {D : Type 0} ⦃d : Double D⦄ (past blocks : List (HeartbeatRecord D)) (hb : Heartbeat D)
    (logging : IsLogging past blocks hb) (tag time : ℤ) where
  -- A heartbeat goes through the states `states`: the private memory first, as in `mid`, then the
  -- record `entry` in its place of the ring, then the rest.
  pub record GoesThrough (rest : Heartbeat D → List (Heartbeat D)) : Type 0 where
    pub mid : Heartbeat D
    pub old : HeartbeatRecord D
    pub entry : HeartbeatRecord D
    pub place : ℕ
    pub at_index : place ≡ hb.state.buffer_index
    pub same_log : mid.log ≡ hb.log
    pub same_state : mid.state ≡ hb.state
    pub beat : entry.beat ≡ length past
    pub tagged : entry.tag ≡ tag
    pub timed : entry.timestamp ≡ time
    pub states :
        heartbeat_stores hb tag time
        ≡ some (map_records mid place (partly old entry) ++ rest (with_record mid place entry))

  pub first_states : hb.state.counter ≡ 0 → GoesThrough first_rest
  unfolding heartbeat_stores first_stores do_stores
  first_states none_past =
      let (old, at) = get_elem?-some hb.log 0 (omega (arith, logging)) in
      let mid : Heartbeat D = record hb {
        first_timestamp = time;
        last_timestamp = time;
        window = set hb.window 0 (pos 0);
      } in
      record {
        mid = mid;
        old = old;
        entry = zero_record hb tag time;
        place = 0;
        at_index = sym ((logging.fresh none_past).0);
        same_log = refl;
        same_state = refl;
        beat = logging.counted;
        tagged = refl;
        timed = refl;
        states =
            rw
              (
                taken,
                store-eq-set hb.window 0 (pos 0) (omega (arith, logging)),
                do_stores-record_stores mid 0 old (zero_record hb tag time) first_counts
                    (omega (arith, logging)) at,
              )
              refl;
      }
    where
      taken : eqb_ℤ hb.first_timestamp (negsuc 0) ≡ true
      taken = logging.stamped ∙ ground arith

  pub later_states : hb.state.counter ≢ 0 → GoesThrough later_rest
  unfolding heartbeat_stores later_stores do_stores later_record
  later_states some_past =
      let (window, i, steady, average, rate, e, wroom, winside) =
        hb_window_average-returns ticked (time -ℤ hb.last_timestamp) logging.window_room
          logging.window_inside in
      let mid : Heartbeat D = with_window ticked window i steady average in
      let (old, at) = get_elem?-some hb.log hb.state.buffer_index (omega (arith, logging)) in
      let entry = later_record mid tag time rate hb.last_timestamp in
      record {
        mid = mid;
        old = old;
        entry = entry;
        place = hb.state.buffer_index;
        at_index = refl;
        same_log = refl;
        same_state = refl;
        beat = logging.counted;
        tagged = refl;
        timed = refl;
        states =
            rw
              (
                logging.stamped,
                stamp,
                e,
                int_of_u64-small hb.state.buffer_index (omega (arith, logging)),
                do_stores-record_stores mid hb.state.buffer_index old entry later_counts
                    (omega (arith, logging)) at,
                rewind-rewound (moved (with_record mid hb.state.buffer_index entry))
                    (omega (arith, logging.deep))
                    (omega (arith, logging.room, length-set hb.log hb.state.buffer_index entry)),
                rewind_read-rewound (moved (with_record mid hb.state.buffer_index entry))
                    (omega (arith, logging.deep)),
              )
              refl;
      }
    where
      ticked : Heartbeat D
      ticked = record hb { last_timestamp = time }

      stamp : (hb.state.counter == 0) ≡ false
      stamp = ground arith
