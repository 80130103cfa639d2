-- ===== src/HeartbeatFile/Session.antt =====
-- The file has the record of every heartbeat, in order.
use heartbeats.Base.{
  ◌+◌, ◌^◌, ◌≤◌, ◌<◌, ◌≡◌, refl, ap, ◌∙◌, sym, subst, inl, inr, true, false, Option, none, some,
  List, [], ◌∷◌, ◌++◌, arith, ◌==◌, length, set, get_elem?, ℤ, pos, negsuc, ◌≤ℤ◌, ◌-ℤ◌, eqb_ℤ,
  Bool-cases, Option-cases, store-eq-set, length-set, get_elem?-set_self, get_elem?-some,
  int_of_u64-small, length-append,
}
use heartbeats.Double.{Double}
use heartbeats.Heartbeat.{HeartbeatRecord, Heartbeat, later_record}
use heartbeats.Heartbeat.WrapShape.{wrapped, wrapped-IsRewound, wrap_indices-wrapped}
use heartbeats.HeartbeatFile.{FileHeartbeat, hb_window_average, first_beat, later_beat, heartbeat}

-- What holds between two heartbeats, where `past` is all that has been logged.
pub record IsFiling {D : Type 0} (past : List (HeartbeatRecord D)) (hb : FileHeartbeat D)
    : Type 0 where
  pub deep : 2 ≤ hb.shared.state.buffer_depth
  pub int_depth : hb.shared.state.buffer_depth ≤ 2 ^ 31
  pub room : length hb.shared.log ≡ hb.shared.state.buffer_depth
  pub inside : hb.shared.state.buffer_index < hb.shared.state.buffer_depth
  pub counted : hb.shared.state.counter ≡ length past
  pub stamped : eqb_ℤ hb.shared.first_timestamp (negsuc 0) ≡ (hb.shared.state.counter == 0)
  pub fresh : hb.shared.state.counter ≡ 0 → hb.shared.state.buffer_index ≡ 0
  pub filed : hb.file.records ≡ past
  pub window_room : length hb.shared.window ≡ hb.window_size
  pub window_inside : hb.shared.current_index < hb.window_size

-- The window average has returned, changed nothing but the window, and kept the window in its block.
abbrev KeepsWindow : {D : Type 0} → FileHeartbeat D → Option (FileHeartbeat D × D) → Type 0
KeepsWindow hb none = ⊥
KeepsWindow {D} hb (some (hb', rate)) =
    (hb' ≡ record hb {
      shared = record hb.shared {
        window = hb'.shared.window;
        current_index = hb'.shared.current_index;
        steady_state = hb'.shared.steady_state;
        last_average_time = hb'.shared.last_average_time;
      };
    })
    × (length hb'.shared.window ≡ hb.window_size)
    × (hb'.shared.current_index < hb.window_size)

module _ {D : Type 0} ⦃d : Double D⦄ where
  hb_window_average-KeepsWindow :
      (hb : FileHeartbeat D) (time : ℤ)
      → length hb.shared.window ≡ hb.window_size
      → hb.shared.current_index < hb.window_size
      → KeepsWindow hb (hb_window_average hb time)
  unfolding hb_window_average
  hb_window_average-KeepsWindow hb time room inside =
      let e = store-eq-set hb.shared.window hb.shared.current_index time (omega arith) in
      let kept = length-set hb.shared.window hb.shared.current_index time ∙ room in
      elim (Bool-cases hb.shared.steady_state) [
        | inl steady ↦
            let (oldest, e') =
              get_elem?-some hb.shared.window hb.shared.current_index (omega arith) in
            rw (steady, e', e) (refl, kept, ground arith)
        | inr growing ↦ rw (growing, e) (refl, kept, ground arith)
      ]

  -- The same, with what the call returns.
  hb_window_average-returns :
      (hb : FileHeartbeat D) (time : ℤ)
      → length hb.shared.window ≡ hb.window_size
      → hb.shared.current_index < hb.window_size
      → (hb' : FileHeartbeat D) × (rate : D) × (hb_window_average hb time ≡ some (hb', rate))
        × KeepsWindow hb (some (hb', rate))
  hb_window_average-returns hb time room inside =
      let keeps = hb_window_average-KeepsWindow hb time room inside in
      elim (Option-cases (hb_window_average hb time)) [
        | inl e ↦ absurd (subst (λ o. KeepsWindow hb o) e keeps)
        | inr ((hb', rate), e) ↦ (hb', rate, e, subst (λ o. KeepsWindow hb o) e keeps)
      ]

module _ {D : Type 0} where
  -- The call has returned, and its record stands at the end of the file.
  pub record HasFiled (past : List (HeartbeatRecord D)) (tag time : ℤ)
      (out : Option (FileHeartbeat D × ℤ)) : Type 0 where
    pub next : FileHeartbeat D
    pub entry : HeartbeatRecord D
    pub returned : out ≡ some (next, time)
    pub beat : entry.beat ≡ length past
    pub tagged : entry.tag ≡ tag
    pub timed : entry.timestamp ≡ time
    pub filing : IsFiling (past ++ (entry ∷ [])) next

module _ {D : Type 0} ⦃d : Double D⦄ (past : List (HeartbeatRecord D)) (hb : FileHeartbeat D)
    (filing : IsFiling past hb) (tag time : ℤ) (nonneg : pos 0 ≤ℤ time) where
  abbrev first_record : HeartbeatRecord D
  first_record = record {
    beat = hb.shared.state.counter;
    tag = tag;
    timestamp = time;
    global_rate = d.of_int (pos 0);
    window_rate = d.of_int (pos 0);
    instant_rate = d.of_int (pos 0);
  }

  abbrev filed : FileHeartbeat D → HeartbeatRecord D → FileHeartbeat D
  filed hb' entry = record hb' {
    file = record hb.file { records = hb.file.records ++ (entry ∷ []) };
  }

  abbrev begun : FileHeartbeat D
  begun = record hb {
    shared = record hb.shared {
      first_timestamp = time;
      last_timestamp = time;
      window = set hb.shared.window 0 time;
      log = set hb.shared.log 0 first_record;
      state = record hb.shared.state {
        counter = hb.shared.state.counter + 1;
        buffer_index = hb.shared.state.buffer_index + 1;
      };
    };
  }

  first_beat-HasFiled :
      (hb.shared.state.counter == 0) ≡ true → HasFiled past tag time (heartbeat hb tag time true)
  unfolding heartbeat first_beat
  first_beat-HasFiled none_past =
      let zero_past : hb.shared.state.counter ≡ 0 = ground arith in
      let at_start = filing.fresh zero_past in
      record {
        next = filed begun first_record;
        entry = first_record;
        returned = rw (
          filing.stamped,
          none_past,
          store-eq-set hb.shared.window 0 time (omega (arith, filing)),
          store-eq-set hb.shared.log 0 first_record (omega (arith, filing)),
          get_elem?-set_self hb.shared.log 0 first_record (omega (arith, filing)),
        );
        beat = filing.counted;
        tagged = refl;
        timed = refl;
        filing = record {
          deep = filing.deep;
          int_depth = filing.int_depth;
          room = length-set hb.shared.log 0 first_record ∙ filing.room;
          inside = omega (arith, filing, at_start);
          counted = omega (arith, filing, length-append past (first_record ∷ []));
          stamped = ground arith;
          fresh = λ z. absurd (omega arith);
          filed = ap (λ r. r ++ (first_record ∷ [])) filing.filed;
          window_room = length-set hb.shared.window 0 time ∙ filing.window_room;
          window_inside = filing.window_inside;
        };
      }

  -- The structure before the wrap, when the window average has left `hb'`.
  abbrev written : FileHeartbeat D → HeartbeatRecord D → Heartbeat D
  written hb' entry = record hb'.shared {
    log = set hb'.shared.log hb'.shared.state.buffer_index entry;
    state = record hb'.shared.state {
      buffer_index = hb'.shared.state.buffer_index + 1;
      counter = hb'.shared.state.counter + 1;
      read_index = hb'.shared.state.read_index + 1;
    };
  }

  abbrev ticked : FileHeartbeat D
  ticked = record hb { shared = record hb.shared { last_timestamp = time } }

  later_beat-HasFiled :
      (hb.shared.state.counter == 0) ≡ false → HasFiled past tag time (heartbeat hb tag time true)
  unfolding heartbeat later_beat later_record
  later_beat-HasFiled some_past =
      let (hb', rate, e, keeps) =
        hb_window_average-returns ticked (time -ℤ hb.shared.last_timestamp) filing.window_room
          filing.window_inside in
      let (same, wroom, winside) = keeps in
      let state : hb'.shared.state ≡ hb.shared.state = ap (λ h. h.shared.state) same in
      let log : hb'.shared.log ≡ hb.shared.log = ap (λ h. h.shared.log) same in
      let first : hb'.shared.first_timestamp ≡ hb.shared.first_timestamp =
        ap (λ h. h.shared.first_timestamp) same in
      let size : hb'.window_size ≡ hb.window_size = ap (λ h. h.window_size) same in
      let file : hb'.file ≡ hb.file = ap (λ h. h.file) same in
      let index : hb'.shared.state.buffer_index ≡ hb.shared.state.buffer_index =
        ap (λ s. s.buffer_index) state in
      let depth : hb'.shared.state.buffer_depth ≡ hb.shared.state.buffer_depth =
        ap (λ s. s.buffer_depth) state in
      let counter : hb'.shared.state.counter ≡ hb.shared.state.counter =
        ap (λ s. s.counter) state in
      let there : hb'.shared.state.buffer_index < length hb'.shared.log =
        subst (λ n. hb'.shared.state.buffer_index < n) (sym (ap length log))
          (omega (arith, filing)) in
      let entry = later_record hb'.shared tag time rate hb.shared.last_timestamp in
      let w = written hb' entry in
      let rewound = wrapped-IsRewound w (omega (arith, filing)) (omega (arith, filing)) in
      let w_room : w.state.buffer_depth ≤ length w.log = omega (
        arith,
        filing.room,
        depth,
        ap length log,
        length-set hb'.shared.log hb'.shared.state.buffer_index entry,
      ) in
      let found : get_elem? (wrapped w).log hb'.shared.state.buffer_index ≡ some entry =
        ap (λ l. get_elem? l hb'.shared.state.buffer_index) rewound.log
        ∙ get_elem?-set_self hb'.shared.log hb'.shared.state.buffer_index entry there in
      let no_zero : ((wrapped w).state.counter == 0) ≡ false =
        let more : 0 < (wrapped w).state.counter = omega (arith, rewound) in ground arith in
      record {
        next = record hb' {
          shared = wrapped w;
          file = record hb'.file { records = hb'.file.records ++ (entry ∷ []) };
        };
        entry = entry;
        returned = rw (
          filing.stamped,
          some_past,
          e,
          int_of_u64-small hb'.shared.state.buffer_index (omega (arith, filing)),
          store-eq-set hb'.shared.log hb'.shared.state.buffer_index entry there,
          wrap_indices-wrapped w (omega (arith, filing)) w_room,
          found,
        );
        beat = counter ∙ filing.counted;
        tagged = refl;
        timed = refl;
        filing = record {
          deep = omega (arith, filing, rewound);
          int_depth = omega (arith, filing, rewound);
          room =
              ap length rewound.log
              ∙ (length-set hb'.shared.log hb'.shared.state.buffer_index entry
                  ∙ (ap length log ∙ (filing.room ∙ sym (rewound.depth ∙ depth))));
          inside = omega (arith, filing, rewound);
          counted = omega (arith, filing, rewound, length-append past (entry ∷ []));
          stamped =
              ap (λ t. eqb_ℤ t (negsuc 0)) (rewound.first ∙ first)
              ∙ (filing.stamped ∙ (some_past ∙ sym no_zero));
          fresh = λ z. absurd (omega (arith, rewound));
          filed =
              ap (λ f. f.records ++ (entry ∷ [])) file ∙ ap (λ r. r ++ (entry ∷ [])) filing.filed;
          window_room = ap length rewound.window ∙ (wroom ∙ sym size);
          window_inside = omega (arith, rewound);
        };
      }

  -- A heartbeat of a process that is registered, and whose file opens, returns. It puts a record with
  -- the number of the beat, the tag and the time behind all the records in the file, and keeps the
  -- invariant.
  pub heartbeat-HasFiled : HasFiled past tag time (heartbeat hb tag time true)
  heartbeat-HasFiled = elim (Bool-cases (hb.shared.state.counter == 0)) [
    | inl none_past ↦ first_beat-HasFiled none_past
    | inr some_past ↦ later_beat-HasFiled some_past
  ]
