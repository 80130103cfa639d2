-- ===== src/Heartbeat/Wrap.antt =====
-- The end of `heartbeat`: an index that has reached the depth of the ring goes back to its start.
use native.Mathlib.Nat.{mod-eq_of_lt, mod_self}
use mathlib.Core.List.{append-nil}
use heartbeats.Base.{
  ℕ, ◌+◌, ◌%◌, ◌^◌, ◌≤◌, ◌<◌, ◌≡◌, refl, ap, ◌∙◌, sym, ◌⊎◌, inl, inr, true, false, Option, none,
  some, List, [], ◌++◌, arith, ltb, ◌==◌, if◌then◌else◌, length, take, negsuc, eqb_ℤ, Bool-cases,
  Option-cases, take_all, ==_iff, dec_lt,
}
use heartbeats.Heartbeat.{HeartbeatRecord, Heartbeat}
use heartbeats.Heartbeat.WrapShape.{rewound, rewound_read, wrapped}
use heartbeats.Heartbeat.Invariant.{IsLogging}

mod-eq-zero : (n depth : ℕ) → 0 < n → n ≤ depth → (n % depth == 0) ≡ (n == depth)
mod-eq-zero n depth pos h = elim (Bool-cases (n == depth)) [
  | inl e ↦ let same : n ≡ depth = (==_iff n depth).0 e in rw (same, mod_self depth) (ground arith)
  | inr e ↦ rw (mod-eq_of_lt {n = n} {m = depth} (ground arith)) (ground arith)
]

module _ {D : Type 0} where
  -- A record has been written, and the counters have gone up.
  pub record HasWritten (past blocks : List (HeartbeatRecord D)) (hb : Heartbeat D) : Type 0 where
    pub deep : 2 ≤ hb.state.buffer_depth
    pub int_depth : hb.state.buffer_depth ≤ 2 ^ 31
    pub room : length hb.log ≡ hb.state.buffer_depth
    pub positive : 0 < hb.state.buffer_index
    pub inside : hb.state.buffer_index ≤ hb.state.buffer_depth
    pub counted : hb.state.counter ≡ length past
    pub content : blocks ++ take hb.state.buffer_index hb.log ≡ past
    pub printed : (text : List (HeartbeatRecord D)) → hb.text_file ≡ some text → text ≡ blocks
    pub started : hb.state.valid ≡ ltb 0 hb.state.counter
    pub stamped : eqb_ℤ hb.first_timestamp (negsuc 0) ≡ (hb.state.counter == 0)
    pub nonzero : 0 < hb.state.counter
    pub reading :
        (hb.state.read_index + 1 ≡ hb.state.buffer_index)
        ⊎ ((hb.state.buffer_index ≡ 1) × (hb.state.read_index ≡ hb.state.buffer_depth))
    pub window_room : length hb.window ≡ hb.state.window_size
    pub window_inside : hb.current_index < hb.state.window_size

  -- A full ring, printed if there is a text file, joins the blocks.
  abbrev pub blocks_after : List (HeartbeatRecord D) → Heartbeat D → List (HeartbeatRecord D)
  blocks_after blocks hb =
      if hb.state.buffer_index == hb.state.buffer_depth then blocks ++ hb.log else blocks

module _ {D : Type 0} (past blocks : List (HeartbeatRecord D)) (hb : Heartbeat D)
    (w : HasWritten past blocks hb) where
  abbrev bi : ℕ
  bi = hb.state.buffer_index

  abbrev ri : ℕ
  ri = hb.state.read_index

  abbrev depth : ℕ
  depth = hb.state.buffer_depth

  full_content : bi ≡ depth → (blocks ++ hb.log) ++ [] ≡ past
  full_content full =
      append-nil (blocks ++ hb.log)
      ∙ (ap (λ ys. blocks ++ ys) (sym (take_all bi hb.log (omega arith))) ∙ w.content)

  full_printed :
      (printed text : List (HeartbeatRecord D))
      → hb.text_file ≡ some printed
      → some (printed ++ take depth hb.log) ≡ some text
      → text ≡ blocks ++ hb.log
  full_printed printed text e e' =
      let same : printed ≡ blocks = w.printed printed e in
      let all : take depth hb.log ≡ hb.log = take_all depth hb.log (omega arith) in cc

  -- Logging goes on, and the index to read is that of the last record, which stays in its place.
  abbrev pub IsWrapped : List (HeartbeatRecord D) → Heartbeat D → Type 0
  IsWrapped blocks' out =
      IsLogging past blocks' out × (out.state.read_index + 1 ≡ bi) × (out.log ≡ hb.log)

  -- The state with other indices and another text file.
  abbrev settled : ℕ → ℕ → Option (List (HeartbeatRecord D)) → Heartbeat D
  settled i r text = record hb {
    text_file = text;
    state = record hb.state { buffer_index = i; read_index = r };
  }

  settled-IsLogging :
      (i r : ℕ) (text : Option (List (HeartbeatRecord D))) (blocks' : List (HeartbeatRecord D))
      → i < depth
      → blocks' ++ take i hb.log ≡ past
      → ((t : List (HeartbeatRecord D)) → text ≡ some t → t ≡ blocks')
      → (r + 1 ≡ i) ⊎ ((i ≡ 0) × (r + 1 ≡ depth))
      → r + 1 ≡ bi
      → IsWrapped blocks' (settled i r text)
  settled-IsLogging i r text blocks' low content printed reading last = (
    record {
      deep = w.deep;
      int_depth = w.int_depth;
      room = w.room;
      inside = low;
      counted = w.counted;
      content = content;
      printed = printed;
      started = w.started;
      stamped = w.stamped;
      fresh = λ z. absurd (omega arith);
      reading = λ _. reading;
      window_room = w.window_room;
      window_inside = w.window_inside;
    },
    last,
    refl,
  )

  module _ (full : bi ≡ depth) where
    full_tests : ((bi % depth == 0) ≡ true) × (ri % depth ≡ ri) × ((ri == 0) ≡ false)
    full_tests = (
      rw (mod-eq-zero bi depth w.positive w.inside) (ground arith),
      mod-eq_of_lt (omega arith),
      ground arith,
    )

    wrap_full : IsWrapped (blocks ++ hb.log) (wrapped hb)
    unfolding wrapped rewound rewound_read
    wrap_full = elim (Option-cases hb.text_file) [
      | inl e ↦
          rw (full_tests.0, e, full_tests.1, full_tests.2)
            (settled-IsLogging 0 ri none (blocks ++ hb.log) (omega arith) (full_content full)
              (λ t e'. cc) (inr (refl, omega arith)) (omega arith))
      | inr (text, e) ↦
          rw (full_tests.0, e, full_tests.1, full_tests.2)
            (settled-IsLogging 0 ri (some (text ++ take depth hb.log)) (blocks ++ hb.log)
              (omega arith) (full_content full) (λ t. full_printed text t e)
              (inr (refl, omega arith)) (omega arith))
    ]

  module _ (part : bi < depth) where
    part_test : (bi % depth == 0) ≡ false
    part_test = rw (mod-eq-zero bi depth w.positive w.inside) (ground arith)

    back_to_start : ri ≡ depth → (ri % depth == 0) ≡ true
    back_to_start e = rw (e, mod_self depth) (ground arith)

    wrap_part : IsWrapped blocks (wrapped hb)
    unfolding wrapped rewound rewound_read
    wrap_part = elim (dec_lt ri depth) [
      | yes low ↦ elim (Bool-cases (ri == 0)) [
        | inl z ↦
            rw (part_test, mod-eq_of_lt low, z)
              (settled-IsLogging bi 0 hb.text_file blocks part w.content w.printed
                (inl (ground arith)) (ground arith))
        | inr nz ↦
            rw (part_test, mod-eq_of_lt low, nz)
              (settled-IsLogging bi ri hb.text_file blocks part w.content w.printed
                (inl (omega arith)) (omega arith))
      ]
      | no high ↦
          rw (part_test, back_to_start (omega arith))
            (settled-IsLogging bi 0 hb.text_file blocks part w.content w.printed (inl (omega arith))
              (omega arith))
    ]

  pub wrapped-IsWrapped : IsWrapped (blocks_after blocks hb) (wrapped hb)
  wrapped-IsWrapped = elim (Bool-cases (bi == depth)) [
    | inl e ↦ rw e (wrap_full (ground arith))
    | inr e ↦ rw e (wrap_part (ground arith))
  ]
