-- ===== src/Heartbeat/WrapShape.antt =====
-- What `wrap_indices` comes to on a ring that is there in full: only the two indices and the printed
-- text change.
use native.Mathlib.Nat.{mod_self}
use heartbeats.Base.{
  some, none, length, take, if◌then◌else◌, le→leb, ◌++◌, ℕ, ◌%◌, ◌≤◌, ◌<◌, ◌≡◌, refl, ap, inl, inr,
  false, Option, List, arith, ◌==◌, Bool-cases, Option-cases,
}
use heartbeats.Heartbeat.{
  HeartbeatRecord, Heartbeat, hb_flush_buffer, rewind, rewind_read, wrap_indices,
}

module _ {D : Type 0} where
  abbrev pub flushed : Heartbeat D → Heartbeat D
  flushed hb = elim hb.text_file [
    | none ↦ hb
    | some printed ↦ record hb { text_file = some (printed ++ take hb.state.buffer_depth hb.log) }
  ]

  unfoldable pub rewound : Heartbeat D → Heartbeat D
  rewound hb =
      if hb.state.buffer_index % hb.state.buffer_depth == 0
      then (let hb' = flushed hb in record hb' { state = record hb'.state { buffer_index = 0 } })
      else hb

  unfoldable pub rewound_read : Heartbeat D → Heartbeat D
  rewound_read hb =
      if hb.state.read_index % hb.state.buffer_depth == 0
      then record hb { state = record hb.state { read_index = 0 } }
      else hb

  unfoldable pub wrapped : Heartbeat D → Heartbeat D
  unfolding rewound rewound_read
  wrapped hb = rewound_read (rewound hb)

  pub rewind-rewound :
      (hb : Heartbeat D)
      → 0 < hb.state.buffer_depth
      → hb.state.buffer_depth ≤ length hb.log
      → rewind hb ≡ some (rewound hb)
  unfolding rewind rewound hb_flush_buffer
  rewind-rewound hb deep room =
      let test : (hb.state.buffer_depth == 0) ≡ false = ground arith in
      elim (Bool-cases (hb.state.buffer_index % hb.state.buffer_depth == 0)) [
        | inl wraps ↦ elim (Option-cases hb.text_file) [
          | inl e ↦ rw (test, wraps, e) refl
          | inr (text, e) ↦
              rw (test, wraps, e, le→leb hb.state.buffer_depth (length hb.log) room) refl
        ]
        | inr stays ↦ rw (test, stays) refl
      ]

  rewound-depth : (hb : Heartbeat D) → (rewound hb).state.buffer_depth ≡ hb.state.buffer_depth
  unfolding rewound
  rewound-depth hb = elim (Bool-cases (hb.state.buffer_index % hb.state.buffer_depth == 0)) [
    | inl wraps ↦ elim (Option-cases hb.text_file) [
      | inl e ↦ rw (wraps, e) refl
      | inr (text, e) ↦ rw (wraps, e) refl
    ]
    | inr stays ↦ rw stays refl
  ]

  pub rewind_read-rewound_read :
      (hb : Heartbeat D) → 0 < hb.state.buffer_depth → rewind_read hb ≡ some (rewound_read hb)
  unfolding rewind_read rewound_read
  rewind_read-rewound_read hb deep =
      let test : (hb.state.buffer_depth == 0) ≡ false = ground arith in
      elim (Bool-cases (hb.state.read_index % hb.state.buffer_depth == 0)) [
        | inl start ↦ rw (test, start) refl
        | inr on ↦ rw (test, on) refl
      ]

  pub rewind_read-rewound :
      (hb : Heartbeat D)
      → 0 < hb.state.buffer_depth
      → rewind_read (rewound hb) ≡ some (rewound_read (rewound hb))
  rewind_read-rewound hb deep =
      rewind_read-rewound_read (rewound hb) (omega (arith, rewound-depth hb))

  pub wrap_indices-wrapped :
      (hb : Heartbeat D)
      → 0 < hb.state.buffer_depth
      → hb.state.buffer_depth ≤ length hb.log
      → wrap_indices hb ≡ some (wrapped hb)
  unfolding wrap_indices wrapped
  wrap_indices-wrapped hb deep room =
      rw (rewind-rewound hb deep room, rewind_read-rewound hb deep) refl

-- `hb` with another text and other indices.
abbrev pub with_indices :
    {D : Type 0} → Heartbeat D → Option (List (HeartbeatRecord D)) → ℕ → ℕ → Heartbeat D
with_indices hb text i r = record hb {
  text_file = text;
  state = record hb.state { buffer_index = i; read_index = r };
}

abbrev HasShape : {D : Type 0} → Heartbeat D → Heartbeat D → Type 0
HasShape hb hb' =
    (hb' ≡ with_indices hb hb'.text_file hb'.state.buffer_index hb'.state.read_index)
    × (hb'.state.buffer_index < hb.state.buffer_depth)

-- What a caller reads of it.
pub record IsRewound {D : Type 0} (hb hb' : Heartbeat D) : Type 0 where
  pub inside : hb'.state.buffer_index < hb.state.buffer_depth
  pub depth : hb'.state.buffer_depth ≡ hb.state.buffer_depth
  pub counter : hb'.state.counter ≡ hb.state.counter
  pub log : hb'.log ≡ hb.log
  pub first : hb'.first_timestamp ≡ hb.first_timestamp
  pub window : hb'.window ≡ hb.window
  pub window_index : hb'.current_index ≡ hb.current_index

module _ {D : Type 0} (hb : Heartbeat D) (deep : 0 < hb.state.buffer_depth)
    (inside : hb.state.buffer_index ≤ hb.state.buffer_depth) where
  below :
      (hb.state.buffer_index % hb.state.buffer_depth == 0) ≡ false
      → hb.state.buffer_index < hb.state.buffer_depth
  below h = elim (Bool-cases (hb.state.buffer_index == hb.state.buffer_depth)) [
    | inl e ↦
        let same : hb.state.buffer_index ≡ hb.state.buffer_depth = ground arith in
        let z : hb.state.buffer_index % hb.state.buffer_depth ≡ 0 =
          rw same (mod_self hb.state.buffer_depth) in
        ground arith
    | inr e ↦ ground arith
  ]

  wrapped-HasShape : HasShape hb (wrapped hb)
  unfolding wrapped rewound rewound_read
  wrapped-HasShape = elim (Bool-cases (hb.state.read_index % hb.state.buffer_depth == 0)) [
    | inl start ↦ elim (Bool-cases (hb.state.buffer_index % hb.state.buffer_depth == 0)) [
      | inl wraps ↦ elim (Option-cases hb.text_file) [
        | inl e ↦ rw (wraps, e, start) (refl, deep)
        | inr (text, e) ↦ rw (wraps, e, start) (refl, deep)
      ]
      | inr stays ↦ rw (stays, start) (refl, below stays)
    ]
    | inr on ↦ elim (Bool-cases (hb.state.buffer_index % hb.state.buffer_depth == 0)) [
      | inl wraps ↦ elim (Option-cases hb.text_file) [
        | inl e ↦ rw (wraps, e, on) (refl, deep)
        | inr (text, e) ↦ rw (wraps, e, on) (refl, deep)
      ]
      | inr stays ↦ rw (stays, on) (refl, below stays)
    ]
  ]

  pub wrapped-IsRewound : IsRewound hb (wrapped hb)
  wrapped-IsRewound =
      let (same, room) = wrapped-HasShape in
      record {
        inside = room;
        depth = ap (λ h. h.state.buffer_depth) same;
        counter = ap (λ h. h.state.counter) same;
        log = ap (λ h. h.log) same;
        first = ap (λ h. h.first_timestamp) same;
        window = ap (λ h. h.window) same;
        window_index = ap (λ h. h.current_index) same;
      }
