-- ===== src/Heartbeat/History.antt =====
-- `hb_get_history`: what it copies before the ring has wrapped, and what it does afterwards.
use heartbeats.Base.{
  length-take, ℕ, zero, suc, ◌+◌, ◌*◌, ◌≤◌, ◌<◌, ◌≡◌, refl, ap, none, some, List, [], ◌∷◌, ◌++◌,
  arith, length, take, drop, ltb, leb, if◌then◌else◌, Bool-cases, inl, inr, true, false, ◌==◌,
  le→leb, length-append, dec_lt,
}
use heartbeats.Heartbeat.{HeartbeatRecord, Heartbeat, write_block, hb_get_history}
use heartbeats.Heartbeat.Invariant.{IsLogging}

le-mul : (a b : ℕ) → 0 < a → b ≤ a * b
le-mul zero b h = elim h [ ]
le-mul (suc a) b h = omega arith

module _ {D : Type 0} (past blocks : List (HeartbeatRecord D)) (hb : Heartbeat D)
    (logging : IsLogging past blocks hb) (records : List (HeartbeatRecord D)) (n : ℕ) where
  open logging use {deep, room, inside, counted, content}

  abbrev bi : ℕ
  bi = hb.state.buffer_index

  abbrev depth : ℕ
  depth = hb.state.buffer_depth

  empty_blocks : length past ≤ bi → blocks ≡ []
  empty_blocks h = none_left blocks (
      omega (
        arith,
        ap length content,
        length-append blocks (take bi hb.log),
        length-take bi hb.log (omega arith),
      ))
    where
      none_left : (xs : List (HeartbeatRecord D)) → length xs ≤ 0 → xs ≡ []
      none_left [] h = refl
      none_left (x ∷ xs) h = elim h [ ]

  unwrapped : length past ≤ bi → take bi hb.log ≡ past
  unwrapped h = rw (empty_blocks h) at content

  size : length past ≡ length blocks + bi
  size = omega (
    arith,
    ap length content,
    length-append blocks (take bi hb.log),
    length-take bi hb.log (omega arith),
  )

  -- `memcpy` of the whole history to the front of the caller's array.
  copied :
      length past ≤ length records
      → write_block records 0 past ≡ some (past ++ drop (length past) records)
  copied fits =
      let zero_add : 0 + length past ≡ length past = omega arith in
      rw (zero_add, le→leb (length past) (length records) fits)

  before_wrap :
      length past ≤ bi
      → length past ≤ length records
      → hb_get_history hb records n ≡ some (past ++ drop (length past) records, length past)
  unfolding hb_get_history
  before_wrap h fits =
      let test : ltb bi hb.state.counter ≡ false = ground arith in
      let reads : leb (0 + bi) (length hb.log) ≡ true = ground arith in
      let index : bi ≡ length past = omega (arith, size) in
      rw (test, reads, unwrapped h, copied fits)
        (ap (λ k. some (past ++ drop (length past) records, k)) index)

  no_room_before_wrap :
      length past ≤ bi → length records < length past → hb_get_history hb records n ≡ none
  unfolding hb_get_history
  no_room_before_wrap h less =
      let test : ltb bi hb.state.counter ≡ false = ground arith in
      let reads : leb (0 + bi) (length hb.log) ≡ true = ground arith in
      let outside : leb (0 + length past) (length records) ≡ false = ground arith in
      rw (test, reads, unwrapped h, outside) refl

  after_wrap :
      bi < length past
      → hb_get_history hb records n ≡ (if bi == 0 then some (records, depth) else none)
  unfolding hb_get_history
  after_wrap h =
      let test : ltb bi hb.state.counter ≡ true = ground arith in
      elim (Bool-cases (bi == 0)) [
        | inl start ↦
            let nothing : bi * depth ≡ 0 = let z : bi ≡ 0 = ground arith in rw z (omega arith) in
            let z : bi ≡ 0 = ground arith in
            rw
              (
                test,
                nothing,
                z,
                le→leb 0 (length hb.log) (omega arith),
                le→leb 0 (length records) (omega arith),
              )
              (ground arith)
        | inr later ↦
            let ring : depth ≤ bi * depth = le-mul bi depth (ground arith) in
            let outside : leb (bi + bi * depth) (length hb.log) ≡ false = ground arith in
            rw (test, outside, later)
      ]

  pub hb_get_history_lem : hb_get_history hb records n ≡ (
      if leb (length past) bi
      then (if leb (length past) (length records)
          then some (past ++ drop (length past) records, length past)
          else none)
      else if bi == 0
      then some (records, depth)
      else none)
  hb_get_history_lem = elim (Bool-cases (leb (length past) bi)) [
    | inl short ↦ elim (dec_lt (length records) (length past)) [
      | yes less ↦
          let no_room : leb (length past) (length records) ≡ false = ground arith in
          rw (short, no_room) (no_room_before_wrap (ground arith) less)
      | no fits ↦
          rw (short, le→leb (length past) (length records) (omega arith))
            (before_wrap (ground arith) (omega arith))
    ]
    | inr long ↦ rw long (after_wrap (ground arith))
  ]
