-- ===== src/Heartbeat/Session.antt =====
-- From `heartbeat_init` through any number of heartbeats.
use mathlib.Core.List.{append-nil, append_assoc}
use heartbeats.Base.{
  ℕ, ◌^◌, ◌≤◌, ◌<◌, ◌≡◌, ◌&&◌, ◌||◌, not, refl, ap₂, sym, Bool, Option, none, some, List, [], ◌∷◌,
  ◌++◌, map, arith, length, ℤ, pos, ◌≤ℤ◌, ◌>>=◌, Option-cases, inl, inr, if◌then◌else◌, subst,
}
use heartbeats.Double.{Double}
use heartbeats.Heartbeat.{HeartbeatRecord, Heartbeat, Answers, heartbeat_init, heartbeat}
use heartbeats.Heartbeat.Invariant.{IsLogging}
use heartbeats.Heartbeat.Beat.{heartbeat-HasLogged}

-- A tag, and the clock's reading.
abbrev pub Call : Type 0
Call = ℤ × ℤ

module _ {D : Type 0} where
  -- The blocks that the system attaches and allocates have exactly the size that was asked for.
  pub record IsRoomy (answers : Answers D) (window_size buffer_depth : ℕ) : Type 0 where
    pub log_room :
        (block : List (HeartbeatRecord D))
        → answers.log_segment ≡ some block
        → length block ≡ buffer_depth
    pub window_room : length answers.window_block ≡ window_size

  module _ (hb : Heartbeat D) (answers : Answers D) (lo hi : D) (window_size buffer_depth : ℕ)
      (log_name : Bool) where
    -- The code that `heartbeat_init` returns, and when it faults.
    abbrev pub init_code : Option ℕ
    init_code = elim answers.state_segment [
      | none ↦ none
      | some s ↦
          if log_name && not answers.text_opens
          then none
          else if not answers.enabled_dir || not answers.file_opens
          then some 1
          else elim answers.log_segment [ none ↦ some 2 | some block ↦ some 0 ]
    ]

    -- On every branch `heartbeat_init` returns the code of its table: a fault without a state
    -- segment, or with a log file that cannot be opened; 1 without HEARTBEAT_ENABLED_DIR or where
    -- the announcing file cannot be written; else 2 without a log segment; else 0.
    pub heartbeat_init-code :
        (heartbeat_init hb answers lo hi window_size buffer_depth log_name >>= λ out. some out.1)
        ≡ init_code
    unfolding heartbeat_init
    heartbeat_init-code = ground arith

    log_attached :
        (hb' : Heartbeat D)
        → heartbeat_init hb answers lo hi window_size buffer_depth log_name ≡ some (hb', 0)
        → (block : List (HeartbeatRecord D)) × (answers.log_segment ≡ some block)
    unfolding heartbeat_init
    log_attached hb' e = elim (Option-cases answers.log_segment) [
      | inl none_attached ↦ absurd (ground arith)
      | inr attached ↦ attached
    ]

    -- Where `heartbeat_init` returns 0, the application is registered with an empty history, if its
    -- window is not empty, its ring holds at least two records and at most 2^31, and the blocks that
    -- it was given for them have exactly that size.
    pub heartbeat_init-IsLogging :
        (hb' : Heartbeat D)
        → IsRoomy answers window_size buffer_depth
        → 0 < window_size
        → 2 ≤ buffer_depth
        → buffer_depth ≤ 2 ^ 31
        → heartbeat_init hb answers lo hi window_size buffer_depth log_name ≡ some (hb', 0)
        → IsLogging [] [] hb'
    unfolding heartbeat_init
    heartbeat_init-IsLogging hb' roomy w deep int_depth e =
        let (block, attached) = log_attached hb' e in
        let room = roomy.log_room block attached in
        record {
          deep = ground arith;
          int_depth = ground arith;
          room = ground (arith, room);
          inside = ground arith;
          counted = ground arith;
          content = ground arith;
          printed = λ text e'. ground arith;
          started = ground arith;
          stamped = ground arith;
          fresh = λ z. (ground arith, ground arith);
          reading = λ n. absurd (n (ground arith));
          window_room = ground (arith, roomy.window_room);
          window_inside = ground arith;
        }

-- The clock does not read a time before the epoch.
abbrev pub AfterEpoch : List Call → Type 0
AfterEpoch [] = Unit {0}
AfterEpoch ((tag, time) ∷ calls) = (pos 0 ≤ℤ time) × AfterEpoch calls

module _ {D : Type 0} where
  abbrev pub call_of : HeartbeatRecord D → Call
  call_of r = (r.tag, r.timestamp)

  -- The calls have returned: `entries` are their records.
  pub record HasRun (past : List (HeartbeatRecord D)) (calls : List Call)
      (out : Option (Heartbeat D)) : Type 0 where
    pub next : Heartbeat D
    pub entries : List (HeartbeatRecord D)
    pub blocks : List (HeartbeatRecord D)
    pub returned : out ≡ some next
    pub logged : map call_of entries ≡ calls
    pub logging : IsLogging (past ++ entries) blocks next

module _ {D : Type 0} ⦃d : Double D⦄ where
  -- The calls of `heartbeat` that an application makes, one after another.
  unfoldable pub run_beats : Heartbeat D → List Call → Option (Heartbeat D)
  run_beats hb [] = some hb
  run_beats hb ((tag, time) ∷ calls) = heartbeat hb tag time >>= λ out. run_beats out.0 calls

  -- A registered application can make any number of calls. Each of them returns; together they log
  -- one record for each call, with its tag and time, in order behind the records before, and keep
  -- the invariant: so the printed text is a prefix of this history, and the ring holds the rest.
  pub run_beats-HasRun :
      (calls : List Call) (past blocks : List (HeartbeatRecord D)) (hb : Heartbeat D)
      → IsLogging past blocks hb
      → AfterEpoch calls
      → HasRun past calls (run_beats hb calls)
  unfolding run_beats
  run_beats-HasRun [] past blocks hb logging after = record {
    next = hb;
    entries = [];
    blocks = blocks;
    returned = refl;
    logged = refl;
    logging = subst (λ p. IsLogging p blocks hb) (sym (append-nil past)) logging;
  }
  run_beats-HasRun ((tag, time) ∷ calls) past blocks hb logging (first, after) =
      let one = heartbeat-HasLogged past blocks hb logging tag time first in
      let rest =
        run_beats-HasRun calls (past ++ (one.entry ∷ [])) one.blocks one.next one.logging after in
      record {
        next = rest.next;
        entries = one.entry ∷ rest.entries;
        blocks = rest.blocks;
        returned = rw (one.returned) rest.returned;
        logged = ap₂ ◌∷◌ (λ i. (one.tagged i, one.timed i)) rest.logged;
        logging =
            subst (λ p. IsLogging p rest.blocks rest.next)
              (append_assoc past (one.entry ∷ []) rest.entries) rest.logging;
      }
