-- ===== src/Latency/Schedules.antt =====
-- Every schedule goes along the sequence of the stages, and a fair one to its end.
use heartbeats.Base.{
  suc, zero, ℕ, ◌+◌, ◌-◌, ◌*◌, ◌≤◌, ◌≡◌, refl, ap, ◌∙◌, Bool, true, false, not, List, [], ◌∷◌, ◌++◌,
  arith, length, inl, inr, ◌||◌, ◌⊎◌, some, pos, negsuc, ◌==◌, if◌then◌else◌,
}
use heartbeats.Latency.{Exchange, AppPoint, SysPoint, begin, step, run}
use heartbeats.Latency.Stages.{
  Stage, opening, greeted, answering, ready, turn, asked, seen, answered, ended, following, mover,
  IsStage, rank, view, stays, moves, IsStage-following, rank-following,
}

-- A round of a schedule in which each of the processes has a step.
abbrev has_app : List Bool → Bool
has_app [] = false
has_app (who ∷ schedule) = who || has_app schedule

abbrev has_sys : List Bool → Bool
has_sys [] = false
has_sys (who ∷ schedule) = not who || has_sys schedule

abbrev pub AreFair : List (List Bool) → Type 0
AreFair [] = Unit {0}
AreFair (round ∷ rounds) = (has_app round ≡ true) × (has_sys round ≡ true) × AreFair rounds

abbrev has : Bool → List Bool → Bool
has true schedule = has_app schedule
has false schedule = has_sys schedule

nobody : (who : Bool) → has who [] ≡ true → ⊥
nobody true h = ground arith
nobody false h = ground arith

same_or_other : (a b : Bool) → (a ≡ b) ⊎ (a ≡ not b)
same_or_other true true = inl refl
same_or_other true false = inr refl
same_or_other false true = inr refl
same_or_other false false = inl refl

has_behind :
    (who first : Bool) (schedule : List Bool)
    → first ≡ not who
    → has who (first ∷ schedule) ≡ true
    → has who schedule ≡ true
has_behind true true schedule other h = absurd (ground (arith, other))
has_behind true false schedule other h = h
has_behind false true schedule other h = h
has_behind false false schedule other h = absurd (ground (arith, other))

-- The stage that `n` moves lead to.
abbrev pub along : ℕ → ℕ → Stage → Stage
along iters zero s = s
along iters (suc n) s = along iters n (following iters s)

module _ (iters : ℕ) where
  -- What a schedule comes to from a stage: a stage again, and a later one if its mover has a step.
  record Reaches (schedule : List Bool) (s : Stage) : Type 0 where
    last : Stage
    moved : ℕ
    path : last ≡ along iters moved s
    few : moved ≤ length schedule
    valid : IsStage iters last
    reached : run iters schedule (view iters s) ≡ view iters last
    no_later : rank iters last ≤ rank iters s
    sooner : has (mover iters s) schedule ≡ true → rank iters last ≤ rank iters s - 1

  schedule-Reaches : (schedule : List Bool) (s : Stage) → IsStage iters s → Reaches schedule s
  unfolding run
  schedule-Reaches [] s valid = record {
    last = s;
    moved = 0;
    path = refl;
    few = omega arith;
    valid = valid;
    reached = refl;
    no_later = omega arith;
    sooner = λ h. absurd (nobody (mover iters s) h);
  }
  schedule-Reaches (who ∷ schedule) s valid = elim (same_or_other who (mover iters s)) [
    | inl moving ↦
        let rest =
          schedule-Reaches schedule (following iters s) (IsStage-following iters s valid) in
        let one = ap (λ w. step iters w (view iters s)) moving ∙ moves iters s valid in
        record {
          last = rest.last;
          moved = suc rest.moved;
          path = rest.path;
          few = omega (arith, rest.few);
          valid = rest.valid;
          reached = rw (one) rest.reached;
          no_later = omega (arith, rest.no_later, rank-following iters s);
          sooner = λ h. omega (arith, rest.no_later, rank-following iters s);
        }
    | inr stopped ↦
        let rest = schedule-Reaches schedule s valid in
        let one = ap (λ w. step iters w (view iters s)) stopped ∙ stays iters s valid in
        record {
          last = rest.last;
          moved = rest.moved;
          path = rest.path;
          few = omega (arith, rest.few);
          valid = rest.valid;
          reached = rw (one) rest.reached;
          no_later = rest.no_later;
          sooner = λ h. rest.sooner (has_behind (mover iters s) who schedule stopped h);
        }
  ]

abbrev pub joined : List (List Bool) → List Bool
joined [] = []
joined (round ∷ rounds) = round ++ joined rounds

module _ (iters : ℕ) where
  -- Every schedule of the two processes refines the one sequence of stages: some number of its steps
  -- are the moves of that sequence, from its opening on, and the state reached is that of the stage
  -- these lead to.
  pub run-along :
      (schedule : List Bool)
      → (moved : ℕ) × (moved ≤ length schedule)
        × (run iters schedule begin ≡ view iters (along iters moved opening))
  unfolding view
  run-along schedule =
      let out = schedule-Reaches iters schedule opening tt in
      (out.moved, out.few, out.reached ∙ ap (view iters) out.path)

  run-append :
      (schedule schedule' : List Bool) (s : Exchange)
      → run iters (schedule ++ schedule') s ≡ run iters schedule' (run iters schedule s)
  unfolding run
  run-append [] schedule' s = refl
  run-append (who ∷ schedule) schedule' s = run-append schedule schedule' (step iters who s)

  fair_lem :
      (who : Bool) (round : List Bool)
      → has_app round ≡ true
      → has_sys round ≡ true
      → has who round ≡ true
  fair_lem true round a b = a
  fair_lem false round a b = b

  rank_ended : (s : Stage) → rank iters s ≡ 0 → s ≡ ended
  rank_ended opening e = absurd (omega arith)
  rank_ended greeted e = absurd (omega arith)
  rank_ended answering e = absurd (omega arith)
  rank_ended ready e = absurd (omega arith)
  rank_ended (turn k) e = absurd (omega arith)
  rank_ended (asked k) e = absurd (omega arith)
  rank_ended (seen k) e = absurd (omega arith)
  rank_ended (answered k) e = absurd (omega arith)
  rank_ended ended e = refl

  rounds_end :
      (rounds : List (List Bool)) (s : Stage)
      → IsStage iters s
      → AreFair rounds
      → rank iters s ≤ length rounds
      → run iters (joined rounds) (view iters s) ≡ view iters ended
  unfolding run
  rounds_end [] s valid fair enough = ap (view iters) (rank_ended s (omega arith))
  rounds_end (round ∷ rounds) s valid (a, b, fair) enough =
      let one = schedule-Reaches iters round s valid in
      let sooner = one.sooner (fair_lem (mover iters s) round a b) in
      run-append round (joined rounds) (view iters s)
      ∙ (ap (λ x. run iters (joined rounds) x) one.reached
          ∙ rounds_end rounds one.last one.valid fair (omega (arith, sooner)))

  -- If each process has a step in each of at least `4 * iters + 4` rounds, in whatever order and with
  -- however many polls, then both are behind their loops at the end: neither waits forever, and each
  -- has sent the tag of its last round.
  pub exchange_ends :
      (rounds : List (List Bool))
      → AreFair rounds
      → 4 * iters + 4 ≤ length rounds
      → run iters (joined rounds) begin ≡ record {
        app = AppPoint.finished;
        sys = SysPoint.finished;
        app_tag = some (if iters == 0 then negsuc 1 else pos 1);
        sys_tag = some (if iters == 0 then negsuc 0 else pos (iters - 1));
      }
  unfolding view
  exchange_ends rounds fair enough = rounds_end rounds opening tt fair enough
