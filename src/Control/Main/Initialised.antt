-- ===== src/Control/Main/Initialised.antt =====
-- What the initialisation of the actuators comes to.
use mathlib.Core.List.{append_assoc}
use heartbeats.Base.{
  ℕ, zero, suc, ◌-◌, ◌≡◌, refl, ap, ap₂, ◌∙◌, sym, Bool, true, false, ◌&&◌, some, List, [], ◌∷◌,
  ◌++◌, arith, if◌then◌else◌, length, get_elem?, set, ℤ, pos, eqb_ℤ, Bool-cases, inl, inr,
  length-append,
}
use heartbeats.Control.Outcome.{Outcome, ok, exit, ◌>>=◌}
use heartbeats.Control.Actuators.{
  Kind, Actuator, core_count, global_freq, single_freq, machine_spd, is_machine,
}
use heartbeats.Control.Speed.Init.{machine_speed_init}
use heartbeats.Control.Start.{
  core_init, single_freq_init, global_freq_init, main_controls, singles_from, global_control,
  core_control, speed_control,
}
use heartbeats.Control.Main.{Machine, init_at, init_from, init_controls}

get_elem?-middle :
    {A : Type 0} (xs : List A) (y : A) (ys : List A)
    → get_elem? (xs ++ (y ∷ ys)) (length xs) ≡ some y
get_elem?-middle [] y ys = refl
get_elem?-middle (x ∷ xs) y ys = get_elem?-middle xs y ys

set-middle :
    {A : Type 0} (xs : List A) (y z : A) (ys : List A)
    → set (xs ++ (y ∷ ys)) (length xs) z ≡ xs ++ (z ∷ ys)
set-middle [] y z ys = refl
set-middle (x ∷ xs) y z ys = ap (λ t. x ∷ t) (set-middle xs y z ys)

module _ (machine : Machine) (cores : ℕ) where
  -- An actuator of a core or of the frequencies after its initialisation, and the code.
  abbrev pub initialised : Actuator → Actuator × ℤ
  initialised act = elim act.id [
    | core_count ↦ core_init machine.affinity cores act
    | single_freq ↦ single_freq_init (machine.cpufreq act.core) machine.freq_block act
    | global_freq ↦ global_freq_init (machine.cpufreq (pos 0)) machine.freq_block act
    | machine_spd ↦ (act, pos 0)
  ]

  abbrev pub all_succeed : List Actuator → Bool
  all_succeed [] = true
  all_succeed (act ∷ acts) = eqb_ℤ (initialised act).1 (pos 0) && all_succeed acts

  abbrev pub results : List Actuator → List Actuator
  results [] = []
  results (act ∷ acts) = (initialised act).0 ∷ results acts

  abbrev AreOthers : List Actuator → Type 0
  AreOthers [] = Unit {0}
  AreOthers (act ∷ acts) = (is_machine act.id ≡ false) × AreOthers acts

  -- What `init_at` gives of the table `done ++ (act ∷ acts)` at the index of `act`.
  abbrev at_act : List Actuator → Actuator → List Actuator → Outcome (List Actuator × ℤ)
  at_act done act acts = init_at machine cores (length done) (done ++ (act ∷ acts))

  abbrev with_code : List Actuator → Actuator × ℤ → List Actuator → Outcome (List Actuator × ℤ)
  with_code done (act, err) acts = ok (done ++ (act ∷ acts), err)

  put :
      (done : List Actuator) (act : Actuator) (out : Actuator × ℤ) (acts : List Actuator)
      → ok (set (done ++ (act ∷ acts)) (length done) out.0, out.1) ≡ with_code done out acts
  put done act out acts = ap (λ t. ok (t, out.1)) (set-middle done act out.0 acts)

  init_at-initialised :
      (done : List Actuator) (act : Actuator) (acts : List Actuator) (k : Kind)
      → act.id ≡ k
      → is_machine k ≡ false
      → at_act done act acts ≡ with_code done (initialised act) acts
  unfolding init_at
  init_at-initialised done act acts core_count e other =
      simp (get_elem?-middle done act acts, initialised, e)
        (put done act (core_init machine.affinity cores act) acts)
  init_at-initialised done act acts single_freq e other =
      simp (get_elem?-middle done act acts, initialised, e)
        (put done act (single_freq_init (machine.cpufreq act.core) machine.freq_block act) acts)
  init_at-initialised done act acts global_freq e other =
      simp (get_elem?-middle done act acts, initialised, e)
        (put done act (global_freq_init (machine.cpufreq (pos 0)) machine.freq_block act) acts)
  init_at-initialised done act acts machine_spd e other = absurd (ground arith)

  -- The loop of `main` initialises the actuators behind `done` one after the other, up to the
  -- first that fails.
  init_from-results :
      (acts done : List Actuator)
      → AreOthers acts
      → init_from machine cores (length acts) (length done) (done ++ acts)
        ≡ (if all_succeed acts then ok (done ++ results acts) else exit 1)
  unfolding init_from
  init_from-results [] done others = refl
  init_from-results (act ∷ acts) done (other, others) =
      let now = init_at-initialised done act acts act.id refl other in
      let act' = (initialised act).0 in
      elim (Bool-cases (eqb_ℤ (initialised act).1 (pos 0))) [
        | inl fine ↦
            let count : length (done ++ (act' ∷ [])) ≡ suc (length done) =
              omega (arith, length-append done (act' ∷ [])) in
            let rest = init_from-results acts (done ++ (act' ∷ [])) others in
            rw (now, fine)
              (ap₂ (init_from machine cores (length acts)) (sym count)
                  (sym (append_assoc done (act' ∷ []) acts))
                ∙ (rest
                    ∙ ap (λ ys. if all_succeed acts then ok ys else exit 1)
                        (append_assoc done (act' ∷ []) (results acts))))
        | inr failed ↦ rw (now, failed) refl
      ]

  -- The entries of the table of `main` behind the machine speed actuator.
  abbrev pub others_of : ℤ → List Actuator
  others_of app = singles_from cores 0 ++ (global_control ∷ core_control app ∷ [])

  singles-AreOthers :
      (n i : ℕ) (acts : List Actuator) → AreOthers acts → AreOthers (singles_from n i ++ acts)
  unfolding singles_from
  singles-AreOthers zero i acts others = others
  singles-AreOthers (suc n) i acts others = (refl, singles-AreOthers n (suc i) acts others)

  -- On the table that `main` builds, the actuators of the cores and of the frequencies are
  -- initialised once each. If all of them succeed, the machine speed actuator is initialised
  -- last, on the table of what has become of them: the table is ready where that returns 0, the
  -- service ends with the code 1 where it returns another code, and it faults where that faults. If
  -- one of the others fails, the service ends with the code 1, before the machine speed actuator
  -- has been touched.
  pub init_controls-main_controls :
      (app : ℤ)
      → init_controls machine cores (main_controls cores app) ≡ (
          if all_succeed (others_of app)
          then (machine_speed_init machine.qsort machine.scratch cores
                (some 0)
                (speed_control app ∷ results (others_of app))
              >>= λ out. if eqb_ℤ out.1 (pos 0) then ok out.0 else exit 1)
          else exit 1)
  unfolding init_controls main_controls init_at
  init_controls-main_controls app =
      let loop =
        init_from-results (others_of app) (speed_control app ∷ [])
          (singles-AreOthers cores 0 (global_control ∷ core_control app ∷ []) (refl, (refl, tt))) in
      let less : length (main_controls cores app) - 1 ≡ length (others_of app) = omega arith in
      elim (Bool-cases (all_succeed (others_of app))) [
        | inl fine ↦ rw (less, loop, fine) refl
        | inr failed ↦ rw (less, loop, failed) refl
      ]
