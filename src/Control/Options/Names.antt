-- ===== src/Control/Options/Names.antt =====
-- The names of the decision functions, and the options that are refused.
use Prim.Native.String.{String}
use text.Mathlib.Text.{◌==◌}
use text.Mathlib.TextEquality.{eq_iff}
use mathlib.Core.Option.{some-injective}
use heartbeats.Base.{
  ◌≡◌, refl, Option, some, arith, ◌↔◌, Bool-cases, if◌then◌else◌, ap, ◌∙◌, inl, inr,
}
use heartbeats.Control.Options.{
  DecisionFunction, decision_named, dummy_control, core_heuristics, freq_heuristics,
  uncoordinated_heuristics, step_heuristics, core_p_controller, machine_state_p_controller,
  machine_state_pseudo_pi_controller, machine_state_histeresis_p_controller,
  machine_state_histeresis_pseudo_pi_controller,
}

-- The name that the source gives to the function.
abbrev pub name_of : DecisionFunction → String
name_of dummy_control = "dummy_control"
name_of core_heuristics = "core_heuristics"
name_of freq_heuristics = "freq_heuristics"
name_of uncoordinated_heuristics = "uncoordinated_heuristics"
name_of step_heuristics = "step_heuristics"
name_of core_p_controller = "core_p_controller"
name_of machine_state_p_controller = "machine_state_p_controller"
name_of machine_state_pseudo_pi_controller = "machine_state_pseudo_pi_controller"
name_of machine_state_histeresis_p_controller = "machine_state_histeresis_p_controller"
name_of machine_state_histeresis_pseudo_pi_controller =
    "machine_state_histeresis_pseudo_pi_controller"

named-name_of : (f : DecisionFunction) → decision_named (name_of f) ≡ some f
unfolding decision_named
named-name_of dummy_control = refl
named-name_of core_heuristics = refl
named-name_of freq_heuristics = refl
named-name_of uncoordinated_heuristics = refl
named-name_of step_heuristics = refl
named-name_of core_p_controller = refl
named-name_of machine_state_p_controller = refl
named-name_of machine_state_pseudo_pi_controller = refl
named-name_of machine_state_histeresis_p_controller = refl
named-name_of machine_state_histeresis_pseudo_pi_controller = refl

-- One comparison of the chain.
compared :
    (name : String) (g f : DecisionFunction) (rest : Option DecisionFunction)
    → (rest ≡ some f → name ≡ name_of f)
    → (if name == name_of g then some g else rest) ≡ some f
    → name ≡ name_of f
compared name g f rest later e = elim (Bool-cases (name == name_of g)) [
  | inl same ↦
      let here : some g ≡ some f = ground arith in
      (eq_iff name (name_of g)).0 same ∙ ap name_of (some-injective g f here)
  | inr other ↦ later (ground arith)
]

-- The argument of -d chooses a function exactly where it is the name of that function.
pub decision_named_iff :
    (name : String) (f : DecisionFunction) → (decision_named name ≡ some f) ↔ (name ≡ name_of f)
unfolding decision_named
decision_named_iff name f = (
  compared name dummy_control f _ (
      compared name core_heuristics f _ (
        compared name freq_heuristics f _ (
          compared name uncoordinated_heuristics f _ (
            compared name step_heuristics f _ (
              compared name core_p_controller f _ (
                compared name machine_state_p_controller f _ (
                  compared name machine_state_pseudo_pi_controller f _ (
                    compared name machine_state_histeresis_p_controller f _ (
                      compared name machine_state_histeresis_pseudo_pi_controller f _
                        (λ e. absurd (ground arith))))))))))),
  λ e. ap decision_named e ∙ named-name_of f,
)
