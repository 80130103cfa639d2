-- ===== src/Control/Start/Controls.antt =====
-- What `get_actuators` finds in the table that `main` builds.
use heartbeats.Base.{
  ℕ, zero, suc, ◌+◌, ◌≤◌, ◌<◌, ◌≡◌, ◌≢◌, refl, sym, ap, ◌∙◌, Option, some, List, [], ◌∷◌, ◌++◌,
  arith, length, get_elem?, set, get_elem?-set_self, get_elem?-set_ne, length-set, store-eq-set,
  store_fault, ℤ, subst, inl, inr, order_cases,
}
use heartbeats.Control.Outcome.{ok, fault, ◌>>=◌}
use heartbeats.Control.Actuators.{
  Actuator, Found, look_at, look_from, get_actuators, core_and_singles, nothing_found,
}
use heartbeats.Control.Start.{
  single_control, singles_from, main_controls, global_control, core_control,
}

-- The cells after the single frequencies from `i`, of which there are `n`, have been found.
record Fills (cells : List (Option ℕ)) (i n : ℕ) (cells' : List (Option ℕ)) : Type 0 where
  room : length cells' ≡ 16
  before : (j : ℕ) → j < i → get_elem? cells' j ≡ get_elem? cells j
  filled : (j : ℕ) → i ≤ j → j < i + n → get_elem? cells' j ≡ some (some (suc j))

look_single :
    (i : ℕ) (found : Found)
    → i < length found.freq_acts
    → length found.freq_acts ≡ 16
    → look_at core_and_singles (suc i) (single_control i) found
      ≡ ok (record found { freq_acts = set found.freq_acts i (some (suc i)) })
unfolding look_at
look_single i found h room = let e = store-eq-set found.freq_acts i (some (suc i)) h in ground arith

singles-Fills :
    (n i : ℕ) (found : Found) (acts : List Actuator)
    → i + n ≤ 16
    → length found.freq_acts ≡ 16
    → (cells : List (Option ℕ)) × (look_from core_and_singles
          (suc i)
          (singles_from n i ++ acts)
          found
        ≡ look_from core_and_singles (suc (i + n)) acts (record found { freq_acts = cells }))
      × Fills found.freq_acts i n cells
unfolding look_from singles_from
singles-Fills zero i found acts h room =
    let shift : i ≡ i + 0 = omega arith in
    (
      found.freq_acts,
      ap (λ k. look_from core_and_singles (suc k) acts found) shift,
      record { room = room; before = λ j p. refl; filled = λ j low high. absurd (omega arith) },
    )
singles-Fills (suc n) i found acts h room =
    let cells = set found.freq_acts i (some (suc i)) in
    let now = look_single i found (omega (arith, room)) room in
    let (cells', e, fills) =
      singles-Fills n (suc i) (record found { freq_acts = cells }) acts (omega arith)
        (length-set found.freq_acts i (some (suc i)) ∙ room) in
    let shift : suc i + n ≡ i + suc n = omega arith in
    (
      cells',
      ap (λ out. out >>= look_from core_and_singles (suc (suc i)) (singles_from n (suc i) ++ acts))
            now
          ∙ (e
              ∙ ap
                  (λ k.
                    look_from core_and_singles (suc k) acts (record found { freq_acts = cells' }))
                  shift),
      record {
        room = fills.room;
        before = λ j p.
            let differ : i ≢ j = λ same. absurd (omega arith) in
            fills.before j (omega arith)
            ∙ get_elem?-set_ne found.freq_acts i j (some (suc i)) differ;
        filled = λ j low high. elim (order_cases i j) [
          | inl after ↦ fills.filled j after (omega arith)
          | inr (inl here) ↦
              subst (λ k. get_elem? cells' k ≡ some (some (suc k))) here
                (fills.before i (omega arith)
                  ∙ get_elem?-set_self found.freq_acts i (some (suc i)) (omega (arith, room)))
          | inr (inr under) ↦ absurd (omega arith)
        ];
      },
    )

look_single-fault :
    (found : Found)
    → length found.freq_acts ≡ 16
    → look_at core_and_singles 17 (single_control 16) found ≡ fault
unfolding look_at
look_single-fault found room =
    let e = store_fault found.freq_acts 16 (some 17) (omega (arith, room)) in ground arith

singles-fault :
    (n i : ℕ) (found : Found) (acts : List Actuator)
    → i ≤ 16
    → 16 < i + n
    → length found.freq_acts ≡ 16
    → look_from core_and_singles (suc i) (singles_from n i ++ acts) found ≡ fault
unfolding look_from singles_from
singles-fault zero i found acts low many room = absurd (omega arith)
singles-fault (suc n) i found acts low many room = elim (order_cases i 16) [
  | inl more ↦
      let cells = set found.freq_acts i (some (suc i)) in
      ap (λ out. out >>= look_from core_and_singles (suc (suc i)) (singles_from n (suc i) ++ acts))
        (look_single i found (omega (arith, room)) room)
      ∙ singles-fault n (suc i) (record found { freq_acts = cells }) acts more (omega arith)
          (length-set found.freq_acts i (some (suc i)) ∙ room)
  | inr (inl last) ↦
      ap (λ out. out >>= look_from core_and_singles (suc (suc i)) (singles_from n (suc i) ++ acts))
        (subst (λ k. look_at core_and_singles (suc k) (single_control k) found ≡ fault) (sym last)
          (look_single-fault found room))
  | inr (inr over) ↦ absurd (omega arith)
]

-- With at most 16 cores, `get_actuators` finds in the table of `main` the core actuator behind all
-- others and, for each core, the frequency actuator of that core. With more than 16 cores the same
-- call is a fault.
pub get_actuators-main_controls :
    (cores : ℕ) (app : ℤ)
    → (cores ≤ 16
        → (found : Found) × (get_actuators core_and_singles (main_controls cores app) ≡ ok found)
          × (found.core_act ≡ some (cores + 2))
          × ((i : ℕ) → i < cores → get_elem? found.freq_acts i ≡ some (some (suc i))))
      × (16 < cores → get_actuators core_and_singles (main_controls cores app) ≡ fault)
unfolding get_actuators main_controls look_from look_at
get_actuators-main_controls cores app = (
  λ few.
      let (cells, e, fills) =
        singles-Fills cores 0 nothing_found (global_control ∷ core_control app ∷ []) (omega arith)
          refl in
      let shift : suc (suc (0 + cores)) ≡ cores + 2 = omega arith in
      (
        record nothing_found { core_act = some (cores + 2); freq_acts = cells },
        e ∙ ap (λ k. ok (record nothing_found { core_act = some k; freq_acts = cells })) shift,
        refl,
        λ i low. fills.filled i (omega arith) (omega arith),
      ),
  λ many.
      singles-fault cores 0 nothing_found (global_control ∷ core_control app ∷ []) (omega arith)
        (omega arith) refl,
)
