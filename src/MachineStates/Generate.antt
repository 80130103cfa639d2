-- ===== src/MachineStates/Generate.antt =====
-- The generator writes every assignment once, in order, and fills its block exactly.
use mathlib.Core.List.{append-nil, append_assoc}
use heartbeats.Base.{
  ℕ, zero, suc, ◌+◌, ◌-◌, ◌^◌, ◌≤◌, ◌<◌, ◌≡◌, refl, ap, ◌∙◌, sym, List, [], ◌∷◌, ◌++◌, map, Option,
  some, true, false, arith, length, store, length-append, ◌==◌, ◌>>=◌, subst, lt→ltb,
}
use heartbeats.MachineStates.{
  MachineState, Generation, emit, set_core, for_each, generate_machine_states_internal,
  create_machine_states, calculate_state_properties,
}
use heartbeats.MachineStates.Power.{ipow_exact}
use heartbeats.MachineStates.Assignments.{
  extend, assignments, length-assignments, length-map, state_of, calculate_state_properties_lem,
}

abbrev states_from : List ℕ → List (List ℕ) → List MachineState
states_from prefix [] = []
states_from prefix (r ∷ rests) = state_of (prefix ++ r) ∷ states_from prefix rests

states_from-append :
    (prefix : List ℕ) (rs ss : List (List ℕ))
    → states_from prefix (rs ++ ss) ≡ states_from prefix rs ++ states_from prefix ss
states_from-append prefix [] ss = refl
states_from-append prefix (r ∷ rs) ss = rw (states_from-append prefix rs ss)

states_from-snoc :
    (prefix : List ℕ) (f : ℕ) (rs : List (List ℕ))
    → states_from (prefix ++ (f ∷ [])) rs ≡ states_from prefix (map (λ r. f ∷ r) rs)
states_from-snoc prefix f [] = refl
states_from-snoc prefix f (r ∷ rs) =
    rw (append_assoc prefix (f ∷ []) r, states_from-snoc prefix f rs)

states_from-nil : (rs : List (List ℕ)) → states_from [] rs ≡ map state_of rs
states_from-nil [] = refl
states_from-nil (r ∷ rs) = rw (states_from-nil rs)

length-states_from :
    (prefix : List ℕ) (rs : List (List ℕ)) → length (states_from prefix rs) ≡ length rs
length-states_from prefix [] = refl
length-states_from prefix (r ∷ rs) = ap suc (length-states_from prefix rs)

store_middle :
    (xs ys : List ℕ) (x y : ℕ) → store (xs ++ (x ∷ ys)) (length xs) y ≡ some (xs ++ (y ∷ ys))
store_middle [] ys x y = refl
store_middle (z ∷ xs) ys x y = rw (store_middle xs ys x y)

-- The scratch state holds `prefix` in its first cores, and `n` more cores.
record Holds (prefix : List ℕ) (n : ℕ) (g : Generation) : Type 0 where
  rest : List ℕ
  cores : g.state.cores ≡ prefix ++ rest
  room : length rest ≡ n

-- A part of the generator has returned, has written `new`, and left the prefix as it was.
record Advances (prefix : List ℕ) (n : ℕ) (g : Generation) (new : List MachineState)
    (out : Option Generation) : Type 0 where
  next : Generation
  returned : out ≡ some next
  written : next.written ≡ g.written ++ new
  holds : Holds prefix n next

-- One part after another.
Advances-append :
    {prefix : List ℕ} {n : ℕ} {g : Generation} {xs ys : List MachineState} {out : Option Generation}
    (k : Generation → Option Generation) (first : Advances prefix n g xs out)
    → Advances prefix n first.next ys (k first.next)
    → Advances prefix n g (xs ++ ys) (out >>= k)
Advances-append {g} {xs} {ys} k first second = record {
  next = second.next;
  returned = rw (first.returned) second.returned;
  written = second.written ∙ ap (λ zs. zs ++ ys) first.written ∙ append_assoc g.written xs ys;
  holds = second.holds;
}

length-Advances :
    {prefix : List ℕ} {n : ℕ} {g : Generation} {xs : List MachineState} {out : Option Generation}
    (first : Advances prefix n g xs out)
    → length first.next.written ≡ length g.written + length xs
length-Advances {g} {xs} first = ap length first.written ∙ length-append g.written xs

module _ (capacity : ℕ) (prefix : List ℕ) (n : ℕ) (rests : List (List ℕ)) where
  -- What one round of the loop does at a frequency `f`.
  abbrev Round : (ℕ → Generation → Option Generation) → Type 0
  Round body =
      (f : ℕ) (g : Generation)
      → Holds prefix n g
      → length g.written + length rests ≤ capacity
      → Advances prefix n g (states_from (prefix ++ (f ∷ [])) rests) (body f g)

  length-extend_cons :
      (f : ℕ) (picks : List ℕ)
      → length (extend (f ∷ picks) rests) ≡ length rests + length (extend picks rests)
  length-extend_cons f picks =
      length-append (map (λ r. f ∷ r) rests) (extend picks rests)
      ∙ ap (λ t. t + length (extend picks rests)) (length-map (λ (r : List ℕ). f ∷ r) rests)

  states_from-extend :
      (f : ℕ) (picks : List ℕ)
      → states_from (prefix ++ (f ∷ [])) rests ++ states_from prefix (extend picks rests)
        ≡ states_from prefix (extend (f ∷ picks) rests)
  states_from-extend f picks =
      ap (λ ys. ys ++ states_from prefix (extend picks rests)) (states_from-snoc prefix f rests)
      ∙ sym (states_from-append prefix (map (λ r. f ∷ r) rests) (extend picks rests))

  for_each-Advances :
      (body : ℕ → Generation → Option Generation)
      → Round body
      → (picks : List ℕ) (g : Generation) → Holds prefix n g
      → length g.written + length (extend picks rests) ≤ capacity
      → Advances prefix n g (states_from prefix (extend picks rests)) (for_each picks body g)
  unfolding for_each
  for_each-Advances body round [] g h room = record {
    next = g;
    returned = refl;
    written = sym (append-nil g.written);
    holds = h;
  }
  for_each-Advances body round (f ∷ picks) g h room =
      let first = round f g h (omega (arith, length-extend_cons f picks)) in
      subst (λ new. Advances prefix n g new (for_each (f ∷ picks) body g))
        (states_from-extend f picks)
        (Advances-append (for_each picks body) first (
          for_each-Advances body round picks first.next first.holds (
            omega (
              arith,
              length-extend_cons f picks,
              length-Advances first,
              length-states_from (prefix ++ (f ∷ [])) rests,
            ))))

-- `state[CORE_IDX(core)] = f` at the end of the prefix.
set_core_lem :
    (prefix : List ℕ) (n f : ℕ) (g : Generation) (rest : List ℕ)
    → g.state.cores ≡ prefix ++ rest
    → length rest ≡ suc n
    → (g' : Generation) × (set_core (length prefix) f g ≡ some g')
      × (g'.written ≡ g.written)
      × Holds (prefix ++ (f ∷ [])) n g'
unfolding set_core
set_core_lem prefix n f g [] e r = absurd (omega arith)
set_core_lem prefix n f g (x ∷ rest) e r = (
  record g { state = record g.state { cores = prefix ++ (f ∷ rest) } },
  rw (e, store_middle prefix rest x f),
  refl,
  record { rest = rest; cores = sym (append_assoc prefix (f ∷ []) rest); room = omega arith },
)

Holds-cores : {prefix : List ℕ} {g : Generation} → Holds prefix 0 g → g.state.cores ≡ prefix
Holds-cores {prefix} {g} h =
    h.cores ∙ (ap (λ ys. prefix ++ ys) (empty h.rest h.room) ∙ append-nil prefix)
  where
    empty : (xs : List ℕ) → length xs ≡ 0 → xs ≡ []
    empty [] e = refl
    empty (x ∷ xs) e = absurd (omega arith)

-- The write of a finished state.
emit-Advances :
    (capacity : ℕ) (prefix : List ℕ) (g : Generation)
    → Holds prefix 0 g
    → length g.written < capacity
    → Advances prefix 0 g
        (states_from prefix ([] ∷ []))
        (emit capacity (record g { state = calculate_state_properties g.state }))
unfolding emit
emit-Advances capacity prefix g h room =
    let finished : calculate_state_properties g.state ≡ state_of (prefix ++ []) =
      calculate_state_properties_lem g.state
      ∙ ap state_of (Holds-cores h ∙ sym (append-nil prefix)) in
    record {
      next = record {
        state = state_of (prefix ++ []);
        written = g.written ++ (state_of (prefix ++ []) ∷ []);
      };
      returned = rw (finished, lt→ltb _ _ room);
      written = refl;
      holds = record { rest = []; cores = refl; room = refl };
    }

-- A round returns to the shorter prefix.
Advances-set_core :
    {prefix : List ℕ} {n : ℕ} {g : Generation} {new : List MachineState} (f : ℕ)
    (k : Generation → Option Generation)
    → Holds prefix (suc n) g
    → ((g' : Generation)
        → g'.written ≡ g.written
        → Holds (prefix ++ (f ∷ [])) n g'
        → Advances (prefix ++ (f ∷ [])) n g' new (k g'))
    → Advances prefix (suc n) g new (set_core (length prefix) f g >>= k)
Advances-set_core {prefix} {n} {g} {new} f k h inner =
    let (g', set, kept, h') = set_core_lem prefix n f g h.rest h.cores h.room in
    let done = inner g' kept h' in
    record {
      next = done.next;
      returned = rw (set) done.returned;
      written = done.written ∙ ap (λ ys. ys ++ new) kept;
      holds = record {
        rest = f ∷ done.holds.rest;
        cores = done.holds.cores ∙ append_assoc prefix (f ∷ []) done.holds.rest;
        room = ap suc done.holds.room;
      };
    }

length-snoc : (xs : List ℕ) (x : ℕ) → length (xs ++ (x ∷ [])) ≡ length xs + 1
length-snoc xs x = length-append xs (x ∷ [])

module _ (capacity core_count : ℕ) (freq_array : List ℕ) where
  abbrev choices : List ℕ
  choices = freq_array ++ (0 ∷ [])

  generate-Advances :
      (fuel rem : ℕ) (prefix : List ℕ) (g : Generation)
      → rem < fuel
      → core_count ≡ length prefix + suc rem
      → Holds prefix (suc rem) g
      → length g.written + length (assignments (suc rem) choices) ≤ capacity
      → Advances prefix
          (suc rem)
          g
          (states_from prefix (assignments (suc rem) choices))
          (generate_machine_states_internal fuel capacity core_count freq_array (length prefix) g)
  unfolding generate_machine_states_internal
  generate-Advances zero rem prefix g lt e h room = elim lt [ ]
  generate-Advances (suc fuel) zero prefix g lt e h room =
      let last : (length prefix == core_count - 1) ≡ true = ground arith in
      for_each-Advances capacity prefix 1 ([] ∷ []) _
        (λ f g h room. rw last (
          Advances-set_core f _ h (λ g' kept h'.
            emit-Advances capacity (prefix ++ (f ∷ [])) g' h' (omega (arith, ap length kept)))))
        choices g h room
  generate-Advances (suc fuel) (suc rem) prefix g lt e h room =
      let inner : (length prefix == core_count - 1) ≡ false = ground arith in
      for_each-Advances capacity prefix (suc (suc rem)) (assignments (suc rem) choices) _
        (λ f g h room. rw inner (
          Advances-set_core f _ h (λ g' kept h'. rw (← length-snoc prefix f) (
            generate-Advances fuel rem (prefix ++ (f ∷ [])) g' (omega arith)
              (omega (arith, length-snoc prefix f)) h' (omega (arith, ap length kept))))))
        choices g h room

-- On at least one core, with `(freq_count + 1) ^ core_count` in the range of `int`, the generator
-- returns. It writes every assignment of an available frequency or 0 to the cores, in
-- lexicographic order, with its speed and power; never outside the block that the count sizes; and
-- the count is their number. What `malloc` left in the scratch state does not matter.
pub create_machine_states_lem :
    (scratch : MachineState) (core_count : ℕ) (freq_array : List ℕ)
    → 0 < core_count
    → length scratch.cores ≡ core_count
    → (length freq_array + 1) ^ core_count < 2 ^ 31
    → create_machine_states scratch core_count freq_array
      ≡ some (
        map state_of (assignments core_count (freq_array ++ (0 ∷ []))),
        (length freq_array + 1) ^ core_count,
      )
unfolding create_machine_states
create_machine_states_lem scratch zero freq_array pos size small = elim pos [ ]
create_machine_states_lem scratch (suc rem) freq_array pos size small =
    let count = (length freq_array + 1) ^ suc rem in
    let number : length (assignments (suc rem) (choices count (suc rem) freq_array)) ≡ count =
      length-assignments (suc rem) (freq_array ++ (0 ∷ []))
      ∙ ap (λ t. t ^ suc rem) (length-append freq_array (0 ∷ [])) in
    let run =
      generate-Advances count (suc rem) freq_array (suc rem) rem []
        (record { state = scratch; written = [] }) (omega arith) (omega arith)
        (record { rest = scratch.cores; cores = refl; room = size }) (omega (arith, number)) in
    rw (ipow_exact (length freq_array + 1) (suc rem) (omega arith), run.returned)
      (ap (λ ys. some (ys, count)) (run.written ∙ states_from-nil _))
