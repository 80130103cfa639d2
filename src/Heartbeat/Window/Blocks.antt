-- ===== src/Heartbeat/Window/Blocks.antt =====
-- A block that is filled from its start and then overwritten round and round, as the list of what it holds,
-- the oldest first.
use mathlib.Core.List.{append-nil, append_assoc}
use mathlib.Core.Option.{some-injective}
use heartbeats.Base.{
  length-take, ℕ, zero, suc, ◌+◌, ◌-◌, dec_lt, ◌≤◌, ◌<◌, ◌≡◌, refl, ap, ◌∙◌, sym, true, false, some,
  List, [], ◌∷◌, ◌++◌, arith, ltb, if◌then◌else◌, length, get_elem?, set, take, drop, ℤ, pos,
  get_elem?-some, length-set, take-set, take_all, length-append,
}

abbrev pub first : List ℤ → ℤ
first [] = pos 0
first (x ∷ xs) = x

abbrev pub tail : List ℤ → List ℤ
tail [] = []
tail (x ∷ xs) = xs

-- One interval more behind `xs`, of which at most `size` stay.
abbrev pub pushed : ℕ → List ℤ → ℤ → List ℤ
pushed size xs time = if ltb (length xs) size then xs ++ (time ∷ []) else tail xs ++ (time ∷ [])

-- The last `n` of a list, or all of them.
abbrev pub latest : ℕ → List ℤ → List ℤ
latest n xs = drop (length xs - n) xs

module _ {A : Type 0} where
  length-drop-take : (n : ℕ) (xs : List A) → length (drop n xs) + length (take n xs) ≡ length xs
  length-drop-take zero xs = omega arith
  length-drop-take (suc n) [] = refl
  length-drop-take (suc n) (x ∷ xs) = omega (arith, length-drop-take n xs)

  pub drop_all : (n : ℕ) (xs : List A) → length xs ≤ n → drop n xs ≡ []
  drop_all zero [] h = refl
  drop_all zero (x ∷ xs) h = elim h [ ]
  drop_all (suc n) [] h = refl
  drop_all (suc n) (x ∷ xs) h = drop_all n xs (omega arith)

  pub drop-cell :
      (n : ℕ) (xs : List A) (x : A) → get_elem? xs n ≡ some x → drop n xs ≡ x ∷ drop (suc n) xs
  drop-cell n [] x e = absurd (ground arith)
  drop-cell zero (y ∷ xs) x e = ap (λ z. z ∷ xs) (some-injective y x e)
  drop-cell (suc n) (y ∷ xs) x e = drop-cell n xs x e

  pub drop-set : (n : ℕ) (xs : List A) (v : A) → drop (suc n) (set xs n v) ≡ drop (suc n) xs
  drop-set n [] v = refl
  drop-set zero (x ∷ xs) v = refl
  drop-set (suc n) (x ∷ xs) v = drop-set n xs v

  -- A write to the last cell ends the block with it.
  pub set-last :
      (n : ℕ) (xs : List A) (v : A) → suc n ≡ length xs → set xs n v ++ [] ≡ take n xs ++ (v ∷ [])
  set-last n xs v e =
      append-nil (set xs n v)
      ∙ (sym (take_all (suc n) (set xs n v) (omega (arith, length-set xs n v)))
          ∙ take-set n xs v (omega arith))

drop-append : (n : ℕ) (xs ys : List ℤ) → n ≤ length xs → drop n (xs ++ ys) ≡ drop n xs ++ ys
drop-append zero xs ys h = refl
drop-append (suc n) [] ys h = elim h [ ]
drop-append (suc n) (x ∷ xs) ys h = drop-append n xs ys (omega arith)

tail-drop : (n : ℕ) (xs : List ℤ) → tail (drop n xs) ≡ drop (suc n) xs
tail-drop zero [] = refl
tail-drop zero (x ∷ xs) = refl
tail-drop (suc n) [] = refl
tail-drop (suc n) (x ∷ xs) = tail-drop n xs

-- One more behind the last `size` gives the last `size` of one more.
pub pushed-latest :
    (size : ℕ) (xs : List ℤ) (time : ℤ)
    → 0 < size
    → pushed size (latest size xs) time ≡ latest size (xs ++ (time ∷ []))
pushed-latest size xs time some_room =
    let longer = length-append xs (time ∷ []) in
    let cut = length-drop-take (length xs - size) xs in
    let head = length-take (length xs - size) xs (omega arith) in
    elim (dec_lt (length xs) size) [
      | yes few ↦
          let none_now : length xs - size ≡ 0 = omega arith in
          let none_then : length (xs ++ (time ∷ [])) - size ≡ 0 = omega (arith, longer) in
          let low : ltb (length xs) size ≡ true = ground arith in rw (none_now, none_then, low) refl
      | no many ↦
          let full : ltb (length (latest size xs)) size ≡ false = ground (arith, cut, head) in
          let one_more : length (xs ++ (time ∷ [])) - size ≡ suc (length xs - size) =
            omega (arith, longer) in
          rw (full, one_more)
            (ap (λ ys. ys ++ (time ∷ [])) (tail-drop (length xs - size) xs)
              ∙ sym (drop-append (suc (length xs - size)) xs (time ∷ []) (omega arith)))
    ]

module _ (w : List ℤ) (i size : ℕ) (time : ℤ) (room : length w ≡ size) (inside : i < size) where
  pub filled : pushed size (take i w) time ≡ take i w ++ (time ∷ [])
  filled =
      let low : ltb (length (take i w)) size ≡ true =
        ground (arith, length-take i w (omega arith)) in
      rw low refl

  -- Without the oldest, and with the new interval.
  pub slid : pushed size (drop i w ++ take i w) time ≡ drop (suc i) w ++ (take i w ++ (time ∷ []))
  slid =
      let (x, e) = get_elem?-some w i (omega arith) in
      let full : ltb (length (drop i w ++ take i w)) size ≡ false =
        ground (arith, length-append (drop i w) (take i w), length-drop-take i w) in
      rw full (
        ap (λ ys. tail (ys ++ take i w) ++ (time ∷ [])) (drop-cell i w x e)
        ∙ append_assoc (drop (suc i) w) (take i w) (time ∷ []))
