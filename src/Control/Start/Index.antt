-- ===== src/Control/Start/Index.antt =====
-- What `get_freq_index` finds.
use heartbeats.Base.{
  ℕ, suc, ◌+◌, ◌<◌, ◌≡◌, ◌≢◌, refl, ap, ◌∙◌, ◌⊎◌, inl, inr, some, List, [], ◌∷◌, arith, get_elem?,
  get_elem?_cons, ◌==◌, Bool-cases, ℤ, pos, negsuc,
}
use heartbeats.Control.Start.{get_freq_index, index_from}

-- The first place of `freq`, from `i` on, or -1 where it has none.
abbrev pub IsIndex : ℕ → List ℕ → ℕ → ℤ → Type 0
IsIndex i freqs freq found =
    ((k : ℕ) × (found ≡ pos (i + k))
      × (get_elem? freqs k ≡ some freq)
      × ((j : ℕ) (f : ℕ) → j < k → get_elem? freqs j ≡ some f → f ≢ freq))
    ⊎ ((found ≡ negsuc 0) × ((j : ℕ) (f : ℕ) → get_elem? freqs j ≡ some f → f ≢ freq))

index_from-IsIndex :
    (i : ℕ) (freqs : List ℕ) (freq : ℕ) → IsIndex i freqs freq (index_from i freqs freq)
unfolding index_from
index_from-IsIndex i [] freq = inr (refl, λ j f e. absurd (ground arith))
index_from-IsIndex i (first ∷ freqs) freq = elim (Bool-cases (first == freq)) [
  | inl here ↦
      let same : first ≡ freq = ground arith in
      inl (0, ground arith, ap some same, λ j f h e. absurd (omega arith))
  | inr there ↦
      let differ : first ≢ freq = ground arith in
      let skip : index_from i (first ∷ freqs) freq ≡ index_from (suc i) freqs freq =
        rw (index_from, there) refl in
      elim (index_from-IsIndex (suc i) freqs freq) [
        | inl (k, found, e, before) ↦
            let shift : pos (suc i + k) ≡ pos (i + suc k) = ap pos (omega arith) in
            inl (
              suc k,
              skip ∙ found ∙ shift,
              e,
              λ j f h e'. elim (get_elem?_cons first freqs j f e') [
                | inl (head, equal) ↦ λ e2. differ (equal ∙ e2)
                | inr (j', tail, e3) ↦ before j' f (omega arith) e3
              ],
            )
        | inr (found, none_there) ↦ inr (
          skip ∙ found,
          λ j f e'. elim (get_elem?_cons first freqs j f e') [
            | inl (head, equal) ↦ λ e2. differ (equal ∙ e2)
            | inr (j', tail, e3) ↦ none_there j' f e3
          ],
        )
      ]
]

-- `get_freq_index` returns the first index of the frequency in the array, or -1 exactly where the
-- array does not have it.
pub get_freq_index-IsIndex :
    (freqs : List ℕ) (freq : ℕ) → IsIndex 0 freqs freq (get_freq_index freqs freq)
unfolding get_freq_index
get_freq_index-IsIndex freqs freq = index_from-IsIndex 0 freqs freq
