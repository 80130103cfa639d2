-- ===== src/FrequencyTable/Laws.antt =====
-- The array has the list, and a frequency of the list is found there.
use mathlib.Core.List.{append_assoc, append-nil}
use heartbeats.Base.{
  ℕ, suc, zero, ◌+◌, ◌≤◌, ◌<◌, ◌≡◌, refl, sym, ap, subst, ◌∙◌, true, length-append, Bool-cases,
  ==_iff, inl, inr, some, List, [], ◌∷◌, ◌++◌, arith, length, take, set, leb, le→leb, ◌==◌,
  get_elem?, store-eq-set, length-set, take-set, take_all,
}
use heartbeats.FrequencyTable.{
  get_available_freqs_size, store_from, store_available_freqs, get_init_frequency,
}

pub get_available_freqs_size_lem : (freqs : List ℕ) → get_available_freqs_size freqs ≡ length freqs
unfolding get_available_freqs_size
get_available_freqs_size_lem [] = refl
get_available_freqs_size_lem (freq ∷ freqs) = ap suc (get_available_freqs_size_lem freqs)

store_from_lem :
    (freqs done block : List ℕ) (count : ℕ)
    → take (length done) block ≡ done
    → length block ≡ length done + length freqs
    → length block ≤ count
    → store_from (length done) freqs block count ≡ some (done ++ freqs)
unfolding store_from
store_from_lem [] done block count start room few =
    ap some (sym (take_all (length done) block (omega arith)) ∙ (start ∙ sym (append-nil done)))
store_from_lem (f ∷ freqs) done block count start room few =
    let more : leb (length done) count ≡ true = le→leb (length done) count (omega arith) in
    let inside : length done < length block = omega arith in
    let grown : length (done ++ (f ∷ [])) ≡ suc (length done) =
      length-append done (f ∷ []) ∙ (omega arith) in
    let kept = length-set block (length done) f in
    let rest =
      store_from_lem freqs (done ++ (f ∷ [])) (set block (length done) f) count
        (ap (λ n. take n (set block (length done) f)) grown
          ∙ (take-set (length done) block f inside ∙ ap (λ xs. xs ++ (f ∷ [])) start))
        (omega arith) (omega arith) in
    rw (more, store-eq-set block (length done) f inside)
      (subst
        (λ n. store_from n freqs (set block (length done) f) count ≡ some (done ++ (f ∷ freqs)))
        grown (rest ∙ ap some (append_assoc done (f ∷ []) freqs)))

-- Into any block of as many places as `get_available_freqs_size` says, `store_available_freqs` stores
-- exactly the list. (The one pass more that its test allows is never made.)
pub store_available_freqs_lem :
    (freqs block : List ℕ)
    → length block ≡ get_available_freqs_size freqs
    → store_available_freqs freqs block (get_available_freqs_size freqs) ≡ some freqs
unfolding store_available_freqs
store_available_freqs_lem freqs block room =
    let size = get_available_freqs_size_lem freqs in
    store_from_lem freqs [] block (get_available_freqs_size freqs) refl (omega arith) (omega arith)

-- A frequency that the array has, at whatever index `k`, is found by `get_init_frequency` at an index
-- that has it too, and that does not come after `k`.
pub get_init_frequency_finds :
    (freqs : List ℕ) (freq k : ℕ)
    → get_elem? freqs k ≡ some freq
    → (i : ℕ) × (get_init_frequency freqs freq ≡ some i) × (get_elem? freqs i ≡ some freq) × (i ≤ k)
unfolding get_init_frequency
get_init_frequency_finds [] freq k e = absurd (ground arith)
get_init_frequency_finds (f ∷ freqs) freq zero e =
    let same : (f == freq) ≡ true = ground (arith, e) in (0, rw (same) refl, e, omega arith)
get_init_frequency_finds (f ∷ freqs) freq (suc k) e = elim (Bool-cases (f == freq)) [
  | inl same ↦ (0, rw (same) refl, ap some ((==_iff f freq).0 same), omega arith)
  | inr other ↦
      let (i, found, there, first) = get_init_frequency_finds freqs freq k e in
      (suc i, rw (other, found) refl, there, omega arith)
]
