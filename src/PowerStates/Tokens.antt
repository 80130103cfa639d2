-- ===== src/PowerStates/Tokens.antt =====
-- Lines and tokens of a text.
use heartbeats.Base.{
  ℕ, zero, suc, ◌<◌, ◌≡◌, ◌≢◌, refl, false, [], ◌∷◌, ◌++◌, arith, length, ◌||◌, ◌==◌,
}
use heartbeats.PowerStates.{Text, first_line, split_tokens}
use heartbeats.PowerStates.Rows.{AreDigits}

-- No white space.
abbrev pub IsWord : Text → Type 0
IsWord [] = Unit {0}
IsWord (c ∷ text) = (32 < c) × IsWord text

abbrev pub IsLine : Text → Type 0
IsLine [] = Unit {0}
IsLine (c ∷ text) = (c ≢ 10) × IsLine text

pub IsWord-digits : (text : Text) → AreDigits text → IsWord text
IsWord-digits [] h = tt
IsWord-digits (c ∷ text) (low, high, h) = (omega arith, IsWord-digits text h)

pub IsLine-word : (text : Text) → IsWord text → IsLine text
IsLine-word [] h = tt
IsLine-word (c ∷ text) (low, h) = ((λ e. absurd (omega arith)), IsLine-word text h)

pub IsLine-append : (a b : Text) → IsLine a → IsLine b → IsLine (a ++ b)
IsLine-append [] b h k = k
IsLine-append (c ∷ a) b (low, h) k = (low, IsLine-append a b h k)

pub first_line_lem :
    (line rest : Text) (n : ℕ)
    → IsLine line
    → length line < n
    → first_line n (line ++ (10 ∷ rest)) ≡ (line ++ (10 ∷ []), rest)
unfolding first_line
first_line_lem line rest zero h room = absurd (omega arith)
first_line_lem [] rest (suc n) h room = refl
first_line_lem (c ∷ line) rest (suc n) (low, h) room =
    let other : (c == 10) ≡ false = ground arith in
    rw (other, first_line_lem line rest n h (omega arith)) refl

-- What `strsep` does not cut.
abbrev pub IsToken : Text → Type 0
IsToken [] = Unit {0}
IsToken (c ∷ text) = ((c == 32 || c == 9) ≡ false) × IsToken text

pub IsToken-word : (text : Text) → IsWord text → IsToken text
IsToken-word [] h = tt
IsToken-word (c ∷ text) (low, h) = (ground arith, IsToken-word text h)

pub IsToken-append : (a b : Text) → IsToken a → IsToken b → IsToken (a ++ b)
IsToken-append [] b h k = k
IsToken-append (c ∷ a) b (low, h) k = (low, IsToken-append a b h k)

pub split_token : (token : Text) → IsToken token → split_tokens token ≡ token ∷ []
unfolding split_tokens
split_token [] h = refl
split_token (c ∷ token) (other, h) = rw (other, split_token token h) refl

pub split_tab :
    (token rest : Text)
    → IsToken token
    → split_tokens (token ++ (9 ∷ rest)) ≡ token ∷ split_tokens rest
unfolding split_tokens
split_tab [] rest h = refl
split_tab (c ∷ token) rest (other, h) = rw (other, split_tab token rest h) refl
