-- ===== src/Scalar/Natural/Value.antt =====
-- The number that a list of words stands for, and when the words are its digits (the invariant of
-- the class `Natural` of src/sema/scalar_constants.cc).
use c_cloth.Base.{ℕ, ◌+◌, ◌*◌, ◌/◌, ◌%◌, ◌^◌, ◌<◌, ◌≡◌, refl, [], ◌∷◌, All, arith}
use c_cloth.Scalar.Natural.{Words, from_u64, cons_trimmed, trim}

unfoldable pub to_ℕ : Words → ℕ
to_ℕ [] = 0
to_ℕ (w ∷ ws) = w + 2 ^ 32 * to_ℕ ws

-- Each word has 32 bits.
abbrev pub Fits : Words → Type 0
Fits = All (λ w. w < 2 ^ 32)

-- The last word is not zero.
abbrev pub Ends : Words → Type 0
Ends [] = Unit
Ends (w ∷ []) = 0 < w
Ends (w ∷ v ∷ ws) = Ends (v ∷ ws)

pub record IsNatural (ws : Words) : Type 0 where
  pub fits : Fits ws
  pub ends : Ends ws

pub Ends-cons : (w : ℕ) (ws : Words) → Ends ws → (ws ≡ [] → 0 < w) → Ends (w ∷ ws)
Ends-cons w [] h p = p refl
Ends-cons w (v ∷ ws) h p = h

pub Ends-tail : (w : ℕ) (ws : Words) → Ends (w ∷ ws) → Ends ws
Ends-tail w [] h = tt
Ends-tail w (v ∷ ws) h = h

pub to_ℕ_pos : (w : ℕ) (ws : Words) → Ends (w ∷ ws) → 0 < to_ℕ (w ∷ ws)
unfolding to_ℕ
to_ℕ_pos w [] h = omega arith
to_ℕ_pos w (v ∷ ws) h = omega (arith, to_ℕ_pos v ws h)

-- Zero has no words.
pub nil_of_zero : (ws : Words) → Ends ws → to_ℕ ws ≡ 0 → ws ≡ []
nil_of_zero [] h e = refl
nil_of_zero (w ∷ ws) h e = absurd (omega (arith, to_ℕ_pos w ws h))

pub from_u64_value : (v : ℕ) → v < 2 ^ 64 → (to_ℕ (from_u64 v) ≡ v) × IsNatural (from_u64 v)
unfolding to_ℕ from_u64
from_u64_value v h = ground arith

trim_value : (ws : Words) → to_ℕ (trim ws) ≡ to_ℕ ws
unfolding to_ℕ trim
trim_value [] = refl
trim_value (w ∷ ws) = step (trim ws) (trim_value ws)
  where
    step : (t : Words) → to_ℕ t ≡ to_ℕ ws → to_ℕ (cons_trimmed w t) ≡ w + 2 ^ 32 * to_ℕ ws
    step [] e = ground arith
    step (v ∷ t) e = ground arith

trim-IsNatural : (ws : Words) → Fits ws → IsNatural (trim ws)
unfolding trim
trim-IsNatural [] h = record { fits = tt; ends = tt }
trim-IsNatural (w ∷ ws) h = step (trim ws) (trim-IsNatural ws h.1)
  where
    step : (t : Words) → IsNatural t → IsNatural (cons_trimmed w t)
    step [] n = ground arith
    step (v ∷ t) n = record { fits = (h.0, n.fits); ends = n.ends }

-- Dropping the zero words at the end keeps the number and makes the words its digits.
pub trim_lem : (ws : Words) → Fits ws → (to_ℕ (trim ws) ≡ to_ℕ ws) × IsNatural (trim ws)
trim_lem ws h = (trim_value ws, trim-IsNatural ws h)

-- One word of a sum: below it stands what is left of `v` and of the words above, whose number is `m`.
pub Ends-carry :
    (v m : ℕ) (ws : Words)
    → Ends ws
    → to_ℕ ws ≡ v / 2 ^ 32 + m
    → (m ≡ 0 → 0 < v)
    → Ends (v % 2 ^ 32 ∷ ws)
unfolding to_ℕ
Ends-carry v m [] h e p = omega arith
Ends-carry v m (w ∷ ws) h e p = h

pub IsNatural-tail : (w : ℕ) (ws : Words) → IsNatural (w ∷ ws) → IsNatural ws
IsNatural-tail w ws h = record { fits = h.fits.1; ends = Ends-tail w ws h.ends }
