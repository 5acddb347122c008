-- ===== src/Scalar/Natural/Shift.antt =====
-- `shift` of src/sema/scalar_constants.cc multiplies by a power of two.
use Prim.Native.Nat.{bit_or}
use mathlib.Core.Path.{subst}
use c_cloth.Base.Order.{pow-add}
use native.Mathlib.Nat.{pow-le-pow_right, one-le-pow}
use c_cloth.Base.{
  ℕ, zero, suc, ◌+◌, ◌*◌, ◌/◌, ◌%◌, ◌^◌, ◌≤◌, ◌<◌, ◌≡◌, sym, [], ◌∷◌, ◌++◌, replicate, arith,
  Bool-cases, inl, inr, ◌==◌,
}
use c_cloth.Base.Words.{bit_or_join}
use c_cloth.Scalar.Natural.{Words, shift_loop, shift}
use c_cloth.Scalar.Natural.Value.{
  to_ℕ, Fits, Ends, IsNatural, Ends-cons, to_ℕ_pos, Ends-carry, IsNatural-tail,
}

-- A word shifted, with the carry from below joined in.
shifted_word :
    (part c w : ℕ)
    → part < 32
    → c < 2 ^ part
    → w < 2 ^ 32
    → (bit_or (w * 2 ^ part) c ≡ w * 2 ^ part + c) × ((w * 2 ^ part + c) / 2 ^ 32 < 2 ^ part)
shifted_word part c w hp hc hw = (bit_or_join part w c hc, grind arith)

shift_loop_value :
    (part c : ℕ) (ws : Words)
    → part < 32
    → c < 2 ^ part
    → Fits ws
    → (to_ℕ (shift_loop part c ws) ≡ c + 2 ^ part * to_ℕ ws) × Fits (shift_loop part c ws)
unfolding shift_loop to_ℕ
shift_loop_value part c [] hp hc h =
    ground (arith, pow-le-pow_right {n = 2} (omega arith) {i = part} {j = 31} (omega arith))
shift_loop_value part c (w ∷ ws) hp hc h =
    let v = w * 2 ^ part + c in
    let (joined, small) = shifted_word part c w hp hc h.0 in
    let (e, f) = shift_loop_value part (v / 2 ^ 32) ws hp small h.1 in
    rw joined (omega arith, (omega arith, f))

scaled_pos : (w p c t : ℕ) → 1 ≤ p → 0 < w + 2 ^ 32 * t → p * t ≡ 0 → 0 < w * p + c
scaled_pos zero p c t hp h z = absurd (grind arith)
scaled_pos (suc w) p c t hp h z = omega arith

shift_loop-Ends :
    (part c : ℕ) (ws : Words)
    → part < 32
    → c < 2 ^ part
    → IsNatural ws
    → Ends (shift_loop part c ws)
unfolding shift_loop to_ℕ
shift_loop-Ends part c [] hp hc h =
    ground (arith, pow-le-pow_right {n = 2} (omega arith) {i = part} {j = 31} (omega arith))
shift_loop-Ends part c (w ∷ ws) hp hc h =
    let v = w * 2 ^ part + c in
    let (joined, small) = shifted_word part c w hp hc h.fits.0 in
    let (e, f) = shift_loop_value part (v / 2 ^ 32) ws hp small h.fits.1 in
    subst (λ x. Ends (x % 2 ^ 32 ∷ shift_loop part (x / 2 ^ 32) ws)) (sym joined)
      (Ends-carry v (2 ^ part * to_ℕ ws) (shift_loop part (v / 2 ^ 32) ws)
        (shift_loop-Ends part (v / 2 ^ 32) ws hp small (IsNatural-tail w ws h)) (omega arith)
        (λ z.
          scaled_pos w (2 ^ part) c (to_ℕ ws) (one-le-pow part 2 (omega arith))
            (to_ℕ_pos w ws h.ends) z))

zeros_value : (k : ℕ) (ws : Words) → to_ℕ (replicate k 0 ++ ws) ≡ 2 ^ (32 * k) * to_ℕ ws
unfolding to_ℕ
zeros_value zero ws = omega arith
zeros_value (suc k) ws =
    let e : 32 * suc k ≡ 32 + 32 * k = omega arith in
    rw (e, pow-add) (omega (arith, zeros_value k ws))

zeros-IsNatural :
    (k w : ℕ) (ws : Words) → IsNatural (w ∷ ws) → IsNatural (replicate k 0 ++ (w ∷ ws))
zeros-IsNatural zero w ws h = h
zeros-IsNatural (suc k) w ws h =
    let n = zeros-IsNatural k w ws h in
    record { fits = (omega arith, n.fits); ends = Ends-cons 0 _ n.ends (λ e. absurd (not_nil k e)) }
  where
    not_nil : (k : ℕ) → ¬ (replicate k 0 ++ (w ∷ ws) ≡ [])
    not_nil zero e = cc
    not_nil (suc k) e = cc

shifted :
    (w : ℕ) (ws : Words) (whole part : ℕ)
    → part < 32
    → IsNatural (w ∷ ws)
    → (to_ℕ (replicate whole 0 ++ shift_loop part 0 (w ∷ ws))
        ≡ to_ℕ (w ∷ ws) * 2 ^ (32 * whole + part))
      × IsNatural (replicate whole 0 ++ shift_loop part 0 (w ∷ ws))
shifted w ws whole part hp h =
    let (e, f) = shift_loop_value part 0 (w ∷ ws) hp (one-le-pow part 2 (omega arith)) h.fits in
    let ends = shift_loop-Ends part 0 (w ∷ ws) hp (one-le-pow part 2 (omega arith)) h in
    (
      rw (zeros_value, e, pow-add) (omega arith),
      unfold shift_loop in zeros-IsNatural whole _ _ (record { fits = f; ends = ends }),
    )

-- On the digits of a number, `shift` by some bits gives the digits of the number times 2 to the bits.
pub shift_value :
    (ws : Words) (bits : ℕ)
    → IsNatural ws
    → (to_ℕ (shift ws bits) ≡ to_ℕ ws * 2 ^ bits) × IsNatural (shift ws bits)
unfolding shift
shift_value [] bits h = unfold to_ℕ in (omega arith, h)
shift_value (w ∷ ws) bits h = elim (Bool-cases (bits == 0)) [
  | inl still ↦ let e : bits ≡ 0 = ground arith in rw e (omega arith, h)
  | inr moved ↦
      let e : bits ≡ 32 * (bits / 32) + bits % 32 = omega arith in
      rw moved (
        subst
          (λ n.
            (to_ℕ (replicate (bits / 32) 0 ++ shift_loop (bits % 32) 0 (w ∷ ws))
              ≡ to_ℕ (w ∷ ws) * 2 ^ n)
            × IsNatural (replicate (bits / 32) 0 ++ shift_loop (bits % 32) 0 (w ∷ ws)))
          (sym e) (shifted w ws (bits / 32) (bits % 32) (omega arith) h))
]
