-- ===== src/Semantics/ErrorAbi/Reaches.antt =====
-- `callable_uses_error_abi` (src/sema/semantic_model.cc) finds a function that throws just where there
-- is one.
use c_cloth.Base.{
  ℕ, zero, suc, ◌+◌, ◌<◌, ◌≤◌, ◌≡◌, ◌≢◌, not, ◌==◌, refl, ap, ◌∙◌, Bool, true, false, ◌==◌, leb,
  ◌||◌, List, [], ◌∷◌, length, arith, Bool-cases, inl, inr,
}
use c_cloth.Semantics.{SemanticModel}
use c_cloth.Semantics.ErrorAbi.Implements.{elem}
use c_cloth.Semantics.ErrorAbi.Leads.{Leads, successors-Leads}
use c_cloth.Semantics.ErrorAbi.{push_all, mark, successors, throws, search, left}

pub elem-push_all : (x : ℕ) (xs ys : List ℕ) → elem x (push_all xs ys) ≡ (elem x xs || elem x ys)
unfolding push_all
elem-push_all x [] ys = refl
elem-push_all x (y ∷ xs) ys = ground (arith, elem-push_all x xs (y ∷ ys))

pub length-push_all : (xs ys : List ℕ) → length (push_all xs ys) ≡ length xs + length ys
unfolding push_all
length-push_all [] ys = omega arith
length-push_all (y ∷ xs) ys = omega (arith, length-push_all xs (y ∷ ys))

throws-not_nil : (types : List ℕ) → not (length types == 0) ≡ true → types ≢ []
throws-not_nil [] h e = cc
throws-not_nil (t ∷ types) h e = cc

module _ (semantics : SemanticModel) where
  -- A symbol of the model throws, or overrides or implements one that reaches a symbol that throws.
  pub data Reaches : ℕ → Type 0 where
    here :
        (symbol : ℕ)
        → symbol < semantics.symbol_count
        → (semantics.symbol symbol).thrown_types ≢ []
        → Reaches symbol
    there :
        (symbol next : ℕ)
        → symbol < semantics.symbol_count
        → Leads semantics symbol next
        → Reaches next
        → Reaches symbol

  -- What is found is reached from a symbol that was pending.
  pub search-Reaches :
      (fuel : ℕ) (pending : List ℕ) (visited : ℕ → Bool)
      → search semantics fuel pending visited ≡ true
      → (s : ℕ) × (elem s pending ≡ true) × Reaches s
  unfolding search
  search-Reaches zero pending visited h = cc
  search-Reaches (suc fuel) [] visited h = cc
  search-Reaches (suc fuel) (current ∷ pending) visited h =
      elim (Bool-cases (leb semantics.symbol_count current || visited current)) [
        | inl e ↦
            let (s, m, r) = search-Reaches fuel pending visited (rw e at h) in (s, ground arith, r)
        | inr e ↦ elim (Bool-cases (throws semantics current)) [
          | inl t ↦ (
            current,
            ground arith,
            here current (ground arith) (throws-not_nil (semantics.symbol current).thrown_types t),
          )
          | inr t ↦
              let (s, m, r) =
                search-Reaches fuel (push_all (successors semantics current) pending)
                  (mark current visited) (rw (e, t) at h) in
              let p = elem-push_all s (successors semantics current) pending in
              elim (Bool-cases (elem s pending)) [
                | inl q ↦ (s, ground arith, r)
                | inr q ↦ (
                  current,
                  ground arith,
                  there current s (ground arith)
                      (successors-Leads semantics current s (ground arith)) r,
                )
              ]
        ]
      ]

  left-above :
      (current n : ℕ) (visited : ℕ → Bool)
      → n ≤ current
      → left semantics (mark current visited) n ≡ left semantics visited n
  unfolding left
  left-above current zero visited h = refl
  left-above current (suc n) visited h =
      ground (arith, left-above current n visited (omega (arith, h)))

  pub left-mark :
      (current n : ℕ) (visited : ℕ → Bool)
      → current < n
      → visited current ≡ false
      → left semantics (mark current visited) n + length (successors semantics current)
        ≡ left semantics visited n
  unfolding left
  left-mark current zero visited h e = omega (arith, h)
  left-mark current (suc n) visited h e = elim (Bool-cases (n == current)) [
    | inl k ↦
        let same : n ≡ current = ground arith in
        let e' : visited n ≡ false = ap visited same ∙ e in
        let l = ap (λ x. length (successors semantics x)) same in
        let above = left-above current n visited (omega (arith, same)) in
        let m : mark current visited n ≡ true = ground arith in rw (m, e') (omega (arith, l, above))
    | inr k ↦
        let below = left-mark current n visited (ground arith) e in
        let m : mark current visited n ≡ visited n = ground arith in rw m (omega (arith, below))
  ]
