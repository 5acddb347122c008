-- ===== src/Semantics/ErrorAbi/Search.antt =====
-- The search of `callable_uses_error_abi` (src/sema/semantic_model.cc) visits all that it has to.
use mathlib.Core.Path.{subst}
use c_cloth.Base.{
  ℕ, zero, suc, ◌+◌, ◌<◌, ◌≡◌, ◌↔◌, not, refl, sym, ap, ◌∙◌, Bool, true, false, ◌==◌, leb, ◌||◌,
  List, [], ◌∷◌, length, arith, Bool-cases, inl, inr,
}
use c_cloth.Semantics.{SemanticModel}
use c_cloth.Semantics.ErrorAbi.{
  push_all, mark, successors, throws, search, left, callable_uses_error_abi,
}
use c_cloth.Semantics.ErrorAbi.Implements.{elem}
use c_cloth.Semantics.ErrorAbi.Leads.{elem-successors}
use c_cloth.Semantics.ErrorAbi.Reaches.{
  elem-push_all, length-push_all, Reaches, here, there, search-Reaches, left-mark,
}

nil_of_calm : (types : List ℕ) → not (length types == 0) ≡ false → types ≡ []
nil_of_calm [] h = refl
nil_of_calm (t ∷ types) h = ground arith

module _ (semantics : SemanticModel) where
  -- A symbol outside the model, or visited, or pending.
  abbrev IsCovered : (ℕ → Bool) → List ℕ → ℕ → Type 0
  IsCovered visited pending s =
      (leb semantics.symbol_count s || (visited s || elem s pending)) ≡ true

  -- The symbols that are visited do not throw, and what their rounds push is visited or pending.
  record IsSearch (visited : ℕ → Bool) (pending : List ℕ) : Type 0 where
    calm : (s : ℕ) → visited s ≡ true → throws semantics s ≡ false
    closed :
        (s t : ℕ)
        → visited s ≡ true
        → elem t (successors semantics s) ≡ true
        → IsCovered visited pending t

  skip-IsSearch :
      (current : ℕ) (pending : List ℕ) (visited : ℕ → Bool)
      → (leb semantics.symbol_count current || visited current) ≡ true
      → (t : ℕ) → IsCovered visited (current ∷ pending) t
      → IsCovered visited pending t
  skip-IsSearch current pending visited e t c = elim (Bool-cases (current == t)) [
    | inl k ↦ let same : current ≡ t = ground arith in let v = ap visited same in ground arith
    | inr k ↦ ground arith
  ]

  visit-IsCovered :
      (current : ℕ) (pending : List ℕ) (visited : ℕ → Bool) (t : ℕ)
      → IsCovered visited (current ∷ pending) t
      → IsCovered (mark current visited) (push_all (successors semantics current) pending) t
  visit-IsCovered current pending visited t c =
      let p = elem-push_all t (successors semantics current) pending in
      elim (Bool-cases (current == t)) [ inl k ↦ ground arith | inr k ↦ ground arith ]

  visit-IsSearch :
      (current : ℕ) (pending : List ℕ) (visited : ℕ → Bool)
      → throws semantics current ≡ false
      → IsSearch visited (current ∷ pending)
      → IsSearch (mark current visited) (push_all (successors semantics current) pending)
  visit-IsSearch current pending visited e h = record {
    calm = λ s v. elim (Bool-cases (s == current)) [
      | inl k ↦ let same : s ≡ current = ground arith in ap (throws semantics) same ∙ e
      | inr k ↦ h.calm s (ground arith)
    ];
    closed = λ s t v m. elim (Bool-cases (s == current)) [
      | inl k ↦
          let same : s ≡ current = ground arith in
          let m' : elem t (successors semantics current) ≡ true =
            sym (ap (λ x. elem t (successors semantics x)) same) ∙ m in
          let p = elem-push_all t (successors semantics current) pending in ground arith
      | inr k ↦ visit-IsCovered current pending visited t (h.closed s t (ground arith) m)
    ];
  }

  -- A search that ends without a find has visited all that is reached, where the fuel is enough.
  search-IsSearch :
      (fuel : ℕ) (pending : List ℕ) (visited : ℕ → Bool)
      → search semantics fuel pending visited ≡ false
      → IsSearch visited pending
      → length pending + left semantics visited semantics.symbol_count < fuel
      → (w : ℕ → Bool) × IsSearch w [] × ((t : ℕ) → IsCovered visited pending t → IsCovered w [] t)
  unfolding search
  search-IsSearch zero pending visited h inv l = absurd (omega (arith, l))
  search-IsSearch (suc fuel) [] visited h inv l = (visited, inv, λ t c. c)
  search-IsSearch (suc fuel) (current ∷ pending) visited h inv l =
      elim (Bool-cases (leb semantics.symbol_count current || visited current)) [
        | inl e ↦
            let skip = skip-IsSearch current pending visited e in
            let (w, i, c) =
              search-IsSearch fuel pending visited (rw e at h)
                (record { calm = inv.calm; closed = λ s t v m. skip t (inv.closed s t v m) })
                (omega (arith, l)) in
            (w, i, λ t k. c t (skip t k))
        | inr e ↦ elim (Bool-cases (throws semantics current)) [
          | inl t ↦ let h' = rw (e, t) at h in cc
          | inr t ↦
              let n = length-push_all (successors semantics current) pending in
              let m =
                left-mark semantics current semantics.symbol_count visited (ground arith)
                  (ground arith) in
              let (w, i, c) =
                search-IsSearch fuel (push_all (successors semantics current) pending)
                  (mark current visited) (rw (e, t) at h)
                  (visit-IsSearch current pending visited t inv) (omega (arith, n, m, l)) in
              (w, i, λ t k. c t (visit-IsCovered current pending visited t k))
        ]
      ]

  covered-Reaches :
      (w : ℕ → Bool) → IsSearch w [] → (s : ℕ) → IsCovered w [] s → ¬ Reaches semantics s
  covered-Reaches w i s c (here symbol below t) =
      let calm = i.calm symbol (ground arith) in
      absurd (t (nil_of_calm (semantics.symbol symbol).thrown_types calm))
  covered-Reaches w i s c (there symbol next below m r) =
      covered-Reaches w i next
        (i.closed symbol next (ground arith) (elem-successors semantics symbol next m)) r

  -- The search says yes just where the symbol throws, or some chain of functions that are overridden or
  -- implemented ends in one that throws, whatever cycles there are.
  pub callable_uses_error_abi_iff :
      (symbol : ℕ) → (callable_uses_error_abi semantics symbol ≡ true) ↔ Reaches semantics symbol
  unfolding callable_uses_error_abi
  callable_uses_error_abi_iff symbol = (found, complete)
    where
      found : callable_uses_error_abi semantics symbol ≡ true → Reaches semantics symbol
      found h =
          let (s, m, r) =
            search-Reaches semantics
              (suc (suc (left semantics (λ s. false) semantics.symbol_count))) (symbol ∷ [])
              (λ s. false) h in
          let same : s ≡ symbol = ground arith in subst (Reaches semantics) same r

      complete : Reaches semantics symbol → callable_uses_error_abi semantics symbol ≡ true
      complete r = elim (Bool-cases (callable_uses_error_abi semantics symbol)) [
        | inl e ↦ e
        | inr e ↦
            let (w, i, c) =
              search-IsSearch (suc (suc (left semantics (λ s. false) semantics.symbol_count)))
                (symbol ∷ []) (λ s. false) e (record { calm = λ s v. cc; closed = λ s t v m. cc })
                (omega arith) in
            absurd (covered-Reaches w i symbol (c symbol (ground arith)) r)
      ]
