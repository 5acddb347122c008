-- ===== src/Identity/Components.antt =====
-- The parts of the texts of src/identity/canonical_identity.cc can be read back: counts, components
-- and the components of a source package.
use c_cloth.Base.{
  ℕ, zero, suc, ◌/◌, ◌%◌, ◌^◌, ◌<◌, ◌≡◌, refl, sym, ap, ◌∙◌, List, [], ◌∷◌, ◌++◌, length, arith,
  Bool-cases, inl, inr, ◌==◌, All,
}
use mathlib.Core.List.{append_assoc, append-nil}
use native.Mathlib.Nat.{pow-suc}
use c_cloth.Base.Text.{Bytes}
use c_cloth.Identity.{
  count_bytes, append_component, count_dots, before_dot, find_after_dot, append_components,
  append_parameters,
}

-- Two texts that begin with parts of one length begin with the same part.
pub append-inj {ℓ} :
    {A : Type ℓ} (a b r s : List A) → length a ≡ length b → a ++ r ≡ b ++ s → (a ≡ b) × (r ≡ s)
append-inj [] [] r s l h = (refl, h)
append-inj [] (y ∷ b) r s l h = absurd (omega arith)
append-inj (x ∷ a) [] r s l h = absurd (omega arith)
append-inj (x ∷ a) (y ∷ b) r s l h =
    let e = append-inj a b r s (omega arith) (cc) in (cc (e.0), e.1)

length-count_bytes : (n v : ℕ) → length (count_bytes n v) ≡ n
unfolding count_bytes
length-count_bytes zero v = refl
length-count_bytes (suc n) v = ap suc (length-count_bytes n (v / 256))

pow_div : (v n : ℕ) → v < 256 ^ suc n → v / 256 < 256 ^ n
pow_div v n h = ground (arith, pow-suc 256 n)

count_bytes-inj :
    (n v w : ℕ) → v < 256 ^ n → w < 256 ^ n → count_bytes n v ≡ count_bytes n w → v ≡ w
unfolding count_bytes
count_bytes-inj zero v w p q h = omega arith
count_bytes-inj (suc n) v w p q h =
    let e = count_bytes-inj n (v / 256) (w / 256) (pow_div v n p) (pow_div w n q) (cc) in
    let f : v % 256 ≡ w % 256 = cc in omega (arith, e, f)

-- A count or a size in 64 bits.
abbrev pub Is64 : ℕ → Type 0
Is64 n = n < 2 ^ 64

pub count-inj :
    (v w : ℕ) (r s : Bytes)
    → Is64 v
    → Is64 w
    → count_bytes 8 v ++ r ≡ count_bytes 8 w ++ s
    → (v ≡ w) × (r ≡ s)
count-inj v w r s p q h =
    let e =
      append-inj (count_bytes 8 v) (count_bytes 8 w) r s
        (length-count_bytes 8 v ∙ sym (length-count_bytes 8 w)) h in
    (count_bytes-inj 8 v w (omega arith) (omega arith) e.0, e.1)

-- A component by itself.
abbrev pub component : Bytes → Bytes
component v = count_bytes 8 (length v) ++ v

abbrev pub Fits : Bytes → Type 0
Fits v = Is64 (length v)

pub component-inj :
    (v w r s : Bytes) → Fits v → Fits w → component v ++ r ≡ component w ++ s → (v ≡ w) × (r ≡ s)
component-inj v w r s p q h =
    let e = count-inj (length v) (length w) (v ++ r) (w ++ s) p q (
      sym (append_assoc (count_bytes 8 (length v)) v r)
      ∙ h
      ∙ append_assoc (count_bytes 8 (length w)) w s) in
    append-inj v w r s e.0 e.1

pub append_component_lem : (out v : Bytes) → append_component out v ≡ out ++ component v
unfolding append_component
append_component_lem out v = append_assoc out (count_bytes 8 (length v)) v

unfoldable pub components : List Bytes → Bytes
components [] = []
components (v ∷ vs) = component v ++ components vs

-- Lists of as many components, the components of which fit, can be told apart.
pub components-inj :
    (vs ws : List Bytes) (r s : Bytes)
    → length vs ≡ length ws
    → All Fits vs
    → All Fits ws
    → components vs ++ r ≡ components ws ++ s
    → (vs ≡ ws) × (r ≡ s)
unfolding components
components-inj [] [] r s l p q h = (refl, h)
components-inj [] (w ∷ ws) r s l p q h = absurd (omega arith)
components-inj (v ∷ vs) [] r s l p q h = absurd (omega arith)
components-inj (v ∷ vs) (w ∷ ws) r s l p q h =
    let e = component-inj v w (components vs ++ r) (components ws ++ s) p.0 q.0 (
      sym (append_assoc (component v) (components vs) r)
      ∙ h
      ∙ append_assoc (component w) (components ws) s) in
    let f = components-inj vs ws r s (omega arith) p.1 q.1 e.1 in (cc (e.0, f.0), f.1)

pub append_parameters_lem :
    (vs : List Bytes) (out : Bytes) → append_parameters vs out ≡ out ++ components vs
unfolding append_parameters components
append_parameters_lem [] out = sym (append-nil out)
append_parameters_lem (v ∷ vs) out =
    append_parameters_lem vs (append_component out v)
    ∙ ap (λ o. o ++ components vs) (append_component_lem out v)
    ∙ append_assoc out (component v) (components vs)

-- The components of a text that is split at its dots.
unfoldable pub pieces : ℕ → Bytes → List Bytes
pieces zero text = []
pieces (suc n) text = before_dot text ∷ pieces n (find_after_dot text text)

pub append_components_lem :
    (n : ℕ) (text out : Bytes) → append_components n text out ≡ out ++ components (pieces n text)
unfolding append_components components pieces
append_components_lem zero text out = sym (append-nil out)
append_components_lem (suc n) text out =
    append_components_lem n (find_after_dot text text) (append_component out (before_dot text))
    ∙ ap (λ o. o ++ components (pieces n (find_after_dot text text)))
        (append_component_lem out (before_dot text))
    ∙ append_assoc out (component (before_dot text))
        (components (pieces n (find_after_dot text text)))

pub join_dots : List Bytes → Bytes
join_dots [] = []
join_dots (v ∷ []) = v
join_dots (v ∷ w ∷ vs) = v ++ b'.' ∷ join_dots (w ∷ vs)

split_none : (text : Bytes) → count_dots text ≡ 0 → before_dot text ≡ text
unfolding count_dots before_dot
split_none [] h = refl
split_none (c ∷ text) h = ground (arith, split_none text)

split_some :
    (text begin : Bytes) (m : ℕ)
    → count_dots text ≡ suc m
    → (before_dot text ++ b'.' ∷ find_after_dot begin text ≡ text)
      × (count_dots (find_after_dot begin text) ≡ m)
unfolding count_dots before_dot find_after_dot
split_some [] begin m h = absurd (omega arith)
split_some (c ∷ text) begin m h = elim (Bool-cases (c == b'.')) [
  | inl e ↦ rw e (ground arith)
  | inr e ↦ let r = split_some text begin m (ground arith) in rw e (cc (r.0), r.1)
]

pub join-pieces :
    (n : ℕ) (text : Bytes) → count_dots text ≡ n → join_dots (pieces (suc n) text) ≡ text
unfolding join_dots pieces
join-pieces zero text h = split_none text h
join-pieces (suc n) text h =
    let r = split_some text text n h in rw (join-pieces n (find_after_dot text text) r.1) r.0

pub length-pieces : (n : ℕ) (text : Bytes) → length (pieces n text) ≡ n
unfolding pieces
length-pieces zero text = refl
length-pieces (suc n) text = ap suc (length-pieces n (find_after_dot text text))
