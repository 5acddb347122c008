-- ===== src/Semantics/Reachable.antt =====
-- The steps of the semantic analysis on the table of types (src/sema/semantic_model.cc), and what the
-- tables have that it reaches.
use mathlib.Core.Path.{subst}
use c_cloth.Base.{
  ℕ, zero, suc, ◌≡◌, inl, inr, refl, sym, ap, ◌∙◌, List, [], ◌∷◌, Option, none, some,
}
use c_cloth.Base.Options.{>>=-eq-some, map_some, map_some-inv, some-inj}
use c_cloth.Base.Text.{Bytes}
use c_cloth.Numeric.{TypeKind, nullable}
use c_cloth.Semantics.{SemanticType}
use c_cloth.Semantics.Types.{
  TypeTable, add_type, get_array_type, get_nullable_type, modify_at, set_type_file,
  bind_value_wrapper, add_type_alias, add_types, core_types, empty_table, core_table, with_aliases,
  plain,
}
use c_cloth.Semantics.Interned.{
  IsInterned, Keeps, Keeps-refl, Keeps-append, Keeps-trans, Keeps-cons, Keeps-IsOn, snoc-IsInterned,
  plain-IsFresh,
}
use c_cloth.Semantics.Requests.{get_array_type-IsGiven, get_nullable_type-IsGiven}

-- One operation of the analysis on the types. A type that it adds itself is on no element.
pub data Step : TypeTable → TypeTable → Type 0 where
  adds :
      (type : SemanticType) (t : TypeTable) → type.element_type ≡ none → Step t (add_type type t).1
  requests_array :
      (element : ℕ) (t : TypeTable) {n : ℕ} {u : TypeTable}
      → get_array_type element t ≡ some (n, u)
      → Step t u
  requests_nullable :
      (underlying : ℕ) (t : TypeTable) {n : ℕ} {u : TypeTable}
      → get_nullable_type underlying t ≡ some (n, u)
      → Step t u
  names : (name : Bytes) (type : ℕ) (t : TypeTable) → Step t (add_type_alias name type t)
  binds :
      (value wrapper : ℕ) (t : TypeTable) {u : TypeTable}
      → bind_value_wrapper value wrapper t ≡ some u
      → Step t u
  files :
      (type file : ℕ) (t : TypeTable) {u : TypeTable}
      → set_type_file type file t ≡ some u
      → Step t u

pub data Steps : TypeTable → TypeTable → Type 0 where
  stays : (t : TypeTable) → Steps t t
  goes : {t u v : TypeTable} → Step t u → Steps u v → Steps t v

-- The types of a list that is changed only in what belongs to no element.
modify_at-Keeps :
    (f : SemanticType → SemanticType) (n : ℕ) (types : List SemanticType)
    {later : List SemanticType}
    → ((type : SemanticType) → (f type).kind ≡ type.kind)
    → ((type : SemanticType) → (f type).element_type ≡ type.element_type)
    → modify_at f n types ≡ some later
    → Keeps types later × Keeps later types
unfolding modify_at
modify_at-Keeps f n [] same on e = cc
modify_at-Keeps f zero (x ∷ types) {later} same on e =
    subst (λ later. Keeps (x ∷ types) later × Keeps later (x ∷ types)) (some-inj e) (there, back)
  where
    there : Keeps (x ∷ types) (f x ∷ types)
    there zero type at =
        let t : x ≡ type = some-inj at in
        record {
          now = f x;
          at = refl;
          same = same x ∙ ap (λ x. x.kind) t;
          on = on x ∙ ap (λ x. x.element_type) t;
        }
    there (suc n) type at = record { now = type; at = at; same = refl; on = refl }

    back : Keeps (f x ∷ types) (x ∷ types)
    back zero type at =
        let t : f x ≡ type = some-inj at in
        record {
          now = x;
          at = refl;
          same = sym (same x) ∙ ap (λ x. x.kind) t;
          on = sym (on x) ∙ ap (λ x. x.element_type) t;
        }
    back (suc n) type at = record { now = type; at = at; same = refl; on = refl }
modify_at-Keeps f (suc n) (x ∷ types) {later} same on e =
    let (rest, p, q) = map_some-inv (λ rest. x ∷ rest) (modify_at f n types) e in
    let both = modify_at-Keeps f n types same on p in
    subst (λ later. Keeps (x ∷ types) later × Keeps later (x ∷ types)) q
      (Keeps-cons x types rest both.0, Keeps-cons x rest types both.1)

-- A table whose types another has and that has those of the other keeps what the other keeps.
Keeps-IsInterned :
    (types later : List SemanticType)
    → Keeps types later
    → Keeps later types
    → IsInterned types
    → IsInterned later
Keeps-IsInterned types later there back h = record {
  unique = λ kind element m n p q.
      h.unique kind element m n (Keeps-IsOn later types kind element m back p)
        (Keeps-IsOn later types kind element n back q);
  behind =
      λ kind element n p. h.behind kind element n (Keeps-IsOn later types kind element n back p);
  flat = λ element n type p at e.
      let k = back element type at in
      h.flat element n k.now (Keeps-IsOn later types nullable element n back p) k.at (k.same ∙ e);
}

abbrev StepKeeps : TypeTable → TypeTable → Type 0
StepKeeps t u = IsInterned u.types × Keeps t.types u.types

Step-StepKeeps : {t u : TypeTable} → IsInterned t.types → Step t u → StepKeeps t u
unfolding add_type add_type_alias bind_value_wrapper set_type_file
Step-StepKeeps h (adds type t e) = (
  snoc-IsInterned t.types type h (plain-IsFresh t.types type e),
  Keeps-append t.types (type ∷ []),
)
Step-StepKeeps h (requests_array element t e) =
    let g = get_array_type-IsGiven element t h e in (g.interned, g.keeps)
Step-StepKeeps h (requests_nullable underlying t {u = u} e) =
    elim (get_nullable_type-IsGiven underlying t h e) [
      | inl k ↦ subst (StepKeeps t) k.1 (h, Keeps-refl t.types)
      | inr g ↦ (g.interned, g.keeps)
    ]
Step-StepKeeps h (names name type t) = (h, Keeps-refl t.types)
Step-StepKeeps h (binds value wrapper t {u} e) =
    let (wrappers, p, k) =
      >>=-eq-some (modify_at (λ old. some wrapper) value t.value_wrappers) _ e in
    let (values, q, l) = >>=-eq-some (modify_at (λ old. some value) wrapper t.wrapped_values) _ k in
    subst (StepKeeps t) (some-inj l) (h, Keeps-refl t.types)
Step-StepKeeps h (files type file t {u} e) =
    let f : SemanticType → SemanticType = λ old. record old { file = some file } in
    let (types, p, q) =
      map_some-inv (λ types. record t { types = types }) (modify_at f type t.types) e in
    let k = modify_at-Keeps f type t.types (λ x. refl) (λ x. refl) p in
    subst (StepKeeps t) q (Keeps-IsInterned t.types types k.0 k.1 h, k.0)

pub Steps-StepKeeps : {t u : TypeTable} → IsInterned t.types → Steps t u → StepKeeps t u
Steps-StepKeeps h (stays t) = (h, Keeps-refl t.types)
Steps-StepKeeps h (goes {t} {u} {v} step steps) =
    let p = Step-StepKeeps h step in
    let q = Steps-StepKeeps p.0 steps in (q.0, Keeps-trans t.types u.types v.types p.1 q.1)

add_types-IsInterned :
    (types : List (TypeKind × Bytes)) (t : TypeTable)
    → IsInterned t.types
    → IsInterned (add_types types t).types
unfolding add_types
add_types-IsInterned [] t h = h
add_types-IsInterned (type ∷ types) t h =
    let p = Step-StepKeeps h (adds (plain type.0 type.1) t refl) in
    add_types-IsInterned types (add_type (plain type.0 type.1) t).1 p.0

empty-IsInterned : IsInterned []
empty-IsInterned = record {
  unique = λ kind element m n p q. let at = p.at in cc;
  behind = λ kind element n p. let at = p.at in cc;
  flat = λ element n type p at. let a = p.at in cc;
}

core_table-IsInterned : {core : TypeTable} → core_table ≡ some core → IsInterned core.types
unfolding core_table with_aliases add_type_alias
core_table-IsInterned {core} e =
    let start = add_types core_types empty_table in
    let rest : ℕ × TypeTable → Option TypeTable =
      λ errors. map_some (λ objects. objects.1) (get_nullable_type 18 (with_aliases errors.1)) in
    let (errors, p, k) = >>=-eq-some (get_nullable_type 19 start) rest e in
    let named = with_aliases errors.1 in
    let (objects, q, l) = map_some-inv (λ objects. objects.1) (get_nullable_type 18 named) k in
    let h =
      Step-StepKeeps (add_types-IsInterned core_types empty_table empty-IsInterned)
        (requests_nullable 19 start p) in
    let g = Step-StepKeeps {t = named} h.0 (requests_nullable 18 named q) in
    subst (λ t. IsInterned t.types) l g.0

-- Each table that the operations reach from that of the constructor has at most one type of a kind on
-- an element, has it behind its element, and has no nullable type on a nullable one.
pub reached-IsInterned :
    {core t : TypeTable} → core_table ≡ some core → Steps core t → IsInterned t.types
reached-IsInterned e steps = (Steps-StepKeeps (core_table-IsInterned e) steps).0
