-- ===== src/Abi/Steps.antt =====
-- The steps of the layouts of src/abi/abi.cc: the chain of steps, one reference slot and one field.
use c_cloth.Base.{
  ℕ, ◌+◌, ◌%◌, max, ◌≤◌, ◌≡◌, refl, Bool, true, false, List, [], ◌∷◌, ◌++◌, Option, none, some, All,
  arith,
}
use c_cloth.Base.Text.{Bytes}
use c_cloth.Base.Words.{u64_max}
use c_cloth.Target.{TargetDataLayout}
use c_cloth.Semantics.{SemanticModel}
use c_cloth.Abi.{AbiTypeLayout, checked_add}
use c_cloth.Abi.Laid.{
  AbiFieldLayout, FileLayout, Laid, laid, failed, ◌>>=◌, ◌>>◌, or_fail, require, LayoutState,
}
use c_cloth.Abi.Layout.{reference_slot, add_references}
use c_cloth.Abi.Placed.{Placed-snoc, InObject, All-snoc, All-imp, IsPlaced}

-- A chain of steps with a result has one at each step.
pub >>=-eq-laid {ℓ κ} :
    {A : Type ℓ} {B : Type κ} (m : Laid A) (f : A → Laid B) {b : B}
    → (m >>= f) ≡ laid b
    → (a : A) × (m ≡ laid a) × (f a ≡ laid b)
unfolding ◌>>=◌
>>=-eq-laid (laid a) f h = (a, refl, h)
>>=-eq-laid (failed message) f h = cc

pub or_fail-inv {ℓ} :
    {A : Type ℓ} (o : Option A) (message : Bytes) {a : A} → or_fail o message ≡ laid a → o ≡ some a
unfolding or_fail
or_fail-inv none message h = cc
or_fail-inv (some a) message h = cc

pub laid-inj {ℓ} : {A : Type ℓ} {a b : A} → laid a ≡ laid b → a ≡ b
laid-inj h = cc

pub require-inv {ℓ} :
    {B : Type ℓ} (test : Bool) (message : Bytes) (k : Laid B) {b : B}
    → (require test message >> k) ≡ laid b
    → (test ≡ true) × (k ≡ laid b)
unfolding ◌>>=◌ ◌>>◌ require
require-inv true message k h = (refl, h)
require-inv false message k h = cc

module _ (semantics : SemanticModel) (types : ℕ → AbiTypeLayout) (target : TargetDataLayout)
    (layouts : ℕ → FileLayout) where
  reference_slot-InObject :
      (type : AbiTypeLayout) (aligned reference : ℕ) {shifted : ℕ}
      → reference_slot semantics types target layouts type aligned reference ≡ laid shifted
      → InObject target (aligned + type.storage.size) shifted
  unfolding reference_slot checked_add ◌>>=◌ ◌>>◌ or_fail require
  reference_slot-InObject type aligned reference h = ground arith

  pub add_references-InObject :
      (type : AbiTypeLayout) (aligned : ℕ) (offsets references : List ℕ) {all : List ℕ}
      → add_references semantics types target layouts type aligned offsets references ≡ laid all
      → All (InObject target (aligned + type.storage.size)) references
      → All (InObject target (aligned + type.storage.size)) all
  unfolding add_references
  add_references-InObject type aligned [] references {all} h k =
      let e : references ≡ all = cc in rw e at k
  add_references-InObject type aligned (reference ∷ offsets) references h k =
      let (shifted, p, q) =
        >>=-eq-laid (reference_slot semantics types target layouts type aligned reference)
          (λ shifted.
            add_references semantics types target layouts type aligned offsets
              (references ++ shifted ∷ []))
          h in
      add_references-InObject type aligned offsets (references ++ shifted ∷ []) q (
        All-snoc (InObject target (aligned + type.storage.size)) references shifted k
          (reference_slot-InObject type aligned reference p))

module _ (types : ℕ → AbiTypeLayout) (target : TargetDataLayout) where
  -- A field put after the others.
  pub add_field-IsPlaced :
      (low aligned end depth count symbol type_id : ℕ) (s : LayoutState) (references : List ℕ)
      → let type = types type_id in
        IsPlaced types target low s
        → type.storage.alignment ≤ u64_max
        → s.offset ≤ aligned
        → aligned % type.storage.alignment ≡ 0
        → end ≡ aligned + type.storage.size
        → All (InObject target (aligned + type.storage.size)) references
        → IsPlaced types target low (record {
          offset = end;
          alignment = max s.alignment type.storage.alignment;
          depth = depth;
          fields = s.fields ++ record { symbol = symbol; type = type_id; offset = aligned } ∷ [];
          references = references;
          instance_count = count;
        })
  add_field-IsPlaced low aligned end depth count symbol type_id s references p w a m e r =
      let type = types type_id in
      let field : AbiFieldLayout = record { symbol = symbol; type = type_id; offset = aligned } in
      let most = max s.alignment type.storage.alignment in
      rw e (record {
        fields = Placed-snoc types low s.offset s.fields field p.fields a m;
        alignments =
            All-snoc (λ f. (types f.type).storage.alignment ≤ most) s.fields field
              (All-imp (λ f. (types f.type).storage.alignment ≤ s.alignment)
                (λ f. (types f.type).storage.alignment ≤ most) (λ f h. omega (arith, h)) s.fields
                p.alignments)
              (omega arith);
        references = r;
        alignment_fits = omega (arith, w, p.alignment_fits);
      })
