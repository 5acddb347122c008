-- ===== src/Abi/Placed.antt =====
-- What a layout of src/abi/abi.cc has to be: its fields in order and apart, each aligned and inside, and
-- its references inside.
use c_cloth.Base.{ℕ, ◌+◌, ◌%◌, ◌≤◌, ◌≡◌, List, [], ◌∷◌, ◌++◌, All, arith}
use c_cloth.Base.Words.{u64_max}
use c_cloth.Target.{TargetDataLayout}
use c_cloth.Abi.{AbiTypeLayout}
use c_cloth.Abi.Laid.{AbiFieldLayout, FileLayout, LayoutState}

module _ (types : ℕ → AbiTypeLayout) where
  -- Fields one after the other between two offsets, each at a multiple of the alignment of its type.
  abbrev pub Placed : ℕ → List AbiFieldLayout → ℕ → Type 0
  Placed low [] high = low ≤ high
  Placed low (f ∷ fields) high =
      (low ≤ f.offset)
      × (f.offset % (types f.type).storage.alignment ≡ 0)
      × Placed (f.offset + (types f.type).storage.size) fields high

  pub Placed-snoc :
      (low middle : ℕ) (fields : List AbiFieldLayout) (f : AbiFieldLayout)
      → Placed low fields middle
      → middle ≤ f.offset
      → f.offset % (types f.type).storage.alignment ≡ 0
      → Placed low (fields ++ f ∷ []) (f.offset + (types f.type).storage.size)
  Placed-snoc low middle [] f h k m = (omega arith, m, omega arith)
  Placed-snoc low middle (g ∷ fields) f h k m =
      (h.0, h.1, Placed-snoc (g.offset + (types g.type).storage.size) middle fields f h.2 k m)

  pub Placed-le :
      (low middle high : ℕ) (fields : List AbiFieldLayout)
      → Placed low fields middle
      → middle ≤ high
      → Placed low fields high
  Placed-le low middle high [] h k = omega arith
  Placed-le low middle high (g ∷ fields) h k =
      (h.0, h.1, Placed-le (g.offset + (types g.type).storage.size) middle high fields h.2 k)

  -- The alignment of a class is not below those of its fields.
  abbrev pub Aligned : ℕ → List AbiFieldLayout → Type 0
  Aligned alignment = All (λ f. (types f.type).storage.alignment ≤ alignment)

-- A reference slot is aligned, and ends before `high`.
abbrev pub InObject : TargetDataLayout → ℕ → ℕ → Type 0
InObject target high reference =
    (reference + target.pointer.size ≤ high) × (reference % target.pointer.alignment ≡ 0)

pub All-snoc {ℓ κ} :
    {A : Type ℓ} (P : A → Type κ) (xs : List A) (x : A) → All P xs → P x → All P (xs ++ x ∷ [])
All-snoc P [] x h p = (p, tt)
All-snoc P (y ∷ xs) x h p = (h.0, All-snoc P xs x h.1 p)

pub All-imp {ℓ κ} :
    {A : Type ℓ} (P Q : A → Type κ) (f : (x : A) → P x → Q x) (xs : List A) → All P xs → All Q xs
All-imp P Q f [] h = tt
All-imp P Q f (x ∷ xs) h = (f x h.0, All-imp P Q f xs h.1)

pub InObject-mono :
    (target : TargetDataLayout) (low high : ℕ) (references : List ℕ)
    → low ≤ high
    → All (InObject target low) references
    → All (InObject target high) references
InObject-mono target low high references h k =
    All-imp (InObject target low) (InObject target high) (λ r p. (omega (arith, h, p.0), p.1))
      references k

module _ (types : ℕ → AbiTypeLayout) (target : TargetDataLayout) where
  -- The state of the layout of fields from `low` on.
  pub record IsPlaced (low : ℕ) (s : LayoutState) : Type 0 where
    pub fields : Placed types low s.fields s.offset
    pub alignments : Aligned types s.alignment s.fields
    pub references : All (InObject target s.offset) s.references
    pub alignment_fits : s.alignment ≤ u64_max

  pub record IsLaidOut (l : FileLayout) : Type 0 where
    pub fields : Placed types l.storage.header_size l.storage.fields l.storage.size
    pub alignments : Aligned types l.storage.alignment l.storage.fields
    pub references : All (InObject target l.storage.size) l.references
    pub padded : l.storage.size % l.storage.alignment ≡ 0
    pub alignment_fits : l.storage.alignment ≤ u64_max

  -- What is asked of the layouts of types and of the target.
  pub record Fits64 : Type 0 where
    pub alignments : (type : ℕ) → (types type).storage.alignment ≤ u64_max
    pub sizes : (type : ℕ) → (types type).storage.size ≤ u64_max
    pub pointer : target.pointer.alignment ≤ u64_max
