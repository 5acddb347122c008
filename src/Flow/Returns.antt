-- ===== src/Flow/Returns.antt =====
-- A function that `analyze_control_flow` (src/flow/control_flow.cc) does not report returns a value.
use c_cloth.Base.{
  ℕ, Bool, true, false, ◌≡◌, ◌≢◌, refl, ◌∙◌, some, List, [], ◌∷◌, get_elem?, All, arith,
}
use c_cloth.Base.Options.{map_some, >>=-eq-some, map_some-inv}
use c_cloth.Source.{DiagnosticEngine, report, report_error}
use c_cloth.Flow.{flow}
use c_cloth.Flow.Meaning.{normal, Runs}
use c_cloth.Flow.Sound.{analyze_block-Allows}
use c_cloth.Flow.Counts.{analyze_block-Warns}
use c_cloth.Semantics.{SemanticSymbol, SemanticModel}
use c_cloth.Flow.Callables.{
  DeclarationKind, function, constructor, MemberReference, HirCallable, HirFileClass, FlowState,
  analyze, missing_return, function_flow, analyze_function, analyze_constructor,
  field_initializers_complete, analyze_kind, analyze_member, analyze_members, analyze_files,
  analyze_control_flow,
}

abbrev HasErrors : FlowState → Type 0
HasErrors state = state.diagnostics.has_errors ≡ true

-- A function that has to return a value.
pub record Returns (semantics : SemanticModel) (symbol : SemanticSymbol) : Type 0 where
  pub valid : symbol.is_valid ≡ true
  pub concrete : symbol.is_abstract ≡ false
  pub not_void : symbol.type ≢ semantics.void_type
  pub not_error : symbol.type ≢ semantics.error_type

-- No run of the body of such a function ends without a `return`.
abbrev pub ReturnsValue : SemanticModel → HirCallable → Type 0
ReturnsValue semantics callable =
    Returns semantics (semantics.symbol callable.symbol)
    → ¬ Runs semantics.bottom_type callable.body normal

abbrev pub MemberReturns : SemanticModel → HirFileClass → MemberReference → Type 0
MemberReturns semantics file member =
    member.kind ≡ function
    → (c : HirCallable) → get_elem? file.functions member.index ≡ some c
    → ReturnsValue semantics c

module _ (semantics : SemanticModel) where
  analyze-has_errors :
      (c : HirCallable) (reached : Bool) (engine : DiagnosticEngine)
      → (analyze semantics c reached engine).1.has_errors ≡ engine.has_errors
  unfolding analyze
  analyze-has_errors c reached engine =
      (analyze_block-Warns semantics.bottom_type c.body (flow reached false) (record {
        reachable_statements = 0;
        unreachable_statements = 0;
        diagnostics = engine;
      })).errors

  function_flow-has_errors :
      (c : HirCallable) (engine : DiagnosticEngine)
      → (function_flow semantics c engine).1.has_errors ≡ engine.has_errors
  unfolding function_flow
  function_flow-has_errors c engine = ground (arith, analyze-has_errors c true engine)

  analyze_function-HasErrors :
      (c : HirCallable) (state : FlowState)
      → HasErrors state
      → HasErrors (analyze_function semantics c state)
  unfolding analyze_function report_error report
  analyze_function-HasErrors c state h =
      ground (arith, function_flow-has_errors c state.diagnostics)

  analyze_constructor-HasErrors :
      (b : Bool) (c : HirCallable) (state : FlowState)
      → HasErrors state
      → HasErrors (analyze_constructor semantics b c state)
  unfolding analyze_constructor
  analyze_constructor-HasErrors b c state h = analyze-has_errors c _ state.diagnostics ∙ h

  falls_through :
      (c : HirCallable) (engine : DiagnosticEngine)
      → (semantics.symbol c.symbol).is_abstract ≡ false
      → Runs semantics.bottom_type c.body normal
      → (function_flow semantics c engine).0.can_fall_through ≡ true
  unfolding function_flow analyze
  falls_through c engine h r = rw h (
      analyze_block-Allows semantics.bottom_type r
        (record { reachable_statements = 0; unreachable_statements = 0; diagnostics = engine }))

  -- A body that may end without a `return` is an error.
  analyze_function-reports :
      (c : HirCallable) (state : FlowState)
      → Returns semantics (semantics.symbol c.symbol)
      → Runs semantics.bottom_type c.body normal
      → HasErrors (analyze_function semantics c state)
  unfolding analyze_function missing_return report_error report
  analyze_function-reports c state h r =
      ground
        (arith, h.valid, h.not_void, h.not_error, falls_through c state.diagnostics h.concrete r)

  analyze_member-HasErrors :
      (kind : DeclarationKind) (file : HirFileClass) (index : ℕ) (s t : FlowState)
      → analyze_kind semantics kind file index s ≡ some t
      → HasErrors s
      → HasErrors t
  unfolding analyze_kind
  analyze_member-HasErrors function file index s t e h =
      let (c, _, k) = map_some-inv (λ c. analyze_function semantics c s) _ e in
      rw (← k) (analyze_function-HasErrors c s h)
  analyze_member-HasErrors constructor file index s t e h =
      let (c, _, k) =
        map_some-inv
          (λ c.
            analyze_constructor semantics (field_initializers_complete semantics file.fields) c s)
          _ e in
      rw (← k) (analyze_constructor-HasErrors _ c s h)
  analyze_member-HasErrors _ file index s t e h = cc

  members-HasErrors :
      (file : HirFileClass) (members : List MemberReference) (s t : FlowState)
      → analyze_members semantics file members s ≡ some t
      → HasErrors s
      → HasErrors t
  unfolding analyze_members analyze_member
  members-HasErrors file [] s t e h = cc
  members-HasErrors file (m ∷ members) s t e h =
      let (u, k, l) =
        >>=-eq-some (analyze_member semantics file m s) (analyze_members semantics file members)
          e in
      members-HasErrors file members u t l (analyze_member-HasErrors m.kind file m.index s u k h)

  files-HasErrors :
      (files : List HirFileClass) (s t : FlowState)
      → analyze_files semantics files s ≡ some t
      → HasErrors s
      → HasErrors t
  unfolding analyze_files
  files-HasErrors [] s t e h = cc
  files-HasErrors (file ∷ files) s t e h =
      let (u, k, l) =
        >>=-eq-some (analyze_members semantics file file.member_order s)
          (analyze_files semantics files) e in
      files-HasErrors files u t l (members-HasErrors file file.member_order s u k h)

  member-reports :
      (file : HirFileClass) (m : MemberReference) (s t : FlowState)
      → analyze_member semantics file m s ≡ some t
      → m.kind ≡ function
      → (c : HirCallable) → get_elem? file.functions m.index ≡ some c
      → Returns semantics (semantics.symbol c.symbol)
      → Runs semantics.bottom_type c.body normal
      → HasErrors t
  unfolding analyze_member analyze_kind
  member-reports file m s t e k c g h r =
      let f : map_some (λ c. analyze_function semantics c s) (get_elem? file.functions m.index)
          ≡ some t =
        rw k at e in
      let f' : some (analyze_function semantics c s) ≡ some t = rw g at f in
      let q : analyze_function semantics c s ≡ t = cc in rw (← q) (analyze_function-reports c s h r)

  members-return :
      (file : HirFileClass) (members : List MemberReference) (s t : FlowState)
      → analyze_members semantics file members s ≡ some t
      → t.diagnostics.has_errors ≡ false
      → All (MemberReturns semantics file) members
  unfolding analyze_members
  members-return file [] s t e h = tt
  members-return file (m ∷ members) s t e h =
      let (u, k, l) =
        >>=-eq-some (analyze_member semantics file m s) (analyze_members semantics file members)
          e in
      (
        λ kind c g v r.
            let bad =
              members-HasErrors file members u t l (member-reports file m s u k kind c g v r) in
            cc,
        members-return file members u t l h,
      )

  files-return :
      (files : List HirFileClass) (s t : FlowState)
      → analyze_files semantics files s ≡ some t
      → t.diagnostics.has_errors ≡ false
      → All (λ file. All (MemberReturns semantics file) file.member_order) files
  unfolding analyze_files
  files-return [] s t e h = tt
  files-return (file ∷ files) s t e h =
      let (u, k, l) =
        >>=-eq-some (analyze_members semantics file file.member_order s)
          (analyze_files semantics files) e in
      (
        members-return file file.member_order s u k
            (unset u.diagnostics.has_errors (λ x. files-HasErrors files u t l x)),
        files-return files u t l h,
      )
    where
      unset : (b : Bool) → (b ≡ true → t.diagnostics.has_errors ≡ true) → b ≡ false
      unset true f = let q = f refl in cc
      unset false f = refl

-- Where the analysis of control flow ends without an error, no run of the body of a function of one
-- of the files that is valid, not abstract and has a type other than `void` and the type of errors
-- comes to its end without a `return`.
pub analyze_control_flow-ReturnsValue :
    (semantics : SemanticModel) (files : List HirFileClass) (engine : DiagnosticEngine)
    (t : FlowState)
    → analyze_control_flow semantics files engine ≡ some t
    → t.diagnostics.has_errors ≡ false
    → All (λ file. All (MemberReturns semantics file) file.member_order) files
unfolding analyze_control_flow
analyze_control_flow-ReturnsValue semantics files engine t e h =
    files-return semantics files (record { callables = []; diagnostics = engine }) t e h
