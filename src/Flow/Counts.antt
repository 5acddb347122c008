-- ===== src/Flow/Counts.antt =====
-- What the analysis of src/flow/control_flow.cc reports: a warning for each statement it counts as
-- unreachable, and nothing else.
use c_cloth.Base.{
  Bool-cases, inl, inr, ℕ, ◌+◌, Bool, true, false, ◌≡◌, refl, ◌||◌, not, Option, length,
  length-append, ◌∷◌, [], arith,
}
use c_cloth.Base.Text.{codes}
use c_cloth.Source.{Diagnostic, warning, SourceRange, report, report_warning}
use c_cloth.Flow.{
  HirExpression, HirStatement, HirBlock, HirElse, HirInitializer, HirArms, FlowResult, flow,
  Analyzer, analyze_block, analyze_statement, analyze_else, analyze_initializer, analyze_arms,
  block_step, reach, unless_never, for_flow, some_never_completes,
}

-- What the analysis adds from `a` to `b`: no error, and as many diagnostics as unreachable statements.
pub record Warns (a b : Analyzer) : Type 0 where
  pub errors : b.diagnostics.has_errors ≡ a.diagnostics.has_errors
  pub counted :
      length b.diagnostics.diagnostics + a.unreachable_statements
      ≡ length a.diagnostics.diagnostics + b.unreachable_statements

Warns-refl : (a : Analyzer) → Warns a a
Warns-refl a = record { errors = refl; counted = refl }

Warns-trans : (a b c : Analyzer) → Warns a b → Warns b c → Warns a c
Warns-trans a b c h k = ground arith

block_step-Warns :
    (range : SourceRange) (before : FlowResult) (a : Analyzer) (r : FlowResult × Analyzer)
    → Warns (reach a) r.1
    → Warns a (block_step range before a r).1
unfolding block_step reach report report_warning
block_step-Warns range before a r h =
    let warned : Diagnostic = record {
      severity = warning;
      range = range;
      message = codes "unreachable statement";
    } in
    ground (arith, length-append a.diagnostics.diagnostics (warned ∷ []))

unless_never-Warns :
    (never : Bool) (a : Analyzer) (r : FlowResult × Analyzer)
    → Warns a r.1
    → Warns a (unless_never never a r).1
unfolding unless_never
unless_never-Warns true a r h = Warns-refl a
unless_never-Warns false a r h = h

module _ (bottom_type : ℕ) where
  for_flow-Warns :
      (c : Option HirExpression) (a : Analyzer) (start body : FlowResult × Analyzer)
      → Warns a start.1
      → Warns start.1 body.1
      → Warns a (for_flow bottom_type c start body).1
  unfolding for_flow
  for_flow-Warns c a start body h k = elim (Bool-cases start.0.can_fall_through) [
    | inl e ↦ rw e (
        Warns-trans a start.1 _ h
          (unless_never-Warns (some_never_completes bottom_type c) start.1 _ k))
    | inr e ↦ rw e h
  ]

  mutual
    unfolding analyze_block

    block-Warns :
        (t : HirBlock) (before : FlowResult) (a : Analyzer)
        → Warns a (analyze_block bottom_type t before a).1
    block-Warns HirBlock.no_statements before a = Warns-refl a
    block-Warns (HirBlock.statement_then range s t) before a =
        let r = analyze_statement bottom_type s (reach a) in
        let next = block_step range before a r in
        Warns-trans a next.1 _ (block_step-Warns range before a r (statement-Warns s (reach a)))
          (block-Warns t next.0 next.1)

    statement-Warns :
        (s : HirStatement) (a : Analyzer) → Warns a (analyze_statement bottom_type s a).1
    statement-Warns HirStatement.invalid_statement a = Warns-refl a
    statement-Warns (HirStatement.local_statement e) a = unless_never-Warns _ a _ (Warns-refl a)
    statement-Warns (HirStatement.return_statement e) a = Warns-refl a
    statement-Warns (HirStatement.expression_statement e) a =
        unless_never-Warns _ a _ (Warns-refl a)
    statement-Warns (HirStatement.if_statement c t e) a =
        let r = analyze_block bottom_type t (flow true false) a in
        unless_never-Warns _ a _
          (Warns-trans a r.1 _ (block-Warns t (flow true false) a) (else-Warns e r.1))
    statement-Warns (HirStatement.while_statement c t) a =
        unless_never-Warns _ a _ (block-Warns t (flow true false) a)
    statement-Warns (HirStatement.for_each_statement c t) a =
        unless_never-Warns _ a _ (block-Warns t (flow true false) a)
    statement-Warns (HirStatement.for_statement i c t) a =
        let r = analyze_initializer bottom_type i a in
        for_flow-Warns c a r (analyze_block bottom_type t (flow true false) r.1)
          (initializer-Warns i a) (block-Warns t (flow true false) r.1)
    statement-Warns (HirStatement.switch_statement e arms x) a =
        unless_never-Warns _ a _ (arms-Warns arms (not x) a)
    statement-Warns HirStatement.break_statement a = Warns-refl a
    statement-Warns HirStatement.continue_statement a = Warns-refl a
    statement-Warns (HirStatement.nested_statement t) a = block-Warns t (flow true false) a

    else-Warns : (e : HirElse) (a : Analyzer) → Warns a (analyze_else bottom_type e a).1
    else-Warns HirElse.no_else a = Warns-refl a
    else-Warns (HirElse.else_block t) a = block-Warns t (flow true false) a

    initializer-Warns :
        (i : HirInitializer) (a : Analyzer) → Warns a (analyze_initializer bottom_type i a).1
    initializer-Warns HirInitializer.no_initializer a = Warns-refl a
    initializer-Warns (HirInitializer.initializer s) a = statement-Warns s a

    arms-Warns :
        (arms : HirArms) (falls : Bool) (a : Analyzer)
        → Warns a (analyze_arms bottom_type arms falls a).1
    arms-Warns HirArms.no_arms falls a = Warns-refl a
    arms-Warns (HirArms.arm_then t arms) falls a =
        let r = analyze_block bottom_type t (flow true false) a in
        Warns-trans a r.1 _ (block-Warns t (flow true false) a)
          (arms-Warns arms (falls || r.0.can_fall_through || r.0.has_break) r.1)

  -- The analysis of a block adds to the diagnostics as many as it adds to the count of unreachable
  -- statements, and none of them is an error.
  pub analyze_block-Warns :
      (t : HirBlock) (before : FlowResult) (a : Analyzer)
      → Warns a (analyze_block bottom_type t before a).1
  analyze_block-Warns t before a = block-Warns t before a
