-- ===== src/Flow.antt =====
-- The intermediate form of statements (include/cloth/hir/hir.h), as far as the analysis of control
-- flow reads it, and that analysis on one callable (src/flow/control_flow.cc). The storage keeps
-- blocks, statements and expressions apart, by number; here each stands where its number does.

pub mod Meaning
pub mod Sound
pub mod Counts
pub mod Unreachable
pub mod Callables
pub mod Returns
use c_cloth.Base.{
  ℕ, ◌+◌, Bool, true, false, ◌==◌, if◌then◌else◌, ◌&&◌, ◌||◌, not, Option, none, some,
}
use c_cloth.Base.Text.{Bytes, codes, text_eq}
use c_cloth.Scalar.Literals.{LiteralKind}
use c_cloth.Source.{SourceRange, DiagnosticEngine, report_warning}

-- An expression has a type; of its parts only those of literals and groups are read.
pub data HirExpression : Type 0 where
  literal : ℕ → LiteralKind → Bytes → HirExpression
  grouped : ℕ → HirExpression → HirExpression
  computed : ℕ → HirExpression

abbrev pub type_of : HirExpression → ℕ
type_of (literal type kind lexeme) = type
type_of (grouped type e) = type
type_of (computed type) = type

-- `HirStatementData`; a block has each statement with its range.
mutual
  pub data HirStatement : Type 0 where
    invalid_statement : HirStatement
    local_statement : Option HirExpression → HirStatement
    return_statement : Option HirExpression → HirStatement
    expression_statement : HirExpression → HirStatement
    if_statement : HirExpression → HirBlock → HirElse → HirStatement
    while_statement : HirExpression → HirBlock → HirStatement
    for_each_statement : HirExpression → HirBlock → HirStatement
    for_statement : HirInitializer → Option HirExpression → HirBlock → HirStatement
    switch_statement : HirExpression → HirArms → Bool → HirStatement
    break_statement : HirStatement
    continue_statement : HirStatement
    nested_statement : HirBlock → HirStatement

  pub data HirBlock : Type 0 where
    no_statements : HirBlock
    statement_then : SourceRange → HirStatement → HirBlock → HirBlock

  pub data HirElse : Type 0 where
    no_else : HirElse
    else_block : HirBlock → HirElse

  pub data HirInitializer : Type 0 where
    no_initializer : HirInitializer
    initializer : HirStatement → HirInitializer

  pub data HirArms : Type 0 where
    no_arms : HirArms
    arm_then : HirBlock → HirArms → HirArms

pub record FlowResult : Type 0 where
  pub can_fall_through : Bool
  pub has_break : Bool

abbrev pub flow : Bool → Bool → FlowResult
flow falls breaks = record { can_fall_through = falls; has_break = breaks }

-- What `CallableAnalyzer` changes.
pub record Analyzer : Type 0 where
  pub reachable_statements : ℕ
  pub unreachable_statements : ℕ
  pub diagnostics : DiagnosticEngine

unfoldable pub is_boolean_literal : LiteralKind → Bool
is_boolean_literal LiteralKind.boolean = true
is_boolean_literal _ = false

unfoldable pub is_true : HirExpression → Bool
unfolding is_boolean_literal
is_true (literal type kind lexeme) = is_boolean_literal kind && text_eq lexeme (codes "true")
is_true (grouped type e) = is_true e
is_true (computed type) = false

unfoldable pub reach : Analyzer → Analyzer
reach a = record a { reachable_statements = a.reachable_statements + 1 }

unfoldable pub warn_unreachable : SourceRange → Analyzer → Analyzer
warn_unreachable range a = record a {
  unreachable_statements = a.unreachable_statements + 1;
  diagnostics = report_warning range (codes "unreachable statement") a.diagnostics;
}

-- The flow of a block before a statement, joined with that of the statement.
unfoldable pub join_block : FlowResult → FlowResult → FlowResult
join_block before after = flow after.can_fall_through (before.has_break || after.has_break)

-- One round of the loop over a block: a statement that is not reached is reported, any other is
-- analysed, with the result `r`.
unfoldable pub block_step :
    SourceRange → FlowResult → Analyzer → FlowResult × Analyzer → FlowResult × Analyzer
unfolding warn_unreachable join_block
block_step range before a r =
    if not before.can_fall_through
    then (before, warn_unreachable range a)
    else (join_block before r.0, r.1)

unfoldable pub join_branches : FlowResult → FlowResult → FlowResult
join_branches a b = flow (a.can_fall_through || b.can_fall_through) (a.has_break || b.has_break)

-- A statement whose first expression does not complete is analysed no further.
unfoldable pub unless_never : Bool → Analyzer → FlowResult × Analyzer → FlowResult × Analyzer
unless_never never a r = if never then (flow false false, a) else r

abbrev pub some_can_exit : Option HirExpression → Bool
some_can_exit none = false
some_can_exit (some e) = not (is_true e)

-- The type of the expressions that do not complete, `bottom_type` of the semantic model.
module _ (bottom_type : ℕ) where
  unfoldable pub never_completes : HirExpression → Bool
  never_completes e = type_of e == bottom_type

  abbrev pub some_never_completes : Option HirExpression → Bool
  some_never_completes none = false
  some_never_completes (some e) = never_completes e

  -- `for` ends with its initializer, where that does not fall through.
  unfoldable pub for_flow :
      Option HirExpression → FlowResult × Analyzer → FlowResult × Analyzer → FlowResult × Analyzer
  for_flow condition start body =
      if not start.0.can_fall_through
      then start
      else unless_never (some_never_completes condition) start.1
          (flow (some_can_exit condition || body.0.has_break) false, body.1)

  unfoldable mutual
    unfolding never_completes reach block_step join_branches unless_never for_flow is_true

    -- The rest of a block after statements with the flow `before`.
    pub analyze_block : HirBlock → FlowResult → Analyzer → FlowResult × Analyzer
    analyze_block no_statements before a = (before, a)
    analyze_block (statement_then range s rest) before a =
        let r = analyze_statement s (reach a) in
        let next = block_step range before a r in analyze_block rest next.0 next.1

    pub analyze_statement : HirStatement → Analyzer → FlowResult × Analyzer
    analyze_statement invalid_statement a = (flow true false, a)
    analyze_statement (local_statement value) a =
        unless_never (some_never_completes value) a (flow true false, a)
    analyze_statement (return_statement value) a = (flow false false, a)
    analyze_statement (expression_statement e) a =
        unless_never (never_completes e) a (flow true false, a)
    analyze_statement (if_statement condition yes_block no_block) a =
        let r = analyze_block yes_block (flow true false) a in
        let s = analyze_else no_block r.1 in
        unless_never (never_completes condition) a (join_branches r.0 s.0, s.1)
    analyze_statement (while_statement condition body) a =
        let r = analyze_block body (flow true false) a in
        unless_never (never_completes condition) a
          (flow (not (is_true condition) || r.0.has_break) false, r.1)
    analyze_statement (for_each_statement iterable body) a =
        let r = analyze_block body (flow true false) a in
        unless_never (never_completes iterable) a (flow true false, r.1)
    analyze_statement (for_statement start condition body) a =
        let r = analyze_initializer start a in
        for_flow condition r (analyze_block body (flow true false) r.1)
    analyze_statement (switch_statement selector arms is_exhaustive) a =
        let r = analyze_arms arms (not is_exhaustive) a in
        unless_never (never_completes selector) a (flow r.0 false, r.1)
    analyze_statement break_statement a = (flow false true, a)
    analyze_statement continue_statement a = (flow false false, a)
    analyze_statement (nested_statement block) a = analyze_block block (flow true false) a

    pub analyze_else : HirElse → Analyzer → FlowResult × Analyzer
    analyze_else no_else a = (flow true false, a)
    analyze_else (else_block block) a = analyze_block block (flow true false) a

    pub analyze_initializer : HirInitializer → Analyzer → FlowResult × Analyzer
    analyze_initializer no_initializer a = (flow true false, a)
    analyze_initializer (initializer s) a = analyze_statement s a

    -- Breaks in arms belong to the `switch`.
    pub analyze_arms : HirArms → Bool → Analyzer → Bool × Analyzer
    analyze_arms no_arms falls a = (falls, a)
    analyze_arms (arm_then body arms) falls a =
        let r = analyze_block body (flow true false) a in
        analyze_arms arms (falls || r.0.can_fall_through || r.0.has_break) r.1
