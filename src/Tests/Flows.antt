-- ===== src/Tests/Flows.antt =====
-- Concrete inputs for src/flow/control_flow.cc.
use c_cloth.Base.{true, false, none, some, [], ◌∷◌, ◌≡◌, refl, All, arith}
use c_cloth.Base.Text.{codes}
use c_cloth.Numeric.{TypeKind}
use c_cloth.Source.{SourceRange, point_range, no_diagnostics}
use c_cloth.Flow.{
  HirExpression, literal, computed, HirBlock, Analyzer, flow, analyze_block, no_statements,
  statement_then, while_statement, if_statement, return_statement, break_statement, else_block,
}
use c_cloth.Flow.Meaning.{otherwise, Runs, Executes, Completes, normal}
use c_cloth.Flow.Sound.{Allows, analyze_block-Allows}
use c_cloth.Flow.Unreachable.{IsReported, analyze_block-IsReported}
use c_cloth.Tests.Identities.{point}
use c_cloth.Semantics.{FileTypeKind, SemanticModel, SymbolKind, Visibility}
use c_cloth.Flow.Callables.{DeclarationKind, HirFileClass, FlowState, analyze_control_flow}
use c_cloth.Flow.Returns.{MemberReturns, analyze_control_flow-ReturnsValue}
use c_cloth.Scalar.Literals.{LiteralKind}

abbrev here : SourceRange
here = point_range (record { file = codes "a.co"; byte_offset = 0; line = 1; column = 1 })

-- Type 0 is the one that does not complete, type 1 is `bool`.
abbrev true_literal : HirExpression
true_literal = literal 1 LiteralKind.boolean (codes "true")

abbrev return_or_break : HirBlock
return_or_break =
    statement_then here
      (if_statement (computed 1) (statement_then here (return_statement none) no_statements)
        (else_block (statement_then here break_statement no_statements)))
      (statement_then here break_statement no_statements)

-- `while (true) { if (c) { return; } else { break; } break; }`
abbrev looping : HirBlock
looping = statement_then here (while_statement true_literal return_or_break) no_statements

abbrev fresh : Analyzer
fresh = record {
  reachable_statements = 0;
  unreachable_statements = 0;
  diagnostics = no_diagnostics;
}

looping_counts : (analyze_block 0 looping (flow true false) fresh).1.unreachable_statements ≡ 1
unfolding analyze_block
looping_counts = refl

looping-Runs : Runs 0 looping normal
looping-Runs =
    Runs.goes_on
      (Executes.while_breaks
        (Completes.value 1 LiteralKind.boolean (codes "true") true (omega arith) (λ k l. refl))
        (Runs.stops
          (Executes.takes_else (Completes.result 1 false (omega arith))
            (otherwise (Runs.stops Executes.breaks (λ e. cc))))
          (λ e. cc)))
      Runs.nothing

analyze_block-Allows_example : Allows (analyze_block 0 looping (flow true false) fresh).0 normal
analyze_block-Allows_example = analyze_block-Allows 0 looping-Runs fresh

abbrev left_at_once : HirBlock
left_at_once = statement_then here (return_statement none) no_statements

left_at_once-ends :
    (analyze_block 0 left_at_once (flow true false) fresh).0.can_fall_through ≡ false
unfolding analyze_block
left_at_once-ends = refl

analyze_block-IsReported_example : IsReported 0 left_at_once return_or_break fresh
analyze_block-IsReported_example = analyze_block-IsReported 0 left_at_once return_or_break fresh

abbrev semantics : SemanticModel
semantics = record {
  type =
      λ n. record { kind = TypeKind.bool; name = codes "bool"; file = none; element_type = none };
  type_count = 4;
  symbol = λ n. record {
    kind = SymbolKind.function;
    name = codes "f";
    type = 1;
    parameter_types = [];
    visibility = Visibility.public;
    file = none;
    range = here;
    is_valid = true;
    is_static = false;
    is_abstract = false;
    overridden_symbol = none;
    thrown_types = [];
  };
  symbol_count = 8;
  file = λ n. record {
    type = 0;
    self_symbol = 0;
    kind = FileTypeKind.class;
    identity = point;
    interface_functions = [];
    interface_implementations = [];
  };
  file_count = 1;
  bottom_type = 0;
  void_type = 2;
  error_type = 3;
  string_type = 4;
}

-- `if (c) { return v; } else { return v; }`
abbrev returning : HirFileClass
returning = record {
  fields = [];
  functions =
      record {
        symbol = 7;
        initializer = none;
        body =
            statement_then here
              (if_statement (computed 1)
                (statement_then here (return_statement (some (computed 1))) no_statements)
                (else_block
                  (statement_then here (return_statement (some (computed 1))) no_statements)))
              no_statements;
      }
      ∷ [];
  constructors = [];
  member_order = record { kind = DeclarationKind.function; index = 0 } ∷ [];
}

abbrev returning_flow : FlowState
returning_flow = record {
  callables =
      record {
        symbol = 7;
        can_fall_through = false;
        reachable_statements = 3;
        unreachable_statements = 0;
      }
      ∷ [];
  diagnostics = no_diagnostics;
}

returning_runs :
    analyze_control_flow semantics (returning ∷ []) no_diagnostics ≡ some returning_flow
unfolding analyze_control_flow
returning_runs = refl

analyze_control_flow-ReturnsValue_example :
    All (λ file. All (MemberReturns semantics file) file.member_order) (returning ∷ [])
analyze_control_flow-ReturnsValue_example =
    analyze_control_flow-ReturnsValue semantics (returning ∷ []) no_diagnostics returning_flow
      returning_runs refl
