-- ===== src/Flow/Callables.antt =====
-- `analyze_control_flow` (src/flow/control_flow.cc): the functions and constructors of each file in
-- the order of its members, with what it reports. The semantic model is the part that this reads.
use c_cloth.Base.{
  ℕ, Bool, true, false, ◌/=◌, if◌then◌else◌, ◌&&◌, not, Option, none, some, List, [], ◌∷◌, ◌++◌,
  all, get_elem?,
}
use c_cloth.Base.Text.{Bytes, codes}
use c_cloth.Base.Options.{◌>>=◌, map_some}
use c_cloth.Source.{DiagnosticEngine, report_error}
use c_cloth.Semantics.{SemanticSymbol, SemanticModel}
use c_cloth.Flow.{
  HirExpression, HirBlock, flow, Analyzer, analyze_block, never_completes, some_never_completes,
}

-- `DeclarationKind` and `MemberReference` (include/cloth/ast/ast.h).
pub data DeclarationKind : Type 0 where
  field function constructor nested_type : DeclarationKind

pub record MemberReference : Type 0 where
  pub kind : DeclarationKind
  pub index : ℕ

pub record HirField : Type 0 where
  pub symbol : ℕ
  pub initializer : Option HirExpression

-- The initializer of a constructor is the list of its arguments.
pub record HirCallable : Type 0 where
  pub symbol : ℕ
  pub initializer : Option (List HirExpression)
  pub body : HirBlock

pub record HirFileClass : Type 0 where
  pub fields : List HirField
  pub functions : List HirCallable
  pub constructors : List HirCallable
  pub member_order : List MemberReference

pub record CallableControlFlow : Type 0 where
  pub symbol : ℕ
  pub can_fall_through : Bool
  pub reachable_statements : ℕ
  pub unreachable_statements : ℕ

-- The list of `analysis.callables` and the diagnostics.
pub record FlowState : Type 0 where
  pub callables : List CallableControlFlow
  pub diagnostics : DiagnosticEngine

module _ (semantics : SemanticModel) where
  -- `CallableAnalyzer::analyze`, of a fresh analyzer.
  unfoldable pub analyze :
      HirCallable → Bool → DiagnosticEngine → CallableControlFlow × DiagnosticEngine
  unfolding analyze_block
  analyze callable body_is_reachable engine =
      let start : Analyzer = record {
        reachable_statements = 0;
        unreachable_statements = 0;
        diagnostics = engine;
      } in
      let r =
        analyze_block semantics.bottom_type callable.body (flow body_is_reachable false) start in
      (
        record {
          symbol = callable.symbol;
          can_fall_through = r.0.can_fall_through;
          reachable_statements = r.1.reachable_statements;
          unreachable_statements = r.1.unreachable_statements;
        },
        r.1.diagnostics,
      )

  unfoldable pub missing_return : SemanticSymbol → Bool → Bool
  missing_return symbol can_fall_through =
      symbol.is_valid
      && symbol.type /= semantics.void_type
      && symbol.type /= semantics.error_type
      && can_fall_through

  unfoldable pub missing_return_message : Bytes → Bytes
  missing_return_message name =
      codes "function '" ++ (name ++ codes "' does not return a value on every path")

  -- An abstract function has no flow.
  unfoldable pub function_flow :
      HirCallable → DiagnosticEngine → CallableControlFlow × DiagnosticEngine
  unfolding analyze
  function_flow callable engine =
      if (semantics.symbol callable.symbol).is_abstract
      then (
        record {
          symbol = callable.symbol;
          can_fall_through = false;
          reachable_statements = 0;
          unreachable_statements = 0;
        },
        engine,
      )
      else analyze callable true engine

  unfoldable pub analyze_function : HirCallable → FlowState → FlowState
  unfolding function_flow missing_return missing_return_message
  analyze_function callable state =
      let symbol = semantics.symbol callable.symbol in
      let r = function_flow callable state.diagnostics in
      record {
        callables = state.callables ++ r.0 ∷ [];
        diagnostics =
            if missing_return symbol r.0.can_fall_through
            then report_error symbol.range (missing_return_message symbol.name) r.1
            else r.1;
      }

  unfoldable pub arguments_complete : Option (List HirExpression) → Bool
  unfolding never_completes
  arguments_complete none = true
  arguments_complete (some arguments) =
      all (λ e. not (never_completes semantics.bottom_type e)) arguments

  unfoldable pub field_initializers_complete : List HirField → Bool
  unfolding never_completes
  field_initializers_complete fields =
      all
        (λ f. not (
          not (semantics.symbol f.symbol).is_static
          && some_never_completes semantics.bottom_type f.initializer))
        fields

  unfoldable pub analyze_constructor : Bool → HirCallable → FlowState → FlowState
  unfolding analyze arguments_complete
  analyze_constructor fields_complete callable state =
      let r =
        analyze callable (arguments_complete callable.initializer && fields_complete)
          state.diagnostics in
      record { callables = state.callables ++ r.0 ∷ []; diagnostics = r.1 }

  -- One round over the members; `at` throws where the index is out of range.
  unfoldable pub analyze_kind : DeclarationKind → HirFileClass → ℕ → FlowState → Option FlowState
  unfolding analyze_function analyze_constructor field_initializers_complete
  analyze_kind function file index state =
      map_some (λ c. analyze_function c state) (get_elem? file.functions index)
  analyze_kind constructor file index state =
      map_some (λ c. analyze_constructor (field_initializers_complete file.fields) c state)
        (get_elem? file.constructors index)
  analyze_kind _ file index state = some state

  unfoldable pub analyze_member : HirFileClass → MemberReference → FlowState → Option FlowState
  unfolding analyze_kind
  analyze_member file member state = analyze_kind member.kind file member.index state

  unfoldable pub analyze_members :
      HirFileClass → List MemberReference → FlowState → Option FlowState
  unfolding analyze_member
  analyze_members file [] state = some state
  analyze_members file (member ∷ members) state =
      analyze_member file member state >>= analyze_members file members

  unfoldable pub analyze_files : List HirFileClass → FlowState → Option FlowState
  unfolding analyze_members
  analyze_files [] state = some state
  analyze_files (file ∷ files) state =
      analyze_members file file.member_order state >>= analyze_files files

  unfoldable pub analyze_control_flow : List HirFileClass → DiagnosticEngine → Option FlowState
  unfolding analyze_files
  analyze_control_flow files engine =
      analyze_files files (record { callables = []; diagnostics = engine })
