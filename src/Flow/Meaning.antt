-- ===== src/Flow/Meaning.antt =====
-- What statements of include/cloth/hir/hir.h do, as far as control goes: the ways in which one can end.
-- The values of expressions are left open.
use c_cloth.Base.{ℕ, Bool, true, false, ◌≡◌, ◌≢◌, Option, none, some}
use c_cloth.Base.Text.{Bytes, codes}
use c_cloth.Scalar.Literals.{LiteralKind}
use c_cloth.Source.{SourceRange}
use c_cloth.Flow.{
  HirExpression, literal, grouped, computed, HirStatement, HirBlock, HirElse, HirInitializer,
  HirArms, invalid_statement, local_statement, return_statement, expression_statement, if_statement,
  while_statement, for_each_statement, for_statement, switch_statement, break_statement,
  continue_statement, nested_statement, no_statements, statement_then, no_else, else_block,
  no_initializer, initializer, arm_then,
}

-- How a statement ends, if it does and throws nothing.
pub data Outcome : Type 0 where
  normal returned broke continued : Outcome

-- A loop goes on after these, and ends after a `break`.
pub data GoesOn : Outcome → Type 0 where
  after_body : GoesOn normal
  after_continue : GoesOn continued

module _ (bottom_type : ℕ) where
  -- `e` completes, and as a condition it then has the value `b`. An expression of the type `bottom`
  -- does not complete, and the literal `true` is true.
  pub data Completes : HirExpression → Bool → Type 0 where
    value :
        (type : ℕ) (kind : LiteralKind) (lexeme : Bytes) (b : Bool)
        → type ≢ bottom_type
        → (kind ≡ LiteralKind.boolean → lexeme ≡ codes "true" → b ≡ true)
        → Completes (literal type kind lexeme) b
    group :
        (type : ℕ) {e : HirExpression} {b : Bool}
        → type ≢ bottom_type
        → Completes e b
        → Completes (grouped type e) b
    result : (type : ℕ) (b : Bool) → type ≢ bottom_type → Completes (computed type) b

  -- A part that may be missing: no initial value, no condition.
  pub data SomeCompletes : Option HirExpression → Bool → Type 0 where
    absent : SomeCompletes none true
    present : {e : HirExpression} {b : Bool} → Completes e b → SomeCompletes (some e) b

  mutual
    pub data Executes : HirStatement → Outcome → Type 0 where
      invalid : Executes invalid_statement normal
      declares :
          {e : Option HirExpression} {b : Bool}
          → SomeCompletes e b
          → Executes (local_statement e) normal
      returns : {e : Option HirExpression} → Executes (return_statement e) returned
      evaluates :
          {e : HirExpression} {b : Bool} → Completes e b → Executes (expression_statement e) normal
      takes_then :
          {c : HirExpression} {t : HirBlock} {e : HirElse} {o : Outcome}
          → Completes c true
          → Runs t o
          → Executes (if_statement c t e) o
      takes_else :
          {c : HirExpression} {t : HirBlock} {e : HirElse} {o : Outcome}
          → Completes c false
          → RunsElse e o
          → Executes (if_statement c t e) o
      while_ends :
          {c : HirExpression} {t : HirBlock}
          → Completes c false
          → Executes (while_statement c t) normal
      while_breaks :
          {c : HirExpression} {t : HirBlock}
          → Completes c true
          → Runs t broke
          → Executes (while_statement c t) normal
      while_returns :
          {c : HirExpression} {t : HirBlock}
          → Completes c true
          → Runs t returned
          → Executes (while_statement c t) returned
      while_goes_on :
          {c : HirExpression} {t : HirBlock} {m o : Outcome}
          → Completes c true
          → Runs t m
          → GoesOn m
          → Executes (while_statement c t) o
          → Executes (while_statement c t) o
      each_ends :
          {e : HirExpression} {t : HirBlock} {b : Bool}
          → Completes e b
          → Executes (for_each_statement e t) normal
      each_returns :
          {e : HirExpression} {t : HirBlock} {b : Bool}
          → Completes e b
          → Runs t returned
          → Executes (for_each_statement e t) returned
      for_runs :
          {i : HirInitializer} {c : Option HirExpression} {t : HirBlock} {o : Outcome}
          → RunsInitializer i
          → Iterates c t o
          → Executes (for_statement i c t) o
      selects :
          {e : HirExpression} {arms : HirArms} {x : Bool} {b : Bool} {o : Outcome}
          → Completes e b
          → RunsArm arms o
          → Executes (switch_statement e arms x) o
      selects_none :
          {e : HirExpression} {arms : HirArms} {b : Bool}
          → Completes e b
          → Executes (switch_statement e arms false) normal
      breaks : Executes break_statement broke
      continues : Executes continue_statement continued
      nests : {t : HirBlock} {o : Outcome} → Runs t o → Executes (nested_statement t) o

    -- The rounds of a `for` after its initializer. The updates may not complete, or go on.
    pub data Iterates : Option HirExpression → HirBlock → Outcome → Type 0 where
      for_ends :
          {c : Option HirExpression} {t : HirBlock} → SomeCompletes c false → Iterates c t normal
      for_breaks :
          {c : Option HirExpression} {t : HirBlock}
          → SomeCompletes c true
          → Runs t broke
          → Iterates c t normal
      for_returns :
          {c : Option HirExpression} {t : HirBlock}
          → SomeCompletes c true
          → Runs t returned
          → Iterates c t returned
      for_goes_on :
          {c : Option HirExpression} {t : HirBlock} {m o : Outcome}
          → SomeCompletes c true
          → Runs t m
          → GoesOn m
          → Iterates c t o
          → Iterates c t o

    pub data Runs : HirBlock → Outcome → Type 0 where
      nothing : Runs no_statements normal
      stops :
          {range : SourceRange} {s : HirStatement} {t : HirBlock} {o : Outcome}
          → Executes s o
          → o ≢ normal
          → Runs (statement_then range s t) o
      goes_on :
          {range : SourceRange} {s : HirStatement} {t : HirBlock} {o : Outcome}
          → Executes s normal
          → Runs t o
          → Runs (statement_then range s t) o

    pub data RunsElse : HirElse → Outcome → Type 0 where
      skips : RunsElse no_else normal
      otherwise : {t : HirBlock} {o : Outcome} → Runs t o → RunsElse (else_block t) o

    -- An initializer is a declaration or an expression, which can only end normally.
    pub data RunsInitializer : HirInitializer → Type 0 where
      starts : RunsInitializer no_initializer
      initializes : {s : HirStatement} → Executes s normal → RunsInitializer (initializer s)

    -- One arm runs; its `break` ends the `switch`.
    pub data RunsArm : HirArms → Outcome → Type 0 where
      runs_arm :
          {t : HirBlock} {arms : HirArms} {o : Outcome}
          → Runs t o
          → o ≢ broke
          → RunsArm (arm_then t arms) o
      breaks_arm : {t : HirBlock} {arms : HirArms} → Runs t broke → RunsArm (arm_then t arms) normal
      later :
          {t : HirBlock} {arms : HirArms} {o : Outcome}
          → RunsArm arms o
          → RunsArm (arm_then t arms) o
