-- ===== src/Flow/Unreachable.antt =====
-- The statements that the analysis of src/flow/control_flow.cc reports as unreachable.
use mathlib.Core.List.{append_assoc, append-nil}
use c_cloth.Base.{
  ℕ, ◌+◌, ◌≡◌, refl, ap, sym, ◌∙◌, Bool, true, false, List, [], ◌∷◌, ◌++◌, length, arith,
}
use c_cloth.Base.Text.{codes}
use c_cloth.Source.{Diagnostic, warning, SourceRange, report, report_warning}
use c_cloth.Flow.{
  HirStatement, HirBlock, no_statements, statement_then, FlowResult, flow, Analyzer, analyze_block,
  analyze_statement, block_step, reach, warn_unreachable,
}
use c_cloth.Flow.Meaning.{Runs, normal}
use c_cloth.Flow.Sound.{analyze_block-Allows}

-- A block followed by another.
abbrev pub append : HirBlock → HirBlock → HirBlock
append no_statements rest = rest
append (statement_then range s t) rest = statement_then range s (append t rest)

-- One warning for each statement of a block, at its place and in the order of the block.
abbrev pub warnings : HirBlock → List Diagnostic
warnings no_statements = []
warnings (statement_then range s t) =
    record { severity = warning; range = range; message = codes "unreachable statement" }
    ∷ warnings t

-- What the analysis leaves where it reports the statements of a block.
abbrev pub reported : HirBlock → Analyzer → Analyzer
reported rest a = record a {
  unreachable_statements = a.unreachable_statements + length (warnings rest);
  diagnostics = record (a.diagnostics) { diagnostics = a.diagnostics.diagnostics ++ warnings rest };
}

analyzer_of : ℕ → ℕ → List Diagnostic → Bool → Analyzer
analyzer_of reachable unreachable diagnostics has_errors = record {
  reachable_statements = reachable;
  unreachable_statements = unreachable;
  diagnostics = record { diagnostics = diagnostics; has_errors = has_errors };
}

analyzer-eq :
    (n : ℕ) {u v : ℕ} {ds es : List Diagnostic} {d e : Bool}
    → u ≡ v
    → ds ≡ es
    → d ≡ e
    → analyzer_of n u ds d ≡ analyzer_of n v es e
analyzer-eq n p q r = rw (p, q, r) refl

reported-none : (a : Analyzer) → reported no_statements a ≡ a
unfolding analyzer_of
reported-none a =
    analyzer-eq a.reachable_statements (omega arith) (append-nil a.diagnostics.diagnostics) refl

reported-then :
    (range : SourceRange) (s : HirStatement) (t : HirBlock) (a : Analyzer)
    → reported t (warn_unreachable range a) ≡ reported (statement_then range s t) a
unfolding warn_unreachable report_warning report analyzer_of
reported-then range s t a =
    let warned : Diagnostic = record {
      severity = warning;
      range = range;
      message = codes "unreachable statement";
    } in
    analyzer-eq a.reachable_statements (omega arith)
      (append_assoc a.diagnostics.diagnostics (warned ∷ []) (warnings t)) (ground arith)

module _ (bottom_type : ℕ) where
  analyze_block-append :
      (t rest : HirBlock) (before : FlowResult) (a : Analyzer)
      → let r = analyze_block bottom_type t before a in
        analyze_block bottom_type (append t rest) before a ≡ analyze_block bottom_type rest r.0 r.1
  unfolding analyze_block
  analyze_block-append no_statements rest before a = refl
  analyze_block-append (statement_then range s t) rest before a =
      let next = block_step range before a (analyze_statement bottom_type s (reach a)) in
      analyze_block-append t rest next.0 next.1

  dead_step :
      (range : SourceRange) (before : FlowResult) (a : Analyzer) (r : FlowResult × Analyzer)
      → before.can_fall_through ≡ false
      → block_step range before a r ≡ (before, warn_unreachable range a)
  unfolding block_step
  dead_step range before a r e = rw e refl

  dead-reported :
      (rest : HirBlock) (before : FlowResult) (a : Analyzer)
      → before.can_fall_through ≡ false
      → analyze_block bottom_type rest before a ≡ (before, reported rest a)
  unfolding analyze_block
  dead-reported no_statements before a e = ap (λ x. (before, x)) (sym (reported-none a))
  dead-reported (statement_then range s t) before a e =
      rw (dead_step range before a (analyze_statement bottom_type s (reach a)) e) (
        dead-reported t before (warn_unreachable range a) e
        ∙ ap (λ x. (before, x)) (reported-then range s t a))

  -- What the analysis does with the statements behind the ones before them.
  pub record IsReported (first rest : HirBlock) (a : Analyzer) : Type 0 where
    -- Where those do not come to their end, no run does, and each statement is reported.
    pub behind :
        let r = analyze_block bottom_type first (flow true false) a in
        r.0.can_fall_through ≡ false
        → (¬ Runs bottom_type first normal)
          × (analyze_block bottom_type (append first rest) (flow true false) a
              ≡ (r.0, reported rest r.1))
    -- Where they do, the next is analysed, and nothing else is reported for it.
    pub reached :
        (range : SourceRange) (s : HirStatement)
        → let r = analyze_block bottom_type first (flow true false) a in
          let t =
            analyze_block bottom_type
              (append first (statement_then range s no_statements))
              (flow true false)
              a in
          r.0.can_fall_through ≡ true → t.1 ≡ (analyze_statement bottom_type s (reach r.1)).1

  live_step :
      (range : SourceRange) (before : FlowResult) (a : Analyzer) (r : FlowResult × Analyzer)
      → before.can_fall_through ≡ true
      → (block_step range before a r).1 ≡ r.1
  unfolding block_step
  live_step range before a r e = rw e refl

  -- Where the analysis finds that statements do not come to their end, no run of them does, and it
  -- reports each statement that follows in the block with one warning at its place, in their order, adds
  -- their number to the unreachable ones, and reports and counts nothing else for them; where they may come
  -- to their end, it does for the statement that follows what it does for that statement alone.
  pub analyze_block-IsReported : (first rest : HirBlock) (a : Analyzer) → IsReported first rest a
  unfolding analyze_block
  analyze_block-IsReported first rest a =
      let r = analyze_block bottom_type first (flow true false) a in
      record {
        behind = λ e. (
          λ runs. let falls = analyze_block-Allows bottom_type runs a in cc,
          analyze_block-append first rest (flow true false) a ∙ dead-reported rest r.0 r.1 e,
        );
        reached = λ range s e.
            ap (λ x. x.1)
              (analyze_block-append first (statement_then range s no_statements) (flow true false)
                a)
            ∙ live_step range r.0 r.1 (analyze_statement bottom_type s (reach r.1)) e;
      }
