-- ===== src/Source.antt =====
-- include/cloth/source/source_location.h, source_range.h, and the diagnostics of
-- include/cloth/diagnostics/ and src/diagnostics/diagnostic_engine.cc.
use Prim.Native.String.{String}
use c_cloth.Base.{ℕ, Bool, true, false, ◌||◌, List, [], ◌∷◌, ◌++◌}
use c_cloth.Base.Text.{Bytes}

pub record SourceLocation : Type 0 where
  pub file : Bytes
  pub byte_offset : ℕ
  pub line : ℕ
  pub column : ℕ

pub record SourceRange : Type 0 where
  pub begin : SourceLocation
  pub end : SourceLocation

abbrev pub point_range : SourceLocation → SourceRange
point_range location = record { begin = location; end = location }

pub data DiagnosticSeverity : Type 0 where
  error warning note : DiagnosticSeverity

unfoldable pub diagnostic_severity_name : DiagnosticSeverity → String
diagnostic_severity_name error = "error"
diagnostic_severity_name warning = "warning"
diagnostic_severity_name note = "note"

pub record Diagnostic : Type 0 where
  pub severity : DiagnosticSeverity
  pub range : SourceRange
  pub message : Bytes

pub record DiagnosticEngine : Type 0 where
  pub diagnostics : List Diagnostic
  pub has_errors : Bool

abbrev pub no_diagnostics : DiagnosticEngine
no_diagnostics = record { diagnostics = []; has_errors = false }

abbrev pub is_error : DiagnosticSeverity → Bool
is_error error = true
is_error _ = false

-- `report` on a range. The one on a location reports its point range.
unfoldable pub report :
    DiagnosticSeverity → SourceRange → Bytes → DiagnosticEngine → DiagnosticEngine
report severity range message engine = record {
  diagnostics =
      engine.diagnostics ++ record { severity = severity; range = range; message = message } ∷ [];
  has_errors = engine.has_errors || is_error severity;
}

unfoldable pub report_error : SourceRange → Bytes → DiagnosticEngine → DiagnosticEngine
unfolding report
report_error range message engine = report error range message engine

unfoldable pub report_warning : SourceRange → Bytes → DiagnosticEngine → DiagnosticEngine
unfolding report
report_warning range message engine = report warning range message engine
