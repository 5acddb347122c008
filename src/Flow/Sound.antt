-- ===== src/Flow/Sound.antt =====
-- The analysis of src/flow/control_flow.cc allows for every way in which statements end.
use c_cloth.Base.{ℕ, Bool, true, false, ◌≡◌, ◌≢◌, Option, ◌||◌, not, arith, refl}
use c_cloth.Base.Text.{codes, text_eq_iff}
use c_cloth.Scalar.Literals.{LiteralKind}
use c_cloth.Source.{SourceRange}
use c_cloth.Flow.{
  HirExpression, HirStatement, HirBlock, HirElse, HirInitializer, HirArms, FlowResult, Analyzer,
  analyze_block, analyze_statement, analyze_else, analyze_initializer, analyze_arms, is_true,
  never_completes, some_never_completes, some_can_exit, flow, reach, block_step, join_block,
  join_branches, unless_never, for_flow,
}
use c_cloth.Flow.Meaning.{
  Outcome, normal, returned, broke, continued, Completes, SomeCompletes, Executes, Iterates, Runs,
  RunsElse, RunsInitializer, RunsArm,
}

-- A flow allows for an outcome. A function may always return, and a loop that its body continues
-- goes on.
abbrev pub Allows : FlowResult → Outcome → Type 0
Allows f normal = f.can_fall_through ≡ true
Allows f broke = f.has_break ≡ true
Allows f returned = Unit {0}
Allows f continued = Unit {0}

block_step-has_break :
    (range : SourceRange) (before : FlowResult) (a : Analyzer) (r : FlowResult × Analyzer)
    → before.has_break ≡ true
    → (block_step range before a r).0.has_break ≡ true
unfolding block_step
block_step-has_break range before a r h = ground arith

block_step-reached :
    (range : SourceRange) (before : FlowResult) (a : Analyzer) (r : FlowResult × Analyzer)
    → before.can_fall_through ≡ true
    → block_step range before a r ≡ (join_block before r.0, r.1)
unfolding block_step
block_step-reached range before a r h = rw h

or-true : (x y : Bool) → y ≡ true → (x || y) ≡ true
or-true x y h = ground arith

join_left : (f g : FlowResult) (o : Outcome) → Allows f o → Allows (join_branches f g) o
unfolding join_branches
join_left f g normal h = ground arith
join_left f g broke h = ground arith
join_left f g _ h = tt

join_right : (f g : FlowResult) (o : Outcome) → Allows g o → Allows (join_branches f g) o
unfolding join_branches
join_right f g normal h = ground arith
join_right f g broke h = ground arith
join_right f g _ h = tt

falls_left :
    (falls : Bool) (f : FlowResult) (o : Outcome)
    → Allows f o
    → o ≡ normal
    → (falls || f.can_fall_through || f.has_break) ≡ true
falls_left falls f normal h e = ground arith
falls_left falls f _ h e = cc

falls_broke :
    (falls : Bool) (f : FlowResult)
    → f.has_break ≡ true
    → (falls || f.can_fall_through || f.has_break) ≡ true
falls_broke falls f h = ground arith

module _ (bottom_type : ℕ) where
  Completes-never :
      {e : HirExpression} {b : Bool}
      → Completes bottom_type e b
      → never_completes bottom_type e ≡ false
  unfolding never_completes
  Completes-never (Completes.value type kind lexeme b h k) = ground arith
  Completes-never (Completes.group type h c) = ground arith
  Completes-never (Completes.result type b h) = ground arith

  Completes-is_true :
      {e : HirExpression} {b : Bool} → Completes bottom_type e b → is_true e ≡ true → b ≡ true
  unfolding is_true
  Completes-is_true (Completes.value type LiteralKind.boolean lexeme b h k) t =
      ground (arith, text_eq_iff lexeme (codes "true"), k)
  Completes-is_true (Completes.value type _ lexeme b h k) t = cc
  Completes-is_true (Completes.group type h c) t = Completes-is_true c t
  Completes-is_true (Completes.result type b h) t = cc

  SomeCompletes-never :
      {e : Option HirExpression} {b : Bool}
      → SomeCompletes bottom_type e b
      → some_never_completes bottom_type e ≡ false
  SomeCompletes-never SomeCompletes.absent = refl
  SomeCompletes-never (SomeCompletes.present c) = Completes-never c

  SomeCompletes-exit :
      {e : Option HirExpression} → SomeCompletes bottom_type e false → some_can_exit e ≡ true
  SomeCompletes-exit (SomeCompletes.present {e} c) = ground (arith, Completes-is_true c)

  -- A break that the analysis has seen is not forgotten, and neither is an arm that falls through.
  analyze_block-has_break :
      (t : HirBlock) (before : FlowResult) (a : Analyzer)
      → before.has_break ≡ true
      → (analyze_block bottom_type t before a).0.has_break ≡ true
  unfolding analyze_block
  analyze_block-has_break HirBlock.no_statements before a h = h
  analyze_block-has_break (HirBlock.statement_then range s t) before a h =
      analyze_block-has_break t _ _ (block_step-has_break range before a _ h)

  analyze_arms_falls :
      (arms : HirArms) (falls : Bool) (a : Analyzer)
      → falls ≡ true
      → (analyze_arms bottom_type arms falls a).0 ≡ true
  unfolding analyze_block
  analyze_arms_falls HirArms.no_arms falls a h = h
  analyze_arms_falls (HirArms.arm_then body arms) falls a h = analyze_arms_falls arms _ _ (rw h)

  -- The flow of an end is kept by what follows: after a `break`, the whole block has one.
  block_after :
      (range : SourceRange) (t : HirBlock) (before : FlowResult) (a : Analyzer)
      (r : FlowResult × Analyzer) (o : Outcome)
      → before.can_fall_through ≡ true
      → o ≢ normal
      → Allows r.0 o
      → let next = block_step range before a r in
        Allows (analyze_block bottom_type t next.0 next.1).0 o
  unfolding join_block
  block_after range t before a r normal f n h = absurd (n refl)
  block_after range t before a r broke f n h =
      rw (block_step-reached range before a r f) (analyze_block-has_break t _ _ (ground arith))
  block_after range t before a r returned f n h = tt
  block_after range t before a r continued f n h = tt

  block_before :
      (range : SourceRange) (t : HirBlock) (before : FlowResult) (a : Analyzer)
      (r : FlowResult × Analyzer) (o : Outcome)
      → before.can_fall_through ≡ true
      → Allows (analyze_block bottom_type t (join_block before r.0) r.1).0 o
      → let next = block_step range before a r in
        Allows (analyze_block bottom_type t next.0 next.1).0 o
  block_before range t before a r o f h = rw (block_step-reached range before a r f) h

  switch-Allows :
      (e : HirExpression) (a : Analyzer) (r : Bool × Analyzer) (o : Outcome)
      → never_completes bottom_type e ≡ false
      → (o ≡ normal → r.0 ≡ true)
      → o ≢ broke
      → Allows (unless_never (never_completes bottom_type e) a (flow r.0 false, r.1)).0 o
  unfolding unless_never
  switch-Allows e a r normal k f n = rw k (f refl)
  switch-Allows e a r broke k f n = absurd (n refl)
  switch-Allows e a r _ k f n = tt

  for-Allows :
      (c : Option HirExpression) (start body : FlowResult × Analyzer) (o : Outcome)
      → start.0.can_fall_through ≡ true
      → some_never_completes bottom_type c ≡ false
      → (o ≡ normal → (some_can_exit c || body.0.has_break) ≡ true)
      → o ≢ broke
      → Allows (for_flow bottom_type c start body).0 o
  unfolding for_flow unless_never
  for-Allows c start body normal s k f n = rw (s, k) (f refl)
  for-Allows c start body broke s k f n = absurd (n refl)
  for-Allows c start body _ s k f n = tt

  mutual
    unfolding analyze_block join_branches unless_never for_flow join_block

    statement-Allows :
        {s : HirStatement} {o : Outcome}
        → Executes bottom_type s o
        → (a : Analyzer) → Allows (analyze_statement bottom_type s a).0 o
    statement-Allows Executes.invalid a = refl
    statement-Allows (Executes.declares c) a = rw (SomeCompletes-never c)
    statement-Allows Executes.returns a = tt
    statement-Allows (Executes.evaluates c) a = rw (Completes-never c)
    statement-Allows (Executes.takes_then {c} {t} {e} {o} k r) a =
        rw (Completes-never k) (join_left _ _ o (block-Allows r (flow true false) a refl))
    statement-Allows (Executes.takes_else {c} {t} {e} {o} k r) a =
        rw (Completes-never k) (join_right _ _ o (else-Allows r _))
    statement-Allows (Executes.while_ends k) a =
        ground (arith, Completes-never k, Completes-is_true k)
    statement-Allows (Executes.while_breaks k r) a =
        rw (Completes-never k) (or-true _ _ (block-Allows r (flow true false) a refl))
    statement-Allows (Executes.while_returns k r) a = tt
    statement-Allows (Executes.while_goes_on k r g w) a = statement-Allows w a
    statement-Allows (Executes.each_ends k) a = rw (Completes-never k)
    statement-Allows (Executes.each_returns k r) a = tt
    statement-Allows (Executes.for_runs {i} {c} {t} {o} l k) a =
        let start = analyze_initializer bottom_type i a in
        let w = rounds-Allows k start.1 in
        for-Allows c start (analyze_block bottom_type t (flow true false) start.1) o
          (initializer-Allows l a) w.0 w.1 w.2
    statement-Allows (Executes.selects {e} {arms} {x} {b} {o} k r) a =
        let w = arms-Allows r (not x) a in
        switch-Allows e a (analyze_arms bottom_type arms (not x) a) o (Completes-never k) w.0 w.1
    statement-Allows (Executes.selects_none {e} {arms} k) a =
        rw (Completes-never k) (analyze_arms_falls arms true a refl)
    statement-Allows Executes.breaks a = refl
    statement-Allows Executes.continues a = tt
    statement-Allows (Executes.nests r) a = block-Allows r (flow true false) a refl

    block-Allows :
        {t : HirBlock} {o : Outcome}
        → Runs bottom_type t o
        → (before : FlowResult) (a : Analyzer) → before.can_fall_through ≡ true
        → Allows (analyze_block bottom_type t before a).0 o
    block-Allows Runs.nothing before a h = h
    block-Allows (Runs.stops {range} {s} {t} {o} e n) before a h =
        block_after range t before a (analyze_statement bottom_type s (reach a)) o h n
          (statement-Allows e (reach a))
    block-Allows (Runs.goes_on {range} {s} {t} {o} e r) before a h =
        block_before range t before a (analyze_statement bottom_type s (reach a)) o h
          (block-Allows r _ _ (statement-Allows e (reach a)))

    else-Allows :
        {t : HirElse} {o : Outcome}
        → RunsElse bottom_type t o
        → (a : Analyzer) → Allows (analyze_else bottom_type t a).0 o
    else-Allows RunsElse.skips a = refl
    else-Allows (RunsElse.otherwise r) a = block-Allows r (flow true false) a refl

    initializer-Allows :
        {i : HirInitializer}
        → RunsInitializer bottom_type i
        → (a : Analyzer) → (analyze_initializer bottom_type i a).0.can_fall_through ≡ true
    initializer-Allows RunsInitializer.starts a = refl
    initializer-Allows (RunsInitializer.initializes e) a = statement-Allows e a

    -- The rounds of a `for` after its initializer.
    rounds-Allows :
        {c : Option HirExpression} {t : HirBlock} {o : Outcome}
        → Iterates bottom_type c t o
        → (a : Analyzer)
        → let r = analyze_block bottom_type t (flow true false) a in
          (some_never_completes bottom_type c ≡ false)
          × (o ≡ normal → (some_can_exit c || r.0.has_break) ≡ true)
          × (o ≢ broke)
    rounds-Allows (Iterates.for_ends k) a =
        (SomeCompletes-never k, λ e. rw (SomeCompletes-exit k), λ e. cc)
    rounds-Allows (Iterates.for_breaks k r) a =
        (SomeCompletes-never k, λ e. or-true _ _ (block-Allows r (flow true false) a refl), λ e. cc)
    rounds-Allows (Iterates.for_returns k r) a = (SomeCompletes-never k, λ e. cc, λ e. cc)
    rounds-Allows (Iterates.for_goes_on k r g l) a = rounds-Allows l a

    arms-Allows :
        {arms : HirArms} {o : Outcome}
        → RunsArm bottom_type arms o
        → (falls : Bool) (a : Analyzer)
        → (o ≡ normal → (analyze_arms bottom_type arms falls a).0 ≡ true) × (o ≢ broke)
    arms-Allows (RunsArm.runs_arm {t} {arms} {o} r n) falls a = (
      λ e.
          analyze_arms_falls arms _ _
            (falls_left falls _ o (block-Allows r (flow true false) a refl) e),
      n,
    )
    arms-Allows (RunsArm.breaks_arm {t} {arms} r) falls a = (
      λ e.
          analyze_arms_falls arms _ _
            (falls_broke falls _ (block-Allows r (flow true false) a refl)),
      λ e. cc,
    )
    arms-Allows (RunsArm.later {t} {arms} r) falls a = arms-Allows r _ _

  -- The analysis of a block from a point that is reached allows for every way in which the block can
  -- end: it can fall through where a run ends normally, and has a break where one breaks.
  pub analyze_block-Allows :
      {t : HirBlock} {o : Outcome}
      → Runs bottom_type t o
      → (a : Analyzer) → Allows (analyze_block bottom_type t (flow true false) a).0 o
  analyze_block-Allows r a = block-Allows r (flow true false) a refl
