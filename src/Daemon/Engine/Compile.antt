-- ===== src/Daemon/Engine/Compile.antt =====
-- Every rule is compiled before the first event, or the first bad action is reported.
use hypr_pilot.Prelude.{ℕ, suc, ◌≡◌, List, [], ◌∷◌, Text, Result, ok, err}
use hypr_pilot.Daemon.Actions.{ParseError}
use hypr_pilot.Daemon.Actions.ParseAll.{AllParse, FirstError}
use hypr_pilot.Daemon.Rules.{Rule, label}
use hypr_pilot.Daemon.Engine.{CompiledRule, compile_error}

-- A compiled rule has the rule's event and predicates, and the actions that its texts spell.
pub record Compiles (i : ℕ) (rule : Rule) (r : CompiledRule) : Type 0 where
  pub labelled : r.label ≡ label rule i
  pub on : r.on ≡ rule.on
  pub when : r.when ≡ rule.when
  pub actions : AllParse rule.actions r.actions

pub data AllCompile : ℕ → List Rule → List CompiledRule → Type 0 where
  done : {i : ℕ} → AllCompile i [] []
  more :
      {i : ℕ} {rule : Rule} {r : CompiledRule} {rules : List Rule} {rs : List CompiledRule}
      → Compiles i rule r
      → AllCompile (suc i) rules rs
      → AllCompile i (rule ∷ rules) (r ∷ rs)

-- The first rule with a bad action, and the report, with the rule's label and the action's index.
pub data FirstBad : ℕ → List Rule → Text → Type 0 where
  here :
      {i : ℕ} {rule : Rule} {rules : List Rule} {message : Text} (idx : ℕ) (e : ParseError)
      → FirstError rule.actions idx e
      → message ≡ compile_error (label rule i) (idx, e)
      → FirstBad i (rule ∷ rules) message
  later :
      {i : ℕ} {rule : Rule} {r : CompiledRule} {rules : List Rule} {message : Text}
      → Compiles i rule r
      → FirstBad (suc i) rules message
      → FirstBad i (rule ∷ rules) message

abbrev pub Reports : ℕ → List Rule → Result (List CompiledRule) Text → Type 0
Reports i rules (ok rs) = AllCompile i rules rs
Reports i rules (err message) = FirstBad i rules message

abbrev RuleReports : ℕ → Rule → Result CompiledRule Text → Type 0
RuleReports i rule (ok r) = Compiles i rule r
RuleReports i rule (err message) =
    (idx : ℕ) × (e : ParseError) × FirstError rule.actions idx e
    × (message ≡ compile_error (label rule i) (idx, e))
