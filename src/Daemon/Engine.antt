-- ===== src/Daemon/Engine.antt =====
-- crates/hyprpilot-daemon/src/engine.rs: compiled rules, the match of an event against them and the
-- reentrance guard.
-- `handle_event` is one step: the engine is one task, and it is only inside an event that it awaits
-- Hyprland, while no decrement is pending (Engine/Reentrance). A decrement that fires is a step of
-- its own. Log output is left out; the outcomes that it reports are returned.
pub mod Compile
pub mod Matching
pub mod Reentrance
use hypr_pilot.Prelude.{
  ℕ, suc, ◌+◌, ◌-◌, ◌^◌, ◌%◌, Bool, not, List, [], ◌∷◌, ◌++◌, ◌||◌, Text, codes, eq_text, Result,
  ok, err, map_err, ◌>>=◌, if◌then◌else◌, show_ℕ, ltb,
}
use hypr_pilot.Prelude.Maps.{Fields}
use hypr_pilot.Core.Connection.{Send}
use hypr_pilot.Core.Error.{Error}
use hypr_pilot.Core.Events.{Event}
use hypr_pilot.Daemon.Actions
use hypr_pilot.Daemon.Actions.{
  Action, ParseError, empty, unknown_verb, wrong_arg_count, invalid_arg, parse_all,
}
use hypr_pilot.Daemon.Rules.{Rule, RuleConfig, label, predicate_matches}

pub record CompiledRule : Type 0 where
  pub label : Text
  pub on : Text
  pub when : Fields
  pub actions : List Action

-- `Display` of a `ParseError`
unfoldable pub show_parse_error : ParseError → Text
show_parse_error empty = codes "action string is empty"
show_parse_error (unknown_verb v) = codes "unknown action verb `" ++ v ++ codes "`"
show_parse_error (wrong_arg_count verb expected got) =
    codes "action `"
    ++ verb
    ++ codes "` requires "
    ++ show_ℕ expected
    ++ codes " arg(s), got "
    ++ show_ℕ got
show_parse_error (invalid_arg verb arg reason) =
    codes "action `" ++ verb ++ codes "` arg `" ++ arg ++ codes "` is invalid: " ++ reason

-- `{label}: action[{idx}]: {e}`
unfoldable pub compile_error : Text → ℕ × ParseError → Text
compile_error l (idx, e) = l ++ codes ": action[" ++ show_ℕ idx ++ codes "]: " ++ show_parse_error e

-- One round of the loop, and the loop from index `i`.
unfoldable pub compile_rule : ℕ → Rule → Result CompiledRule Text
unfolding compile_error
compile_rule i rule = do
  actions ← map_err (compile_error (label rule i)) (parse_all rule.actions)
  ok (record { label = label rule i; on = rule.on; when = rule.when; actions = actions })

unfoldable pub compile_from : ℕ → List Rule → Result (List CompiledRule) Text
compile_from i [] = ok []
compile_from i (rule ∷ rest) = do
  r ← compile_rule i rule
  rs ← compile_from (suc i) rest
  ok (r ∷ rs)

unfoldable pub compile : RuleConfig → Result (List CompiledRule) Text
unfolding compile_from
compile config = compile_from 0 config.rules

-- A 64-bit `AtomicUsize`; `sleeping` counts the detached tasks that will decrement it.
pub record Guard : Type 0 where
  pub depth : ℕ
  pub sleeping : ℕ

abbrev pub new_guard : Guard
new_guard = record { depth = 0; sleeping = 0 }

abbrev pub usize : ℕ
usize = 2 ^ 64

unfoldable pub is_inhibited : Guard → Bool
is_inhibited g = ltb 0 g.depth

-- `fetch_add(1)`, which wraps
unfoldable pub bump : Guard → Guard
bump g = record g { depth = (g.depth + 1) % usize }

-- Dropping the `BumpGuard` spawns a task that sleeps for the decay.
unfoldable pub drop_bump : Guard → Guard
drop_bump g = record g { sleeping = g.sleeping + 1 }

-- A sleeping task wakes: `fetch_sub(1)`, which wraps.
unfoldable pub wake : Guard → Guard
wake g = record { depth = (g.depth + usize - 1) % usize; sleeping = g.sleeping - 1 }

module _ {W : Type 0} (send_raw : Send W) where
  -- The loop over a rule's actions: an action that fails does not stop it.
  unfoldable pub run_actions : List Action → W → List (Result Unit Error) × W
  run_actions [] w = ([], w)
  run_actions (a ∷ rest) w =
      let (r, w') = Actions.execute send_raw a w in
      let (rs, w'') = run_actions rest w' in (r ∷ rs, w'')

  -- What one event did: the outcomes of the actions, the guard and Hyprland.
  pub record Handled : Type 0 where
    pub outcomes : List (Result Unit Error)
    pub guard : Guard
    pub world : W

  abbrev fire : CompiledRule → Guard → W → Handled
  fire rule g w =
      let g' = bump g in
      let (rs, w') = run_actions rule.actions w in
      record { outcomes = rs; guard = drop_bump g'; world = w' }

  -- The loop over the rules.
  unfoldable pub try_rules : List CompiledRule → Event → Guard → W → Handled
  try_rules [] event g w = record { outcomes = []; guard = g; world = w }
  try_rules (rule ∷ rules) event g w =
      if not (eq_text rule.on event.kind)
      then try_rules rules event g w
      else if not (predicate_matches rule.when event.fields)
      then try_rules rules event g w
      else fire rule g w

  unfoldable pub handle_event : List CompiledRule → Event → Guard → W → Handled
  unfolding is_inhibited try_rules
  handle_event rules event g w =
      if is_inhibited g
      then record { outcomes = []; guard = g; world = w }
      else try_rules rules event g w
