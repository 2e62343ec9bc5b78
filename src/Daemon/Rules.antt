-- ===== src/Daemon/Rules.antt =====
-- crates/hyprpilot-daemon/src/rules.rs: the rules and their predicate, without the file loader.
use hypr_pilot.Prelude.{ℕ, Bool, Option, none, some, List, ◌++◌, Text, codes, is_text, all, show_ℕ}
use hypr_pilot.Prelude.Maps.{Fields, get}

pub record Rule : Type 0 where
  pub name : Option Text
  pub on : Text
  pub when : Fields
  pub actions : List Text

pub record RuleConfig : Type 0 where
  pub rules : List Rule

unfoldable pub label : Rule → ℕ → Text
label r index = elim r.name [
  | some n ↦ n
  | none ↦ codes "rule[" ++ show_ℕ index ++ codes "] on=" ++ r.on
]

-- `fields.get(k) == Some(v)`
unfoldable pub holds : Fields → Text × Text → Bool
holds fields (k, v) = is_text (get fields k) v

-- `Rule::predicate_matches`, and the engine's copy of it
unfoldable pub predicate_matches : Fields → Fields → Bool
unfolding holds
predicate_matches when fields = all (holds fields) when
