-- ===== src/Tests/Engine.antt =====
-- crates/hyprpilot-daemon/src/engine.rs and rules.rs: the theorems at concrete inputs.
use hypr_pilot.Prelude.{eq_text, ℕ, suc, ◌≡◌, refl, none, some, [], ◌∷◌, codes, ok}
use hypr_pilot.Prelude.Maps.{get}
use hypr_pilot.Core.Connection.{Send}
use hypr_pilot.Core.Events.{Event}
use hypr_pilot.Daemon.Actions.{kill_active, exec}
use hypr_pilot.Daemon.Rules.{RuleConfig}
use hypr_pilot.Daemon.Engine.{CompiledRule, Guard, new_guard, handle_event}
use hypr_pilot.Daemon.Engine.Matching.{Matches, here, fired, Chooses, handle_event-Chooses}
use hypr_pilot.Daemon.Engine.Reentrance.{
  IsValid, handle, Reach, start, next, Reach-IsValid, handle_all, handle_all-fired,
}

abbrev accepts : Send ℕ
accepts text w = (ok (codes "ok"), suc w)

abbrev config : RuleConfig
config = record {
  rules =
      record { name = none; on = codes "openwindow"; when = []; actions = codes "kill_active" ∷ [] }
      ∷ record {
        name = some (codes "bad");
        on = codes "pin";
        when = [];
        actions = codes "fly" ∷ [];
      }
      ∷ [];
}

abbrev rule : CompiledRule
rule = record {
  label = codes "r";
  on = codes "openwindow";
  when = (codes "class", codes "kitty") ∷ [];
  actions = kill_active ∷ exec (codes "foot") ∷ [];
}

abbrev event : Event
event = record {
  kind = codes "openwindow";
  fields = (codes "class", codes "kitty") ∷ [];
  raw = record { name = codes "openwindow"; data_text = [] };
}

handle_event-Chooses_example :
    Chooses accepts event new_guard 0
      (rule ∷ [])
      (handle_event accepts (rule ∷ []) event new_guard 0)
handle_event-Chooses_example = handle_event-Chooses accepts event new_guard 0 (rule ∷ []) refl

abbrev after : Guard × ℕ
after = (
  (handle_event accepts (rule ∷ []) event new_guard 0).guard,
  (handle_event accepts (rule ∷ []) event new_guard 0).world,
)

after-Reach : Reach accepts (rule ∷ []) after
after-Reach = next (start 0) (handle new_guard 0 event)

Reach-IsValid_example : IsValid after.0
Reach-IsValid_example = Reach-IsValid accepts (rule ∷ []) after-Reach

rule-Matches : Matches event rule
unfolding get eq_text
rule-Matches = record { kind = refl; fields = (refl, tt) }

handle_all-fired_example :
    handle_all accepts (rule ∷ []) (event ∷ event ∷ []) new_guard 0
    ≡ ((fired accepts rule new_guard 0).guard, (fired accepts rule new_guard 0).world)
handle_all-fired_example =
    handle_all-fired accepts (rule ∷ []) event (event ∷ []) new_guard 0 rule refl
      (here rule-Matches)
