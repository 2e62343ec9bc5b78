-- ===== src/Daemon/Engine/Matching.antt =====
-- Which rule an event fires, and what is executed.
use hypr_pilot.Prelude.{
  suc, ◌≡◌, refl, ap, sym, ◌∙◌, is_text_iff, inl, inr, Bool, true, false, not, Bool-cases, some,
  List, [], ◌∷◌, Text, eq_text, eq_text_iff, All, length, arith, if◌then◌else◌, ltb,
}
use mathlib.Core.List.{foldl}
use mathlib.Core.Bool.{false≢true}
use hypr_pilot.Prelude.Maps.{Fields, get}
use hypr_pilot.Core.Connection.{Send}
use hypr_pilot.Core.Events.{Event}
use hypr_pilot.Daemon.Actions
use hypr_pilot.Daemon.Actions.{Action}
use hypr_pilot.Daemon.Rules.{holds, predicate_matches}
use hypr_pilot.Daemon.Engine.{
  CompiledRule, Guard, bump, drop_bump, run_actions, Handled, try_rules, handle_event,
}

-- The rule is for this kind of event, and each predicate is a field with that value.
pub record Matches (event : Event) (rule : CompiledRule) : Type 0 where
  pub kind : rule.on ≡ event.kind
  pub fields : All (λ p. get event.fields p.0 ≡ some p.1) rule.when

-- The rule matches, and none before it does.
pub data FirstMatch (event : Event) (rule : CompiledRule) : List CompiledRule → Type 0 where
  here : {rules : List CompiledRule} → Matches event rule → FirstMatch event rule (rule ∷ rules)
  later :
      {r : CompiledRule} {rules : List CompiledRule}
      → ¬ Matches event r
      → FirstMatch event rule rules
      → FirstMatch event rule (r ∷ rules)

holds_sound :
    (fields : Fields) (p : Text × Text) → holds fields p ≡ true → get fields p.0 ≡ some p.1
unfolding holds
holds_sound fields (k, v) h = (is_text_iff (get fields k) v).0 h

holds_complete :
    (fields : Fields) (p : Text × Text) → get fields p.0 ≡ some p.1 → holds fields p ≡ true
unfolding holds
holds_complete fields (k, v) h = (is_text_iff (get fields k) v).1 h

All-holds :
    (fields when : Fields)
    → predicate_matches when fields ≡ true
    → All (λ p. get fields p.0 ≡ some p.1) when
unfolding predicate_matches
All-holds fields [] h = tt
All-holds fields (p ∷ when) h = elim (Bool-cases (holds fields p)) [
  | inl e ↦ (holds_sound fields p e, All-holds fields when (rw e at h))
  | inr e ↦ absurd (false≢true (rw e at h))
]

predicate_matches_complete :
    (fields when : Fields)
    → All (λ p. get fields p.0 ≡ some p.1) when
    → predicate_matches when fields ≡ true
unfolding predicate_matches
predicate_matches_complete fields [] h = refl
predicate_matches_complete fields (p ∷ when) h =
    rw (holds_complete fields p h.0) (predicate_matches_complete fields when h.1)

module _ (event : Event) (rule : CompiledRule) where
  Matches-true :
      eq_text rule.on event.kind ≡ true
      → predicate_matches rule.when event.fields ≡ true
      → Matches event rule
  Matches-true k p = record {
    kind = (eq_text_iff rule.on event.kind).0 k;
    fields = All-holds event.fields rule.when p;
  }

  not-Matches_kind : eq_text rule.on event.kind ≡ false → ¬ Matches event rule
  not-Matches_kind k m = false≢true (sym k ∙ (eq_text_iff rule.on event.kind).1 m.kind)

  not-Matches_fields : predicate_matches rule.when event.fields ≡ false → ¬ Matches event rule
  not-Matches_fields p m =
      false≢true (sym p ∙ predicate_matches_complete event.fields rule.when m.fields)

FirstMatch-unique :
    (event : Event) (rule rule' : CompiledRule) (rules : List CompiledRule)
    → FirstMatch event rule rules
    → FirstMatch event rule' rules
    → rule ≡ rule'
FirstMatch-unique event rule rule' _ (here m) (here m') = refl
FirstMatch-unique event rule rule' _ (here m) (later n f) = absurd (n m)
FirstMatch-unique event rule rule' _ (later n f) (here m) = absurd (n m)
FirstMatch-unique event rule rule' _ (later {rules = rules} n f) (later n' f') =
    FirstMatch-unique event rule rule' rules f f'

FirstMatch-some :
    (event : Event) (rule : CompiledRule) (rules : List CompiledRule)
    → FirstMatch event rule rules
    → ¬ All (λ r. ¬ Matches event r) rules
FirstMatch-some event rule _ (here m) a = a.0 m
FirstMatch-some event rule _ (later {rules = rules} n f) a = FirstMatch-some event rule rules f a.1

module _ {W : Type 0} (send_raw : Send W) where
  -- The outcomes of all the rule's actions, in order, and a bump that waits for its decay.
  abbrev pub fired : CompiledRule → Guard → W → Handled send_raw
  fired rule g w =
      let (rs, w') = run_actions send_raw rule.actions w in
      record { outcomes = rs; guard = drop_bump (bump g); world = w' }

  abbrev pub idle : Guard → W → Handled send_raw
  idle g w = record { outcomes = []; guard = g; world = w }

  -- What the loop does with a list of rules.
  pub data Chooses (event : Event) (g : Guard) (w : W) (rules : List CompiledRule)
      : Handled send_raw → Type 0 where
    fires :
        {h : Handled send_raw} (rule : CompiledRule)
        → FirstMatch event rule rules
        → h ≡ fired rule g w
        → Chooses event g w rules h
    skips :
        {h : Handled send_raw}
        → All (λ r. ¬ Matches event r) rules
        → h ≡ idle g w
        → Chooses event g w rules h

  Chooses-cons :
      (event : Event) (g : Guard) (w : W) (r : CompiledRule) (rules : List CompiledRule)
      {h : Handled send_raw}
      → ¬ Matches event r
      → Chooses event g w rules h
      → Chooses event g w (r ∷ rules) h
  Chooses-cons event g w r rules n (fires rule f e) = fires rule (later n f) e
  Chooses-cons event g w r rules n (skips a e) = skips (n, a) e

  -- One round of the loop, by its two tests.
  round-Chooses :
      (event : Event) (g : Guard) (w : W) (r : CompiledRule) (rules : List CompiledRule)
      (rest : Handled send_raw) (a b : Bool)
      → eq_text r.on event.kind ≡ a
      → predicate_matches r.when event.fields ≡ b
      → Chooses event g w rules rest
      → Chooses event g w (r ∷ rules) (if not a then rest else if not b then rest else fired r g w)
  round-Chooses event g w r rules rest false b k p c =
      Chooses-cons event g w r rules (not-Matches_kind event r k) c
  round-Chooses event g w r rules rest true false k p c =
      Chooses-cons event g w r rules (not-Matches_fields event r p) c
  round-Chooses event g w r rules rest true true k p c =
      fires r (here (Matches-true event r k p)) refl

  try_rules-Chooses :
      (event : Event) (g : Guard) (w : W) (rules : List CompiledRule)
      → Chooses event g w rules (try_rules send_raw rules event g w)
  unfolding try_rules
  try_rules-Chooses event g w [] = skips tt refl
  try_rules-Chooses event g w (r ∷ rules) =
      round-Chooses event g w r rules (try_rules send_raw rules event g w) _ _ refl refl
        (try_rules-Chooses event g w rules)

  down_Chooses :
      (event : Event) (g : Guard) (w : W) (rules : List CompiledRule) (b : Bool)
      {rest : Handled send_raw}
      → b ≡ false
      → Chooses event g w rules rest
      → Chooses event g w rules (if b then idle g w else rest)
  down_Chooses event g w rules b e c = rw e c

  -- With the guard down, an event fires the first rule that matches it and no other: all actions
  -- of that rule are executed in order, and the guard is bumped. If no rule matches, nothing
  -- happens.
  pub handle_event-Chooses :
      (event : Event) (g : Guard) (w : W) (rules : List CompiledRule)
      → g.depth ≡ 0
      → Chooses event g w rules (handle_event send_raw rules event g w)
  unfolding handle_event
  handle_event-Chooses event g w rules h =
      down_Chooses event g w rules (ltb 0 g.depth) (ground arith)
        (try_rules-Chooses event g w rules)

  -- A failing action does not stop the ones behind it: each has its outcome, and Hyprland ends
  -- where executing all of them in order leaves it.
  pub run_actions_lem :
      (actions : List Action) (w : W)
      → (length (run_actions send_raw actions w).0 ≡ length actions)
        × ((run_actions send_raw actions w).1
            ≡ foldl (λ v a. (Actions.execute send_raw a v).1) w actions)
  unfolding run_actions
  run_actions_lem [] w = (refl, refl)
  run_actions_lem (a ∷ actions) w =
      let (n, e) = run_actions_lem actions (Actions.execute send_raw a w).1 in (ap suc n, e)

  Chooses-first :
      (event : Event) (g : Guard) (w : W) (rule : CompiledRule) (rules : List CompiledRule)
      {h : Handled send_raw}
      → FirstMatch event rule rules
      → Chooses event g w rules h
      → h ≡ fired rule g w
  Chooses-first event g w rule rules f (fires rule' f' e) =
      e ∙ ap (λ r. fired r g w) (FirstMatch-unique event rule' rule rules f' f)
  Chooses-first event g w rule rules f (skips a e) = absurd (FirstMatch-some event rule rules f a)

  pub handle_event-first :
      (event : Event) (g : Guard) (w : W) (rule : CompiledRule) (rules : List CompiledRule)
      → g.depth ≡ 0
      → FirstMatch event rule rules
      → handle_event send_raw rules event g w ≡ fired rule g w
  handle_event-first event g w rule rules d f =
      Chooses-first event g w rule rules f (handle_event-Chooses event g w rules d)
