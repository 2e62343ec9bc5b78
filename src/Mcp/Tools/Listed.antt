-- ===== src/Mcp/Tools/Listed.antt =====
-- The registry and the match of `dispatch` agree: the same tools, the published schema of the
-- struct that the arm reads, and `mutating` for the tools that can be held back.
use hypr_pilot.Prelude.{
  Bool, true, false, ◌||◌, Option, none, some, List, [], ◌∷◌, ◌≡◌, ◌≢◌, refl, Among, Every,
  find-Every, bind-ok, Text, codes, ok, err, map, any, all, find, eq_text, eq_text_iff, arith,
  Bool-cases, inl, inr,
}
use mathlib.Core.Path.{subst}
use hypr_pilot.Mcp.Server.{ToolDef}
use hypr_pilot.Mcp.Tools.Kinds.{
  Args, dry_run_of, has_dry_run, Kind, no_args, mut_no_args, selector_args, workspace_args,
  direction_args, resize_args, fullscreen_args, focus_monitor_args, monitor_args, exec_args,
  snapshot_name_args, input_text_args, input_keys_args, input_shortcut_args, input_mouse_move_args,
  input_mouse_click_args, screenshot_args, screenshot_region_args, screenshot_monitor_args,
  ocr_screen_args, ocr_region_args, find_text_position_args, click_text_args, a11y_tree_args,
  a11y_find_args, a11y_click_args, run_bind_args, snapshot_mut_args,
}
use hypr_pilot.Mcp.Tools.DryRun.{Guarded, acts}
use hypr_pilot.Mcp.Tools.DryRun.Each.{arms-Guarded}
use hypr_pilot.Mcp.Tools.Ops.{Dispatch, unknown_tool, Serde, parse_args}
use hypr_pilot.Mcp.Tools.Arms.{Arm, no_args_arm, mut_no_args_arm}
use hypr_pilot.Mcp.Tools.Table.{arms, dispatch, dispatch_to, run_arm}
use hypr_pilot.Mcp.Tools.Registry.{registry, def}

-- The arm of a name.
abbrev pub arm_of : (Text → Text) → Text → Option Arm
arm_of debug name = find (λ (a : Arm). eq_text a.name name) (arms debug)

-- The two tools that act at once.
unfoldable pub acts_at_once : Text → Bool
acts_at_once name = eq_text name (codes "snapshot_save") || eq_text name (codes "snapshot_delete")

abbrev schema_of : (Kind → Text) → Option Arm → Option Text
schema_of schema_for none = none
schema_of schema_for (some a) = some (schema_for a.kind)

abbrev held_back : Text → Option Arm → Option Bool
held_back name none = none
held_back name (some a) = some (has_dry_run a.kind || acts_at_once name)

map_eq-Among :
    {A B : Type 0} (f g : A → B) (a : A) (xs : List A)
    → map f xs ≡ map g xs
    → Among a xs
    → f a ≡ g a
map_eq-Among f g a [] h m = absurd m
map_eq-Among f g a (x ∷ xs) h (inl e) = subst (λ y. f y ≡ g y) e (cc h)
map_eq-Among f g a (x ∷ xs) h (inr m) = map_eq-Among f g a xs (cc h) m

module _ (debug : Text → Text) (schema_for : Kind → Text) where
  schemas :
      map (λ (t : ToolDef). some t.schema) (registry schema_for)
      ≡ map (λ (t : ToolDef). schema_of schema_for (arm_of debug t.name)) (registry schema_for)
  unfolding registry arms eq_text no_args_arm mut_no_args_arm def
  schemas = refl

  mutating_flags :
      map (λ (t : ToolDef). some t.mutating) (registry schema_for)
      ≡ map (λ (t : ToolDef). held_back t.name (arm_of debug t.name)) (registry schema_for)
  unfolding registry arms eq_text no_args_arm mut_no_args_arm def has_dry_run acts_at_once
  mutating_flags = refl

  armed_names :
      all
        (λ (a : Arm).
          any (λ n. eq_text n a.name) (map (λ (t : ToolDef). t.name) (registry schema_for)))
        (arms debug)
      ≡ true
  unfolding registry arms eq_text no_args_arm mut_no_args_arm def
  armed_names = refl

  found_arm :
      (t : ToolDef) (o : Option Arm)
      → some t.schema ≡ schema_of schema_for o
      → some t.mutating ≡ held_back t.name o
      → (a : Arm) × (o ≡ some a)
        × (t.schema ≡ schema_for a.kind)
        × (t.mutating ≡ (has_dry_run a.kind || acts_at_once t.name))
  found_arm t none s m = absurd (cc s)
  found_arm t (some a) s m = (a, refl, cc s, cc m)

  pub registry-arm_of :
      (t : ToolDef)
      → Among t (registry schema_for)
      → (a : Arm) × (arm_of debug t.name ≡ some a)
        × (t.schema ≡ schema_for a.kind)
        × (t.mutating ≡ (has_dry_run a.kind || acts_at_once t.name))
  registry-arm_of t m =
      found_arm t (arm_of debug t.name)
        (map_eq-Among _ (λ (t : ToolDef). schema_of schema_for (arm_of debug t.name)) t
          (registry schema_for) schemas m)
        (map_eq-Among _ (λ (t : ToolDef). held_back t.name (arm_of debug t.name)) t
          (registry schema_for) mutating_flags m)

-- A name that all members of a list avoid is not found in it.
unlisted :
    (names : List Text) (as' : List Arm) (name : Text)
    → all (λ (a : Arm). any (λ n. eq_text n a.name) names) as' ≡ true
    → any (λ n. eq_text n name) names ≡ false
    → find (λ (a : Arm). eq_text a.name name) as' ≡ none
unlisted names [] name h n = refl
unlisted names (a ∷ as') name h n = elim (Bool-cases (eq_text a.name name)) [
  | inl e ↦
      let same = (eq_text_iff a.name name).0 e in
      let listed : any (λ k. eq_text k a.name) names ≡ true = ground (arith, h) in
      absurd (ground (arith, n, subst (λ t. any (λ k. eq_text k t) names ≡ true) same listed))
  | inr e ↦ rw e (unlisted names as' name (ground (arith, h)) n)
]

-- Without the key in its struct, a tool cannot be told `dry_run: false`.
dry_run_of-has_dry_run :
    (k : Kind) (p : Args k) → has_dry_run k ≡ false → dry_run_of k p ≢ some false
unfolding has_dry_run dry_run_of
dry_run_of-has_dry_run no_args p h = ground (arith, h)
dry_run_of-has_dry_run mut_no_args p h = ground (arith, h)
dry_run_of-has_dry_run selector_args p h = ground (arith, h)
dry_run_of-has_dry_run workspace_args p h = ground (arith, h)
dry_run_of-has_dry_run direction_args p h = ground (arith, h)
dry_run_of-has_dry_run resize_args p h = ground (arith, h)
dry_run_of-has_dry_run fullscreen_args p h = ground (arith, h)
dry_run_of-has_dry_run focus_monitor_args p h = ground (arith, h)
dry_run_of-has_dry_run monitor_args p h = ground (arith, h)
dry_run_of-has_dry_run exec_args p h = ground (arith, h)
dry_run_of-has_dry_run snapshot_name_args p h = ground (arith, h)
dry_run_of-has_dry_run input_text_args p h = ground (arith, h)
dry_run_of-has_dry_run input_keys_args p h = ground (arith, h)
dry_run_of-has_dry_run input_shortcut_args p h = ground (arith, h)
dry_run_of-has_dry_run input_mouse_move_args p h = ground (arith, h)
dry_run_of-has_dry_run input_mouse_click_args p h = ground (arith, h)
dry_run_of-has_dry_run screenshot_args p h = ground (arith, h)
dry_run_of-has_dry_run screenshot_region_args p h = ground (arith, h)
dry_run_of-has_dry_run screenshot_monitor_args p h = ground (arith, h)
dry_run_of-has_dry_run ocr_screen_args p h = ground (arith, h)
dry_run_of-has_dry_run ocr_region_args p h = ground (arith, h)
dry_run_of-has_dry_run find_text_position_args p h = ground (arith, h)
dry_run_of-has_dry_run click_text_args p h = ground (arith, h)
dry_run_of-has_dry_run a11y_tree_args p h = ground (arith, h)
dry_run_of-has_dry_run a11y_find_args p h = ground (arith, h)
dry_run_of-has_dry_run a11y_click_args p h = ground (arith, h)
dry_run_of-has_dry_run run_bind_args p h = ground (arith, h)
dry_run_of-has_dry_run snapshot_mut_args p h = ground (arith, h)

module _ {Value : Type 0} (serde : Serde Value) (debug : Text → Text)
    (schema_for : Kind → Text) where
  -- Every tool of the registry has an arm that handles its calls, and the schema published for it
  -- is that of the struct which the arm reads.
  pub dispatch-registered :
      (t : ToolDef) (args : Value)
      → Among t (registry schema_for)
      → (a : Arm) × (dispatch serde debug t.name args ≡ run_arm serde a t.name args)
        × (t.schema ≡ schema_for a.kind)
  unfolding dispatch dispatch_to
  dispatch-registered t args m = let r = registry-arm_of debug schema_for t m in (r.0, rw r.1, r.2)

  -- A name that is not in the registry is an unknown tool.
  dispatch-unlisted :
      (name : Text) (args : Value)
      → any (λ n. eq_text n name) (map (λ (t : ToolDef). t.name) (registry schema_for)) ≡ false
      → dispatch serde debug name args ≡ err (unknown_tool name)
  unfolding dispatch dispatch_to
  dispatch-unlisted name args n = rw (
      unlisted (map (λ (t : ToolDef). t.name) (registry schema_for)) (arms debug) name
        (armed_names debug schema_for) n)

  -- A tool that the registry does not mark as mutating never leads to a request that acts,
  -- whatever its arguments are.
  pub dispatch-read_only :
      (t : ToolDef) (args : Value) (d : Dispatch)
      → Among t (registry schema_for)
      → t.mutating ≡ false
      → dispatch serde debug t.name args ≡ ok d
      → acts d ≡ false
  unfolding dispatch dispatch_to run_arm
  dispatch-read_only t args d m ro h =
      let r = registry-arm_of debug schema_for t m in
      let guarded : Guarded r.0 = subst (Every Guarded) r.1 (
        find-Every Guarded (λ (a : Arm). eq_text a.name t.name) (arms debug)
          (arms-Guarded debug)) in
      let ran : run_arm serde r.0 t.name args ≡ ok d = rw r.1 at h in
      let b = bind-ok (parse_args serde r.0.kind t.name args) (λ p. r.0.body t.name p) d ran in
      elim (Bool-cases (acts d)) [
        | inl a ↦ absurd (
            dry_run_of-has_dry_run r.0.kind b.0 (ground (arith, r.3, ro))
              (guarded t.name b.0 d b.2 a))
        | inr q ↦ q
      ]
