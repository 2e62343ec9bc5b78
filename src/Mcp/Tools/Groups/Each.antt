-- ===== src/Mcp/Tools/Groups/Each.antt =====
-- Every arm forwards requests of its group only.
use hypr_pilot.Prelude.{
  true, Option, none, some, ◌++◌, ◌≡◌, refl, All, All-append, Every, find-Every, find-Every_holds,
  find-holds, eq_text_iff, Text, ok, bind-ok, ◌>>◌, arith, eq_text, find, ap, sym, ◌∙◌, map_err,
  is_some,
}
use mathlib.Core.Path.{subst}
use hypr_pilot.Core.WindowSelector
use hypr_pilot.Core.WindowSelector.{WindowSelector}
use hypr_pilot.Daemon.Protocol.{Request}
use hypr_pilot.Mcp.Tools.Args.{dry, default_psm, default_scan_psm, flag, or_default}
use hypr_pilot.Mcp.Tools.Kinds.{Kind}
use hypr_pilot.Mcp.Tools.Ops.{
  Dispatch, Serde, parse_args, parse_psm, checked_region, build_optional_region,
  reject_region_with_active_window, parse_combo, tool_button, optional_button, forward,
  invalid_args,
}
use hypr_pilot.Mcp.Tools.Arms.{
  Arm, input_type, input_keys, input_shortcut, input_mouse_move, input_mouse_click, screenshot,
  screenshot_region, screenshot_monitor, ocr_screen, ocr_region, require_query, find_text_position,
  click_text_tool, run_bind, a11y_tree, a11y_find, a11y_click_tool,
}
use hypr_pilot.Mcp.Tools.Table.{
  query_arms, window_arms, desktop_arms, snapshot_arms, input_arms, vision_arms, keymap_arms, arms,
  run_arm, dispatch_to, dispatch,
}
use hypr_pilot.Mcp.Capability.{allows}
use hypr_pilot.Mcp.Server.{ToolDef, Server, find_tool, check_call}
use hypr_pilot.Mcp.Server.Gate.{judge-ok}
use hypr_pilot.Mcp.Tools.Registry.{registry, def}
use hypr_pilot.Mcp.Tools.Groups.{
  request_group, group_of, registered_group, Within, Grouped, value-Within, fp-Within,
}
use hypr_pilot.Mcp.Tools.Groups.Windows.{
  query_arms-Grouped, window_arms-Grouped, desktop_arms-Grouped, snapshot_arms-Grouped,
}

module _ (schema_for : Kind → Text) where
  input_arms-Grouped : (debug : Text → Text) → All (Grouped schema_for) (input_arms debug)
  unfolding input_arms request_group registered_group def eq_text input_type input_keys
      input_shortcut input_mouse_move input_mouse_click
  input_arms-Grouped debug = (
    (λ name p d. fp-Within _ (dry p.dry_run) _ _ d refl),
    (
      (λ name p d h.
          let r = bind-ok (parse_combo name p.combo) _ d h in
          fp-Within _ (dry p.dry_run) _ _ d refl r.2),
      (
        (λ name p d h.
            let r = bind-ok (parse_combo name p.combo) _ d h in
            let s =
              bind-ok (map_err (invalid_args name) (WindowSelector.parse p.selector)) _ d r.2 in
            fp-Within _ (dry p.dry_run) _ _ d refl s.2),
        (
          (λ name p d. fp-Within _ (dry p.dry_run) _ _ d refl),
          (
            (λ name p d h.
                let r = bind-ok (tool_button name p.button) _ d h in
                fp-Within _ (dry p.dry_run) _ _ d refl r.2),
            tt,
          ),
        ),
      ),
    ),
  )

  vision_arms-Grouped : All (Grouped schema_for) vision_arms
  unfolding vision_arms screenshot screenshot_region screenshot_monitor ocr_screen ocr_region
      find_text_position click_text_tool
  vision_arms-Grouped = (
    (λ name p d. value-Within _ _ d tt),
    (
      (λ name p d h. let r = bind-ok (checked_region name _) _ d h in value-Within _ _ d tt r.2),
      (
        (λ name p d. value-Within _ _ d tt),
        (
          (λ name p d h.
              let r = bind-ok (parse_psm name (or_default default_psm p.psm)) _ d h in
              value-Within _ _ d tt r.2),
          (
            (λ name p d h.
                let r = bind-ok (parse_psm name (or_default default_psm p.psm)) _ d h in
                let s = bind-ok (checked_region name _) _ d r.2 in value-Within _ _ d tt s.2),
            (
              (λ name p d h.
                  let g =
                    bind-ok
                      (require_query name p.query >> build_optional_region name p.x p.y p.w p.h) _ d
                      h in
                  let r =
                    bind-ok
                      (reject_region_with_active_window name (is_some g.0) (flag p.active_window)
                        >> parse_psm name (or_default default_scan_psm p.psm))
                      _ d g.2 in
                  value-Within _ _ d tt r.2),
              (
                (λ name p d h.
                    let g =
                      bind-ok
                        (require_query name p.query >> build_optional_region name p.x p.y p.w p.h) _
                        d h in
                    let r =
                      bind-ok
                        (reject_region_with_active_window name (is_some g.0) (flag p.active_window)
                          >> parse_psm name (or_default default_scan_psm p.psm))
                        _ d g.2 in
                    let b = bind-ok (optional_button name p.button) _ d r.2 in
                    value-Within _ _ d tt b.2),
                tt,
              ),
            ),
          ),
        ),
      ),
    ),
  )

  keymap_arms-Grouped : All (Grouped schema_for) keymap_arms
  unfolding keymap_arms request_group registered_group def eq_text run_bind a11y_tree a11y_find
      a11y_click_tool
  keymap_arms-Grouped = (
    (λ name p d h. let r = bind-ok (parse_combo name p.combo) _ d h in value-Within _ _ d refl r.2),
    (
      (λ name p d. value-Within _ _ d refl),
      (
        (λ name p d. value-Within _ _ d refl),
        (
          (λ name p d h.
              let b = bind-ok (require_query name p.query >> optional_button name p.button) _ d h in
              value-Within _ _ d tt b.2),
          tt,
        ),
      ),
    ),
  )

  arms-Grouped : (debug : Text → Text) → All (Grouped schema_for) (arms debug)
  unfolding arms
  arms-Grouped debug =
      All-append (Grouped schema_for) query_arms
        (window_arms
          ++ (desktop_arms
              ++ (snapshot_arms ++ (input_arms debug ++ (vision_arms ++ keymap_arms)))))
        (query_arms-Grouped schema_for)
        (All-append (Grouped schema_for) window_arms
          (desktop_arms ++ (snapshot_arms ++ (input_arms debug ++ (vision_arms ++ keymap_arms))))
          (window_arms-Grouped schema_for)
          (All-append (Grouped schema_for) desktop_arms
            (snapshot_arms ++ (input_arms debug ++ (vision_arms ++ keymap_arms)))
            (desktop_arms-Grouped schema_for)
            (All-append (Grouped schema_for) snapshot_arms
              (input_arms debug ++ (vision_arms ++ keymap_arms)) (snapshot_arms-Grouped schema_for)
              (All-append (Grouped schema_for) (input_arms debug) (vision_arms ++ keymap_arms)
                (input_arms-Grouped debug)
                (All-append (Grouped schema_for) vision_arms keymap_arms vision_arms-Grouped
                  keymap_arms-Grouped)))))

module _ {Value : Type 0} (serde : Serde Value) (debug : Text → Text)
    (schema_for : Kind → Text) where
  ran-Grouped :
      (o : Option Arm) (name : Text) (args : Value) (d : Dispatch)
      → Every (Grouped schema_for) o
      → Every (λ (a : Arm). eq_text a.name name ≡ true) o
      → dispatch_to serde o name args ≡ ok d
      → Within (registered_group schema_for name) d
  unfolding dispatch_to run_arm
  ran-Grouped none name args d g n h = absurd (ground arith)
  ran-Grouped (some a) name args d g n h =
      let r = bind-ok (parse_args serde a.kind name args) (λ p. a.body name p) d h in
      subst (λ t. Within (registered_group schema_for t) d) ((eq_text_iff a.name name).0 n)
        (g name r.0 d r.2)

  -- When a call passes the check against the registry and its arguments make a forwarded request,
  -- this request is of the group under which the tool is registered, and the profile allows the
  -- tool with this group.
  pub dispatch-allows :
      (s : Server) (name : Text) (t : ToolDef) (args : Value) (q : Request)
      → s.registry ≡ registry schema_for
      → check_call s name ≡ ok t
      → dispatch serde debug name args ≡ ok (forward q)
      → (request_group q ≡ some t.group) × (allows s.profile name t.group ≡ true)
  unfolding dispatch check_call find_tool registered_group
  dispatch-allows s name t args q reg c h =
      let j = judge-ok s name (find (λ (u : ToolDef). eq_text u.name name) s.registry) t c in
      let found : find (λ (u : ToolDef). eq_text u.name name) (registry schema_for) ≡ some t =
        ap (find (λ (u : ToolDef). eq_text u.name name)) (sym reg) ∙ j.0 in
      let same : t.name ≡ name =
        (eq_text_iff t.name name).0
          (find-holds (λ (u : ToolDef). eq_text u.name name) (registry schema_for) {x = t} found) in
      let sends =
        ran-Grouped (find (λ (a : Arm). eq_text a.name name) (arms debug)) name args (forward q)
          (find-Every (Grouped schema_for) (λ (a : Arm). eq_text a.name name) (arms debug)
            (arms-Grouped schema_for debug))
          (find-Every_holds (λ (a : Arm). eq_text a.name name) (arms debug)) h in
      (sends ∙ ap group_of found, subst (λ n. allows s.profile n t.group ≡ true) same j.1)
