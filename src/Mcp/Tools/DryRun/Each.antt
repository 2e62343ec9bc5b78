-- ===== src/Mcp/Tools/DryRun/Each.antt =====
-- Every arm acts only if `dry_run` is given as false.
use hypr_pilot.Prelude.{
  true, false, Option, none, some, ◌++◌, ◌≡◌, refl, All, All-append, Every, find-Every, Text, ok,
  bind-ok, ◌>>◌, arith, eq_text, find, map_err, is_some,
}
use hypr_pilot.Core.WindowSelector
use hypr_pilot.Core.WindowSelector.{WindowSelector}
use hypr_pilot.Mcp.Tools.Args.{default_psm, default_scan_psm, flag, or_default}
use hypr_pilot.Mcp.Tools.Kinds.{Args, dry_run_of}
use hypr_pilot.Mcp.Tools.Ops.{
  Dispatch, Serde, parse_args, parse_psm, checked_region, build_optional_region,
  reject_region_with_active_window, parse_combo, tool_button, optional_button, invalid_args,
}
use hypr_pilot.Mcp.Tools.Arms.{
  Arm, input_type, input_keys, input_shortcut, input_mouse_move, input_mouse_click, screenshot,
  screenshot_region, screenshot_monitor, ocr_screen, ocr_region, require_query, find_text_position,
  click_text_tool, run_bind, a11y_tree, a11y_find, a11y_click_tool,
}
use hypr_pilot.Mcp.Tools.Table.{
  query_arms, window_arms, desktop_arms, snapshot_arms, input_arms, vision_arms, keymap_arms, arms,
  run_arm, dispatch_to, dispatch,
}
use hypr_pilot.Mcp.Tools.DryRun.{acts, Guarded, acts_value, forward_or_preview-Guarded, not-dry}
use hypr_pilot.Mcp.Tools.DryRun.Windows.{
  quiet, query_arms-Guarded, window_arms-Guarded, desktop_arms-Guarded, snapshot_arms-Guarded,
}

input_arms-Guarded : (debug : Text → Text) → All Guarded (input_arms debug)
unfolding input_arms dry_run_of input_type input_keys input_shortcut input_mouse_move
    input_mouse_click
input_arms-Guarded debug = (
  (λ name p. forward_or_preview-Guarded p.dry_run _ _),
  (
    (λ name p d h a.
        let r = bind-ok (parse_combo name p.combo) _ d h in
        forward_or_preview-Guarded p.dry_run _ _ d r.2 a),
    (
      (λ name p d h a.
          let r = bind-ok (parse_combo name p.combo) _ d h in
          let s = bind-ok (map_err (invalid_args name) (WindowSelector.parse p.selector)) _ d r.2 in
          forward_or_preview-Guarded p.dry_run _ _ d s.2 a),
      (
        (λ name p. forward_or_preview-Guarded p.dry_run _ _),
        (
          (λ name p d h a.
              let r = bind-ok (tool_button name p.button) _ d h in
              forward_or_preview-Guarded p.dry_run _ _ d r.2 a),
          tt,
        ),
      ),
    ),
  ),
)

vision_arms-Guarded : All Guarded vision_arms
unfolding vision_arms dry_run_of screenshot screenshot_region screenshot_monitor ocr_screen
    ocr_region find_text_position click_text_tool acts
vision_arms-Guarded = (
  (λ name p d. quiet _ d none refl),
  (
    (λ name p d h a. let r = bind-ok (checked_region name _) _ d h in quiet _ d none refl r.2 a),
    (
      (λ name p d. quiet _ d none refl),
      (
        (λ name p d h a.
            let r = bind-ok (parse_psm name (or_default default_psm p.psm)) _ d h in
            quiet _ d none refl r.2 a),
        (
          (λ name p d h a.
              let r = bind-ok (parse_psm name (or_default default_psm p.psm)) _ d h in
              let s = bind-ok (checked_region name _) _ d r.2 in quiet _ d none refl s.2 a),
          (
            (λ name p d h a.
                let g =
                  bind-ok (require_query name p.query >> build_optional_region name p.x p.y p.w p.h)
                    _ d h in
                let r =
                  bind-ok
                    (reject_region_with_active_window name (is_some g.0) (flag p.active_window)
                      >> parse_psm name (or_default default_scan_psm p.psm))
                    _ d g.2 in
                quiet _ d none refl r.2 a),
            (
              (λ name p d h a.
                  let g =
                    bind-ok
                      (require_query name p.query >> build_optional_region name p.x p.y p.w p.h) _ d
                      h in
                  let r =
                    bind-ok
                      (reject_region_with_active_window name (is_some g.0) (flag p.active_window)
                        >> parse_psm name (or_default default_scan_psm p.psm))
                      _ d g.2 in
                  let b = bind-ok (optional_button name p.button) _ d r.2 in
                  not-dry p.dry_run (acts_value _ d b.2 a)),
              tt,
            ),
          ),
        ),
      ),
    ),
  ),
)

keymap_arms-Guarded : All Guarded keymap_arms
unfolding keymap_arms dry_run_of run_bind a11y_tree a11y_find a11y_click_tool acts
keymap_arms-Guarded = (
  (λ name p d h a.
      let r = bind-ok (parse_combo name p.combo) _ d h in not-dry p.dry_run (acts_value _ d r.2 a)),
  (
    (λ name p d. quiet _ d none refl),
    (
      (λ name p d. quiet _ d none refl),
      (
        (λ name p d h a.
            let b = bind-ok (require_query name p.query >> optional_button name p.button) _ d h in
            not-dry p.dry_run (acts_value _ d b.2 a)),
        tt,
      ),
    ),
  ),
)

pub arms-Guarded : (debug : Text → Text) → All Guarded (arms debug)
unfolding arms
arms-Guarded debug =
    All-append Guarded query_arms
      (window_arms
        ++ (desktop_arms ++ (snapshot_arms ++ (input_arms debug ++ (vision_arms ++ keymap_arms)))))
      query_arms-Guarded
      (All-append Guarded window_arms
        (desktop_arms ++ (snapshot_arms ++ (input_arms debug ++ (vision_arms ++ keymap_arms))))
        window_arms-Guarded
        (All-append Guarded desktop_arms
          (snapshot_arms ++ (input_arms debug ++ (vision_arms ++ keymap_arms))) desktop_arms-Guarded
          (All-append Guarded snapshot_arms (input_arms debug ++ (vision_arms ++ keymap_arms))
            snapshot_arms-Guarded
            (All-append Guarded (input_arms debug) (vision_arms ++ keymap_arms)
              (input_arms-Guarded debug)
              (All-append Guarded vision_arms keymap_arms vision_arms-Guarded
                keymap_arms-Guarded)))))

module _ {Value : Type 0} (serde : Serde Value) (debug : Text → Text) where
  -- The arm that was found has read `dry_run: false`.
  abbrev Asked : Option Arm → Text → Value → Type 0
  Asked o name args =
      (arm : Arm) × (o ≡ some arm)
      × (p : Args arm.kind) × (parse_args serde arm.kind name args ≡ ok p)
      × (dry_run_of arm.kind p ≡ some false)

  found-Guarded :
      (o : Option Arm) (name : Text) (args : Value) (d : Dispatch)
      → Every Guarded o
      → dispatch_to serde o name args ≡ ok d
      → acts d ≡ true
      → Asked o name args
  unfolding dispatch_to run_arm
  found-Guarded none name args d g h a = absurd (ground arith)
  found-Guarded (some arm) name args d g h a =
      let r = bind-ok (parse_args serde arm.kind name args) (λ p. arm.body name p) d h in
      (arm, refl, r.0, r.1, g name r.0 d r.2 a)

  -- If the arguments of a tool lead to a request that acts, or to clicks, then the arm of the tool
  -- reads `dry_run: false` in them; what is missing counts as true.
  pub dispatch-acts :
      (name : Text) (args : Value) (d : Dispatch)
      → dispatch serde debug name args ≡ ok d
      → acts d ≡ true
      → (arm : Arm) × (find (λ (a : Arm). eq_text a.name name) (arms debug) ≡ some arm)
        × (p : Args arm.kind) × (parse_args serde arm.kind name args ≡ ok p)
        × (dry_run_of arm.kind p ≡ some false)
  unfolding dispatch
  dispatch-acts name args d =
      found-Guarded (find (λ (a : Arm). eq_text a.name name) (arms debug)) name args d
        (find-Every Guarded (λ (a : Arm). eq_text a.name name) (arms debug) (arms-Guarded debug))
