-- ===== src/Mcp/Tools/Groups/Windows.antt =====
-- The arms for windows, the desktop and snapshots forward only what is of their group.
use hypr_pilot.Prelude.{refl, All, Text, eq_text, codes}
use hypr_pilot.Daemon.Protocol as P
use hypr_pilot.Daemon.Protocol.{Request}
use hypr_pilot.Mcp.Tools.Args.{dry}
use hypr_pilot.Mcp.Tools.Kinds.{Kind}
use hypr_pilot.Mcp.Tools.Ops.{forward, preview_snapshot_restore}
use hypr_pilot.Mcp.Tools.Arms.{
  mut_no_args_arm, set_fullscreen, move_active, resize_active, swap_active, focus_monitor,
  move_workspace_to_monitor, exec, snapshot_save, snapshot_diff, snapshot_restore, snapshot_delete,
}
use hypr_pilot.Mcp.Tools.Table.{query_arms, window_arms, desktop_arms, snapshot_arms}
use hypr_pilot.Mcp.Tools.Registry.{def}
use hypr_pilot.Mcp.Tools.Groups.{
  request_group, registered_group, Grouped, value-Within, choice-Within, fp-Within, no_args-Grouped,
  mut_no_args-Grouped, selector-Grouped, workspace-Grouped,
}

module _ (schema_for : Kind → Text) where
  pub query_arms-Grouped : All (Grouped schema_for) query_arms
  unfolding query_arms request_group registered_group def eq_text
  query_arms-Grouped = (
    no_args-Grouped schema_for _ _ refl,
    (
      no_args-Grouped schema_for _ _ refl,
      (
        no_args-Grouped schema_for _ _ refl,
        (
          no_args-Grouped schema_for _ _ refl,
          (
            no_args-Grouped schema_for _ _ refl,
            (
              no_args-Grouped schema_for _ _ refl,
              (
                no_args-Grouped schema_for _ _ refl,
                (no_args-Grouped schema_for _ _ refl, (no_args-Grouped schema_for _ _ refl, tt)),
              ),
            ),
          ),
        ),
      ),
    ),
  )

  pub window_arms-Grouped : All (Grouped schema_for) window_arms
  unfolding window_arms request_group registered_group def eq_text mut_no_args_arm
  window_arms-Grouped = (
    selector-Grouped schema_for (codes "focus_window") _ (λ s. refl),
    (
      selector-Grouped schema_for (codes "close_window") _ (λ s. refl),
      (
        workspace-Grouped schema_for (codes "switch_workspace") _ (λ s. refl),
        (
          workspace-Grouped schema_for (codes "move_to_workspace") _ (λ s. refl),
          (
            workspace-Grouped schema_for (codes "move_to_workspace_silent") _ (λ s. refl),
            (
              mut_no_args-Grouped schema_for (codes "cycle_next") _ refl,
              (
                mut_no_args-Grouped schema_for (codes "cycle_prev") _ refl,
                (
                  mut_no_args-Grouped schema_for (codes "toggle_floating") _ refl,
                  (
                    mut_no_args-Grouped schema_for (codes "center_active") _ refl,
                    (
                      mut_no_args-Grouped schema_for (codes "pin_active") _ refl,
                      (
                        mut_no_args-Grouped schema_for (codes "kill_active") _ refl,
                        (mut_no_args-Grouped schema_for (codes "undo") _ refl, tt),
                      ),
                    ),
                  ),
                ),
              ),
            ),
          ),
        ),
      ),
    ),
  )

  pub desktop_arms-Grouped : All (Grouped schema_for) desktop_arms
  unfolding desktop_arms request_group registered_group def eq_text set_fullscreen move_active
      resize_active swap_active focus_monitor move_workspace_to_monitor exec
  desktop_arms-Grouped = (
    (λ name p d. fp-Within _ (dry p.dry_run) _ _ d refl),
    (
      (λ name p d. fp-Within _ (dry p.dry_run) _ _ d refl),
      (
        (λ name p d. fp-Within _ (dry p.dry_run) _ _ d refl),
        (
          (λ name p d. fp-Within _ (dry p.dry_run) _ _ d refl),
          (
            (λ name p d. fp-Within _ (dry p.dry_run) _ _ d refl),
            (
              (λ name p d. fp-Within _ (dry p.dry_run) _ _ d refl),
              ((λ name p d. fp-Within _ (dry p.dry_run) _ _ d refl), tt),
            ),
          ),
        ),
      ),
    ),
  )

  pub snapshot_arms-Grouped : All (Grouped schema_for) snapshot_arms
  unfolding snapshot_arms request_group registered_group def eq_text snapshot_save snapshot_diff
      snapshot_restore snapshot_delete
  snapshot_arms-Grouped = (
    (λ name p d. value-Within _ (forward (P.snapshot_save p.name)) d refl),
    (
      no_args-Grouped schema_for (codes "snapshot_list") _ refl,
      (
        (λ name p d. value-Within _ (forward (P.snapshot_diff p.name)) d refl),
        (
          (λ name p d.
              choice-Within _ (dry p.dry_run) (P.snapshot_restore p.name)
                (preview_snapshot_restore p.name) d tt refl),
          (
            (λ name p d. value-Within _ (forward (P.snapshot_delete p.name)) d refl),
            (
              no_args-Grouped schema_for (codes "rules_list") _ refl,
              (
                no_args-Grouped schema_for (codes "rules_validate") _ refl,
                (no_args-Grouped schema_for (codes "rules_path") _ refl, tt),
              ),
            ),
          ),
        ),
      ),
    ),
  )
