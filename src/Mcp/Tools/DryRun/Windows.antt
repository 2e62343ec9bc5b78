-- ===== src/Mcp/Tools/DryRun/Windows.antt =====
-- The arms for windows, the desktop and snapshots act only if `dry_run` is given as false.
use hypr_pilot.Prelude.{
  Bool, true, false, Option, none, some, [], ◌≡◌, refl, All, Text, Result, ok, arith, if◌then◌else◌,
}
use hypr_pilot.Daemon.Protocol as P
use hypr_pilot.Daemon.Protocol.{Request}
use hypr_pilot.Mcp.Tools.Args.{dry}
use hypr_pilot.Mcp.Tools.Kinds.{dry_run_of}
use hypr_pilot.Mcp.Tools.Ops.{Dispatch, DispatchError, forward, preview_snapshot_restore}
use hypr_pilot.Mcp.Tools.Arms.{
  mut_no_args_arm, set_fullscreen, move_active, resize_active, swap_active, focus_monitor,
  move_workspace_to_monitor, exec, snapshot_save, snapshot_diff, snapshot_restore, snapshot_delete,
}
use hypr_pilot.Mcp.Tools.Table.{query_arms, window_arms, desktop_arms, snapshot_arms}
use hypr_pilot.Mcp.Tools.DryRun.{
  acts, acts_request, Guarded, acts_value, forward_or_preview-Guarded, selector_body-Guarded,
  workspace_body-Guarded, mut_no_args-Guarded, no_args-Guarded,
}

-- What a value that does not act proves of an arm that returns it.
pub quiet :
    (e d : Dispatch) (o : Option Bool)
    → acts e ≡ false
    → ◌≡◌ {A = Result Dispatch DispatchError} (ok e) (ok d)
    → acts d ≡ true
    → o ≡ some false
quiet e d o q h a = absurd (ground (arith, acts_value e d h a))

pub query_arms-Guarded : All Guarded query_arms
unfolding query_arms acts_request
query_arms-Guarded = (
  no_args-Guarded _ _ refl,
  (
    no_args-Guarded _ _ refl,
    (
      no_args-Guarded _ _ refl,
      (
        no_args-Guarded _ _ refl,
        (
          no_args-Guarded _ _ refl,
          (
            no_args-Guarded _ _ refl,
            (no_args-Guarded _ _ refl, (no_args-Guarded _ _ refl, (no_args-Guarded _ _ refl, tt))),
          ),
        ),
      ),
    ),
  ),
)

pub window_arms-Guarded : All Guarded window_arms
unfolding window_arms mut_no_args_arm
window_arms-Guarded = (
  selector_body-Guarded [] _,
  (
    selector_body-Guarded [] _,
    (
      workspace_body-Guarded [] _,
      (
        workspace_body-Guarded [] _,
        (
          workspace_body-Guarded [] _,
          (
            mut_no_args-Guarded [] _,
            (
              mut_no_args-Guarded [] _,
              (
                mut_no_args-Guarded [] _,
                (
                  mut_no_args-Guarded [] _,
                  (
                    mut_no_args-Guarded [] _,
                    (mut_no_args-Guarded [] _, (mut_no_args-Guarded [] _, tt)),
                  ),
                ),
              ),
            ),
          ),
        ),
      ),
    ),
  ),
)

pub desktop_arms-Guarded : All Guarded desktop_arms
unfolding desktop_arms dry_run_of set_fullscreen move_active resize_active swap_active focus_monitor
    move_workspace_to_monitor exec
desktop_arms-Guarded = (
  (λ name p. forward_or_preview-Guarded p.dry_run _ _),
  (
    (λ name p. forward_or_preview-Guarded p.dry_run _ _),
    (
      (λ name p. forward_or_preview-Guarded p.dry_run _ _),
      (
        (λ name p. forward_or_preview-Guarded p.dry_run _ _),
        (
          (λ name p. forward_or_preview-Guarded p.dry_run _ _),
          (
            (λ name p. forward_or_preview-Guarded p.dry_run _ _),
            ((λ name p. forward_or_preview-Guarded p.dry_run _ _), tt),
          ),
        ),
      ),
    ),
  ),
)

restore-Guarded :
    (o : Option Bool) (n : Text) (d : Dispatch)
    → ◌≡◌ {A = Result Dispatch DispatchError}
        (ok (if dry o then preview_snapshot_restore n else forward (P.snapshot_restore n)))
        (ok d)
    → acts d ≡ true
    → o ≡ some false
unfolding dry acts
restore-Guarded none n d h a = absurd (ground (arith, acts_value _ d h a))
restore-Guarded (some true) n d h a = absurd (ground (arith, acts_value _ d h a))
restore-Guarded (some false) n d h a = refl

pub snapshot_arms-Guarded : All Guarded snapshot_arms
unfolding snapshot_arms dry_run_of snapshot_save snapshot_diff snapshot_restore snapshot_delete acts
snapshot_arms-Guarded = (
  (λ name p d. quiet (forward (P.snapshot_save p.name)) d none refl),
  (
    no_args-Guarded _ _ refl,
    (
      (λ name p d. quiet (forward (P.snapshot_diff p.name)) d none refl),
      (
        (λ name p d. restore-Guarded p.dry_run p.name d),
        (
          (λ name p d. quiet (forward (P.snapshot_delete p.name)) d none refl),
          (no_args-Guarded _ _ refl, (no_args-Guarded _ _ refl, (no_args-Guarded _ _ refl, tt))),
        ),
      ),
    ),
  ),
)
