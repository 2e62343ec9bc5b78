-- ===== src/Daemon/Server/Snapshots.antt =====
-- crates/hyprpilot-daemon/src/server.rs: the handlers of the snapshot and rule requests.
use hypr_pilot.Prelude.{Option, none, some, List, [], ◌++◌, length, Text, codes, Result, ok, err}
use hypr_pilot.Core.Error.{Error, to_string, io, json, validation, not_found}
use hypr_pilot.Core.Snapshot.{Snapshot, validate_name, mutation_count}
use hypr_pilot.Core.Snapshot.Diff.{diff_against}
use hypr_pilot.Core.Snapshot.Apply.{apply_diff}
use hypr_pilot.Core.Snapshot.Preview.{from_snapshot_and_diff}
use hypr_pilot.Core.Snapshot.Capture.{capture}
use hypr_pilot.Core.Snapshot.Files.{save_named, load_named, delete_named}
use hypr_pilot.Daemon.Rules.{RuleConfig}
use hypr_pilot.Daemon.Engine.{CompiledRule, compile}
use hypr_pilot.Daemon.Replies.{
  Response, success, failure, saved, names, diff, restore_preview, restored, deleted, rules,
  rules_ok,
}
use hypr_pilot.Daemon.Recorded.{core_error}
use hypr_pilot.Daemon.Services.{Services}
use hypr_pilot.Daemon.Server.{Handler, world, moved_on}

unfoldable pub snapshot_load_error : Error → Response
unfolding core_error
snapshot_load_error (not_found e) = failure (codes "snapshot_not_found") (to_string (not_found e))
snapshot_load_error (validation e) =
    failure (codes "snapshot_invalid_name") (to_string (validation e))
snapshot_load_error (io e) = failure (codes "snapshot_io") (to_string (io e))
snapshot_load_error (json e) = failure (codes "snapshot_io") (to_string (json e))
snapshot_load_error e = core_error e

abbrev pub invalid_name : Error → Response
invalid_name e = failure (codes "snapshot_invalid_name") (to_string e)

abbrev pub answer_saved : Text → Snapshot → Result Text Error → Response
answer_saved name s (ok path) =
    success (saved name path (length s.windows) (length s.workspaces) (length s.monitors))
answer_saved name s (err e) = failure (codes "snapshot_io") (to_string e)

abbrev pub answer_names : Result (List Text) Text → Response
answer_names (ok ns) = success (names ns)
answer_names (err e) = failure (codes "snapshot_io") e

abbrev pub answer_deleted : Text → Result Unit Error → Response
answer_deleted name (ok u) = success (deleted name)
answer_deleted name (err e) = failure (codes "snapshot_io") (to_string e)

abbrev pub answer_rules : Text → Result (Option RuleConfig) Text → Response
answer_rules path (ok (some cfg)) = success (rules path (length cfg.rules) cfg.rules)
answer_rules path (ok none) = success (rules path 0 [])
answer_rules path (err e) = failure (codes "rules_load_failed") e

abbrev pub answer_compiled : Text → Result (List CompiledRule) Text → Response
answer_compiled path (ok compiled) = success (rules_ok path (length compiled) none)
answer_compiled path (err m) =
    failure (codes "rules_load_failed") (codes "rules compile error: " ++ m)

unfoldable pub answer_validated : Text → Result (Option RuleConfig) Text → Response
unfolding compile
answer_validated path (ok none) = success (rules_ok path 0 (some (codes "no rules file present")))
answer_validated path (ok (some cfg)) = answer_compiled path (compile cfg)
answer_validated path (err e) = failure (codes "rules_load_failed") e

module _ {W R : Type 0} (svc : Services W R) where
  -- A captured snapshot goes on, and an error is answered.
  abbrev pub captured : Text → (Snapshot → Handler svc) → Handler svc
  captured name k st =
      let r = capture svc.queried name svc.now (world svc st) in
      elim r.0 [ ok s ↦ k s (moved_on svc r.1 st) | err e ↦ (core_error e, moved_on svc r.1 st) ]

  -- The saved snapshot goes on, and an error is answered.
  abbrev pub loaded : Text → (Snapshot → Handler svc) → Handler svc
  loaded name k st = elim (load_named svc.files name (world svc st)) [
    | ok s ↦ k s st
    | err e ↦ (snapshot_load_error e, st)
  ]

  unfoldable pub save_captured : Text → Snapshot → Handler svc
  unfolding save_named
  save_captured name s st =
      let r = save_named svc.files s (world svc st) in
      (answer_saved name s r.0, moved_on svc r.1 st)

  unfoldable pub snapshot_save : Text → Handler svc
  unfolding validate_name capture core_error save_captured
  snapshot_save name st = elim (validate_name name) [
    | err e ↦ (invalid_name e, st)
    | ok u ↦ captured name (save_captured name) st
  ]

  unfoldable pub snapshot_list : Handler svc
  snapshot_list st = (answer_names (svc.list_names (world svc st)), st)

  unfoldable pub answer_diff : Snapshot → Snapshot → Handler svc
  unfolding diff_against
  answer_diff target live st = (success (diff (diff_against target live)), st)

  unfoldable pub diff_live : Snapshot → Handler svc
  unfolding capture core_error answer_diff
  diff_live target = captured (codes "_live_") (answer_diff target)

  unfoldable pub snapshot_diff : Text → Handler svc
  unfolding load_named snapshot_load_error diff_live
  snapshot_diff name = loaded name diff_live

  unfoldable pub answer_preview : Snapshot → Snapshot → Handler svc
  unfolding diff_against from_snapshot_and_diff
  answer_preview target live st =
      (success (restore_preview (from_snapshot_and_diff target (diff_against target live))), st)

  unfoldable pub preview_live : Snapshot → Handler svc
  unfolding capture core_error answer_preview
  preview_live target = captured (codes "_live_") (answer_preview target)

  unfoldable pub snapshot_preview : Text → Handler svc
  unfolding load_named snapshot_load_error preview_live
  snapshot_preview name = loaded name preview_live

  -- The diff carried out, with its report.
  unfoldable pub apply_restore : Text → Text → Snapshot → Snapshot → Handler svc
  unfolding diff_against from_snapshot_and_diff apply_diff mutation_count
  apply_restore name pre_name target live st =
      let d = diff_against target live in
      let r = apply_diff svc.host.send_raw d (world svc st) in
      (
        success (restored name pre_name (mutation_count d) r.0 (from_snapshot_and_diff target d)),
        moved_on svc r.1 st,
      )

  -- With the snapshot of before, a failure to save which is only logged.
  unfoldable pub restore_after : Text → Text → Snapshot → Snapshot → Handler svc
  unfolding save_named capture core_error apply_restore
  restore_after name pre_name target before st =
      captured (codes "_live_") (apply_restore name pre_name target)
        (moved_on svc (save_named svc.files before (world svc st)).1 st)

  unfoldable pub restore_loaded : Text → Text → Snapshot → Handler svc
  unfolding capture core_error restore_after
  restore_loaded name pre_name target = captured pre_name (restore_after name pre_name target)

  unfoldable pub snapshot_restore : Text → Handler svc
  unfolding load_named snapshot_load_error restore_loaded
  snapshot_restore name = loaded name (restore_loaded name (codes "_pre-restore-" ++ svc.show_now))

  unfoldable pub snapshot_delete : Text → Handler svc
  unfolding validate_name delete_named
  snapshot_delete name st = elim (validate_name name) [
    | err e ↦ (invalid_name e, st)
    | ok u ↦
        let r = delete_named svc.files name (world svc st) in
        (answer_deleted name r.0, moved_on svc r.1 st)
  ]

  unfoldable pub rules_list : Handler svc
  rules_list st = (answer_rules svc.rules_path (svc.load_default (world svc st)), st)

  unfoldable pub rules_validate : Handler svc
  unfolding answer_validated
  rules_validate st = (answer_validated svc.rules_path (svc.load_default (world svc st)), st)
