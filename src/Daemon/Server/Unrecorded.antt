-- ===== src/Daemon/Server/Unrecorded.antt =====
-- Handlers that leave the undo stack and its file as they are.
use hypr_pilot.Prelude.{
  ℤ, Bool, true, false, ◌≡◌, refl, Option, none, some, List, Text, codes, Result, ok, err,
  if◌then◌else◌,
}
use hypr_pilot.A11y.{Element, A11yError, unavailable, bus, no_application}
use hypr_pilot.Core.Error.{Error}
use hypr_pilot.Core.Types.{Client, Bind}
use hypr_pilot.Core.Snapshot.{Snapshot, validate_name}
use hypr_pilot.Core.Snapshot.Capture.{capture}
use hypr_pilot.Core.Snapshot.Files.{save_named, load_named}
use hypr_pilot.Daemon.Binds.{resolve}
use hypr_pilot.Daemon.Replies.{Response}
use hypr_pilot.Daemon.Recorded.{core_error}
use hypr_pilot.Input.Keys.{KeyCombo}
use hypr_pilot.Daemon.Services.{Services, State}
use hypr_pilot.Daemon.Server.{Handler, world, moved_on, run_found, run_bind_with, run_bind}
use hypr_pilot.Daemon.Server.Access.{
  a11y_error_response, answer_elements, walk_connected, walk_app, walk_focused, walk_resolved,
}
use hypr_pilot.Daemon.Server.Snapshots.{
  snapshot_load_error, answer_diff, diff_live, answer_preview, preview_live, apply_restore,
  restore_after, restore_loaded, save_captured, captured, loaded, invalid_name, snapshot_save,
  snapshot_delete,
}

module _ {W R : Type 0} (svc : Services W R) where
  -- The stack and the disk of a state are those of another.
  pub record Same (after before : State W R) : Type 0 where
    pub same_undo : after.recorded.undo ≡ before.recorded.undo
    pub same_disk : after.recorded.disk ≡ before.recorded.disk

  abbrev pub Keeps : Handler svc → Type 0
  Keeps h = (st : State W R) → Same (h st).1 st

  abbrev pub same :
      {after before : State W R}
      → after.recorded.undo ≡ before.recorded.undo
      → after.recorded.disk ≡ before.recorded.disk
      → Same after before
  same u d = record { same_undo = u; same_disk = d }

  pub either-Keeps :
      (b : Bool) (x y : Response × State W R) (st : State W R)
      → Same x.1 st
      → Same y.1 st
      → Same (if b then x else y).1 st
  either-Keeps true x y st p q = p
  either-Keeps false x y st p q = q

  run_found-Keeps :
      (c : KeyCombo) (s : Option Text) (dry : Bool) (o : Option Bind)
      → Keeps (run_found svc c s dry o)
  unfolding run_found
  run_found-Keeps c s dry none st = same refl refl
  run_found-Keeps c s true (some b) st = same refl refl
  run_found-Keeps c s false (some b) st = same refl refl

  run_bind_with-Keeps :
      (c : KeyCombo) (s : Option Text) (dry : Bool) (r : Result (List Bind) Error)
      → Keeps (run_bind_with svc c s dry r)
  unfolding run_bind_with
  run_bind_with-Keeps c s dry (err e) st = same refl refl
  run_bind_with-Keeps c s dry (ok bs) st = run_found-Keeps c s dry (resolve bs c s) st

  -- The world does not count.
  from_moved :
      {after : State W R} (w : W) (st : State W R) → Same after (moved_on svc w st) → Same after st
  from_moved w st s = same s.same_undo s.same_disk

  pub run_bind-Keeps : (c : KeyCombo) (s : Option Text) (dry : Bool) → Keeps (run_bind svc c s dry)
  unfolding run_bind
  run_bind-Keeps c s dry st =
      let r = svc.cached_binds (world svc st) in
      from_moved r.1 st (run_bind_with-Keeps c s dry r.0 (moved_on svc r.1 st))

  a11y_error_response-Keeps : (e : A11yError) → Keeps (a11y_error_response svc e)
  unfolding a11y_error_response
  a11y_error_response-Keeps (unavailable m) st = same refl refl
  a11y_error_response-Keeps (bus m) st = same refl refl
  a11y_error_response-Keeps (no_application p) st = same refl refl

  answer_elements-Keeps :
      (p : ℤ) (q : Option Text) (r : Result (List Element) A11yError)
      → Keeps (answer_elements svc p q r)
  unfolding answer_elements
  answer_elements-Keeps p q (ok es) st = same refl refl
  answer_elements-Keeps p q (err e) st = a11y_error_response-Keeps e st

  walk_connected-Keeps :
      (p : ℤ) (q : Option Text) (walk : W → Result (List Element) A11yError × W)
      (r : Result Unit A11yError)
      → Keeps (walk_connected svc p q walk r)
  unfolding walk_connected
  walk_connected-Keeps p q walk (err e) st = a11y_error_response-Keeps e st
  walk_connected-Keeps p q walk (ok u) st =
      let r = walk (world svc st) in
      let s = answer_elements-Keeps p q r.0 (moved_on svc r.1 (record st { a11y = true })) in
      same s.same_undo s.same_disk

  walk_app-Keeps :
      (p : ℤ) (q : Option Text) (walk : W → Result (List Element) A11yError × W)
      → Keeps (walk_app svc p q walk)
  unfolding walk_app
  walk_app-Keeps p q walk st =
      let c = svc.connect_a11y (world svc st) in
      either-Keeps st.a11y (walk_connected svc p q walk (ok tt) st)
        (walk_connected svc p q walk c.0 (moved_on svc c.1 st)) st
        (walk_connected-Keeps p q walk (ok tt) st)
        (from_moved c.1 st (walk_connected-Keeps p q walk c.0 (moved_on svc c.1 st)))

  walk_focused-Keeps :
      (r : Result (Option Client) Error) (q : Option Text)
      (walk : ℤ → W → Result (List Element) A11yError × W)
      → Keeps (walk_focused svc r q walk)
  unfolding walk_focused
  walk_focused-Keeps (err e) q walk st = same refl refl
  walk_focused-Keeps (ok none) q walk st = same refl refl
  walk_focused-Keeps (ok (some c)) q walk st = walk_app-Keeps c.pid q (walk c.pid) st

  pub walk_resolved-Keeps :
      (p : Option ℤ) (q : Option Text) (walk : ℤ → W → Result (List Element) A11yError × W)
      → Keeps (walk_resolved svc p q walk)
  unfolding walk_resolved
  walk_resolved-Keeps (some p) q walk st = walk_app-Keeps p q (walk p) st
  walk_resolved-Keeps none q walk st =
      let r = svc.cached_active_window (world svc st) in
      from_moved r.1 st (walk_focused-Keeps r.0 q walk (moved_on svc r.1 st))

  -- Snapshots: what comes behind a capture or a load keeps the stack.
  captured_at :
      (k : Snapshot → Handler svc) (r : Result Snapshot Error) (w : W) (st : State W R)
      → ((s : Snapshot) → Keeps (k s))
      → Same
          (elim r as (λ _. Response × State W R) [
            | ok s ↦ k s (moved_on svc w st)
            | err e ↦ (core_error e, moved_on svc w st)
          ]).1
          st
  captured_at k (ok s) w st h = from_moved w st (h s (moved_on svc w st))
  captured_at k (err e) w st h = same refl refl

  captured-Keeps :
      (name : Text) (k : Snapshot → Handler svc)
      → ((s : Snapshot) → Keeps (k s))
      → Keeps (captured svc name k)
  captured-Keeps name k h st =
      let r = capture svc.queried name svc.now (world svc st) in captured_at k r.0 r.1 st h

  loaded_at :
      (k : Snapshot → Handler svc) (r : Result Snapshot Error) (st : State W R)
      → ((s : Snapshot) → Keeps (k s))
      → Same
          (elim r as (λ _. Response × State W R) [
            | ok s ↦ k s st
            | err e ↦ (snapshot_load_error e, st)
          ]).1
          st
  loaded_at k (ok s) st h = h s st
  loaded_at k (err e) st h = same refl refl

  pub loaded-Keeps :
      (name : Text) (k : Snapshot → Handler svc)
      → ((s : Snapshot) → Keeps (k s))
      → Keeps (loaded svc name k)
  loaded-Keeps name k h st = loaded_at k (load_named svc.files name (world svc st)) st h

  pub diff_live-Keeps : (target : Snapshot) → Keeps (diff_live svc target)
  unfolding diff_live answer_diff
  diff_live-Keeps target =
      captured-Keeps (codes "_live_") (answer_diff svc target) (λ live st. same refl refl)

  pub preview_live-Keeps : (target : Snapshot) → Keeps (preview_live svc target)
  unfolding preview_live answer_preview
  preview_live-Keeps target =
      captured-Keeps (codes "_live_") (answer_preview svc target) (λ live st. same refl refl)

  restore_after-Keeps :
      (n p : Text) (target before : Snapshot) → Keeps (restore_after svc n p target before)
  unfolding restore_after apply_restore
  restore_after-Keeps n p target before st =
      let w = (save_named svc.files before (world svc st)).1 in
      from_moved w st (
        captured-Keeps (codes "_live_") (apply_restore svc n p target) (λ live st. same refl refl)
          (moved_on svc w st))

  pub restore_loaded-Keeps :
      (n p : Text) (target : Snapshot) → Keeps (restore_loaded svc n p target)
  unfolding restore_loaded
  restore_loaded-Keeps n p target =
      captured-Keeps p (restore_after svc n p target) (restore_after-Keeps n p target)

  named_at :
      (r : Result Unit Error) (x : Response × State W R) (f : Error → Response) (st : State W R)
      → Same x.1 st
      → Same (elim r as (λ _. Response × State W R) [ err e ↦ (f e, st) | ok u ↦ x ]).1 st
  named_at (ok u) x f st s = s
  named_at (err e) x f st s = same refl refl

  pub snapshot_save-Keeps : (n : Text) → Keeps (snapshot_save svc n)
  unfolding snapshot_save
  snapshot_save-Keeps n st =
      named_at (validate_name n) (captured svc n (save_captured svc n) st) invalid_name st (
        captured-Keeps n (save_captured svc n) (λ s. unfold save_captured in λ st. same refl refl)
          st)

  pub snapshot_delete-Keeps : (n : Text) → Keeps (snapshot_delete svc n)
  unfolding snapshot_delete
  snapshot_delete-Keeps n st = named_at (validate_name n) _ invalid_name st (same refl refl)
