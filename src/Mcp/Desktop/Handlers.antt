-- ===== src/Mcp/Desktop/Handlers.antt =====
-- The handlers of the daemon that do not act.
use hypr_pilot.Prelude.{
  ℤ, Bool, true, false, Option, none, some, List, Text, codes, Result, ok, err, if◌then◌else◌,
}
use hypr_pilot.A11y.{Element, A11yError, unavailable, bus, no_application}
use hypr_pilot.Core.Error.{Error}
use hypr_pilot.Core.Types.{Client, Bind}
use hypr_pilot.Core.Snapshot.{Snapshot, validate_name}
use hypr_pilot.Core.Snapshot.Capture.{capture}
use hypr_pilot.Core.Snapshot.Files.{io_step, snapshot_path, load_named, delete_at, delete_named}
use hypr_pilot.Daemon.Binds.{resolve}
use hypr_pilot.Daemon.Replies.{Response}
use hypr_pilot.Daemon.Recorded.{core_error}
use hypr_pilot.Daemon.Services.{Services, State}
use hypr_pilot.Daemon.Server.{Handler, world, moved_on, run_found, run_bind_with, run_bind}
use hypr_pilot.Daemon.Server.Access.{
  a11y_error_response, answer_elements, walk_connected, walk_app, walk_focused, walk_resolved,
}
use hypr_pilot.Daemon.Server.Snapshots.{
  snapshot_load_error, answer_diff, diff_live, answer_preview, preview_live, save_captured,
  captured, loaded, invalid_name, snapshot_save, snapshot_delete,
}
use hypr_pilot.Input.Keys.{KeyCombo}
use hypr_pilot.Mcp.Desktop.Calm.{Stays, Calm, capture-Stays, save_named-Stays}

module _ {W R : Type 0} (svc : Services W R) (I : W → Type 0) (calm : Calm svc I) where
  -- A handler keeps what the world has.
  abbrev pub Safe : Handler svc → Type 0
  Safe h = (st : State W R) → I (world svc st) → I (world svc (h st).1)

  either-Safe :
      (b : Bool) (x y : Response × State W R)
      → I (world svc x.1)
      → I (world svc y.1)
      → I (world svc (if b then x else y).1)
  either-Safe true x y p q = p
  either-Safe false x y p q = q

  captured_at :
      (k : Snapshot → Handler svc) (r : Result Snapshot Error) (w : W) (st : State W R)
      → ((s : Snapshot) → Safe (k s))
      → I w
      → I (
          world svc
            (elim r as (λ _. Response × State W R) [
              | ok s ↦ k s (moved_on svc w st)
              | err e ↦ (core_error e, moved_on svc w st)
            ]).1)
  captured_at k (ok s) w st h i = h s (moved_on svc w st) i
  captured_at k (err e) w st h i = i

  captured-Safe :
      (name : Text) (k : Snapshot → Handler svc)
      → ((s : Snapshot) → Safe (k s))
      → Safe (captured svc name k)
  captured-Safe name k h st i =
      let r = capture svc.queried name svc.now (world svc st) in
      captured_at k r.0 r.1 st h ((capture-Stays svc I calm name svc.now).holds (world svc st) i)

  loaded_at :
      (k : Snapshot → Handler svc) (r : Result Snapshot Error) (st : State W R)
      → ((s : Snapshot) → Safe (k s))
      → I (world svc st)
      → I (
          world svc
            (elim r as (λ _. Response × State W R) [
              | ok s ↦ k s st
              | err e ↦ (snapshot_load_error e, st)
            ]).1)
  loaded_at k (ok s) st h i = h s st i
  loaded_at k (err e) st h i = i

  pub loaded-Safe :
      (name : Text) (k : Snapshot → Handler svc)
      → ((s : Snapshot) → Safe (k s))
      → Safe (loaded svc name k)
  loaded-Safe name k h st i = loaded_at k (load_named svc.files name (world svc st)) st h i

  pub diff_live-Safe : (target : Snapshot) → Safe (diff_live svc target)
  unfolding diff_live answer_diff
  diff_live-Safe target = captured-Safe (codes "_live_") (answer_diff svc target) (λ live st i. i)

  pub preview_live-Safe : (target : Snapshot) → Safe (preview_live svc target)
  unfolding preview_live answer_preview
  preview_live-Safe target =
      captured-Safe (codes "_live_") (answer_preview svc target) (λ live st i. i)

  named_at :
      (r : Result Unit Error) (x : Response × State W R) (f : Error → Response) (st : State W R)
      → I (world svc x.1)
      → I (world svc st)
      → I (world svc (elim r as (λ _. Response × State W R) [ err e ↦ (f e, st) | ok u ↦ x ]).1)
  named_at (ok u) x f st s i = s
  named_at (err e) x f st s i = i

  save_captured-Safe : (n : Text) (s : Snapshot) → Safe (save_captured svc n s)
  unfolding save_captured
  save_captured-Safe n s st i = (save_named-Stays svc I calm s).holds (world svc st) i

  pub snapshot_save-Safe : (n : Text) → Safe (snapshot_save svc n)
  unfolding snapshot_save
  snapshot_save-Safe n st i =
      named_at (validate_name n) (captured svc n (save_captured svc n) st) invalid_name st
        (captured-Safe n (save_captured svc n) (save_captured-Safe n) st i) i

  either_world :
      (b : Bool) (p : Text) (w : W)
      → I w
      → I (if b then io_step (svc.files.remove_file p) w else (ok tt, w)).1
  either_world true p w i = (calm.remove_file p).holds w i
  either_world false p w i = i

  delete_at-keeps : (r : Result Text Error) (w : W) → I w → I (delete_at svc.files r w).1
  unfolding delete_at
  delete_at-keeps (err e) w i = i
  delete_at-keeps (ok p) w i = either_world (svc.files.exists p w) p w i

  pub snapshot_delete-Safe : (n : Text) → Safe (snapshot_delete svc n)
  unfolding snapshot_delete delete_named
  snapshot_delete-Safe n st i =
      named_at (validate_name n) _ invalid_name st
        (delete_at-keeps (snapshot_path svc.files n) (world svc st) i) i

  run_found-Safe :
      (c : KeyCombo) (s : Option Text) (o : Option Bind) → Safe (run_found svc c s true o)
  unfolding run_found
  run_found-Safe c s none st i = i
  run_found-Safe c s (some b) st i = i

  run_bind_with-Safe :
      (c : KeyCombo) (s : Option Text) (r : Result (List Bind) Error)
      → Safe (run_bind_with svc c s true r)
  unfolding run_bind_with
  run_bind_with-Safe c s (err e) st i = i
  run_bind_with-Safe c s (ok bs) st i = run_found-Safe c s (resolve bs c s) st i

  pub run_bind-Safe : (c : KeyCombo) (s : Option Text) → Safe (run_bind svc c s true)
  unfolding run_bind
  run_bind-Safe c s st i =
      let r = svc.cached_binds (world svc st) in
      run_bind_with-Safe c s r.0 (moved_on svc r.1 st) (calm.cached_binds.holds (world svc st) i)

  a11y_error_response-Safe : (e : A11yError) → Safe (a11y_error_response svc e)
  unfolding a11y_error_response
  a11y_error_response-Safe (unavailable m) st i = i
  a11y_error_response-Safe (bus m) st i = i
  a11y_error_response-Safe (no_application p) st i = i

  answer_elements-Safe :
      (p : ℤ) (q : Option Text) (r : Result (List Element) A11yError)
      → Safe (answer_elements svc p q r)
  unfolding answer_elements
  answer_elements-Safe p q (ok es) st i = i
  answer_elements-Safe p q (err e) st i = a11y_error_response-Safe e st i

  module _ (q : Option Text) (walk : ℤ → W → Result (List Element) A11yError × W)
      (walks : (p : ℤ) → Stays I (walk p)) where
    walk_connected-Safe :
        (p : ℤ) (r : Result Unit A11yError) → Safe (walk_connected svc p q (walk p) r)
    unfolding walk_connected
    walk_connected-Safe p (err e) st i = a11y_error_response-Safe e st i
    walk_connected-Safe p (ok u) st i =
        let r = walk p (world svc st) in
        answer_elements-Safe p q r.0 (moved_on svc r.1 (record st { a11y = true }))
          ((walks p).holds (world svc st) i)

    walk_app-Safe : (p : ℤ) → Safe (walk_app svc p q (walk p))
    unfolding walk_app
    walk_app-Safe p st i =
        let c = svc.connect_a11y (world svc st) in
        either-Safe st.a11y (walk_connected svc p q (walk p) (ok tt) st)
          (walk_connected svc p q (walk p) c.0 (moved_on svc c.1 st))
          (walk_connected-Safe p (ok tt) st i)
          (walk_connected-Safe p c.0 (moved_on svc c.1 st)
            (calm.connect_a11y.holds (world svc st) i))

    walk_focused-Safe : (r : Result (Option Client) Error) → Safe (walk_focused svc r q walk)
    unfolding walk_focused
    walk_focused-Safe (err e) st i = i
    walk_focused-Safe (ok none) st i = i
    walk_focused-Safe (ok (some c)) st i = walk_app-Safe c.pid st i

    pub walk_resolved-Safe : (p : Option ℤ) → Safe (walk_resolved svc p q walk)
    unfolding walk_resolved
    walk_resolved-Safe (some p) st i = walk_app-Safe p st i
    walk_resolved-Safe none st i =
        let r = svc.cached_active_window (world svc st) in
        walk_focused-Safe r.0 (moved_on svc r.1 st)
          (calm.cached_active_window.holds (world svc st) i)
