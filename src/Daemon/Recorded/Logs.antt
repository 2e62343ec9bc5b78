-- ===== src/Daemon/Recorded/Logs.antt =====
-- What the recorded operations leave on the undo stack.
use hypr_pilot.Prelude.{ℤ, ◌≡◌, refl, Bool, Option, none, some, List, find, Text, Result, ok, err}
use hypr_pilot.Core.Error.{Error}
use hypr_pilot.Core.WindowSelector.{WindowSelector}
use hypr_pilot.Core.WorkspaceRef.{WorkspaceRef}
use hypr_pilot.Core.Types.{Client}
use hypr_pilot.Core.Connection
use hypr_pilot.Core.Queries
use hypr_pilot.Daemon.Undo.{InverseAction}
use hypr_pilot.Daemon.Recorded.{
  core_error, selector_matches, Host, State, record_undo, kill_done, kill_found,
  kill_active_recorded, close_done, close_found, close_window_recorded, inverse_for_killed,
  inverse_for_matched, move_done, move_found, move_to_workspace_recorded, send_move,
}
use hypr_pilot.Daemon.Replies.{Reply, Response, success, failure}

module _ {W R : Type 0} (host : Host W R) (now : ℤ) (wrote : Bool) where
  -- A failure changes at most Hyprland; a success changes Hyprland and records at most one entry.
  pub data Logs (st : State W R) (r : Response × State W R) : Type 0 where
    refused :
        (code message : Text) (w : W)
        → r ≡ (failure code message, record st { hypr = w })
        → Logs st r
    unlogged : (reply : Reply) (w : W) → r ≡ (success reply, record st { hypr = w }) → Logs st r
    logged :
        (reply : Reply) (w : W) (text : Text) (action : InverseAction)
        → r ≡ (success reply, record_undo host now wrote text action (record st { hypr = w }))
        → Logs st r

  kill_done-Logs :
      (st : State W R) (c : Client) (inverse : Option InverseAction) (r : Result Unit Error) (w : W)
      → Logs st (kill_done host now wrote c inverse r (record st { hypr = w }))
  unfolding kill_done core_error
  kill_done-Logs st c inverse (err e) w = refused _ _ w refl
  kill_done-Logs st c none (ok u) w = unlogged _ w refl
  kill_done-Logs st c (some action) (ok u) w = logged _ w _ action refl

  kill_found-Logs :
      (st : State W R) (r : Result (Option Client) Error) (w : W)
      → Logs st (kill_found host now wrote r (record st { hypr = w }))
  unfolding kill_found core_error
  kill_found-Logs st (err e) w = refused _ _ w refl
  kill_found-Logs st (ok none) w = refused _ _ w refl
  kill_found-Logs st (ok (some c)) w =
      let r = Connection.kill_active host.send_raw w in
      kill_done-Logs st c (inverse_for_killed host now wrote c) r.0 r.1

  close_done-Logs :
      (st : State W R) (c : Option Client) (inverse : Option InverseAction) (r : Result Unit Error)
      (w : W)
      → Logs st (close_done host now wrote c inverse r (record st { hypr = w }))
  unfolding close_done core_error
  close_done-Logs st c inverse (err e) w = refused _ _ w refl
  close_done-Logs st none inverse (ok u) w = unlogged _ w refl
  close_done-Logs st (some c) none (ok u) w = unlogged _ w refl
  close_done-Logs st (some c) (some action) (ok u) w = logged _ w _ action refl

  close_found-Logs :
      (st : State W R) (sel : WindowSelector) (r : Result (List Client) Error) (w : W)
      → Logs st (close_found host now wrote sel r (record st { hypr = w }))
  unfolding close_found core_error
  close_found-Logs st sel (err e) w = refused _ _ w refl
  close_found-Logs st sel (ok cs) w =
      let r = Connection.close_window host.send_raw sel w in
      let matched = find (selector_matches sel) cs in
      close_done-Logs st matched (inverse_for_matched host now wrote matched) r.0 r.1

  move_done-Logs :
      (st : State W R) (c : Client) (ws : WorkspaceRef) (silent : Bool) (r : Result Unit Error)
      (w : W)
      → Logs st (move_done host now wrote c ws silent r (record st { hypr = w }))
  unfolding move_done core_error
  move_done-Logs st c ws silent (err e) w = refused _ _ w refl
  move_done-Logs st c ws silent (ok u) w = logged _ w _ _ refl

  move_found-Logs :
      (st : State W R) (ws : WorkspaceRef) (silent : Bool) (r : Result (Option Client) Error)
      (w : W)
      → Logs st (move_found host now wrote ws silent r (record st { hypr = w }))
  unfolding move_found core_error
  move_found-Logs st ws silent (err e) w = refused _ _ w refl
  move_found-Logs st ws silent (ok none) w = refused _ _ w refl
  move_found-Logs st ws silent (ok (some c)) w =
      let r = send_move host now wrote ws silent w in move_done-Logs st c ws silent r.0 r.1

  -- A recorded kill, close or move that is answered with a failure leaves the undo stack and its
  -- file as they were, and one that succeeds records at most one entry.
  pub recorded-Logs :
      (st : State W R) (sel : WindowSelector) (ws : WorkspaceRef) (silent : Bool)
      → Logs st (kill_active_recorded host now wrote st)
        × Logs st (close_window_recorded host now wrote sel st)
        × Logs st (move_to_workspace_recorded host now wrote ws silent st)
  unfolding kill_active_recorded close_window_recorded move_to_workspace_recorded
  recorded-Logs st sel ws silent =
      let q = Queries.active_window host.send_raw host.read_active st.hypr in
      let l = Queries.clients host.send_raw host.read_clients st.hypr in
      (
        kill_found-Logs st q.0 q.1,
        close_found-Logs st sel l.0 l.1,
        move_found-Logs st ws silent q.0 q.1,
      )
