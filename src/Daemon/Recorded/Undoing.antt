-- ===== src/Daemon/Recorded/Undoing.antt =====
-- What an undo does after a recorded operation, and what the list of undos shows.
use hypr_pilot.Prelude.{
  true, false, codes, show_i32, ℤ, ◌<◌, ◌≡◌, refl, ap, ◌∙◌, Bool, false, Option, some, List, [],
  ◌∷◌, ◌++◌, length, reverse, Text, Result, ok, ◌==◌, arith,
}
use mathlib.Core.List.{reverse-append}
use hypr_pilot.Core.Error.{Error}
use hypr_pilot.Core.WorkspaceRef
use hypr_pilot.Core.WorkspaceRef.{WorkspaceRef}
use hypr_pilot.Core.WindowSelector
use hypr_pilot.Core.Connection
use hypr_pilot.Core.Connection.{dispatch}
use hypr_pilot.Core.Types.{Client}
use hypr_pilot.Core.Queries
use hypr_pilot.Daemon.Undo
use hypr_pilot.Daemon.Undo.{
  UndoEntry, UndoStack, InverseAction, push, then_io, apply_inverse, pop_back,
}
use hypr_pilot.Daemon.Undo.History.{pop_back-snoc}
use hypr_pilot.Daemon.Recorded.{
  Host, State, record_undo, move_done, move_found, move_to_workspace_recorded, inverse_for_moved,
  move_text, send_move, answer_undo, undo_popped, undo, list_from, undo_list,
}
use hypr_pilot.Daemon.Replies.{undo_entries, Response, success}

-- The command that takes the active window back to the workspace of `c`.
abbrev pub command_back : Client → Bool → Text
command_back c true = codes "movetoworkspacesilent " ++ show_i32 c.workspace.id
command_back c false = codes "movetoworkspace " ++ show_i32 c.workspace.id

module _ {W R : Type 0} (host : Host W R) (now : ℤ) (wrote : Bool) where
  -- An undo of a stack with a newest entry.
  pub record Undone (st : State W R) (e : UndoEntry) (rest : List UndoEntry)
      (r : Response × State W R) : Type 0 where
    pub entries : r.1.undo.entries ≡ rest
    pub sent : r.1.hypr ≡ (apply_inverse host.send_raw e.inverse st.hypr).1
    pub answer : r.0 ≡ answer_undo e.description (apply_inverse host.send_raw e.inverse st.hypr).0

  -- An undo of a stack with a newest entry pops it and sends its inverse.
  pub undo-Undone :
      (st : State W R) (e : UndoEntry) (rest : List UndoEntry)
      → st.undo.entries ≡ rest ++ (e ∷ [])
      → Undone st e rest (undo host now wrote st)
  unfolding undo undo_popped Undo.pop
  undo-Undone st e rest h =
      let found : pop_back st.undo.entries ≡ some (e, rest) = rw h (pop_back-snoc rest e) in
      rw (found, undo, Undo.pop) (record { entries = refl; sent = refl; answer = refl })

  record_undo-entries :
      (text : Text) (action : InverseAction) (st : State W R)
      → length st.undo.entries < st.undo.capacity
      → (record_undo host now wrote text action st).undo.entries
        ≡ st.undo.entries
          ++ (record { timestamp_unix = now; description = text; inverse = action } ∷ [])
  unfolding record_undo push
  record_undo-entries text action st h =
      let room : (length st.undo.entries == st.undo.capacity) ≡ false = ground arith in
      rw (room, record_undo, push) refl

  -- The state after a move that Hyprland accepts.
  move-recorded :
      (st : State W R) (ws : WorkspaceRef) (silent : Bool) (c : Client) (w w' : W)
      → Queries.active_window host.send_raw host.read_active st.hypr ≡ (ok (some c), w)
      → send_move host now wrote ws silent w ≡ (ok tt, w')
      → (move_to_workspace_recorded host now wrote ws silent st).1
        ≡ record_undo host now wrote
            (move_text c ws)
            (inverse_for_moved c silent)
            (record st { hypr = w' })
  unfolding move_to_workspace_recorded move_found move_done
  move-recorded st ws silent c w w' q m =
      ap
        (λ (z : Result (Option Client) Error × W).
          (move_found host now wrote ws silent z.0 (record st { hypr = z.1 })).1)
        q
      ∙ ap
          (λ (z : Result Unit Error × W).
            (move_done host now wrote c ws silent z.0 (record st { hypr = z.1 })).1)
          m

  -- The state after it has the move's inverse on top.
  undo-recorded :
      (text : Text) (action : InverseAction) (st : State W R)
      → length st.undo.entries < st.undo.capacity
      → Undone
          (record_undo host now wrote text action st)
          (record { timestamp_unix = now; description = text; inverse = action })
          st.undo.entries
          (undo host now wrote (record_undo host now wrote text action st))
  undo-recorded text action st room =
      undo-Undone (record_undo host now wrote text action st)
        (record { timestamp_unix = now; description = text; inverse = action }) st.undo.entries
        (record_undo-entries text action st room)

  apply_inverse-moved :
      (c : Client) (silent : Bool)
      → apply_inverse host.send_raw (inverse_for_moved c silent)
        ≡ then_io host.send_raw
            (dispatch host.send_raw
              (codes "focuswindow " ++ WindowSelector.encode (WindowSelector.address c.address)))
            (dispatch host.send_raw (command_back c silent))
  unfolding apply_inverse Connection.focus_window Connection.move_active_to_workspace
      Connection.move_active_to_workspace_silent WorkspaceRef.encode
  apply_inverse-moved c true = refl
  apply_inverse-moved c false = refl

  -- When the stack has room, the query of the active window gives a window and Hyprland accepts
  -- the move, an undo after the recorded move leaves the stack as it was before, and sends to
  -- Hyprland the focus of this window by its address and, if that is accepted, the move to the
  -- number of the workspace it was on.
  pub undo-move_to_workspace_recorded :
      (st : State W R) (ws : WorkspaceRef) (silent : Bool) (c : Client) (w w' : W)
      → length st.undo.entries < st.undo.capacity
      → Queries.active_window host.send_raw host.read_active st.hypr ≡ (ok (some c), w)
      → send_move host now wrote ws silent w ≡ (ok tt, w')
      → ((undo host now wrote
            (move_to_workspace_recorded host now wrote ws silent st).1).1.undo.entries
          ≡ st.undo.entries)
        × ((undo host now wrote (move_to_workspace_recorded host now wrote ws silent st).1).1.hypr
            ≡ (then_io host.send_raw
                (dispatch host.send_raw (
                  codes "focuswindow " ++ WindowSelector.encode (WindowSelector.address c.address)))
                (dispatch host.send_raw (command_back c silent))
                w').1)
  unfolding record_undo
  undo-move_to_workspace_recorded st ws silent c w w' room q m =
      let u =
        undo-recorded (move_text c ws) (inverse_for_moved c silent) (record st { hypr = w' })
          room in
      rw (move-recorded st ws silent c w w' q m)
        (u.entries, u.sent ∙ ap (λ f. (f w').1) (apply_inverse-moved c silent))

-- The list of undos shows the newest entry first, at index 0, and after an undo it shows the
-- others, numbered anew.
pub undo_list-undo :
    {W R : Type 0} (host : Host W R) (now : ℤ) (wrote : Bool) (st : State W R) (e : UndoEntry)
    (rest : List UndoEntry)
    → st.undo.entries ≡ rest ++ (e ∷ [])
    → (undo_list st
        ≡ success (
            undo_entries (
              record { index = 0; timestamp_unix = e.timestamp_unix; description = e.description }
              ∷ list_from 1 (reverse rest))))
      × (undo_list (undo host now wrote st).1 ≡ success (undo_entries (list_from 0 (reverse rest))))
unfolding undo_list list_from
undo_list-undo host now wrote st e rest h =
    let listed : List UndoEntry → Response =
      λ es. success (undo_entries (list_from 0 (reverse es))) in
    let newest =
      ap (λ es. success (undo_entries (list_from 0 es))) (reverse-append rest (e ∷ [])) in
    (ap listed h ∙ newest, ap listed (undo-Undone host now wrote st e rest h).entries)
