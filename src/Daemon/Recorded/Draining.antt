-- ===== src/Daemon/Recorded/Draining.antt =====
-- A run of undos against the entries of the stack.
use mathlib.Core.List.{reverse-cons}
use hypr_pilot.Prelude.{
  ℕ, zero, suc, ℤ, ◌≡◌, refl, ap, sym, ◌∙◌, Bool, List, [], ◌∷◌, ◌++◌, length, reverse, none,
  append_assoc, append-nil, Text, codes, Result, ok, err,
}
use hypr_pilot.Core.Error.{Error, to_string}
use hypr_pilot.Daemon.Undo
use hypr_pilot.Daemon.Undo.{UndoEntry, apply_inverse}
use hypr_pilot.Daemon.Replies.{Response, success, failure, undone}
use hypr_pilot.Daemon.Recorded.{Host, State, answer_undo, undo_popped, undo}
use hypr_pilot.Daemon.Recorded.Undoing.{undo-Undone}

-- What the client is told of an undo: the description, in a failure with the error as well.
abbrev pub told : Text → Result Unit Error → Response
told text (ok u) = success (undone text)
told text (err e) =
    failure (codes "undo_failed") (codes "inverse `" ++ text ++ codes "` failed: " ++ to_string e)

module _ {W R : Type 0} (host : Host W R) (now : ℤ) (wrote : Bool) where
  -- A number of undos and their answers.
  abbrev pub undos : ℕ → State W R → List Response × State W R
  undos zero st = ([], st)
  undos (suc n) st =
      let r = undo host now wrote st in let rest = undos n r.1 in (r.0 ∷ rest.0, rest.1)

  -- The inverses of the entries, carried out one after the other.
  abbrev pub replayed : List UndoEntry → W → List Response × W
  replayed [] w = ([], w)
  replayed (e ∷ es) w =
      let r = apply_inverse host.send_raw e.inverse w in
      let rest = replayed es r.1 in (told e.description r.0 ∷ rest.0, rest.1)

  answer_undo-told : (text : Text) (r : Result Unit Error) → answer_undo text r ≡ told text r
  unfolding answer_undo
  answer_undo-told text (ok u) = refl
  answer_undo-told text (err e) = refl

  undo-nil :
      (st : State W R)
      → st.undo.entries ≡ []
      → undo host now wrote st ≡ (failure (codes "undo_empty") (codes "undo stack is empty"), st)
  unfolding undo undo_popped Undo.pop Undo.pop_back
  undo-nil st h =
      let found : Undo.pop_back st.undo.entries ≡ none = rw h refl in
      rw (found, undo, Undo.pop) refl

  -- The answers and the state after the undos of the entries `es`, newest first.
  pub record Drains (st : State W R) (rest es : List UndoEntry) (r : List Response × State W R)
      : Type 0 where
    pub answers : r.0 ≡ (replayed es st.hypr).0
    pub sent : r.1.hypr ≡ (replayed es st.hypr).1
    pub entries : r.1.undo.entries ≡ rest

  -- The entries at the top go, the others stay.
  undos-Drains_onto :
      (st : State W R) (rest es : List UndoEntry)
      → st.undo.entries ≡ rest ++ reverse es
      → Drains st rest es (undos (length es) st)
  undos-Drains_onto st rest [] h = record {
    answers = refl;
    sent = refl;
    entries = h ∙ append-nil rest;
  }
  undos-Drains_onto st rest (e ∷ es) h =
      let top : st.undo.entries ≡ (rest ++ reverse es) ++ (e ∷ []) =
        h
        ∙ ap (λ l. rest ++ l) (reverse-cons e es)
        ∙ sym (append_assoc rest (reverse es) (e ∷ [])) in
      let u = undo-Undone host now wrote st e (rest ++ reverse es) top in
      let d = undos-Drains_onto (undo host now wrote st).1 rest es u.entries in
      record {
        answers = λ i.
            (u.answer
                ∙ answer_undo-told e.description (apply_inverse host.send_raw e.inverse st.hypr).0)
              i
            ∷ (d.answers ∙ ap (λ w. (replayed es w).0) u.sent) i;
        sent = d.sent ∙ ap (λ w. (replayed es w).1) u.sent;
        entries = d.entries;
      }

  -- As many undos as there are entries carry out their inverses, the newest first, each where the
  -- one before left Hyprland and whatever it answered, tell the description of each, in a failure
  -- with the error as well, and leave no entry; one more undo answers that the stack is empty and
  -- changes nothing.
  pub undos-Drains :
      (st : State W R) (es : List UndoEntry)
      → st.undo.entries ≡ reverse es
      → Drains st [] es (undos (length es) st)
        × (undo host now wrote (undos (length es) st).1 ≡ (
          failure (codes "undo_empty") (codes "undo stack is empty"),
          (undos (length es) st).1,
        ))
  undos-Drains st es h =
      let d = undos-Drains_onto st [] es h in (d, undo-nil (undos (length es) st).1 d.entries)
