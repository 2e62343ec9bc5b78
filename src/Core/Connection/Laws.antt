-- ===== src/Core/Connection/Laws.antt =====
-- What a dispatch reports of Hyprland's reply.
use hypr_pilot.Prelude.{
  ◌≡◌, refl, ◌↔◌, true, false, inl, inr, Bool-cases, Text, codes, eq_text, eq_text_iff, trim, ok,
  err, Result, ◌++◌, arith, ◌⊎◌, starts_with, first_word,
}
use hypr_pilot.Core.Error.{Error, rejected, unknown_dispatcher}
use hypr_pilot.Core.Connection.{Send, dispatch, read_reply}

-- Hyprland's reply is `ok`, up to white space around it.
abbrev pub IsAccepted : Result Text Error → Type 0
IsAccepted reply = (raw : Text) × (reply ≡ ok raw) × (trim raw ≡ codes "ok")

read_reply_sound :
    (args : Text) (reply : Result Text Error) → read_reply args reply ≡ ok tt → IsAccepted reply
unfolding read_reply
read_reply_sound args (err e) h = (codes "", cc, cc)
read_reply_sound args (ok raw) h = (raw, refl, ground (arith, eq_text_iff (trim raw) (codes "ok")))

read_reply_complete :
    (args : Text) (reply : Result Text Error) → IsAccepted reply → read_reply args reply ≡ ok tt
unfolding read_reply
read_reply_complete args (err e) (raw, e', t) = cc
read_reply_complete args (ok raw') (raw, e', t) =
    let same : eq_text (trim raw') (codes "ok") ≡ true =
      (eq_text_iff (trim raw') (codes "ok")).1 (cc) in
    rw same

-- On any other reply the error names the first word of the command.
read_reply-rejected :
    (args raw : Text)
    → eq_text (trim raw) (codes "ok") ≡ false
    → (read_reply args (ok raw) ≡ err (unknown_dispatcher (first_word args)))
      ⊎ (read_reply args (ok raw) ≡ err (rejected (first_word args) (trim raw)))
unfolding read_reply
read_reply-rejected args raw h =
    elim (Bool-cases (starts_with (codes "Invalid dispatcher") (trim raw))) [
      | inl i ↦ inl (rw (h, i))
      | inr i ↦ inr (rw (h, i))
    ]

module _ {W : Type 0} (send_raw : Send W) (args : Text) (w : W) where
  -- A dispatch succeeds exactly when the reply to `dispatch <args>` is `ok` up to white space.
  pub dispatch-ok_iff :
      ((dispatch send_raw args w).0 ≡ ok tt) ↔ IsAccepted (send_raw (codes "dispatch " ++ args) w).0
  unfolding dispatch
  dispatch-ok_iff = (
    read_reply_sound args (send_raw (codes "dispatch " ++ args) w).0,
    read_reply_complete args (send_raw (codes "dispatch " ++ args) w).0,
  )

  -- Any other reply is an error that names the first word of the command.
  pub dispatch-rejected :
      (raw : Text)
      → (send_raw (codes "dispatch " ++ args) w).0 ≡ ok raw
      → eq_text (trim raw) (codes "ok") ≡ false
      → ((dispatch send_raw args w).0 ≡ err (unknown_dispatcher (first_word args)))
        ⊎ ((dispatch send_raw args w).0 ≡ err (rejected (first_word args) (trim raw)))
  unfolding dispatch
  dispatch-rejected raw e n = rw e (read_reply-rejected args raw n)
