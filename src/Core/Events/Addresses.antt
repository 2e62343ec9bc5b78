-- ===== src/Core/Events/Addresses.antt =====
-- Window addresses in the fields of an event.
use hypr_pilot.Prelude.{
  ◌≡◌, Bool, true, false, some, List, [], ◌∷◌, Text, codes, eq_text, starts_with,
  starts_with-append, split, is_empty, if◌then◌else◌, ◌||◌, String, inl, inr, Bool-cases,
}
use mathlib.Core.Path.{subst}
use mathlib.Core.Option.{some-injective}
use hypr_pilot.Prelude.Maps.{Fields, get, insert}
use hypr_pilot.Core.Events.{
  normalize_addr, openwindow_fields, address_fields, movewindow_fields, movewindowv2_fields,
  windowtitlev2_fields, activewindow_fields, name_fields, state_fields, workspacev2_fields,
  focusedmon_fields, changefloatingmode_fields, monitoraddedv2_fields, pin_fields, fields_of,
  extract_fields,
}

-- An address, where the fields hold one, is in the `0x` form.
abbrev pub IsNormal : Fields → Type 0
IsNormal m = (a : Text) → get m (codes "address") ≡ some a → starts_with (codes "0x") a ≡ true

if-IsNormal : (b : Bool) (m n : Fields) → IsNormal m → IsNormal n → IsNormal (if b then m else n)
if-IsNormal true m n hm hn = hm
if-IsNormal false m n hm hn = hn

normalize_addr-starts_with : (s : Text) → starts_with (codes "0x") (normalize_addr s) ≡ true
unfolding normalize_addr
normalize_addr-starts_with s = elim (Bool-cases (starts_with (codes "0x") s)) [
  | inl e ↦ rw (e, e)
  | inr e ↦ rw e (starts_with-append (codes "0x") s)
]

some_normal : (s a : Text) → some (normalize_addr s) ≡ some a → starts_with (codes "0x") a ≡ true
some_normal s a e =
    subst (λ x. starts_with (codes "0x") x ≡ true) (some-injective _ _ e)
      (normalize_addr-starts_with s)

nil-IsNormal : IsNormal []
unfolding get
nil-IsNormal x e = cc

openwindow-IsNormal : (ps : List Text) → IsNormal (openwindow_fields ps)
unfolding openwindow_fields get insert eq_text
openwindow-IsNormal (a ∷ w ∷ c ∷ t ∷ _) x e = some_normal a x e
openwindow-IsNormal _ x e = cc

address-IsNormal : (ps : List Text) → IsNormal (address_fields ps)
unfolding address_fields get insert eq_text
address-IsNormal (a ∷ _) x e = some_normal a x e
address-IsNormal _ x e = cc

movewindow-IsNormal : (ps : List Text) → IsNormal (movewindow_fields ps)
unfolding movewindow_fields get insert eq_text
movewindow-IsNormal (a ∷ w ∷ _) x e = some_normal a x e
movewindow-IsNormal _ x e = cc

movewindowv2-IsNormal : (ps : List Text) → IsNormal (movewindowv2_fields ps)
unfolding movewindowv2_fields get insert eq_text
movewindowv2-IsNormal (a ∷ i ∷ w ∷ _) x e = some_normal a x e
movewindowv2-IsNormal _ x e = cc

windowtitlev2-IsNormal : (ps : List Text) → IsNormal (windowtitlev2_fields ps)
unfolding windowtitlev2_fields get insert eq_text
windowtitlev2-IsNormal (a ∷ t ∷ _) x e = some_normal a x e
windowtitlev2-IsNormal _ x e = cc

activewindow-IsNormal : (ps : List Text) → IsNormal (activewindow_fields ps)
unfolding activewindow_fields get insert eq_text
activewindow-IsNormal (c ∷ t ∷ _) x e = cc
activewindow-IsNormal _ x e = cc

name-IsNormal : (ps : List Text) → IsNormal (name_fields ps)
unfolding name_fields get insert eq_text
name-IsNormal (n ∷ _) x e = cc
name-IsNormal _ x e = cc

state-IsNormal : (ps : List Text) → IsNormal (state_fields ps)
unfolding state_fields get insert eq_text
state-IsNormal (s ∷ _) x e = cc
state-IsNormal _ x e = cc

workspacev2-IsNormal : (ps : List Text) → IsNormal (workspacev2_fields ps)
unfolding workspacev2_fields get insert eq_text
workspacev2-IsNormal (i ∷ n ∷ _) x e = cc
workspacev2-IsNormal _ x e = cc

focusedmon-IsNormal : (ps : List Text) → IsNormal (focusedmon_fields ps)
unfolding focusedmon_fields get insert eq_text
focusedmon-IsNormal (m ∷ w ∷ _) x e = cc
focusedmon-IsNormal _ x e = cc

changefloatingmode-IsNormal : (ps : List Text) → IsNormal (changefloatingmode_fields ps)
unfolding changefloatingmode_fields get insert eq_text
changefloatingmode-IsNormal (a ∷ f ∷ _) x e = some_normal a x e
changefloatingmode-IsNormal _ x e = cc

monitoraddedv2-IsNormal : (ps : List Text) → IsNormal (monitoraddedv2_fields ps)
unfolding monitoraddedv2_fields get insert eq_text
monitoraddedv2-IsNormal (i ∷ n ∷ []) x e = cc
monitoraddedv2-IsNormal (i ∷ n ∷ d ∷ rest) x e = cc
monitoraddedv2-IsNormal _ x e = cc

pin-IsNormal : (ps : List Text) → IsNormal (pin_fields ps)
unfolding pin_fields get insert eq_text
pin-IsNormal (a ∷ s ∷ _) x e = some_normal a x e
pin-IsNormal _ x e = cc

fields_of-IsNormal : (name : Text) (ps : List Text) → IsNormal (fields_of name ps)
unfolding fields_of
fields_of-IsNormal name ps =
    let is : String → Bool = λ k. eq_text name (codes k) in
    if-IsNormal (is "openwindow") _ _ (openwindow-IsNormal ps) (
      if-IsNormal (is "closewindow") _ _ (address-IsNormal ps) (
        if-IsNormal (is "movewindow") _ _ (movewindow-IsNormal ps) (
          if-IsNormal (is "movewindowv2") _ _ (movewindowv2-IsNormal ps) (
            if-IsNormal (is "windowtitle") _ _ (address-IsNormal ps) (
              if-IsNormal (is "windowtitlev2") _ _ (windowtitlev2-IsNormal ps) (
                if-IsNormal (is "activewindow") _ _ (activewindow-IsNormal ps) (
                  if-IsNormal (is "activewindowv2") _ _ (address-IsNormal ps) (
                    if-IsNormal (is "workspace") _ _ (name-IsNormal ps) (
                      if-IsNormal (is "workspacev2") _ _ (workspacev2-IsNormal ps) (
                        if-IsNormal (is "focusedmon") _ _ (focusedmon-IsNormal ps) (
                          if-IsNormal (is "fullscreen") _ _ (state-IsNormal ps) (
                            if-IsNormal (is "changefloatingmode") _ _
                              (changefloatingmode-IsNormal ps)
                              (if-IsNormal (is "monitoradded" || is "monitorremoved") _ _
                                (name-IsNormal ps)
                                (if-IsNormal (is "monitoraddedv2") _ _ (monitoraddedv2-IsNormal ps)
                                  (if-IsNormal (is "submap") _ _ (name-IsNormal ps) (
                                    if-IsNormal (is "pin") _ _ (pin-IsNormal ps) (
                                      if-IsNormal (is "urgent") _ _ (address-IsNormal ps)
                                        (nil-IsNormal))))))))))))))))))

-- Every window address among the fields of any event, of any payload, has the `0x` form that the
-- query interface uses.
pub extract_fields-IsNormal : (name payload : Text) → IsNormal (extract_fields name payload)
unfolding extract_fields
extract_fields-IsNormal name payload =
    if-IsNormal (is_empty payload) _ _ nil-IsNormal (fields_of-IsNormal name (split b',' payload))

-- Whatever the event and its data are, an address field starts with `0x`.
pub get-extract_fields :
    (name payload a : Text)
    → get (extract_fields name payload) (codes "address") ≡ some a
    → starts_with (codes "0x") a ≡ true
get-extract_fields name payload a h = extract_fields-IsNormal name payload a h
