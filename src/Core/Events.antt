-- ===== src/Core/Events.antt =====
-- crates/hyprpilot-core/src/events.rs: lines of the event socket and their structured fields.
pub mod Payloads
pub mod Addresses
use hypr_pilot.Prelude.{
  ℕ, Bool, Option, none, some, List, [], ◌∷◌, ◌++◌, ◌||◌, Text, codes, eq_text, starts_with,
  trim_end, split_once_text, split, join, is_empty, if◌then◌else◌, ◌==◌,
}
use hypr_pilot.Prelude.Maps.{Fields, get, insert}

pub record RawEvent : Type 0 where
  pub name : Text
  pub data_text : Text

pub record Event : Type 0 where
  pub kind : Text
  pub fields : Fields
  pub raw : RawEvent

abbrev pub is_newline : ℕ → Bool
is_newline c = c == 10 || c == 13

-- `split_once(">>").unwrap_or((trimmed, ""))`
abbrev name_and_data : Text → Option (Text × Text) → RawEvent
name_and_data trimmed none = record { name = trimmed; data_text = [] }
name_and_data trimmed (some (n, d)) = record { name = n; data_text = d }

-- `EventStream::next` on the line that it read: an empty read is the end of the stream.
unfoldable pub next : Text → Option RawEvent
next [] = none
next (c ∷ line) =
    let trimmed = trim_end is_newline (c ∷ line) in
    some (name_and_data trimmed (split_once_text (codes ">>") trimmed))

unfoldable pub normalize_addr : Text → Text
normalize_addr s = if starts_with (codes "0x") s then s else codes "0x" ++ s

abbrev one : Text → Text → Fields
one k v = insert [] k v

abbrev comma_join : List Text → Text
comma_join = join (codes ",")

-- One function for each arm of the match in `extract_fields`; a payload with too few parts gives
-- no fields. A tail that may hold commas is joined again.
unfoldable pub openwindow_fields : List Text → Fields
openwindow_fields (a ∷ w ∷ c ∷ t ∷ rest) =
    insert
      (insert (insert (one (codes "address") (normalize_addr a)) (codes "workspace") w)
        (codes "class") c)
      (codes "title") (comma_join (t ∷ rest))
openwindow_fields _ = []

unfoldable pub address_fields : List Text → Fields
address_fields (a ∷ _) = one (codes "address") (normalize_addr a)
address_fields [] = []

unfoldable pub movewindow_fields : List Text → Fields
movewindow_fields (a ∷ w ∷ _) =
    insert (one (codes "address") (normalize_addr a)) (codes "workspace") w
movewindow_fields _ = []

unfoldable pub movewindowv2_fields : List Text → Fields
movewindowv2_fields (a ∷ i ∷ w ∷ _) =
    insert (insert (one (codes "address") (normalize_addr a)) (codes "workspace_id") i)
      (codes "workspace") w
movewindowv2_fields _ = []

unfoldable pub windowtitlev2_fields : List Text → Fields
windowtitlev2_fields (a ∷ t ∷ rest) =
    insert (one (codes "address") (normalize_addr a)) (codes "title") (comma_join (t ∷ rest))
windowtitlev2_fields _ = []

unfoldable pub activewindow_fields : List Text → Fields
activewindow_fields (c ∷ t ∷ rest) =
    insert (one (codes "class") c) (codes "title") (comma_join (t ∷ rest))
activewindow_fields _ = []

unfoldable pub name_fields : List Text → Fields
name_fields (n ∷ _) = one (codes "name") n
name_fields [] = []

unfoldable pub state_fields : List Text → Fields
state_fields (s ∷ _) = one (codes "state") s
state_fields [] = []

unfoldable pub workspacev2_fields : List Text → Fields
workspacev2_fields (i ∷ n ∷ _) = insert (one (codes "id") i) (codes "name") n
workspacev2_fields _ = []

unfoldable pub focusedmon_fields : List Text → Fields
focusedmon_fields (m ∷ w ∷ _) = insert (one (codes "monitor") m) (codes "workspace") w
focusedmon_fields _ = []

unfoldable pub changefloatingmode_fields : List Text → Fields
changefloatingmode_fields (a ∷ f ∷ _) =
    insert (one (codes "address") (normalize_addr a)) (codes "floating") f
changefloatingmode_fields _ = []

unfoldable pub monitoraddedv2_fields : List Text → Fields
monitoraddedv2_fields (i ∷ n ∷ []) = insert (one (codes "id") i) (codes "name") n
monitoraddedv2_fields (i ∷ n ∷ d ∷ rest) =
    insert (insert (one (codes "id") i) (codes "name") n) (codes "description")
      (comma_join (d ∷ rest))
monitoraddedv2_fields _ = []

unfoldable pub pin_fields : List Text → Fields
pin_fields (a ∷ s ∷ _) = insert (one (codes "address") (normalize_addr a)) (codes "state") s
pin_fields _ = []

-- The match on the event's name, first to last arm.
unfoldable pub fields_of : Text → List Text → Fields
fields_of name parts =
    if eq_text name (codes "openwindow")
    then openwindow_fields parts
    else if eq_text name (codes "closewindow")
    then address_fields parts
    else if eq_text name (codes "movewindow")
    then movewindow_fields parts
    else if eq_text name (codes "movewindowv2")
    then movewindowv2_fields parts
    else if eq_text name (codes "windowtitle")
    then address_fields parts
    else if eq_text name (codes "windowtitlev2")
    then windowtitlev2_fields parts
    else if eq_text name (codes "activewindow")
    then activewindow_fields parts
    else if eq_text name (codes "activewindowv2")
    then address_fields parts
    else if eq_text name (codes "workspace")
    then name_fields parts
    else if eq_text name (codes "workspacev2")
    then workspacev2_fields parts
    else if eq_text name (codes "focusedmon")
    then focusedmon_fields parts
    else if eq_text name (codes "fullscreen")
    then state_fields parts
    else if eq_text name (codes "changefloatingmode")
    then changefloatingmode_fields parts
    else if eq_text name (codes "monitoradded") || eq_text name (codes "monitorremoved")
    then name_fields parts
    else if eq_text name (codes "monitoraddedv2")
    then monitoraddedv2_fields parts
    else if eq_text name (codes "submap")
    then name_fields parts
    else if eq_text name (codes "pin")
    then pin_fields parts
    else if eq_text name (codes "urgent")
    then address_fields parts
    else []

unfoldable pub extract_fields : Text → Text → Fields
unfolding fields_of
extract_fields name payload = if is_empty payload then [] else fields_of name (split b',' payload)

unfoldable pub from_raw : RawEvent → Event
unfolding extract_fields
from_raw raw = record { kind = raw.name; fields = extract_fields raw.name raw.data_text; raw = raw }

-- `Event::field`
abbrev pub field : Event → Text → Option Text
field ev key = get ev.fields key
