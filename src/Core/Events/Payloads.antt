-- ===== src/Core/Events/Payloads.antt =====
-- What the parser recovers from a line of the event socket.
use hypr_pilot.Prelude.{
  ℕ, ◌≡◌, ◌≢◌, refl, ◌∙◌, ap, Bool, false, some, List, [], ◌∷◌, ◌++◌, Text, codes, eq_text,
  trim_end, trim_end-keeps, trim_end-concat, split_once_text, split_once_text-append, split,
  split-append, split-ne-nil, join, join-split, is_empty, ◌==◌, Lacks,
}
use hypr_pilot.Prelude.Maps.{Fields, insert}
use hypr_pilot.Core.Events.{
  is_newline, name_and_data, next, normalize_addr, openwindow_fields, windowtitlev2_fields,
  fields_of, extract_fields,
}

abbrev pub is_comma : ℕ → Bool
is_comma c = c == b','

-- The line as Hyprland writes it.
abbrev pub line_of : Text → Text → Text
line_of name payload = (name ++ b'>' ∷ b'>' ∷ payload) ++ 10 ∷ []

trim_line :
    (name payload : Text)
    → trim_end is_newline payload ≡ payload
    → trim_end is_newline (line_of name payload) ≡ name ++ b'>' ∷ b'>' ∷ payload
trim_line name payload h =
    trim_end-concat is_newline (name ++ b'>' ∷ b'>' ∷ payload) 10 refl
    ∙ trim_end-keeps is_newline name b'>' (b'>' ∷ payload) refl
        (trim_end-keeps is_newline [] b'>' payload refl h)

next-cons :
    (l t : Text)
    → l ≢ []
    → trim_end is_newline l ≡ t
    → next l ≡ some (name_and_data t (split_once_text (codes ">>") t))
unfolding next
next-cons [] t n e = absurd (n refl)
next-cons (c ∷ l) t n e = rw e

-- A line `name>>payload` and a newline is read as that name and payload, if the name has no `>`
-- and the payload does not end in a line break.
pub next-line_of :
    (name payload : Text)
    → Lacks (λ d. b'>' == d) name
    → trim_end is_newline payload ≡ payload
    → next (line_of name payload) ≡ some (record { name = name; data_text = payload })
next-line_of name payload l h =
    next-cons (line_of name payload) _ (nonempty name) (trim_line name payload h)
    ∙ (rw (split_once_text-append b'>' (b'>' ∷ []) name payload l))
  where
    nonempty : (name : Text) → line_of name payload ≢ []
    nonempty [] = cc
    nonempty (c ∷ s) = cc

-- Comma-separated texts are split back, up to the first that may hold commas.
split_rest : (s t : Text) → Lacks is_comma s → split b',' (s ++ b',' ∷ t) ≡ s ∷ split b',' t
split_rest = split-append b','

-- A payload of an `openwindow` event, whose title may hold commas.
abbrev pub openwindow_payload : Text → Text → Text → Text → Text
openwindow_payload a w c t = a ++ b',' ∷ (w ++ b',' ∷ (c ++ b',' ∷ t))

is_empty-append : (s : Text) (c : ℕ) (t : Text) → is_empty (s ++ c ∷ t) ≡ false
is_empty-append [] c t = refl
is_empty-append (d ∷ s) c t = refl

-- The fields that a text of comma-separated parts gives, if it is not empty.
extract_split :
    (name s t : Text)
    → extract_fields name (s ++ b',' ∷ t) ≡ fields_of name (split b',' (s ++ b',' ∷ t))
unfolding extract_fields
extract_split name s t = rw (is_empty-append s b',' t)

-- The tail of a payload is the join of its parts.
tail_joined :
    (f : List Text → Fields) (g : Text → Fields)
    → ((t : Text) (ts : List Text) → f (t ∷ ts) ≡ g (join (codes ",") (t ∷ ts)))
    → (t : Text) → f (split b',' t) ≡ g t
tail_joined f g h t = on (split b',' t) (split-ne-nil b',' t) ∙ ap g (join-split b',' t)
  where
    on : (ts : List Text) → ts ≢ [] → f ts ≡ g (join (codes ",") ts)
    on [] n = absurd (n refl)
    on (u ∷ us) n = h u us

-- Whatever commas its title holds, an `openwindow` event has four fields: the address with `0x`,
-- the workspace and the class, if these three hold no comma, and the whole title.
pub openwindow-fields :
    (a w c t : Text)
    → Lacks is_comma a
    → Lacks is_comma w
    → Lacks is_comma c
    → extract_fields (codes "openwindow") (openwindow_payload a w c t)
      ≡ (codes "address", normalize_addr a)
        ∷ (codes "workspace", w)
        ∷ (codes "class", c)
        ∷ (codes "title", t)
        ∷ []
openwindow-fields a w c t ha hw hc =
    extract_split (codes "openwindow") a (w ++ b',' ∷ (c ++ b',' ∷ t))
    ∙ (rw
        (
          split_rest a (w ++ b',' ∷ (c ++ b',' ∷ t)) ha,
          split_rest w (c ++ b',' ∷ t) hw,
          split_rest c t hc,
        )
        (tail_joined (λ ts. fields_of (codes "openwindow") (a ∷ w ∷ c ∷ ts))
          (λ u.
            (codes "address", normalize_addr a)
            ∷ (codes "workspace", w)
            ∷ (codes "class", c)
            ∷ (codes "title", u)
            ∷ [])
          (λ u us. unfold fields_of openwindow_fields eq_text insert in refl) t))

-- Whatever commas the new title holds, a `windowtitlev2` event has the address with `0x`, if it
-- holds no comma, and the whole title.
pub windowtitlev2-fields :
    (a t : Text)
    → Lacks is_comma a
    → extract_fields (codes "windowtitlev2") (a ++ b',' ∷ t)
      ≡ (codes "address", normalize_addr a) ∷ (codes "title", t) ∷ []
windowtitlev2-fields a t ha =
    extract_split (codes "windowtitlev2") a t
    ∙ (rw (split_rest a t ha) (
        tail_joined (λ ts. fields_of (codes "windowtitlev2") (a ∷ ts))
          (λ u. (codes "address", normalize_addr a) ∷ (codes "title", u) ∷ [])
          (λ u us. unfold fields_of windowtitlev2_fields eq_text insert in refl) t))
