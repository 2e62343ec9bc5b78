-- ===== src/Core/Snapshot/Preview/Counts.antt =====
-- The counts, the lists and the text of a preview agree with the diff.
use hypr_pilot.Prelude.{
  ℕ, ◌+◌, ◌≡◌, refl, ap, sym, ◌∙◌, Bool, true, false, List, [], ◌∷◌, ◌++◌, not, Text, codes, ltb,
  ◌==◌, filter, length, arith, starts_with, append_assoc, append-nil, Bool-cases, inl, inr,
  filter-append, length-append, is_empty, strip_prefix, ◌&&◌,
}
use hypr_pilot.Core.Snapshot.{
  Snapshot, RestoreAction, window_missing, window_not_in_snapshot, is_mutating, is_no_op,
  mutation_count,
}
use hypr_pilot.Core.Snapshot.Preview.{
  PreviewSummary, default_summary, Tally, tally_action, tally, SnapshotRestorePreview,
  from_snapshot_and_diff, render_human_summary, parts, changes_text, part, win,
}

abbrev informational : RestoreAction → Bool
informational a = not (is_mutating a)

-- The number of windows and focuses that the text speaks of as changed.
abbrev pub changes : PreviewSummary → ℕ
changes s = s.moves + s.toggles + s.repositions + s.fullscreens + s.pins + s.refocuses

abbrev pub notes : PreviewSummary → ℕ
notes s = s.windows_missing + s.windows_extra

-- What a tally has gained over another one.
record Gains (diff : List RestoreAction) (t t' : Tally) : Type 0 where
  applies : t'.will_apply ≡ t.will_apply ++ filter is_mutating diff
  skips : t'.will_skip ≡ t.will_skip ++ filter informational diff
  total : t'.summary.total_actions ≡ t.summary.total_actions + length diff
  mutating : t'.summary.mutating_actions ≡ t.summary.mutating_actions + mutation_count diff
  changed : changes t'.summary ≡ changes t.summary + mutation_count diff
  noted : notes t'.summary ≡ notes t.summary + length (filter informational diff)

tally_action-Gains : (a : RestoreAction) (t : Tally) → Gains (a ∷ []) t (tally_action a t)
unfolding tally_action is_mutating mutation_count
tally_action-Gains (window_missing a c n) t = record {
  applies = sym (append-nil t.will_apply);
  skips = refl;
  total = refl;
  mutating = omega arith;
  changed = omega arith;
  noted = omega arith;
}
tally_action-Gains (window_not_in_snapshot a c) t = record {
  applies = sym (append-nil t.will_apply);
  skips = refl;
  total = refl;
  mutating = omega arith;
  changed = omega arith;
  noted = omega arith;
}
tally_action-Gains a t = record {
  applies = refl;
  skips = sym (append-nil t.will_skip);
  total = refl;
  mutating = omega arith;
  changed = omega arith;
  noted = omega arith;
}

Gains-nil : (t : Tally) → Gains [] t t
unfolding mutation_count
Gains-nil t = record {
  applies = sym (append-nil t.will_apply);
  skips = sym (append-nil t.will_skip);
  total = omega arith;
  mutating = omega arith;
  changed = omega arith;
  noted = omega arith;
}

mutation_count-append :
    (xs ys : List RestoreAction) → mutation_count (xs ++ ys) ≡ mutation_count xs + mutation_count ys
unfolding mutation_count
mutation_count-append xs ys =
    ap length (filter-append is_mutating xs ys)
    ∙ length-append (filter is_mutating xs) (filter is_mutating ys)

-- Joins what two stretches of actions append to a list.
join_gain :
    (p : RestoreAction → Bool) (xs ys l l1 l2 : List RestoreAction)
    → l1 ≡ l ++ filter p xs
    → l2 ≡ l1 ++ filter p ys
    → l2 ≡ l ++ filter p (xs ++ ys)
join_gain p xs ys l l1 l2 e e' =
    e'
    ∙ ap (λ t. t ++ filter p ys) e
    ∙ append_assoc l (filter p xs) (filter p ys)
    ∙ ap (λ t. l ++ t) (sym (filter-append p xs ys))

Gains-trans :
    (xs ys : List RestoreAction) (t t1 t2 : Tally)
    → Gains xs t t1
    → Gains ys t1 t2
    → Gains (xs ++ ys) t t2
Gains-trans xs ys t t1 t2 g h =
    let n = mutation_count-append xs ys in
    let i =
      ap length (filter-append informational xs ys)
      ∙ length-append (filter informational xs) (filter informational ys) in
    record {
      applies =
          join_gain is_mutating xs ys t.will_apply t1.will_apply t2.will_apply g.applies h.applies;
      skips = join_gain informational xs ys t.will_skip t1.will_skip t2.will_skip g.skips h.skips;
      total = omega (arith, g.total, h.total, length-append xs ys);
      mutating = omega (arith, g.mutating, h.mutating, n);
      changed = omega (arith, g.changed, h.changed, n);
      noted = omega (arith, g.noted, h.noted, i);
    }

tally-Gains : (diff : List RestoreAction) (t : Tally) → Gains diff t (tally diff t)
unfolding tally
tally-Gains [] t = Gains-nil t
tally-Gains (a ∷ diff) t =
    Gains-trans (a ∷ []) diff t (tally_action a t) (tally diff (tally_action a t))
      (tally_action-Gains a t) (tally-Gains diff (tally_action a t))

-- The preview of a diff.
pub record Agrees (diff : List RestoreAction) (p : SnapshotRestorePreview) : Type 0 where
  pub applies : p.will_apply ≡ filter is_mutating diff
  pub skips : p.will_skip ≡ filter (λ a. not (is_mutating a)) diff
  pub total : p.summary.total_actions ≡ length diff
  pub mutating : p.summary.mutating_actions ≡ mutation_count diff
  pub changed : changes p.summary ≡ mutation_count diff
  pub noted : notes p.summary ≡ length (filter (λ a. not (is_mutating a)) diff)

-- The lists of a preview are the mutating and the informational actions of the diff in their
-- order, the totals are their numbers, and the counts of the kinds add up to them.
pub from_snapshot_and_diff-Agrees :
    (snap : Snapshot) (diff : List RestoreAction) → Agrees diff (from_snapshot_and_diff snap diff)
unfolding from_snapshot_and_diff
from_snapshot_and_diff-Agrees snap diff =
    let start : Tally = record { summary = default_summary; will_apply = []; will_skip = [] } in
    let g = tally-Gains diff start in
    record {
      applies = g.applies;
      skips = g.skips;
      total = omega (arith, g.total);
      mutating = omega (arith, g.mutating);
      changed = omega (arith, g.changed);
      noted = omega (arith, g.noted);
    }

is_empty-part :
    (n : ℕ) (text : Text) (ys : List Text)
    → is_empty (part n text ++ ys) ≡ ((n == 0) && is_empty ys)
is_empty-part n text ys = elim (Bool-cases (n == 0)) [
  | inl e ↦ let z : ltb 0 n ≡ false = ground arith in rw (e, z) refl
  | inr e ↦ let z : ltb 0 n ≡ true = ground arith in rw (e, z) refl
]

all-zero :
    (m t r f p u : ℕ)
    → ((m == 0) && ((t == 0) && ((r == 0) && ((f == 0) && ((p == 0) && ((u == 0) && true))))))
      ≡ (m + t + r + f + p + u == 0)
all-zero m t r f p u = ground arith

is_empty-six :
    (m t r f p u : ℕ) (a b c d e g : Text)
    → is_empty (part m a ++ (part t b ++ (part r c ++ (part f d ++ (part p e ++ part u g)))))
      ≡ (m + t + r + f + p + u == 0)
is_empty-six m t r f p u a b c d e g =
    let y5 = part u g in
    let y4 = part p e ++ y5 in
    let y3 = part f d ++ y4 in
    let y2 = part r c ++ y3 in
    let y1 = part t b ++ y2 in
    is_empty-part m a y1
    ∙ ap (λ v. (m == 0) && v)
        (is_empty-part t b y2
          ∙ ap (λ v. (t == 0) && v)
              (is_empty-part r c y3
                ∙ ap (λ v. (r == 0) && v)
                    (is_empty-part f d y4
                      ∙ ap (λ v. (f == 0) && v)
                          (is_empty-part p e y5
                            ∙ ap (λ v. (p == 0) && v)
                                (ap is_empty (sym (append-nil y5)) ∙ is_empty-part u g [])))))
    ∙ all-zero m t r f p u

is_empty-parts : (s : PreviewSummary) → is_empty (parts s) ≡ (changes s == 0)
unfolding parts
is_empty-parts s =
    is_empty-six s.moves s.toggles s.repositions s.fullscreens s.pins s.refocuses
      (codes "move " ++ win s.moves) (codes "toggle floating on " ++ win s.toggles)
      (codes "reposition " ++ win s.repositions)
      (codes "change fullscreen on " ++ win s.fullscreens) (codes "toggle pin on " ++ win s.pins)
      (codes "refocus the snapshot's active window")

starts_with-changes_text :
    (ps : List Text) (rest : Text)
    → starts_with (codes "No changes") (changes_text ps ++ rest) ≡ is_empty ps
unfolding changes_text starts_with strip_prefix
starts_with-changes_text [] rest = refl
starts_with-changes_text (x ∷ xs) rest = refl

-- The text of a preview says that there are no changes exactly when no action of the diff mutates.
pub human_summary-is_no_op :
    (snap : Snapshot) (diff : List RestoreAction)
    → starts_with (codes "No changes") (from_snapshot_and_diff snap diff).human_summary
      ≡ is_no_op diff
unfolding from_snapshot_and_diff render_human_summary is_no_op
human_summary-is_no_op snap diff =
    let s = (from_snapshot_and_diff snap diff).summary in
    starts_with-changes_text (parts s) _
    ∙ is_empty-parts s
    ∙ ap (λ n. n == 0) (from_snapshot_and_diff-Agrees snap diff).changed
