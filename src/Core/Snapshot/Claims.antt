-- ===== src/Core/Snapshot/Claims.antt =====
-- Each live window is matched at most once.
use hypr_pilot.Prelude.{
  Distinct, distinct_nil, distinct_cons, ◌≡◌, refl, true, false, Option, none, some, List, [], ◌∷◌,
  ◌++◌, sym, ◌||◌, Text, eq_text, eq_text_refl, eq_text_iff, any, arith, Bool-cases, inl, inr,
  All-filter, All-filter_keeps, Every, Among,
}
use hypr_pilot.Core.Snapshot.{WindowSnapshot, RestoreAction, window_missing}
use hypr_pilot.Core.Snapshot.Diff.{
  contains, unmatched, match_live_window, window_actions, diff_windows,
}
use hypr_pilot.Core.Snapshot.Matching.{
  Fits, match_live_window-Every, match_live_window-Fits, All-Among,
}

-- What the windows of a snapshot come to, one by one: each is missing, or is taken for a live
-- window that fits it. `claims` holds the addresses of the live windows that are taken.
pub data Assigns (live : List WindowSnapshot)
    : List WindowSnapshot → List Text → List RestoreAction → Type 0 where
  done : Assigns live [] [] []
  missing :
      (snap : WindowSnapshot) {snaps : List WindowSnapshot} {claims : List Text}
      {actions : List RestoreAction}
      → Assigns live snaps claims actions
      → Assigns live
          (snap ∷ snaps)
          claims
          (window_missing snap.address snap.class snap.title ∷ actions)
  taken :
      (snap w : WindowSnapshot) {snaps : List WindowSnapshot} {claims : List Text}
      {actions : List RestoreAction}
      → Among w live
      → Fits snap w
      → Assigns live snaps claims actions
      → Assigns live (snap ∷ snaps) (w.address ∷ claims) (window_actions snap w ++ actions)

-- The outcome of the loop from the matched addresses on: none of the claims is matched before, and
-- those that are matched at the end are the claims and the ones before.
pub record Claimed (live snaps : List WindowSnapshot) (matched : List Text)
    (r : List RestoreAction × List Text) : Type 0 where
  pub claims : List Text
  pub assigned : Assigns live snaps claims r.0
  pub distinct : Distinct claims
  pub fresh : (a : Text) → contains claims a ≡ true → contains matched a ≡ false
  pub all_matched : (a : Text) → contains r.1 a ≡ (contains claims a || contains matched a)

claim_missing :
    (snap : WindowSnapshot) (snaps live : List WindowSnapshot) (matched : List Text)
    → match_live_window snap live matched ≡ none
    → Claimed live snaps matched (diff_windows snaps live matched)
    → Claimed live (snap ∷ snaps) matched (diff_windows (snap ∷ snaps) live matched)
unfolding diff_windows
claim_missing snap snaps live matched e c =
    rw (e, diff_windows)
      (record {
        claims = c.claims;
        assigned = missing snap c.assigned;
        distinct = c.distinct;
        fresh = c.fresh;
        all_matched = c.all_matched;
      })

not_claimed :
    (x : Text) (claims matched : List Text)
    → ((a : Text) → contains claims a ≡ true → contains (x ∷ matched) a ≡ false)
    → any (λ y. eq_text y x) claims ≡ false
unfolding contains
not_claimed x claims matched h = ground (arith, h x, eq_text_refl x)

fresh_cons :
    (x : Text) (claims matched : List Text)
    → contains matched x ≡ false
    → ((a : Text) → contains claims a ≡ true → contains (x ∷ matched) a ≡ false)
    → (a : Text) → contains (x ∷ claims) a ≡ true
    → contains matched a ≡ false
unfolding contains
fresh_cons x claims matched u h a m = elim (Bool-cases (eq_text x a)) [
  | inl e ↦ rw (sym ((eq_text_iff x a).0 e)) u
  | inr n ↦ ground (arith, h a)
]

claim_taken :
    (snap w : WindowSnapshot) (snaps live : List WindowSnapshot) (matched : List Text)
    → match_live_window snap live matched ≡ some w
    → Among w live
    → Fits snap w
    → unmatched matched w ≡ true
    → Claimed live snaps (w.address ∷ matched) (diff_windows snaps live (w.address ∷ matched))
    → Claimed live (snap ∷ snaps) matched (diff_windows (snap ∷ snaps) live matched)
unfolding diff_windows
claim_taken snap w snaps live matched e m f u c =
    rw (e, diff_windows)
      (record {
        claims = w.address ∷ c.claims;
        assigned = taken snap w m f c.assigned;
        distinct =
            distinct_cons w.address c.claims (not_claimed w.address c.claims matched c.fresh)
              c.distinct;
        fresh = fresh_cons w.address c.claims matched (unfold unmatched in ground arith) c.fresh;
        all_matched = λ a. (unfold contains in ground (arith, c.all_matched a));
      })

claim_step :
    (snap : WindowSnapshot) (snaps live : List WindowSnapshot) (matched : List Text)
    (o : Option WindowSnapshot)
    → match_live_window snap live matched ≡ o
    → Every (λ w. Among w live) o
    → Every (Fits snap) o
    → Every (λ w. unmatched matched w ≡ true) o
    → ((m : List Text) → Claimed live snaps m (diff_windows snaps live m))
    → Claimed live (snap ∷ snaps) matched (diff_windows (snap ∷ snaps) live matched)
claim_step snap snaps live matched none e m f u ih =
    claim_missing snap snaps live matched e (ih matched)
claim_step snap snaps live matched (some w) e m f u ih =
    claim_taken snap w snaps live matched e m f u (ih (w.address ∷ matched))

diff_windows-Claimed :
    (snaps live : List WindowSnapshot) (matched : List Text)
    → Claimed live snaps matched (diff_windows snaps live matched)
diff_windows-Claimed [] live matched =
    unfold diff_windows contains in
    record {
      claims = [];
      assigned = done;
      distinct = distinct_nil;
      fresh = λ a h. ground arith;
      all_matched = λ a. refl;
    }
diff_windows-Claimed (snap ∷ snaps) live matched =
    claim_step snap snaps live matched (match_live_window snap live matched) refl
      (match_live_window-Every (λ w. Among w live) snap live matched
        (All-filter_keeps (λ w. Among w live) (unmatched matched) live (All-Among live)))
      (match_live_window-Fits snap live matched)
      (match_live_window-Every (λ w. unmatched matched w ≡ true) snap live matched
        (All-filter (unmatched matched) live))
      (diff_windows-Claimed snaps live)

-- Each window of a snapshot is reported as missing, or is taken for a live window that has its
-- address, its process or its initial class and title, with the actions for the two; no two of its
-- windows are taken for live windows of one address, and the addresses that are remembered as
-- matched are exactly those of the windows taken.
pub diff_windows-Distinct :
    (snaps live : List WindowSnapshot)
    → (claims : List Text) × Assigns live snaps claims (diff_windows snaps live []).0
      × Distinct claims
      × ((a : Text) → contains (diff_windows snaps live []).1 a ≡ contains claims a)
diff_windows-Distinct snaps live =
    let c = diff_windows-Claimed snaps live [] in
    (c.claims, c.assigned, c.distinct, λ a. (unfold contains in ground (arith, c.all_matched a)))
