-- ===== src/Core/Snapshot/SelfDiff.antt =====
-- A snapshot compared with itself.
use mathlib.Core.Path.{subst}
use hypr_pilot.Prelude.{
  Among, eq_text_sym, Distinct, distinct_cons, ℤ, ◌≡◌, refl, ap, sym, Bool, true, false, Option,
  none, some, List, [], ◌∷◌, filter, map, ◌&&◌, Text, eq_text, eq_text_refl, eq_text_iff, eq_ℤ,
  eq_ℤ_iff, same_bool_iff, is_text, is_text_iff, arith, Bool-cases, inl, inr, All,
}
use hypr_pilot.Core.Snapshot.{WindowSnapshot, Snapshot}
use hypr_pilot.Core.Snapshot.Diff.{
  contains, unmatched, match_address, match_live_window, window_actions, diff_windows, diff_extra,
  diff_focus, diff_against,
}

abbrev address_of : WindowSnapshot → Text
address_of w = w.address

-- The windows have pairwise distinct addresses.
abbrev pub IsDistinct : List WindowSnapshot → Type 0
IsDistinct windows = Distinct (map address_of windows)

differs-Among :
    (a : Text) (xs : List WindowSnapshot) (w : WindowSnapshot)
    → contains (map address_of xs) a ≡ false
    → Among w xs
    → eq_text w.address a ≡ false
unfolding contains
differs-Among a [] w h i = absurd i
differs-Among a (x ∷ xs) w h (inl e) =
    let here : eq_text x.address a ≡ false = ground arith in
    subst (λ (v : WindowSnapshot). eq_text v.address a ≡ false) e here
differs-Among a (x ∷ xs) w h (inr i) = differs-Among a xs w (ground arith) i

-- An unmatched window is found by its address.
match_address_self :
    (live : List WindowSnapshot) (w : WindowSnapshot) (m : List Text)
    → IsDistinct live
    → Among w live
    → unmatched m w ≡ true
    → match_address w (filter (unmatched m) live) ≡ some w
unfolding match_address contains
match_address_self [] w m d i u = absurd i
match_address_self (x ∷ live) w m d (inl e) u =
    let u' : unmatched m x ≡ true =
      subst (λ (v : WindowSnapshot). unmatched m v ≡ true) (sym e) u in
    let s : eq_text x.address w.address ≡ true =
      (eq_text_iff x.address w.address).1 (ap address_of e) in
    rw (u', s) (ap some e)
match_address_self (x ∷ live) w m (distinct_cons a rest h d) (inr i) u =
    let s : eq_text x.address w.address ≡ false =
      eq_text_sym w.address x.address (differs-Among x.address live w h i) in
    elim (Bool-cases (unmatched m x)) [
      | inl e ↦ rw (e, s) (match_address_self live w m d i u)
      | inr e ↦ rw e (match_address_self live w m d i u)
    ]

and_false : (f : Bool) → (f && false) ≡ false
and_false true = refl
and_false false = refl

eq_ℤ_refl : (z : ℤ) → eq_ℤ z z ≡ true
eq_ℤ_refl z = (eq_ℤ_iff z z).1 refl

window_actions_self : (w : WindowSnapshot) → window_actions w w ≡ []
unfolding window_actions
window_actions_self w =
    rw
      (
        eq_ℤ_refl w.workspace_id,
        (same_bool_iff w.floating w.floating).1 refl,
        (same_bool_iff w.pinned w.pinned).1 refl,
        eq_ℤ_refl w.fullscreen,
        eq_ℤ_refl w.at.0,
        eq_ℤ_refl w.at.1,
        eq_ℤ_refl w.size.0,
        eq_ℤ_refl w.size.1,
        and_false w.floating,
      )
      refl

-- The matched addresses after windows that each match themselves.
add_all : List WindowSnapshot → List Text → List Text
add_all [] m = m
add_all (w ∷ ws) m = add_all ws (w.address ∷ m)

still_unmatched :
    (a : Text) (ws : List WindowSnapshot) (m : List Text)
    → contains (map address_of ws) a ≡ false
    → All (λ w. unmatched m w ≡ true) ws
    → All (λ w. unmatched (a ∷ m) w ≡ true) ws
unfolding contains unmatched
still_unmatched a [] m h u = tt
still_unmatched a (w ∷ ws) m h u =
    let s : eq_text a w.address ≡ false = eq_text_sym w.address a (ground arith) in
    (rw s u.0, still_unmatched a ws m (ground arith) u.1)

diff_windows_self :
    (live ws : List WindowSnapshot) (m : List Text)
    → IsDistinct live
    → All (λ w. Among w live) ws
    → IsDistinct ws
    → All (λ w. unmatched m w ≡ true) ws
    → diff_windows ws live m ≡ ([], add_all ws m)
unfolding diff_windows match_live_window add_all contains
diff_windows_self live [] m d i d' u = refl
diff_windows_self live (w ∷ ws) m d i (distinct_cons a rest h d') u =
    let f = match_address_self live w m d i.0 u.0 in
    let r =
      diff_windows_self live ws (w.address ∷ m) d i.1 d' (still_unmatched w.address ws m h u.1) in
    rw (f, diff_windows, match_live_window, window_actions_self w, r) refl

add_all-keeps :
    (ws : List WindowSnapshot) (m : List Text) (a : Text)
    → contains m a ≡ true
    → contains (add_all ws m) a ≡ true
unfolding add_all contains
add_all-keeps [] m a h = h
add_all-keeps (w ∷ ws) m a h = add_all-keeps ws (w.address ∷ m) a (ground arith)

add_all-All :
    (ws : List WindowSnapshot) (m : List Text)
    → All (λ w. contains (add_all ws m) w.address ≡ true) ws
unfolding add_all contains
add_all-All [] m = tt
add_all-All (w ∷ ws) m =
    let here : contains (w.address ∷ m) w.address ≡ true = rw (eq_text_refl w.address) refl in
    (add_all-keeps ws (w.address ∷ m) w.address here, add_all-All ws (w.address ∷ m))

diff_extra-All :
    (ws : List WindowSnapshot) (m : List Text)
    → All (λ w. contains m w.address ≡ true) ws
    → diff_extra m ws ≡ []
unfolding diff_extra
diff_extra-All [] m h = refl
diff_extra-All (w ∷ ws) m h = rw h.0 (diff_extra-All ws m h.1)

diff_focus_self : (s : Snapshot) → diff_focus s.active_window_address s ≡ []
diff_focus_self s = on_focus s.active_window_address refl
  where
    on_focus : (o : Option Text) → s.active_window_address ≡ o → diff_focus o s ≡ []
    on_focus none e = unfold diff_focus in refl
    on_focus (some t) e =
        let same : is_text s.active_window_address t ≡ true =
          (is_text_iff s.active_window_address t).1 e in
        unfold diff_focus in (rw same refl)

All-Among :
    (ws live : List WindowSnapshot)
    → ((w : WindowSnapshot) → Among w ws → Among w live)
    → All (λ w. Among w live) ws
All-Among [] live h = tt
All-Among (w ∷ ws) live h = (h w (inl refl), All-Among ws live (λ v i. h v (inr i)))

All-unmatched_nil : (ws : List WindowSnapshot) → All (λ w. unmatched [] w ≡ true) ws
unfolding unmatched contains
All-unmatched_nil [] = tt
All-unmatched_nil (w ∷ ws) = (refl, All-unmatched_nil ws)

-- A snapshot whose windows have pairwise distinct addresses differs in nothing from itself: there
-- is no action, informational ones included.
pub diff_against_self : (s : Snapshot) → IsDistinct s.windows → diff_against s s ≡ []
unfolding diff_against
diff_against_self s d =
    let ws = s.windows in
    let r = diff_windows_self ws ws [] d (All-Among ws ws (λ w i. i)) d (All-unmatched_nil ws) in
    rw (r, diff_extra-All ws (add_all ws []) (add_all-All ws []), diff_focus_self s) refl
