-- ===== src/Mcp/Server/Gate.antt =====
-- The list of tools and the check of a call agree.
use mathlib.Core.Path.{subst}
use hypr_pilot.Prelude.{
  ◌≡◌, refl, ap, ◌∙◌, true, false, Option, none, some, List, [], ◌∷◌, map, filter, find, any, Text,
  eq_text, eq_text_iff, Distinct, distinct_cons, Among, map-Among, Among-map, filter-Among,
  Among-filter, find-Among, find-holds, ok, guarded-ok, eq_text_sym, inl, inr, arith,
}
use hypr_pilot.Mcp.Rpc.{Tool}
use hypr_pilot.Mcp.Server.{
  ToolDef, Server, shown_tool, is_allowed, visible_tools, find_tool, judge, check_call,
}

pub judge-ok :
    (s : Server) (name : Text) (o : Option ToolDef) (t : ToolDef)
    → judge s name o ≡ ok t
    → (o ≡ some t) × (is_allowed s t ≡ true)
unfolding judge
judge-ok s name none t h = absurd (ground arith)
judge-ok s name (some u) t h =
    let r = guarded-ok (is_allowed s u) u t _ h in
    (ap some r.0, subst (λ (v : ToolDef). is_allowed s v ≡ true) r.0 r.1)

-- A call that passes the check goes on with the tool of that name, and the tool is one of those
-- that the server lists.
pub check_call-visible :
    (s : Server) (name : Text) (t : ToolDef)
    → check_call s name ≡ ok t
    → Among (shown_tool t) (visible_tools s) × (t.name ≡ name)
unfolding visible_tools find_tool check_call
check_call-visible s name t h =
    let r = judge-ok s name (find_tool s name) t h in
    (
      map-Among shown_tool t (filter (is_allowed s) s.registry) (
          filter-Among (is_allowed s) t s.registry
            (find-Among (λ (u : ToolDef). eq_text u.name name) t s.registry r.0) r.1),
      (eq_text_iff t.name name).0
          (find-holds (λ (u : ToolDef). eq_text u.name name) s.registry {x = t} r.0),
    )

abbrev pub tool_name : ToolDef → Text
tool_name t = t.name

-- A tool of a list without repeated names is found by its name.
other_name :
    (name : Text) (us : List ToolDef) (t : ToolDef)
    → any (λ x. eq_text x name) (map tool_name us) ≡ false
    → Among t us
    → eq_text t.name name ≡ false
other_name name [] t h m = absurd m
other_name name (u ∷ us) t h (inl e) =
    let here : eq_text u.name name ≡ false = ground arith in
    subst (λ (v : ToolDef). eq_text v.name name ≡ false) e here
other_name name (u ∷ us) t h (inr m) = other_name name us t (ground arith) m

find_tool-Among :
    (registry : List ToolDef) (t : ToolDef)
    → Distinct (map tool_name registry)
    → Among t registry
    → find (λ (u : ToolDef). eq_text u.name t.name) registry ≡ some t
find_tool-Among [] t d m = absurd m
find_tool-Among (u ∷ us) t d (inl e) =
    let same : eq_text u.name t.name ≡ true = (eq_text_iff u.name t.name).1 (ap tool_name e) in
    rw same (ap some e)
find_tool-Among (u ∷ us) t (distinct_cons a rest h d) (inr m) =
    let other : eq_text u.name t.name ≡ false =
      eq_text_sym t.name u.name (other_name u.name us t h m) in
    rw other (find_tool-Among us t d m)

-- When no two tools of the registry have the same name, a call of a listed tool passes the check
-- and goes on with the tool that is listed.
pub visible_tools-check_call :
    (s : Server) (tool : Tool)
    → Distinct (map tool_name s.registry)
    → Among tool (visible_tools s)
    → (t : ToolDef) × (check_call s tool.name ≡ ok t) × (shown_tool t ≡ tool)
unfolding visible_tools check_call find_tool judge
visible_tools-check_call s tool d m =
    let r = Among-map shown_tool tool (filter (is_allowed s) s.registry) m in
    let t = r.0 in
    let k = Among-filter (is_allowed s) t s.registry r.1 in
    let f = find_tool-Among s.registry t d k.0 in
    let name : t.name ≡ tool.name = ap (λ (x : Tool). x.name) r.2 in
    let passes : judge s t.name (find (λ (u : ToolDef). eq_text u.name t.name) s.registry) ≡ ok t =
      ap (judge s t.name) f ∙ (rw k.1 refl) in
    (t, subst (λ n. check_call s n ≡ ok t) name passes, r.2)
