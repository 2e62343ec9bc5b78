-- ===== src/Mcp/Capability/Grants.antt =====
-- What a profile grants.
use hypr_pilot.Prelude.{
  ◌≡◌, refl, ◌↔◌, ◌⊎◌, inl, inr, Bool, true, List, [], ◌∷◌, any, Text, eq_text, eq_text_iff, Among,
  Bool-cases, or-cases, arith,
}
use hypr_pilot.Mcp.Capability.{
  ToolGroup, read, window, workspace, undo, snapshot, rules, eq_group, Profile, default_safe,
  unrestricted, allows,
}

module _ {A : Type 0} (same : A → A → Bool)
    (same_iff : (a b : A) → (same a b ≡ true) ↔ (a ≡ b)) where
  Among-of_any : (a : A) (xs : List A) → any (λ x. same x a) xs ≡ true → Among a xs
  Among-of_any a [] h = absurd (ground arith)
  Among-of_any a (x ∷ xs) h = elim (or-cases (same x a) (any (λ y. same y a) xs) h) [
    | inl e ↦ inl ((same_iff x a).0 e)
    | inr t ↦ inr (Among-of_any a xs t)
  ]

  any-of_Among : (a : A) (xs : List A) → Among a xs → any (λ x. same x a) xs ≡ true
  any-of_Among a [] m = absurd m
  any-of_Among a (x ∷ xs) (inl e) = rw ((same_iff x a).1 e) refl
  any-of_Among a (x ∷ xs) (inr m) = ground (arith, any-of_Among a xs m)

eq_group_iff : (a b : ToolGroup) → (eq_group a b ≡ true) ↔ (a ≡ b)
unfolding eq_group
eq_group_iff a b = ground arith

-- A grant: the tool is not denied by name, and it is allowed by name or by its group.
pub record IsGranted (p : Profile) (tool : Text) (group : ToolGroup) : Type 0 where
  pub not_denied : ¬ Among tool p.deny_tools
  pub allowed : Among tool p.allow_tools ⊎ Among group p.allow

-- A profile allows a tool exactly when the name of the tool is not among the denied ones, and its
-- name or its group is among the allowed ones.
pub allows-IsGranted :
    (p : Profile) (tool : Text) (group : ToolGroup)
    → (allows p tool group ≡ true) ↔ IsGranted p tool group
unfolding allows
allows-IsGranted p tool group =
    let denied = any (λ t. eq_text t tool) p.deny_tools in
    let named = any (λ t. eq_text t tool) p.allow_tools in
    (
      λ h. record {
        not_denied =
            λ m. absurd (ground (arith, any-of_Among eq_text eq_text_iff tool p.deny_tools m));
        allowed = elim (Bool-cases named) [
          | inl n ↦ inl (Among-of_any eq_text eq_text_iff tool p.allow_tools n)
          | inr n ↦ inr (Among-of_any eq_group eq_group_iff group p.allow (ground arith))
        ];
      },
      λ g. elim (Bool-cases denied) [
        | inl d ↦ absurd (g.not_denied (Among-of_any eq_text eq_text_iff tool p.deny_tools d))
        | inr d ↦ elim g.allowed [
          | inl m ↦ rw (d, any-of_Among eq_text eq_text_iff tool p.allow_tools m) refl
          | inr m ↦ ground (arith, any-of_Among eq_group eq_group_iff group p.allow m)
        ]
      ],
    )

-- The groups that do not destroy state, start processes, synthesise input or read the screen.
pub data IsSafe : ToolGroup → Type 0 where
  reads : IsSafe read
  windows : IsSafe window
  workspaces : IsSafe workspace
  undoes : IsSafe undo
  snapshots : IsSafe snapshot
  checks_rules : IsSafe rules

IsSafe-of_allows : (tool : Text) (g : ToolGroup) → allows default_safe tool g ≡ true → IsSafe g
unfolding allows default_safe eq_group
IsSafe-of_allows tool read h = reads
IsSafe-of_allows tool window h = windows
IsSafe-of_allows tool workspace h = workspaces
IsSafe-of_allows tool undo h = undoes
IsSafe-of_allows tool snapshot h = snapshots
IsSafe-of_allows tool rules h = checks_rules
IsSafe-of_allows tool _ h = absurd (ground arith)

allows-of_IsSafe : (tool : Text) (g : ToolGroup) → IsSafe g → allows default_safe tool g ≡ true
unfolding allows default_safe eq_group
allows-of_IsSafe tool _ reads = refl
allows-of_IsSafe tool _ windows = refl
allows-of_IsSafe tool _ workspaces = refl
allows-of_IsSafe tool _ undoes = refl
allows-of_IsSafe tool _ snapshots = refl
allows-of_IsSafe tool _ checks_rules = refl

unrestricted-allows : (tool : Text) (g : ToolGroup) → allows unrestricted tool g ≡ true
unfolding allows unrestricted eq_group
unrestricted-allows tool read = refl
unrestricted-allows tool _ = refl

-- The default profile allows exactly the tools of the six safe groups, and the unrestricted one
-- allows every tool.
pub default_safe-IsSafe :
    (tool : Text) (g : ToolGroup)
    → ((allows default_safe tool g ≡ true) ↔ IsSafe g) × (allows unrestricted tool g ≡ true)
default_safe-IsSafe tool g =
    ((IsSafe-of_allows tool g, allows-of_IsSafe tool g), unrestricted-allows tool g)
