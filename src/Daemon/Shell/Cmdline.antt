-- ===== src/Daemon/Shell/Cmdline.antt =====
-- From the kernel's record of a process's arguments to a command that the shell can run.
use hypr_pilot.Prelude.{
  ℕ, ◌≡◌, ◌≢◌, refl, ◌∙◌, ap, append-nil, false, not, some, List, [], ◌∷◌, ◌++◌, map, Text, All,
  filter, filter-append, split, split-append, is_empty, Lacks, ◌==◌,
}
use hypr_pilot.Daemon.Shell.{quote_all, arguments, read_proc_cmdline}
use hypr_pilot.Daemon.Shell.Words.{outside, sh_words}
use hypr_pilot.Daemon.Shell.RoundTrip.{sh_words-quote_all}

-- `/proc/<pid>/cmdline`: each argument with a NUL behind it.
abbrev pub cmdline : List (List ℕ) → List ℕ
cmdline [] = []
cmdline (a ∷ argv) = a ++ 0 ∷ cmdline argv

-- An argument of a process holds no NUL.
abbrev pub IsArgument : List ℕ → Type 0
IsArgument = Lacks (λ c. c == 0)

split-cmdline :
    (argv : List (List ℕ)) → All IsArgument argv → split 0 (cmdline argv) ≡ argv ++ [] ∷ []
split-cmdline [] h = unfold split in refl
split-cmdline (a ∷ argv) h =
    split-append 0 a (cmdline argv) h.0 ∙ ap (a ∷◌) (split-cmdline argv h.1)

abbrev pub nonempty : List (List ℕ) → List (List ℕ)
nonempty = filter (λ s. not (is_empty s))

nonempty-split :
    (argv : List (List ℕ)) → All IsArgument argv → nonempty (split 0 (cmdline argv)) ≡ nonempty argv
nonempty-split argv h =
    ap nonempty (split-cmdline argv h)
    ∙ (filter-append (λ s. not (is_empty s)) argv ([] ∷ []) ∙ append-nil (nonempty argv))

quote_all-map :
    (f : List ℕ → Text) (ss : List (List ℕ))
    → ss ≢ []
    → (line : Text) × (quote_all (map f ss) ≡ some line) × (sh_words outside line ≡ some (map f ss))
quote_all-map f [] n = absurd (n refl)
quote_all-map f (s ∷ ss) n = sh_words-quote_all (f s) (map f ss)

is_empty-cmdline : (argv : List (List ℕ)) → nonempty argv ≢ [] → is_empty (cmdline argv) ≡ false
is_empty-cmdline [] n = absurd (n refl)
is_empty-cmdline ([] ∷ argv) n = refl
is_empty-cmdline ((c ∷ a) ∷ argv) n = refl

module _ (from_utf8_lossy : List ℕ → Text) where
  arguments-cmdline :
      (argv : List (List ℕ))
      → All IsArgument argv
      → arguments from_utf8_lossy (cmdline argv) ≡ map from_utf8_lossy (nonempty argv)
  unfolding arguments
  arguments-cmdline argv h = ap (map from_utf8_lossy) (nonempty-split argv h)

  -- Reading the arguments of a process that has one that is not empty gives a command line that
  -- the shell cuts into exactly the arguments that are not empty, decoded. Empty ones are lost.
  pub read_proc_cmdline-sh_words :
      (argv : List (List ℕ))
      → All IsArgument argv
      → nonempty argv ≢ []
      → (line : Text) × (read_proc_cmdline from_utf8_lossy (some (cmdline argv)) ≡ some line)
        × (sh_words outside line ≡ some (map from_utf8_lossy (nonempty argv)))
  read_proc_cmdline-sh_words argv h n =
      let (line, made, read) = quote_all-map from_utf8_lossy (nonempty argv) n in
      (
        line,
        unfold read_proc_cmdline in rw (is_empty-cmdline argv n, arguments-cmdline argv h) made,
        read,
      )
