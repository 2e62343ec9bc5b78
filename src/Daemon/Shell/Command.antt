-- ===== src/Daemon/Shell/Command.antt =====
-- The quoted command line as a simple command of the shell.
use hypr_pilot.Prelude.{◌≡◌, false, Text}
use hypr_pilot.Daemon.Shell.Words.{is_assignment, is_reserved}

-- Neither an assignment nor a reserved word.
abbrev pub IsPlain : Text → Type 0
IsPlain s = (is_assignment s ≡ false) × (is_reserved s ≡ false)
