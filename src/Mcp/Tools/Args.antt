-- ===== src/Mcp/Tools/Args.antt =====
-- crates/hyprpilot-mcp/src/tools.rs: the arguments of the tools and their defaults.
-- serde reads an object into a struct. Here a field with a `#[serde(default)]` is an `Option` that
-- is `none` where the object lacks the key, and the functions below put the defaults in.
use hypr_pilot.Prelude.{ℕ, ℤ, pos, Bool, true, false, Option, none, some, Text, codes}

-- `default_true`
abbrev pub default_true : Bool
default_true = true

-- `#[serde(default = "…")]` and `.unwrap_or(…)`
abbrev pub or_default {ℓ} : {A : Type ℓ} → A → Option A → A
or_default d none = d
or_default d (some a) = a

-- The field `dry_run` of every struct that has it.
unfoldable pub dry : Option Bool → Bool
dry o = or_default default_true o

-- `#[serde(default)]` on a `bool`
abbrev pub flag : Option Bool → Bool
flag o = or_default false o

abbrev pub default_lang : Text
default_lang = codes "eng"

abbrev pub default_psm : ℕ
default_psm = 6

abbrev pub default_scan_psm : ℕ
default_scan_psm = 11

abbrev pub default_min_confidence : ℤ
default_min_confidence = pos 50

pub data DirArg : Type 0 where
  l r u d : DirArg

pub data FsModeArg : Type 0 where
  maximize fullscreen : FsModeArg

pub data ImageFormatArg : Type 0 where
  png jpeg : ImageFormatArg

pub record MutNoArgs : Type 0 where
  pub dry_run : Option Bool

pub record SelectorArgs : Type 0 where
  pub selector : Text
  pub dry_run : Option Bool

pub record WorkspaceArgs : Type 0 where
  pub target : Text
  pub dry_run : Option Bool

pub record DirectionArgs : Type 0 where
  pub direction : DirArg
  pub dry_run : Option Bool

pub record ResizeArgs : Type 0 where
  pub dx : ℤ
  pub dy : ℤ
  pub dry_run : Option Bool

pub record FullscreenArgs : Type 0 where
  pub mode : FsModeArg
  pub dry_run : Option Bool

pub record FocusMonitorArgs : Type 0 where
  pub name_or_direction : Text
  pub dry_run : Option Bool

pub record MonitorArgs : Type 0 where
  pub monitor : Text
  pub dry_run : Option Bool

pub record ExecArgs : Type 0 where
  pub command : Text
  pub dry_run : Option Bool

pub record SnapshotNameArgs : Type 0 where
  pub name : Text

pub record InputTextArgs : Type 0 where
  pub text : Text
  pub dry_run : Option Bool

pub record InputKeysArgs : Type 0 where
  pub combo : Text
  pub dry_run : Option Bool

pub record InputShortcutArgs : Type 0 where
  pub combo : Text
  pub selector : Text
  pub dry_run : Option Bool

pub record InputMouseMoveArgs : Type 0 where
  pub x : ℤ
  pub y : ℤ
  pub absolute : Option Bool
  pub dry_run : Option Bool

pub record InputMouseClickArgs : Type 0 where
  pub button : Text
  pub dry_run : Option Bool

pub record ScreenshotArgs : Type 0 where
  pub monitor : Option Text
  pub cursor : Option Bool
  pub format : Option ImageFormatArg

pub record ScreenshotRegionArgs : Type 0 where
  pub x : ℤ
  pub y : ℤ
  pub w : ℕ
  pub h : ℕ
  pub cursor : Option Bool
  pub format : Option ImageFormatArg

pub record ScreenshotMonitorArgs : Type 0 where
  pub name : Text
  pub cursor : Option Bool
  pub format : Option ImageFormatArg

pub record OcrScreenArgs : Type 0 where
  pub lang : Option Text
  pub psm : Option ℕ
  pub active_window : Option Bool

pub record OcrRegionArgs : Type 0 where
  pub x : ℤ
  pub y : ℤ
  pub w : ℕ
  pub h : ℕ
  pub lang : Option Text
  pub psm : Option ℕ

pub record FindTextPositionArgs : Type 0 where
  pub query : Text
  pub x : Option ℤ
  pub y : Option ℤ
  pub w : Option ℕ
  pub h : Option ℕ
  pub case_sensitive : Option Bool
  pub min_confidence : Option ℤ
  pub psm : Option ℕ
  pub lang : Option Text
  pub active_window : Option Bool

pub record ClickTextArgs : Type 0 where
  pub query : Text
  pub x : Option ℤ
  pub y : Option ℤ
  pub w : Option ℕ
  pub h : Option ℕ
  pub case_sensitive : Option Bool
  pub min_confidence : Option ℤ
  pub psm : Option ℕ
  pub lang : Option Text
  pub active_window : Option Bool
  pub button : Option Text
  pub match_index : Option ℕ
  pub require_unique : Option Bool
  pub dry_run : Option Bool

pub record A11yTreeArgs : Type 0 where
  pub pid : Option ℤ
  pub max_nodes : Option ℕ

pub record A11yFindArgs : Type 0 where
  pub query : Option Text
  pub role : Option Text
  pub pid : Option ℤ
  pub max_nodes : Option ℕ

pub record A11yClickArgs : Type 0 where
  pub query : Text
  pub role : Option Text
  pub pid : Option ℤ
  pub button : Option Text
  pub match_index : Option ℕ
  pub require_unique : Option Bool
  pub max_nodes : Option ℕ
  pub dry_run : Option Bool

pub record RunBindArgs : Type 0 where
  pub combo : Text
  pub submap : Option Text
  pub dry_run : Option Bool

pub record SnapshotMutArgs : Type 0 where
  pub name : Text
  pub dry_run : Option Bool
