-- ===== src/Core/Types.antt =====
-- crates/hyprpilot-core/src/types.rs: what Hyprland's queries return. An `f64` is its 64 bits.
use hypr_pilot.Prelude.{
  ℕ, ℤ, Bool, Option, List, Text, [], ◌∷◌, ◌++◌, ◌/◌, ◌%◌, ◌==◌, codes, if◌then◌else◌,
}

pub record Bind : Type 0 where
  pub mods : List Text
  pub modmask : ℕ
  pub key : Text
  pub keycode : ℤ
  pub submap : Text
  pub dispatcher : Text
  pub arg : Text
  pub description : Text
  pub locked : Bool
  pub mouse : Bool
  pub release : Bool
  pub repeat : Bool

-- `modmask & (1 << i) != 0`, with `bit` the power of two
abbrev pub has_bit : ℕ → ℕ → Bool
has_bit bit modmask = modmask / bit % 2 == 1

abbrev pub mod_name : Bool → Text → List Text
mod_name b text = if b then text ∷ [] else []

unfoldable pub decode_mods : ℕ → List Text
decode_mods modmask =
    mod_name (has_bit 1 modmask) (codes "SHIFT")
    ++ (mod_name (has_bit 4 modmask) (codes "CTRL")
        ++ (mod_name (has_bit 8 modmask) (codes "ALT")
            ++ mod_name (has_bit 64 modmask) (codes "SUPER")))

pub record Version : Type 0 where
  pub branch : Text
  pub commit : Text
  pub version : Text
  pub dirty : Bool
  pub commit_message : Text
  pub commit_date : Text
  pub tag : Text

pub record ClientWorkspace : Type 0 where
  pub id : ℤ
  pub name : Text

pub record Client : Type 0 where
  pub address : Text
  pub mapped : Bool
  pub hidden : Bool
  pub at : ℤ × ℤ
  pub size : ℤ × ℤ
  pub workspace : ClientWorkspace
  pub floating : Bool
  pub monitor : ℤ
  pub class : Text
  pub title : Text
  pub initial_class : Text
  pub initial_title : Text
  pub pid : ℤ
  pub xwayland : Bool
  pub pinned : Bool
  pub fullscreen : ℤ
  pub grouped : List Text
  pub tags : List Text
  pub focus_history_id : ℤ

pub record Workspace : Type 0 where
  pub id : ℤ
  pub name : Text
  pub monitor : Text
  pub monitor_id : ℤ
  pub windows : ℕ
  pub hasfullscreen : Bool
  pub lastwindow : Text
  pub lastwindowtitle : Text
  pub ispersistent : Bool

abbrev pub ActiveWorkspace : Type 0
ActiveWorkspace = Workspace

pub record Monitor : Type 0 where
  pub id : ℤ
  pub name : Text
  pub description : Text
  pub make : Text
  pub model : Text
  pub serial : Text
  pub width : ℤ
  pub height : ℤ
  pub refresh_rate : ℕ
  pub x : ℤ
  pub y : ℤ
  pub scale : ℕ
  pub transform : ℤ
  pub focused : Bool
  pub disabled : Bool
  pub dpms_status : Bool
  pub active_workspace : Option ClientWorkspace
  pub special_workspace : Option ClientWorkspace
