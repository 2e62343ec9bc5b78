-- ===== src/Vision/Geometry.antt =====
-- crates/hyprpilot-vision/src/capture.rs: regions of the screen and boxes of an image. A `u32` is a
-- natural number.
use hypr_pilot.Prelude.{
  ℕ, ℤ, ◌||◌, ◌==◌, ◌++◌, Text, codes, Result, ok, err, show_ℕ, show_i32, if◌then◌else◌, as_i32,
  saturating_add, sub_i32, half, min_ℤ, max_ℤ,
}

pub record Region : Type 0 where
  pub x : ℤ
  pub y : ℤ
  pub w : ℕ
  pub h : ℕ

unfoldable pub grim_geometry : Region → Text
grim_geometry r =
    show_i32 r.x ++ codes "," ++ show_i32 r.y ++ codes " " ++ show_ℕ r.w ++ codes "x" ++ show_ℕ r.h

-- `VisionError::InvalidRegion`, as its text
unfoldable pub invalid_region : Region → Text
invalid_region r =
    codes "invalid region: width and height must be > 0, got "
    ++ show_i32 (as_i32 r.w)
    ++ codes "x"
    ++ show_i32 (as_i32 r.h)

unfoldable pub validate : Region → Result Unit Text
unfolding invalid_region
validate r = if r.w == 0 || r.h == 0 then err (invalid_region r) else ok tt

-- A box in the coordinates of an image.
pub record BBox : Type 0 where
  pub x : ℤ
  pub y : ℤ
  pub w : ℤ
  pub h : ℤ

unfoldable pub center : BBox → ℤ × ℤ
center b = (saturating_add b.x (half b.w), saturating_add b.y (half b.h))

unfoldable pub union : BBox → BBox → BBox
union a b =
    let left = min_ℤ a.x b.x in
    let top = min_ℤ a.y b.y in
    let right = max_ℤ (saturating_add a.x a.w) (saturating_add b.x b.w) in
    let bottom = max_ℤ (saturating_add a.y a.h) (saturating_add b.y b.h) in
    record { x = left; y = top; w = sub_i32 right left; h = sub_i32 bottom top }

pub data ImageFormat : Type 0 where
  png jpeg ppm : ImageFormat

pub data Psm : Type 0 where
  auto single_block single_line sparse_text : Psm

unfoldable pub mime : ImageFormat → Text
mime png = codes "image/png"
mime jpeg = codes "image/jpeg"
mime ppm = codes "image/x-portable-pixmap"

unfoldable pub grim_flag : ImageFormat → Text
grim_flag png = codes "png"
grim_flag jpeg = codes "jpeg"
grim_flag ppm = codes "ppm"
