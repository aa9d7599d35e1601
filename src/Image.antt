-- ===== src/Image.antt =====
-- `Image` of src/py/rdc_image.py: an RGBA image with 8 bits a channel, top-down. A byte is a number below
-- 256.
pub mod Delta
pub mod Png
use rdc_tools.Prelude.{ℕ, ◌*◌, Bool, ◌&&◌, List, length, ltb, ◌==◌}

pub record Image : Type 0 where
  pub width : ℕ
  pub height : ℕ
  pub rgba : List ℕ

-- `Image.valid`
unfoldable pub valid : Image → Bool
valid image =
    ltb 0 image.width && (ltb 0 image.height && length image.rgba == image.width * image.height * 4)
