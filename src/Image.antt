-- ===== src/Image.antt =====
-- lab4-perflab: images as cs1300bmp.h declares them, the filter class, and the loops that apply a filter.
-- An index beyond MAX_DIM or the filter's array is not told apart from one inside.
pub mod Filter
pub mod Apply
use computer_systems_labs.Base.{ℕ, ◌&&◌, ◌==◌, if◌then◌else◌}

-- The colour of a plane, a row and a column.
pub record Image : Type 0 where
  pub width : ℕ
  pub height : ℕ
  pub color : ℕ → ℕ → ℕ → ℕ

abbrev pub color_red : ℕ
color_red = 0

abbrev pub color_green : ℕ
color_green = 1

abbrev pub color_blue : ℕ
color_blue = 2

-- `output->color[plane][row][col] = v`
unfoldable pub store : ℕ → ℕ → ℕ → ℕ → Image → Image
store plane row col v out = record out {
  color = λ p r c. if p == plane && r == row && c == col then v else out.color p r c;
}
