-- ===== src/Board/Point.antt =====
-- Games/Point.h: points, the eight symmetries of the square, and rotated positions.
pub mod Rotation
use package.proof_cost_network.Base.{ℕ, ◌+◌, ◌*◌, ◌/◌, ◌%◌, Bool, true, false}
use package.proof_cost_network.Base.{◌==◌, ◌&&◌, if◌then◌else◌}
use package.proof_cost_network.Base.Int.{
  ℤ, pos, ◌+ℤ◌, ◌-ℤ◌, neg_ℤ, pos_part, neg_part, sub_ℕ, ltb_ℤ,
}
use package.proof_cost_network.Base.Int.{eqb_ℤ}

pub data SymmetryType : Type 0 where
  normal rotate_90 rotate_180 rotate_270 : SymmetryType
  horizontal_reflection horizontal_reflection_rotate_90 : SymmetryType
  horizontal_reflection_rotate_180 horizontal_reflection_rotate_270 : SymmetryType

unfoldable pub reverse_symmetric_type : SymmetryType → SymmetryType
reverse_symmetric_type normal = normal
reverse_symmetric_type rotate_90 = rotate_270
reverse_symmetric_type rotate_180 = rotate_180
reverse_symmetric_type rotate_270 = rotate_90
reverse_symmetric_type horizontal_reflection = horizontal_reflection
reverse_symmetric_type horizontal_reflection_rotate_90 = horizontal_reflection_rotate_90
reverse_symmetric_type horizontal_reflection_rotate_180 = horizontal_reflection_rotate_180
reverse_symmetric_type horizontal_reflection_rotate_270 = horizontal_reflection_rotate_270

pub record Point : Type 0 where
  pub x : ℤ
  pub y : ℤ

abbrev pub minus_x : Point → Point
minus_x p = record p { x = neg_ℤ p.x }

abbrev pub minus_y : Point → Point
minus_y p = record p { y = neg_ℤ p.y }

abbrev pub change_xy : Point → Point
change_xy p = record { x = p.y; y = p.x }

unfoldable pub get_symmetry_of : Point → SymmetryType → Point
get_symmetry_of p normal = p
get_symmetry_of p rotate_90 = minus_y (change_xy p)
get_symmetry_of p rotate_180 = minus_y (minus_x p)
get_symmetry_of p rotate_270 = minus_x (change_xy p)
get_symmetry_of p horizontal_reflection = minus_x p
get_symmetry_of p horizontal_reflection_rotate_90 = change_xy p
get_symmetry_of p horizontal_reflection_rotate_180 = minus_y p
get_symmetry_of p horizontal_reflection_rotate_270 = minus_y (minus_x (change_xy p))

-- |a - b|.
abbrev distance : ℤ → ℤ → ℤ
distance a b = if ltb_ℤ b a then a -ℤ b else b -ℤ a

unfoldable pub get_radius_distance : Point → Point → ℤ
get_radius_distance p q =
    let x = distance p.x q.x in let y = distance p.y q.y in x +ℤ y +ℤ (if ltb_ℤ y x then x else y)

unfoldable pub equal : Point → Point → Bool
equal p q = eqb_ℤ p.x q.x && eqb_ℤ p.y q.y

unfoldable pub less : Point → Point → Bool
less p q = if ltb_ℤ p.x q.x then true else if ltb_ℤ q.x p.x then false else ltb_ℤ p.y q.y

-- `y * boardSize + x`, with a row and a column that may be negative.
abbrev pub index : ℕ → ℤ → ℤ → ℤ
index n row column = sub_ℕ (pos_part row * n + pos_part column) (neg_part row * n + neg_part column)

-- The row-major index; `pos` and `boardSize` are not negative, so `/` and `%` are those of ℕ.
unfoldable pub get_rotate_position : ℕ → ℕ → SymmetryType → ℤ
get_rotate_position pos' board_size type =
    if pos' == board_size * board_size
    then pos pos'
    else let center = board_size / 2 in
      let x = pos' % board_size in
      let y = pos' / board_size in
      let point : Point = record { x = sub_ℕ x center; y = sub_ℕ y center } in
      let r = get_symmetry_of point type in index board_size (r.y +ℤ pos center) (r.x +ℤ pos center)
