-- ===== src/Examples/Boards.antt =====
-- Colours and positions of small boards.
use proof_cost_network.Base.{ℕ, ◌+◌, ◌*◌, ◌≤◌, ◌≡◌, arith}
use proof_cost_network.Base.Int.{pos}
use proof_cost_network.Board.Point.{
  Point, rotate_90, get_symmetry_of, reverse_symmetric_type, get_rotate_position,
}
use proof_cost_network.Board.Point.Rotation.{get_symmetry_of-reverse, get_rotate_position-reverse}

abbrev corner : Point
corner = record { x = pos 2; y = pos 1 }

get_symmetry_of-reverse_example :
    (get_symmetry_of (get_symmetry_of corner rotate_90) (reverse_symmetric_type rotate_90) ≡ corner)
    × (get_symmetry_of (get_symmetry_of corner (reverse_symmetric_type rotate_90)) rotate_90
        ≡ corner)
get_symmetry_of-reverse_example = get_symmetry_of-reverse corner rotate_90

-- On a 3x3 board.
get_rotate_position-reverse_example :
    (q : ℕ) × (get_rotate_position 1 (2 * 1 + 1) rotate_90 ≡ pos q)
    × (q ≤ (2 * 1 + 1) * (2 * 1 + 1))
    × (get_rotate_position q (2 * 1 + 1) (reverse_symmetric_type rotate_90) ≡ pos 1)
get_rotate_position-reverse_example = get_rotate_position-reverse 1 1 rotate_90 (omega arith)
