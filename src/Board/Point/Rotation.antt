-- ===== src/Board/Point/Rotation.antt =====
-- The symmetries are undone by their reverses, on points and on board positions.
use proof_cost_network.Base.{
  ℕ, ◌+◌, ◌-◌, ◌*◌, ◌/◌, ◌%◌, ◌<◌, ◌≤◌, ◌≡◌, refl, ◌∙◌, ◌==◌, ==_ne, Bool-cases, inl, inr, arith,
}
use proof_cost_network.Base.Int.{pos, ◌+ℤ◌, neg_ℤ, sub_ℕ, neg_ℤ-neg_ℤ}
use proof_cost_network.Board.Point.{SymmetryType, normal, rotate_90, rotate_180, rotate_270}
use proof_cost_network.Board.Point.{horizontal_reflection, horizontal_reflection_rotate_90}
use proof_cost_network.Board.Point.{
  horizontal_reflection_rotate_180, horizontal_reflection_rotate_270,
}
use proof_cost_network.Board.Point.{reverse_symmetric_type, Point, get_symmetry_of, index}
use proof_cost_network.Board.Point.{get_rotate_position}
use native.Mathlib.Nat.{
  mod-eq_of_lt, div-eq_of_lt, div-lt_iff_lt-mul, mul-add-mod_self_right, mul-add-div_right,
  div-add-mod',
}

-- Each symmetry is undone by its reverse, from either side.
pub get_symmetry_of-reverse :
    (p : Point) (t : SymmetryType)
    → (get_symmetry_of (get_symmetry_of p t) (reverse_symmetric_type t) ≡ p)
      × (get_symmetry_of (get_symmetry_of p (reverse_symmetric_type t)) t ≡ p)
unfolding get_symmetry_of reverse_symmetric_type
get_symmetry_of-reverse p normal = (refl, refl)
get_symmetry_of-reverse p horizontal_reflection_rotate_90 = (refl, refl)
get_symmetry_of-reverse p t = (simp neg_ℤ-neg_ℤ, simp neg_ℤ-neg_ℤ)

-- The rotated column and row on a board whose last index is `last`.
rotated : ℕ → SymmetryType → ℕ → ℕ → ℕ × ℕ
rotated last normal x y = (x, y)
rotated last rotate_90 x y = (y, last - x)
rotated last rotate_180 x y = (last - x, last - y)
rotated last rotate_270 x y = (last - y, x)
rotated last horizontal_reflection x y = (last - x, y)
rotated last horizontal_reflection_rotate_90 x y = (y, x)
rotated last horizontal_reflection_rotate_180 x y = (x, last - y)
rotated last horizontal_reflection_rotate_270 x y = (last - y, last - x)

rotated-reverse :
    (last : ℕ) (t : SymmetryType) (x y : ℕ)
    → x ≤ last
    → y ≤ last
    → rotated last (reverse_symmetric_type t) (rotated last t x y).0 (rotated last t x y).1 ≡ (x, y)
unfolding rotated reverse_symmetric_type
rotated-reverse last normal x y hx hy = refl
rotated-reverse last t x y hx hy = ground arith

rotated-le :
    (last : ℕ) (t : SymmetryType) (x y : ℕ)
    → x ≤ last
    → y ≤ last
    → ((rotated last t x y).0 ≤ last) × ((rotated last t x y).1 ≤ last)
unfolding rotated
rotated-le last normal x y hx hy = (hx, hy)
rotated-le last t x y hx hy = omega arith

centred : (c x : ℕ) → sub_ℕ x c +ℤ pos c ≡ pos x
unfolding ◌+ℤ◌
centred c x = ground arith

centred_neg : (c x : ℕ) → x ≤ 2 * c → neg_ℤ (sub_ℕ x c) +ℤ pos c ≡ pos (2 * c - x)
unfolding ◌+ℤ◌ neg_ℤ
centred_neg c x h = ground arith

index_pos : (n a b : ℕ) → index n (pos a) (pos b) ≡ pos (a * n + b)
index_pos n a b = ground arith

index_rotated :
    (n c x y : ℕ) (t : SymmetryType)
    → x ≤ 2 * c
    → y ≤ 2 * c
    → let r = get_symmetry_of (record { x = sub_ℕ x c; y = sub_ℕ y c }) t in
      let q = rotated (2 * c) t x y in index n (r.y +ℤ pos c) (r.x +ℤ pos c) ≡ pos (q.1 * n + q.0)
unfolding get_symmetry_of rotated
index_rotated n c x y normal hx hy = simp (centred, index_pos)
index_rotated n c x y rotate_90 hx hy = simp (centred, centred_neg c x hx, index_pos)
index_rotated n c x y rotate_180 hx hy = simp (centred_neg c x hx, centred_neg c y hy, index_pos)
index_rotated n c x y rotate_270 hx hy = simp (centred, centred_neg c y hy, index_pos)
index_rotated n c x y horizontal_reflection hx hy = simp (centred, centred_neg c x hx, index_pos)
index_rotated n c x y horizontal_reflection_rotate_90 hx hy = simp (centred, index_pos)
index_rotated n c x y horizontal_reflection_rotate_180 hx hy =
    simp (centred, centred_neg c y hy, index_pos)
index_rotated n c x y horizontal_reflection_rotate_270 hx hy =
    simp (centred_neg c x hx, centred_neg c y hy, index_pos)

quotient_le : (c p : ℕ) → p < (2 * c + 1) * (2 * c + 1) → p / (2 * c + 1) ≤ 2 * c
quotient_le c p h = omega (arith, (div-lt_iff_lt-mul {k = 2 * c + 1} (omega arith)).1 h)

index_lt : (n x y : ℕ) → x < n → y < n → y * n + x < n * n
index_lt n x y hx hy = grind arith

row_column : (n x y : ℕ) → x < n → ((y * n + x) % n ≡ x) × ((y * n + x) / n ≡ y)
row_column n x y h = (
  mul-add-mod_self_right y n x ∙ mod-eq_of_lt h,
  mul-add-div_right (omega arith) y x ∙ rw (div-eq_of_lt h) (omega arith),
)

-- On an odd board a position that is on it goes to its rotated row and column.
rotate_on_board :
    (c p : ℕ) (t : SymmetryType)
    → p < (2 * c + 1) * (2 * c + 1)
    → let q = rotated (2 * c) t (p % (2 * c + 1)) (p / (2 * c + 1)) in
      get_rotate_position p (2 * c + 1) t ≡ pos (q.1 * (2 * c + 1) + q.0)
unfolding get_rotate_position
rotate_on_board c p t h =
    let n = 2 * c + 1 in
    let centre : n / 2 ≡ c = omega arith in
    rw (==_ne p (n * n) (omega arith), centre)
      (index_rotated n c (p % n) (p / n) t (omega arith) (quotient_le c p h))

rotate_and_back :
    (c p : ℕ) (t : SymmetryType)
    → p < (2 * c + 1) * (2 * c + 1)
    → (q : ℕ) × (get_rotate_position p (2 * c + 1) t ≡ pos q)
      × (q < (2 * c + 1) * (2 * c + 1))
      × (get_rotate_position q (2 * c + 1) (reverse_symmetric_type t) ≡ pos p)
rotate_and_back c p t h =
    let n = 2 * c + 1 in
    let x = p % n in
    let y = p / n in
    let hx : x ≤ 2 * c = omega arith in
    let hy : y ≤ 2 * c = quotient_le c p h in
    let r = rotated (2 * c) t x y in
    let b = rotated-le (2 * c) t x y hx hy in
    let q = r.1 * n + r.0 in
    let split = row_column n r.0 r.1 (omega arith) in
    let below : q < n * n = index_lt n r.0 r.1 (omega arith) (omega arith) in
    (
      q,
      rotate_on_board c p t h,
      below,
      rotate_on_board c q (reverse_symmetric_type t) below
          ∙ rw (split.0, split.1, rotated-reverse (2 * c) t x y hx hy) (rw (div-add-mod' p n)),
    )

-- On a board of odd size, a position of the board or the pass position goes by each symmetry to
-- such a position, and the reverse symmetry takes it back.
pub get_rotate_position-reverse :
    (c p : ℕ) (t : SymmetryType)
    → p ≤ (2 * c + 1) * (2 * c + 1)
    → (q : ℕ) × (get_rotate_position p (2 * c + 1) t ≡ pos q)
      × (q ≤ (2 * c + 1) * (2 * c + 1))
      × (get_rotate_position q (2 * c + 1) (reverse_symmetric_type t) ≡ pos p)
unfolding get_rotate_position
get_rotate_position-reverse c p t h = elim (Bool-cases (p == (2 * c + 1) * (2 * c + 1))) [
  | inl e ↦ (p, rw e, h, rw e)
  | inr e ↦
      let (q, there, below, back) = rotate_and_back c p t (ground arith) in
      (q, there, omega arith, back)
]
