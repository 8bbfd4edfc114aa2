-- ===== src/Board/Bitboard.antt =====
-- Games/Bitboard.h: a set of positions as the bits of a `std::bitset`, lowest position first, and the
-- flood fill on a square board of `width` columns.
pub mod Bits
pub mod Counts
pub mod Edges
pub mod Dilation
pub mod Floodfill
use package.proof_cost_network.Base.{
  ℕ, zero, suc, ◌+◌, ◌*◌, ◌-◌, Bool, true, false, not, ◌&&◌, ◌||◌, List, [], ◌∷◌, ◌++◌, map, Option,
  none, some, length, get_or, set, replicate, if◌then◌else◌, ◌==◌, pop_back,
}

abbrev pub Bitboard : Type 0
Bitboard = List Bool

-- `BitIsOn`. A position out of range is an exception of `bitset::test`, and no caller meets it.
abbrev pub bit_is_on : Bitboard → ℕ → Bool
bit_is_on b position = get_or b position false

unfoldable pub reset : ℕ → Bitboard
reset bits = replicate bits false

unfoldable pub set_bit_on : ℕ → Bitboard → Bitboard
set_bit_on position b = set b position true

unfoldable pub set_bit_off : ℕ → Bitboard → Bitboard
set_bit_off position b = set b position false

-- The constructor from a position.
unfoldable pub one_hot : ℕ → ℕ → Bitboard
unfolding reset set_bit_on
one_hot bits position = set_bit_on position (reset bits)

unfoldable pub bit_count : Bitboard → ℕ
bit_count [] = 0
bit_count (x ∷ b) = (if x then 1 else 0) + bit_count b

unfoldable pub is_empty : Bitboard → Bool
is_empty [] = true
is_empty (x ∷ b) = not x && is_empty b

-- The two sides of an operation have one length; a missing bit is off.
unfoldable pub zip_bits : (Bool → Bool → Bool) → Bitboard → Bitboard → Bitboard
zip_bits f [] [] = []
zip_bits f [] (y ∷ c) = f false y ∷ zip_bits f [] c
zip_bits f (x ∷ b) [] = f x false ∷ zip_bits f b []
zip_bits f (x ∷ b) (y ∷ c) = f x y ∷ zip_bits f b c

abbrev pub xor : Bool → Bool → Bool
xor true y = not y
xor false y = y

-- `|`, `&`, `-` (the bits that the right side does not have) and `^`.
infixl 60 ◌∪◌ ◌∩◌ ◌∖◌ ◌△◌
unfoldable pub ◌∪◌ : Bitboard → Bitboard → Bitboard
unfolding zip_bits
b ∪ c = zip_bits (λ x y. x || y) b c

unfoldable pub ◌∩◌ : Bitboard → Bitboard → Bitboard
unfolding zip_bits
b ∩ c = zip_bits (λ x y. x && y) b c

unfoldable pub ◌∖◌ : Bitboard → Bitboard → Bitboard
unfolding zip_bits
b ∖ c = zip_bits (λ x y. x && not y) b c

unfoldable pub ◌△◌ : Bitboard → Bitboard → Bitboard
unfolding zip_bits
b △ c = zip_bits xor b c

-- `~`.
unfoldable pub complement : Bitboard → Bitboard
complement b = map not b

unfoldable pub is_subset_of : Bitboard → Bitboard → Bool
unfolding ◌∖◌ is_empty
is_subset_of b c = is_empty (b ∖ c)

unfoldable pub has_intersection_with : Bitboard → Bitboard → Bool
unfolding ◌∩◌ is_empty
has_intersection_with b c = not (is_empty (b ∩ c))

abbrev same_bit : Bool → Bool → Bool
same_bit x y = not (xor x y)

unfoldable pub equal : Bitboard → Bitboard → Bool
equal [] [] = true
equal [] (y ∷ c) = false
equal (x ∷ b) [] = false
equal (x ∷ b) (y ∷ c) = same_bit x y && equal b c

-- The lowest bit, which is switched off; -1 is `none`.
unfoldable pub bit_scan_forward : Bitboard → Option ℕ × Bitboard
bit_scan_forward [] = (none, [])
bit_scan_forward (true ∷ b) = (some 0, false ∷ b)
bit_scan_forward (false ∷ b) =
    let rest = bit_scan_forward b in
    (elim rest.0 [ none ↦ none | some p ↦ some (suc p) ], false ∷ rest.1)

-- What `while ((pos = b.bitScanForward()) != -1)` visits.
positions_from : ℕ → Bitboard → List ℕ
positions_from i [] = []
positions_from i (true ∷ b) = i ∷ positions_from (suc i) b
positions_from i (false ∷ b) = positions_from (suc i) b

unfoldable pub positions : Bitboard → List ℕ
unfolding positions_from
positions b = positions_from 0 b

-- `>> shift`, towards the lower positions, and `<< shift`.
unfoldable pub shift_right : ℕ → Bitboard → Bitboard
shift_right zero b = b
shift_right (suc n) b = elim b [ [] ↦ [] | x ∷ rest ↦ shift_right n (rest ++ false ∷ []) ]

unfoldable pub shift_left : ℕ → Bitboard → Bitboard
shift_left zero b = b
shift_left (suc n) b = shift_left n (pop_back (false ∷ b))

-- The static boards.
pub record Boundaries : Type 0 where
  pub up : Bitboard
  pub bottom : Bitboard
  pub left : Bitboard
  pub right : Bitboard
  pub corner : Bitboard
  pub edge : Bitboard
  pub pass : Bitboard

module _ (bits width : ℕ) where
  initialize_loop : ℕ → ℕ → Boundaries → Boundaries
  initialize_loop zero p s = s
  initialize_loop (suc n) p s = initialize_loop n (suc p) (record s {
    up = set_bit_on p s.up;
    bottom = set_bit_on (width * (width - 1) + p) s.bottom;
    left = set_bit_on (p * width) s.left;
    right = set_bit_on (suc p * width - 1) s.right;
  })

  abbrev no_boundaries : Boundaries
  no_boundaries = record {
    up = reset bits;
    bottom = reset bits;
    left = reset bits;
    right = reset bits;
    corner = reset bits;
    edge = reset bits;
    pass = reset bits;
  }

  unfoldable pub initialize : Boundaries
  unfolding initialize_loop set_bit_on reset ◌∪◌
  initialize =
      let s = initialize_loop width 0 no_boundaries in
      record s {
        corner =
            set_bit_on (width * width - 1)
              (set_bit_on (width * (width - 1)) (set_bit_on (width - 1) (set_bit_on 0 s.corner)));
        edge = s.up ∪ s.bottom ∪ s.left ∪ s.right;
        pass = set_bit_on (width * width) s.pass;
      }

  unfoldable pub dilation : Bitboard → Bitboard
  unfolding initialize ◌∪◌ ◌∖◌ shift_right shift_left
  dilation b =
      (b
        ∪ shift_right width (b ∖ initialize.up)
        ∪ shift_left width (b ∖ initialize.bottom)
        ∪ shift_right 1 (b ∖ initialize.left)
        ∪ shift_left 1 (b ∖ initialize.right))
      ∖ initialize.pass

  -- The loop of `floodfill`; a round that changes nothing ends it.
  floodfill_loop : ℕ → Bitboard → Bitboard → Option Bitboard
  floodfill_loop zero within block = none
  floodfill_loop (suc fuel) within block =
      let next = dilation block ∩ within in
      elim (equal block next) [ true ↦ some block | false ↦ floodfill_loop fuel within next ]

  -- A round that goes on adds a position.
  unfoldable pub floodfill : Bitboard → ℕ → Option Bitboard
  unfolding floodfill_loop one_hot
  floodfill within position = floodfill_loop bits within (one_hot bits position)
