-- ===== src/Games/Go/End.antt =====
-- Games/Go.cpp: the end of a game, its result, the key for the transposition table, the input of the
-- network, and the check of the whole state.
use proof_cost_network.Base.{
  ℕ, zero, suc, ◌-◌, ◌/◌, ◌%◌, Bool, true, false, not, ◌&&◌, ◌||◌, List, [], ◌∷◌, ◌++◌, Option,
  none, some, ◌>>=◌, if◌then◌else◌, ◌==◌, ltb, leb, get_or, length, bit_xor,
}
use proof_cost_network.Base.Int.{pos_part}
use proof_cost_network.Base.Text.{Text}
use proof_cost_network.Board.Color.{Color, black, white, eqb}
use proof_cost_network.Board.Move.{Move, is_pass}
use proof_cost_network.Board.Point.{SymmetryType, reverse_symmetric_type, get_rotate_position}
use proof_cost_network.Board.Bitboard
use proof_cost_network.Board.Bitboard.{
  Bitboard, bit_is_on, set_bit_on, bit_count, is_empty, positions,
}
use proof_cost_network.Games.Go.Area.{board_size, num_grids, max_num_moves}
use proof_cost_network.Games.Go.State.{no_stones, HashKeys, GoGame, grid_at, block_at, reset_ca}
use proof_cost_network.Games.Go.Legal.{Rules, is_legal_move}
use proof_cost_network.Games.Go.Benson.{find_full_board_uct_closed_area}

-- Whether the last two moves are passes.
unfoldable pub is_two_pass : GoGame → Bool
unfolding is_pass
is_two_pass s =
    let n = length s.moves in
    let none_yet : Move = record { color = Color.none; position = 0 } in
    leb 2 n
    && is_pass board_size (get_or s.moves (n - 1) none_yet)
    && is_pass board_size (get_or s.moves (n - 2) none_yet)

module _ (keys : HashKeys) (rules : Rules) where
  abbrev move_at : Color → ℕ → Move
  move_at c p = record { color = c; position = p }

  -- The legal positions among `n` from `p` on.
  valid_loop : Color → ℕ → ℕ → GoGame → Bitboard → Option Bitboard
  unfolding is_legal_move set_bit_on
  valid_loop c zero p s b = some b
  valid_loop c (suc n) p s b = is_legal_move keys rules (move_at c p) s >>= λ legal.
      valid_loop c n (suc p) s (if legal then set_bit_on p b else b)

  unfoldable pub is_terminal : GoGame → Option (Bool × GoGame)
  unfolding reset_ca find_full_board_uct_closed_area bit_count valid_loop Bitboard.reset is_empty
      is_two_pass
  is_terminal s = find_full_board_uct_closed_area (reset_ca s) >>= λ t.
      elim (ltb 0 (bit_count t.benson.white_stones)) [
        | true ↦ some (true, t)
        | false ↦ valid_loop black max_num_moves 0 t (Bitboard.reset max_num_moves) >>= λ bs.
            valid_loop white max_num_moves 0 t (Bitboard.reset max_num_moves) >>= λ ws.
            some (is_empty bs && is_empty ws || is_two_pass t, t)
      ]

  -- Whether the player has a legal move among `n` positions from `p` on.
  any_legal : Color → ℕ → ℕ → GoGame → Option Bool
  unfolding is_legal_move
  any_legal c zero p s = some false
  any_legal c (suc n) p s =
      let rest = any_legal c n (suc p) s in
      is_legal_move keys rules (move_at c p) s >>= λ legal. if legal then some true else rest

  unfoldable pub eval : GoGame → Option Color
  unfolding is_two_pass any_legal is_empty
  eval s =
      let by_stones = if is_empty s.stones.white_stones then black else white in
      let by_benson = if is_empty s.benson.white_stones then black else white in
      elim (is_two_pass s) [
        | false ↦ some by_benson
        | true ↦
            any_legal black num_grids 0 s >>= λ legal. some (if legal then white else by_stones)
      ]

  unfoldable pub get_final_score : GoGame → Option Text
  unfolding eval
  get_final_score s = eval s >>= λ c. some ((if eqb c black then b'B' else b'W') ∷ b'+' ∷ b'1' ∷ [])

  -- Each position where the player in turn has no legal move changes the key.
  ko_keys : ℕ → ℕ → GoGame → ℕ → Option ℕ
  unfolding is_legal_move
  ko_keys zero p s k = some k
  ko_keys (suc n) p s k = is_legal_move keys rules (move_at s.turn_color p) s >>= λ legal.
      ko_keys n (suc p) s (if legal then k else bit_xor k (keys.ko_hash p))

  unfoldable pub get_tt_hash_key : GoGame → Option ℕ
  unfolding ko_keys is_two_pass
  get_tt_hash_key s = ko_keys num_grids 0 s s.hash_key >>= λ k.
      some (if is_two_pass s then bit_xor k keys.two_pass else k)

-- The planes of `getFeatures`; true is 1.0 and false is 0.0. `rotated` is not negative on the board.
feature : GoGame → ℕ → ℕ → Bool
feature s channel rotated =
    let n = length s.moves in
    let boards = get_or s.stone_history (n - 1 - channel / 2) no_stones in
    if ltb channel 16
    then (if ltb (n - 1) (channel / 2) || n == 0
        then false
        else if channel % 2 == 0
        then bit_is_on boards.black_stones rotated
        else bit_is_on boards.white_stones rotated)
    else if channel == 16
    then eqb s.turn_color black
    else eqb s.turn_color white

plane : GoGame → SymmetryType → ℕ → ℕ → ℕ → List Bool
unfolding feature get_rotate_position reverse_symmetric_type
plane s type channel zero p = []
plane s type channel (suc n) p =
    feature s channel (pos_part (get_rotate_position p board_size (reverse_symmetric_type type)))
    ∷ plane s type channel n (suc p)

planes : GoGame → SymmetryType → ℕ → ℕ → List Bool
unfolding plane
planes s type zero channel = []
planes s type (suc n) channel = plane s type channel num_grids 0 ++ planes s type n (suc channel)

abbrev pub num_channels : ℕ
num_channels = 18

unfoldable pub get_features : SymmetryType → GoGame → List Bool
unfolding planes
get_features type s = planes s type num_channels 0

-- The checks of `deepCheck`, as a Boolean.
same_stones : Color → List ℕ → GoGame → Bool
same_stones c [] s = true
same_stones c (p ∷ ps) s =
    (if eqb c black
      then bit_is_on s.stones.black_stones p && not (bit_is_on s.stones.white_stones p)
      else bit_is_on s.stones.white_stones p && not (bit_is_on s.stones.black_stones p))
    && eqb (grid_at s p).color c
    && same_stones c ps s

all_free : List ℕ → GoGame → Bool
all_free [] s = true
all_free (p ∷ ps) s =
    not (bit_is_on s.stones.black_stones p)
    && not (bit_is_on s.stones.white_stones p)
    && eqb (grid_at s p).color Color.none
    && all_free ps s

module _ (keys : HashKeys) where
  hash_of : Color → List ℕ → ℕ → ℕ
  hash_of c [] k = k
  hash_of c (p ∷ ps) k = hash_of c ps (bit_xor k (keys.grid_hash p c))

  check_grid : GoGame → ℕ → Bool
  unfolding same_stones all_free hash_of positions
  check_grid s p =
      let g = grid_at s p in
      let black_on = bit_is_on s.stones.black_stones p in
      let white_on = bit_is_on s.stones.white_stones p in
      let block_ok : Bool = elim g.block [
        | none ↦ false
        | some i ↦
            let b = block_at s i in
            same_stones g.color (positions b.grids) s
            && hash_of g.color (positions b.grids) 0 == b.hash_key
            && all_free (positions b.liberties) s
      ] in
      elim g.color [
        | Color.black ↦ black_on && not white_on && block_ok
        | Color.white ↦ white_on && not black_on && block_ok
        | Color.none ↦ not black_on && not white_on && elim g.block [ none ↦ true | some _ ↦ false ]
        | Color.color_size ↦ true
      ]

  check_loop : ℕ → ℕ → GoGame → Bool
  unfolding check_grid
  check_loop zero p s = true
  check_loop (suc n) p s = check_grid s p && check_loop n (suc p) s

  unfoldable pub deep_check : GoGame → Bool
  unfolding check_loop
  deep_check s = check_loop num_grids 0 s
