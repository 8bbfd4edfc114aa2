-- ===== src/Games/Go/Legal.antt =====
-- Games/Go.cpp: which moves are legal.
pub mod Influence
use proof_cost_network.Base.{
  ℕ, zero, suc, ◌+◌, ◌-◌, Bool, true, false, not, ◌&&◌, ◌||◌, List, [], ◌∷◌, Option, none, some,
  ◌>>=◌, if◌then◌else◌, ◌==◌, ltb, leb, get_or, length, bit_xor,
}
use proof_cost_network.Base.Text
use proof_cost_network.Base.Text.{Text}
use proof_cost_network.Board.Color.{Color, black, white, eqb, against_color}
use proof_cost_network.Board.Move.{Move, is_pass, to_gtp_string}
use proof_cost_network.Board.Bitboard
use proof_cost_network.Board.Bitboard.{
  Bitboard, bit_is_on, set_bit_on, set_bit_off, one_hot, ◌∪◌, ◌∩◌, ◌∖◌, bit_count, is_empty, equal,
  bit_scan_forward, dilation,
}
use proof_cost_network.Storage.HashTable
use proof_cost_network.Games.Go.Area.{board_size, max_num_moves}
use proof_cost_network.Games.Go.Block.{get_num_liberty, get_num_stone, get_stone_nbr_map}
use proof_cost_network.Games.Go.Grid.{get_neighbors, get_eye_corners}
use proof_cost_network.Games.Go.State.{no_stones, HashKeys, GoGame, grid_at, block_at, stones_of}

-- The settings of GameConfigure that the game reads here.
pub record Rules : Type 0 where
  pub forbidden_own_true_eye : Bool
  pub forbidden_benson_region : Bool
  pub black_forbidden_eat_ko : Bool
  pub white_forbidden_eat_ko : Bool

unfoldable pub is_own_true_eye : Move → GoGame → Bool
unfolding dilation one_hot ◌∖◌ ◌∩◌ equal bit_count get_eye_corners
is_own_true_eye m s =
    let p = m.position in
    let nbr =
      dilation max_num_moves board_size (one_hot max_num_moves p) ∖ one_hot max_num_moves p in
    let corners = get_eye_corners p in
    let stones = stones_of m.color s.stones in
    equal (nbr ∩ stones) nbr
    && (bit_count corners == 4 && leb 3 (bit_count (corners ∩ stones))
        || equal (corners ∩ stones) corners)

unfoldable pub is_last_move_capture_block : GoGame → Bool
unfolding ◌∪◌ bit_count
is_last_move_capture_block s =
    let n = length s.moves in
    let before = get_or s.stone_history (n - 2) no_stones in
    let now = get_or s.stone_history (n - 1) no_stones in
    if leb n 2
    then false
    else leb (bit_count (now.black_stones ∪ now.white_stones))
        (bit_count (before.black_stones ∪ before.white_stones))

-- The two loops of `isEatKoMove`: whether every neighbour is a stone of the opponent, and whether
-- exactly one block is a single stone with a single liberty and no other has one liberty.
all_opponent : Color → GoGame → List ℕ → Bool
all_opponent c s [] = true
all_opponent c s (q ∷ qs) =
    let rest = all_opponent c s qs in
    elim (grid_at s q).block [
      | none ↦ false
      | some i ↦ if not (eqb (block_at s i).color c) then false else rest
    ]

ko_loop : GoGame → List ℕ → Bool → Option Bool
unfolding get_num_liberty get_num_stone
ko_loop s [] found = some found
ko_loop s (q ∷ qs) found = (grid_at s q).block >>= λ i.
    let b = block_at s i in
    let skip = ko_loop s qs found in
    let next = ko_loop s qs true in
    if ltb 1 (get_num_liberty b)
    then skip
    else if ltb 1 (get_num_stone b)
    then some false
    else if found
    then some false
    else next

unfoldable pub is_eat_ko_move : Move → GoGame → Option Bool
unfolding is_pass all_opponent ko_loop is_own_true_eye against_color get_neighbors
is_eat_ko_move m s =
    let nbr = get_neighbors m.position in
    if is_pass board_size m
    then some false
    else if not (all_opponent (against_color m.color) s nbr)
    then some false
    else if is_own_true_eye m s
    then some false
    else ko_loop s nbr false

-- The text that a forced move number asks for.
unfoldable pub forced : ℕ → List (ℕ × Text) → Option Text
forced n [] = none
forced n ((k, t) ∷ rest) = if k == n then some t else forced n rest

unfoldable pub member : ℕ → List ℕ → Bool
member i [] = false
member i (j ∷ js) = i == j || member i js

-- What the loop over the neighbours finds: the key of the stones that die, whether the stone keeps a
-- liberty or takes stones, and the blocks that were met.
pub record Survey : Type 0 where
  pub key : ℕ
  pub legal : Bool
  pub checked : List ℕ

unfoldable pub survey : Color → GoGame → List ℕ → Survey → Option Survey
unfolding member bit_count
survey c s [] r = some r
survey c s (q ∷ qs) r =
    let g = grid_at s q in
    elim (eqb g.color Color.none) [
      | true ↦ survey c s qs (record r { legal = true })
      | false ↦ g.block >>= λ i.
          let b = block_at s i in
          let met = record r { checked = b.index ∷ r.checked } in
          survey c s qs (
            if member b.index r.checked
            then r
            else if eqb g.color c
            then (if ltb 1 (bit_count b.liberties) then record met { legal = true } else met)
            else if bit_count b.liberties == 1
            then record met { key = bit_xor r.key b.hash_key; legal = true }
            else met)
    ]

abbrev pub nothing_met : Survey
nothing_met = record { key = 0; legal = false; checked = [] }

-- The key of the position after the move, by the survey of its neighbours.
abbrev pub key_after : HashKeys → Move → GoGame → Survey → ℕ
key_after keys m s r =
    bit_xor (bit_xor (bit_xor r.key (keys.grid_hash m.position m.color)) s.hash_key) keys.turn

module _ (keys : HashKeys) (rules : Rules) where
  -- The checks of the settings, each of which may forbid the move.
  unfoldable pub is_forbidden : Move → GoGame → Option Bool
  unfolding is_own_true_eye ◌∪◌ is_eat_ko_move
  is_forbidden m s = is_eat_ko_move m s >>= λ ko. some (
      rules.forbidden_own_true_eye && is_own_true_eye m s
      || rules.forbidden_benson_region
        && bit_is_on (s.benson.black_stones ∪ s.benson.white_stones) m.position
      || rules.black_forbidden_eat_ko && eqb m.color black && ko
      || rules.white_forbidden_eat_ko && eqb m.color white && ko)

  -- A move on the board that no force move decides.
  unfoldable pub is_legal_stone : Move → GoGame → Option Bool
  unfolding survey get_neighbors is_forbidden HashTable.lookup
  is_legal_stone m s = elim (eqb (grid_at s m.position).color Color.none) [
    | false ↦ some false
    | true ↦ survey m.color s (get_neighbors m.position) nothing_met >>= λ r.
        is_forbidden m s >>= λ forbidden.
        HashTable.lookup (key_after keys m s r) s.hash_table >>= λ seen.
        some ((if forbidden then false else r.legal) && not seen)
  ]

  unfoldable pub is_legal_move : Move → GoGame → Option Bool
  unfolding forced to_gtp_string Text.equal is_pass is_legal_stone
  is_legal_move m s = elim (forced (length s.moves + 1) s.force_moves) [
    | some text ↦ some (Text.equal (to_gtp_string board_size m) text)
    | none ↦ elim (is_pass board_size m) [ true ↦ some true | false ↦ is_legal_stone m s ]
  ]
