-- ===== src/Examples/Capture.antt =====
-- A position with a stone at `a1` that has one liberty, and the move that takes it.
use proof_cost_network.Base.{
  ℕ, ◌+◌, ◌*◌, ◌≡◌, refl, true, false, List, [], ◌∷◌, some, arith, replicate, set, ◌↔◌, ◌⊎◌, inl,
}
use proof_cost_network.Board.Color
use proof_cost_network.Board.Color.{Color, black, white}
use proof_cost_network.Board.Move.{Move}
use proof_cost_network.Board.Bitboard.{Bitboard, bit_scan_forward}
use proof_cost_network.Storage.HashTable
use proof_cost_network.Storage.HashTable.{HashTable}
use proof_cost_network.Storage.HashTable.Laws as Table
use proof_cost_network.Games.Go.Area.{max_num_moves}
use proof_cost_network.Games.Go.Block.{GoBlock}
use proof_cost_network.Games.Go.Grid.{get_neighbors}
use proof_cost_network.Games.Go.State.{HashKeys, GoGame, blank_grid, blank_block, initialize}
use proof_cost_network.Games.Go.State.Linked.{IsLinked}
use proof_cost_network.Games.Go.State.Check.{links_ok, links_ok-IsLinked}
use proof_cost_network.Games.Go.Legal.{
  Rules, Survey, survey, nothing_met, key_after, is_legal_stone,
}
use proof_cost_network.Games.Go.Play.{play}
use proof_cost_network.Games.Go.Play.SuperKo.{play-Predicts, is_legal_stone-IsNew}

abbrev keys : HashKeys
keys = record {
  grid_hash = λ p c. 4 * p + Color.to_int c;
  ko_hash = λ p. 512 + p;
  two_pass = 1024;
  turn = 0;
}

abbrev rules : Rules
rules = record {
  forbidden_own_true_eye = false;
  forbidden_benson_region = false;
  black_forbidden_eat_ko = false;
  white_forbidden_eat_ko = false;
}

abbrev board_of : List ℕ → Bitboard
board_of [] = replicate max_num_moves false
board_of (p ∷ ps) = set (board_of ps) p true

abbrev stone_block : ℕ → Color → ℕ → List ℕ → GoBlock
stone_block i c p liberties = record blank_block {
  index = i;
  color = c;
  hash_key = keys.grid_hash p c;
  grids = board_of (p ∷ []);
  liberties = board_of liberties;
}

-- White stands at 0 and black at 9, on a board of 9 columns; black plays at 1.
abbrev position : GoGame
position =
    let s = initialize [] (HashTable.new 0 2) in
    record s {
      hash_key = 2 + 37;
      grids =
          set (set s.grids 0 (record blank_grid { color = white; block = some 0 })) 9
            (record blank_grid { color = black; block = some 1 });
      blocks =
          set (set s.blocks 0 (stone_block 0 white 0 (1 ∷ []))) 1
            (stone_block 1 black 9 (10 ∷ 18 ∷ []));
      block_usage = set (set s.block_usage 0 false) 1 false;
      stones = record { black_stones = board_of (9 ∷ []); white_stones = board_of (0 ∷ []) };
    }

abbrev taking : Move
taking = record { color = black; position = 1 }

position-IsLinked : IsLinked position
unfolding links_ok initialize get_neighbors
position-IsLinked = links_ok-IsLinked position refl

position-IsValid : Table.IsValid position.hash_table
unfolding initialize HashTable.new
position-IsValid = (Table.new-IsValid 0 2).0

position-HasRoom : Table.HasRoom position.hash_table
unfolding initialize HashTable.new
position-HasRoom = (0, omega arith, (Table.new-IsValid 0 2).1 0)

play-Predicts_example :
    (r : Survey) × (survey black position (get_neighbors 1) nothing_met ≡ some r)
    × (t : GoGame) × (play keys taking position ≡ some t)
    × (t.hash_key ≡ key_after keys taking position r)
    × ((k : ℕ)
        → Table.Contains t.hash_table k ↔ ((t.hash_key ≡ k) ⊎ Table.Contains position.hash_table k))
unfolding initialize bit_scan_forward
play-Predicts_example =
    play-Predicts keys taking position position-IsLinked (inl refl) (omega arith) refl
      (2, refl, omega arith) position-IsValid position-HasRoom

allowed : is_legal_stone keys rules taking position ≡ some true
unfolding initialize is_legal_stone HashTable.new
allowed = refl

is_legal_stone-IsNew_example :
    (t : GoGame) × (play keys taking position ≡ some t)
    × (¬ Table.Contains position.hash_table t.hash_key)
    × Table.Contains t.hash_table t.hash_key
unfolding initialize bit_scan_forward
is_legal_stone-IsNew_example =
    is_legal_stone-IsNew keys taking position position-IsLinked (inl refl) (omega arith) refl
      (2, refl, omega arith) position-IsValid position-HasRoom rules allowed
