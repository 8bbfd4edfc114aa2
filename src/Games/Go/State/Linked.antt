-- ===== src/Games/Go/State/Linked.antt =====
-- What holds between the moves: the grids and the blocks of a position belong together.
use proof_cost_network.Base.{ℕ, ◌<◌, ◌≡◌, ◌≢◌, true, false, length, some, ◌⊎◌, In}
use proof_cost_network.Board.Color.{Color, black, white}
use proof_cost_network.Board.Bitboard.{bit_is_on}
use proof_cost_network.Games.Go.Area.{num_grids}
use proof_cost_network.Games.Go.Grid.{get_neighbors}
use proof_cost_network.Games.Go.State.{GoGame, grid_at, block_at}

-- The grid at `q` belongs to the block `i`.
abbrev pub Belongs : GoGame → ℕ → ℕ → Type 0
Belongs s q i = (grid_at s q).block ≡ some i

pub record IsLinked (s : GoGame) : Type 0 where
  pub sized : length s.grids ≡ num_grids
  -- A stone has a block, and a grid with a block has a stone.
  pub has_block : (q : ℕ) → (grid_at s q).color ≢ Color.none → (i : ℕ) × Belongs s q i
  pub has_stone :
      (q i : ℕ) → Belongs s q i → ((grid_at s q).color ≡ black) ⊎ ((grid_at s q).color ≡ white)
  -- The block is in use, has the colour of its stones, and holds exactly the grids that point to it.
  pub index : (q i : ℕ) → Belongs s q i → (block_at s i).index ≡ i
  pub color : (q i : ℕ) → Belongs s q i → (block_at s i).color ≡ (grid_at s q).color
  pub in_use : (q i : ℕ) → Belongs s q i → bit_is_on s.block_usage i ≡ false
  pub holds : (q i : ℕ) → Belongs s q i → bit_is_on (block_at s i).grids q ≡ true
  pub only : (q i : ℕ) → bit_is_on (block_at s i).grids q ≡ true → Belongs s q i
  -- An empty neighbour of a stone is a liberty of its block.
  pub liberty :
      (p q i : ℕ)
      → p < num_grids
      → In (get_neighbors p) q
      → (grid_at s p).color ≡ Color.none
      → Belongs s q i
      → bit_is_on (block_at s i).liberties p ≡ true
