-- ===== src/Games/Go/Block.antt =====
-- Games/Go.h: the class GoBlock, a block of connected stones with its liberties.
use proof_cost_network.Base.{ℕ, Option, [], bit_xor}
use proof_cost_network.Board.Color.{Color}
use proof_cost_network.Board.Bitboard
use proof_cost_network.Board.Bitboard.{
  Bitboard, bit_is_on, set_bit_on, set_bit_off, bit_count, bit_scan_forward, dilation, ◌∪◌, ◌∩◌,
  ◌∖◌,
}
use proof_cost_network.Storage.FeatureIndex
use proof_cost_network.Storage.FeatureIndex.{
  FeatureIndexList, contains, add_feature, remove_feature,
}
use proof_cost_network.Games.Go.Area.{LifeAndDeath, life, max_num_moves, board_size, empty_ids}

pub record GoBlock : Type 0 where
  pub index : ℕ
  pub color : Color
  pub hash_key : ℕ
  pub grids : Bitboard
  pub liberties : Bitboard
  pub closed_areas : FeatureIndexList
  pub status : LifeAndDeath

unfoldable pub clear : GoBlock → GoBlock
unfolding Bitboard.reset FeatureIndex.clear
clear b = record b {
  color = Color.none;
  hash_key = 0;
  grids = Bitboard.reset max_num_moves;
  liberties = Bitboard.reset max_num_moves;
  closed_areas = FeatureIndex.clear max_num_moves b.closed_areas;
  status = life;
}

-- The constructor.
unfoldable pub new_at : ℕ → GoBlock
unfolding clear
new_at i = clear (record {
  index = i;
  color = Color.none;
  hash_key = 0;
  grids = [];
  liberties = [];
  closed_areas = empty_ids max_num_moves;
  status = life;
})

unfoldable pub combine : GoBlock → GoBlock → GoBlock
unfolding ◌∪◌
combine other b = record b {
  hash_key = bit_xor b.hash_key other.hash_key;
  grids = b.grids ∪ other.grids;
  liberties = b.liberties ∪ other.liberties;
}

unfoldable pub add_hash_key : ℕ → GoBlock → GoBlock
add_hash_key k b = record b { hash_key = bit_xor b.hash_key k }

unfoldable pub remove_grid_on_boundary : ℕ → ℕ → GoBlock → GoBlock
unfolding set_bit_off set_bit_on dilation ◌∩◌ add_hash_key
remove_grid_on_boundary p k b =
    let grids = set_bit_off p b.grids in
    add_hash_key k (record b {
      grids = grids;
      liberties = set_bit_on p (b.liberties ∩ dilation max_num_moves board_size grids);
    })

unfoldable pub remove_grids : Bitboard → ℕ → GoBlock → GoBlock
unfolding ◌∖◌ add_hash_key
remove_grids removed k b = add_hash_key k (record b { grids = b.grids ∖ removed })

unfoldable pub get_num_liberty : GoBlock → ℕ
unfolding bit_count
get_num_liberty b = bit_count b.liberties

unfoldable pub get_last_liberty : GoBlock → Option ℕ
unfolding bit_scan_forward
get_last_liberty b = (bit_scan_forward b.liberties).0

unfoldable pub get_num_stone : GoBlock → ℕ
unfolding bit_count
get_num_stone b = bit_count b.grids

unfoldable pub get_stone_nbr_map : GoBlock → Bitboard
unfolding dilation
get_stone_nbr_map b = dilation max_num_moves board_size b.grids

unfoldable pub add_closed_area : ℕ → GoBlock → GoBlock
unfolding add_feature
add_closed_area id b = record b { closed_areas = add_feature id b.closed_areas }

unfoldable pub delete_closed_areas : GoBlock → GoBlock
unfolding FeatureIndex.clear
delete_closed_areas b = record b { closed_areas = FeatureIndex.clear max_num_moves b.closed_areas }
