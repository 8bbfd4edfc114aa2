-- ===== src/Solver/BaseMcts/Values.antt =====
-- MiniZero/TreeNode.h and MiniZero/BaseMCTS.cpp: the values that the selection compares.
use proof_cost_network.Base.{
  ℕ, ◌+◌, ◌-◌, ◌/◌, ◌==◌, Bool, true, false, not, ◌||◌, List, [], ◌∷◌, Option, none, some,
  if◌then◌else◌,
}
use proof_cost_network.Board.Color.{Color, eqb}
use proof_cost_network.Solver.Double.{Double}
use proof_cost_network.Solver.StatisticData
use proof_cost_network.Solver.StatisticData.{StatisticData}
use proof_cost_network.Solver.TreeNode.{TreeNode, has_children}

-- The settings of Configure that the search reads. One of the two targets of the network is chosen.
pub record Settings (double : Double) : Type 0 where
  pub use_net : Bool
  pub use_noise_at_root : Bool
  pub net_value_winloss : Bool
  pub proof_color : Color
  pub puct_bias : double.D
  pub q_weight : double.D
  pub branching_factor : ℕ
  pub simulation_count : ℕ
  pub select_by_count_proportion : Bool
  pub noise_epsilon : double.D

-- The functions of <cmath>, the quotient of integers as the compiler takes it, and 0.5.
pub record Functions (double : Double) : Type 0 where
  pub sqrt : double.D → double.D
  pub log : double.D → double.D
  pub half : double.D

-- `map<double, int>`, in the order of its keys.
abbrev pub ValueMap : Double → Type 0
ValueMap double = List (double.D × ℕ)

module _ (double : Double) where
  open double use {D}

  abbrev pub minus_one : D
  minus_one = double.neg double.one

  unfoldable pub get_sim_count : TreeNode double → ℕ
  unfolding StatisticData.get_count
  get_sim_count n = double.trunc (StatisticData.get_count double n.uct_data)

  abbrev last_key : D → ValueMap double → D
  last_key d [] = d
  last_key d ((k, _) ∷ rest) = last_key k rest

  -- `none` is the failed assertion on an empty map.
  unfoldable pub get_normalized_value_q :
      Functions double → ValueMap double → TreeNode double → Option D
  unfolding StatisticData.get_mean StatisticData.get_count
  get_normalized_value_q f [] n = none
  get_normalized_value_q f ((lower, _) ∷ rest) n =
      let upper = last_key lower rest in
      let distance = double.sub upper lower in
      let scaled =
        if double.eqb distance double.zero
          || double.eqb (StatisticData.get_count double n.uct_data) double.zero
        then f.half
        else double.div (double.sub (StatisticData.get_mean double n.uct_data) lower)
            (double.sub upper lower) in
      let two = double.of_nat 2 in
      let value = double.sub (double.mul two scaled) double.one in
      some (double.fmin (double.fmax value minus_one) double.one)

  abbrev pub is_empty_map : ValueMap double → Bool
  is_empty_map [] = true
  is_empty_map (_ ∷ _) = false

  unfoldable pub get_puct_value_q :
      Functions double → Settings double → ValueMap double → D → Color → TreeNode double → D
  unfolding get_sim_count get_normalized_value_q StatisticData.get_mean
  get_puct_value_q f cfg values init root_turn n =
      if cfg.net_value_winloss
      then (if get_sim_count n == 0 then init else StatisticData.get_mean double n.uct_data)
      else elim (get_normalized_value_q f values n) [
        | none ↦ init
        | some value ↦
            let flips =
              eqb n.move.color
                (if eqb cfg.proof_color Color.none then root_turn else cfg.proof_color) in
            if get_sim_count n == 0 then init else if flips then double.neg value else value
      ]

  -- A key that the map has loses one, and is erased at 0.
  unfoldable pub count_down : D → ValueMap double → ValueMap double
  count_down old [] = []
  count_down old ((k, n) ∷ rest) =
      if double.eqb k old
      then (if n == 1 then rest else (k, n - 1) ∷ rest)
      else (k, n) ∷ count_down old rest

  unfoldable pub count_up : D → ValueMap double → ValueMap double
  count_up v [] = (v, 1) ∷ []
  count_up v ((k, n) ∷ rest) =
      if double.eqb k v
      then (k, n + 1) ∷ rest
      else if double.ltb v k
      then (v, 1) ∷ (k, n) ∷ rest
      else (k, n) ∷ count_up v rest

  unfoldable pub update_value_map : D → D → ValueMap double → ValueMap double
  unfolding count_down count_up
  update_value_map old new values = count_up new (count_down old values)

module _ (double : Double) (f : Functions double) (cfg : Settings double) where
  open double use {D}

  -- The children that were simulated: the sum of their values, and how many they are.
  init_q_loop : Color → ValueMap double → List (TreeNode double) → D × D → D × D
  unfolding has_children get_puct_value_q
  init_q_loop root_turn values [] sums = sums
  init_q_loop root_turn values (n ∷ children) sums = init_q_loop root_turn values children (
      if not (has_children double n) then sums else (
        double.add sums.0 (get_puct_value_q double f cfg values (minus_one double) root_turn n),
        double.add sums.1 double.one,
      ))

  unfoldable pub calculate_init_q_value : Color → ValueMap double → List (TreeNode double) → D
  unfolding init_q_loop
  calculate_init_q_value root_turn values children =
      let sums = init_q_loop root_turn values children (double.zero, double.zero) in
      double.div (double.sub sums.0 double.one) (double.add sums.1 double.one)

  -- The quotient in the bias is one of integers.
  unfoldable pub calculate_move_score : Color → ValueMap double → ℕ → D → TreeNode double → D
  unfolding get_sim_count get_puct_value_q
  calculate_move_score root_turn values parent_sim init_q n =
      let visits = double.of_nat (1 + get_sim_count double n) in
      let plain =
        double.mul (f.sqrt (double.of_nat 2))
          (f.sqrt (double.div (f.log (double.of_nat parent_sim)) visits)) in
      let pa = if cfg.use_noise_at_root then n.probability_with_noise else n.probability in
      let bias =
        double.add (f.log (double.of_nat ((1 + parent_sim + 19652) / 19652))) cfg.puct_bias in
      let bias' = if double.eqb cfg.puct_bias double.zero then double.zero else bias in
      let u =
        if cfg.use_net
        then double.div (double.mul (double.mul bias' pa) (f.sqrt (double.of_nat parent_sim)))
            visits
        else plain in
      let q = get_puct_value_q double f cfg values init_q root_turn n in
      double.add u (double.mul cfg.q_weight q)
