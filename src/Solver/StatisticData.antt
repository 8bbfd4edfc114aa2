-- ===== src/Solver/StatisticData.antt =====
-- MiniZero/StatisticData.h: a mean with the weight behind it. The spin lock around the changes is
-- left out, as each operation is one step here.
use proof_cost_network.Base.{Bool, not, if◌then◌else◌}
use proof_cost_network.Solver.Double.{Double}

module _ (double : Double) where
  open double use {D, zero}

  pub record StatisticData : Type 0 where
    pub mean : D
    pub count : D

  unfoldable pub reset : D → D → StatisticData → StatisticData
  reset mean count s = record { mean = mean; count = count }

  -- `a <= 0` for numbers that are no NaN.
  abbrev pub is_not_positive : D → Bool
  is_not_positive a = not (double.ltb zero a)

  unfoldable pub add : D → D → StatisticData → StatisticData
  unfolding reset
  add val weight s =
      let count = double.add s.count weight in
      if is_not_positive (double.add weight s.count) then reset zero zero s else record {
        mean = double.add s.mean (double.div (double.mul weight (double.sub val s.mean)) count);
        count = count;
      }

  unfoldable pub add_data : StatisticData → StatisticData → StatisticData
  unfolding add
  add_data other s = add other.mean other.count s

  unfoldable pub remove : D → D → StatisticData → StatisticData
  unfolding reset
  remove val weight s =
      let count = double.sub s.count weight in
      if is_not_positive (double.sub s.count weight) then reset zero zero s else record {
        mean = double.add s.mean (double.div (double.mul weight (double.sub s.mean val)) count);
        count = count;
      }

  unfoldable pub remove_data : StatisticData → StatisticData → StatisticData
  unfolding remove
  remove_data other s = remove other.mean other.count s

  unfoldable pub get_mean : StatisticData → D
  get_mean s = s.mean

  unfoldable pub get_count : StatisticData → D
  get_count s = s.count
