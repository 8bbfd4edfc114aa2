-- ===== src/Games/Go/Benson/Areas.antt =====
-- Games/Go.cpp, findBensonLife: the count of a block is covered by the areas that are left around it.
use proof_cost_network.Base.{
  ℕ, zero, suc, ◌+◌, ◌-◌, ◌<◌, ◌≤◌, ◌≡◌, refl, sym, ◌∙◌, ap, subst, Bool, true, false, not, ◌&&◌,
  ◌==◌, List, [], ◌∷◌, none, some, arith, inl, inr, ltb, leb, Bool-cases, Option-cases, true≢false,
  none≢some, get_or, set, get_or-set_cases, if◌then◌else◌, >>=-eq-some, some_inj,
}
use proof_cost_network.Storage.FeatureIndex.{FeatureIndexList, contains, remove_feature}
use proof_cost_network.Storage.FeatureIndex.Laws.{IsValid, remove_feature-Removes}
use proof_cost_network.Games.Go.Block.{GoBlock}
use proof_cost_network.Games.Go.State.{GoGame, block_at}
use proof_cost_network.Games.Go.Benson.{
  Benson, area_at, lower_loop, drop_areas, pass_loop, life_loop, find_benson_life,
}

lowered_self : (xs : List ℕ) (i : ℕ) → get_or (set xs i (get_or xs i 0 - 1)) i 0 ≡ get_or xs i 0 - 1
lowered_self [] i = omega arith
lowered_self (x ∷ xs) zero = refl
lowered_self (x ∷ xs) (suc i) = lowered_self xs i

-- One count is lowered, and the others stay.
lowered_le : (xs : List ℕ) (i id : ℕ) → get_or (set xs i (get_or xs i 0 - 1)) id 0 ≤ get_or xs id 0
lowered_le xs i id = elim (get_or-set_cases xs i id (get_or xs i 0 - 1) 0) [
  | inl (e, h) ↦
      let same : get_or xs i 0 ≡ get_or xs id 0 = ap (λ j. get_or xs j 0) e in
      omega (arith, h, same)
  | inr h ↦ omega (arith, h)
]

lower_loop-le :
    (n i : ℕ) (ids : FeatureIndexList) (counts : List ℕ) (id : ℕ)
    → get_or (lower_loop n i ids counts) id 0 ≤ get_or counts id 0
unfolding lower_loop
lower_loop-le zero i ids counts id = omega arith
lower_loop-le (suc n) i ids counts id =
    let at = get_or ids.feature_index i 0 in
    omega (
      arith,
      lower_loop-le n (suc i) ids (set counts at (get_or counts at 0 - 1)) id,
      lowered_le counts at id,
    )

-- The count of a block that is listed is lowered.
lower_loop-listed :
    (n i : ℕ) (ids : FeatureIndexList) (counts : List ℕ) (id k : ℕ)
    → i ≤ k
    → k < i + n
    → get_or ids.feature_index k 0 ≡ id
    → get_or (lower_loop n i ids counts) id 0 ≤ get_or counts id 0 - 1
unfolding lower_loop
lower_loop-listed zero i ids counts id k lo hi e = absurd (omega (arith, lo, hi))
lower_loop-listed (suc n) i ids counts id k lo hi e =
    let at = get_or ids.feature_index i 0 in
    let lowered = set counts at (get_or counts at 0 - 1) in
    elim (Bool-cases (i == k)) [
      | inl here ↦
          let i≡k : i ≡ k = ground (arith, here) in
          let same : at ≡ id = ap (λ j. get_or ids.feature_index j 0) i≡k ∙ e in
          let less : get_or lowered id 0 ≡ get_or counts id 0 - 1 =
            subst (λ j. get_or (set counts j (get_or counts j 0 - 1)) id 0 ≡ get_or counts id 0 - 1)
              (sym same) (lowered_self counts id) in
          omega (arith, lower_loop-le n (suc i) ids lowered id, less)
      | inr later ↦
          let rest =
            lower_loop-listed n (suc i) ids lowered id k (ground (arith, later, lo))
              (omega (arith, hi)) e in
          omega (arith, rest, lowered_le counts at id)
    ]

areas_step :
    (a n many few : ℕ) (here left touched y : Bool)
    → left ≡ (not (a == n) && here)
    → many ≤ few + (if leb (suc a) n && y then 1 else 0)
    → (a ≡ n → touched ≡ y)
    → (if here && touched then 1 else 0) + many
      ≤ (if left && touched then 1 else 0) + few + (if leb (suc a) (suc n) && y then 1 else 0)
areas_step a n many few here left touched y e rest same = elim (Bool-cases (a == n)) [
  | inl at ↦
      let eq : a ≡ n = ground (arith, at) in let both = same eq in ground (arith, e, rest, both, eq)
  | inr off ↦ ground (arith, e, rest, off)
]

module _ (s : GoGame) where
  abbrev pub touches : ℕ → ℕ → Bool
  touches j id = contains (area_at s j).block_ids id

  -- How many of the areas below `n` that are left touch the block.
  unfoldable pub num_areas : ℕ → FeatureIndexList → ℕ → ℕ
  num_areas zero areas id = 0
  num_areas (suc n) areas id =
      (if contains areas n && touches n id then 1 else 0) + num_areas n areas id

  -- An area that is removed is counted once, at the blocks that it touches.
  num_areas-removed :
      (n a id : ℕ) (areas t : FeatureIndexList)
      → ((j : ℕ) → contains t j ≡ (not (a == j) && contains areas j))
      → num_areas n areas id ≤ num_areas n t id + (if leb (suc a) n && touches a id then 1 else 0)
  unfolding num_areas
  num_areas-removed zero a id areas t held = omega arith
  num_areas-removed (suc n) a id areas t held =
      let rest = num_areas-removed n a id areas t held in
      areas_step a n _ _ _ _ _ (touches a id) (held n) rest (λ e. ap (λ j. touches j id) (sym e))

  module _ (max_size max_area max_blocks max_block : ℕ) where
    -- The areas that are left are areas of the list, with lists of the blocks around them, and no count
    -- of a block is above the number of the areas that are left around it.
    pub record Covers (benson : Benson) : Type 0 where
      pub valid : IsValid max_size max_area benson.area_ids
      pub around :
          (j : ℕ)
          → contains benson.area_ids j ≡ true
          → IsValid max_blocks max_block (area_at s j).block_ids
      pub counted :
          (id : ℕ) → get_or benson.num_healthy id 0 ≤ num_areas (suc max_area) benson.area_ids id

    still : (a b : Bool) → (not a && b) ≡ true → b ≡ true
    still a b h = ground (arith, h)

    listed_at :
        (ids : FeatureIndexList) (id : ℕ)
        → IsValid max_blocks max_block ids
        → contains ids id ≡ true
        → (k : ℕ) × (k < ids.n_feature) × (get_or ids.feature_index k 0 ≡ id)
    unfolding contains
    listed_at ids id valid held = elim (Option-cases (get_or ids.index id none)) [
      | inl gone ↦ absurd (true≢false (sym (rw gone at held)))
      | inr (k, at) ↦ let (inside, same) = valid.used id k at in (k, inside, same)
    ]

    -- An area that is taken away with the counts of its blocks.
    drop_area-Covers :
        (a : ℕ) (benson : Benson) (t : FeatureIndexList)
        → Covers benson
        → contains benson.area_ids a ≡ true
        → remove_feature a benson.area_ids ≡ some t
        → Covers (record benson {
          area_ids = t;
          num_healthy =
              lower_loop
                (area_at s a).block_ids.n_feature
                0
                (area_at s a).block_ids
                benson.num_healthy;
        })
    drop_area-Covers a benson t covers here removed =
        let (t', removed', valid', held', _) = remove_feature-Removes covers.valid a here in
        let same : t' ≡ t = some_inj (sym removed' ∙ removed) in
        let valid = subst (IsValid max_size max_area) same valid' in
        let held : (j : ℕ) → contains t j ≡ (not (a == j) && contains benson.area_ids j) = λ j.
          subst (λ x. contains x j ≡ (not (a == j) && contains benson.area_ids j)) same (held' j) in
        let ids = (area_at s a).block_ids in
        record {
          valid = valid;
          around = λ j left. covers.around j (still (a == j) _ (sym (held j) ∙ left));
          counted = λ id.
              let fewer = num_areas-removed (suc max_area) a id benson.area_ids t held in
              let le = lower_loop-le ids.n_feature 0 ids benson.num_healthy id in
              let before = covers.counted id in
              elim (Bool-cases (contains ids id)) [
                | inr apart ↦ ground (arith, fewer, le, before, apart)
                | inl near ↦
                    let (k, inside, at) = listed_at ids id (covers.around a here) near in
                    let less =
                      lower_loop-listed ids.n_feature 0 ids benson.num_healthy id k (omega arith)
                        (omega (arith, inside)) at in
                    ground (arith, fewer, less, before, near)
              ];
        }

    drop_areas-Covers :
        (n i : ℕ) (b : GoBlock) (benson r : Benson)
        → Covers benson
        → drop_areas n i b s benson ≡ some r
        → Covers r
    unfolding drop_areas
    drop_areas-Covers zero i b benson r covers e = subst Covers (some_inj e) covers
    drop_areas-Covers (suc n) i b benson r covers e =
        let id = get_or b.closed_areas.feature_index i 0 in
        elim (Bool-cases (contains benson.area_ids id)) [
          | inr gone ↦ drop_areas-Covers n (suc i) b benson r covers (rw (gone, drop_areas) at e)
          | inl here ↦
              let (t, removed, rest) = >>=-eq-some _ _ (rw (here, drop_areas) at e) in
              drop_areas-Covers n (suc i) b _ r (drop_area-Covers id benson t covers here removed)
                rest
        ]

    -- Dropping a block says nothing of the areas.
    forget-Covers :
        (benson : Benson) (ids : FeatureIndexList)
        → Covers benson
        → Covers (record benson { block_ids = ids })
    forget-Covers benson ids covers = record {
      valid = covers.valid;
      around = covers.around;
      counted = covers.counted;
    }

    pass_loop-Covers :
        (fuel i : ℕ) (over : Bool) (benson : Benson) (r : Bool × Benson)
        → Covers benson
        → pass_loop fuel i s over benson ≡ some r
        → Covers r.1
    unfolding pass_loop
    pass_loop-Covers zero i over benson r covers e = absurd (none≢some e)
    pass_loop-Covers (suc fuel) i over benson r covers e =
        elim (Bool-cases (ltb i benson.block_ids.n_feature)) [
          | inr done ↦ subst (λ x. Covers x.1) (some_inj (rw (done, pass_loop) at e)) covers
          | inl more ↦
              let b = block_at s (get_or benson.block_ids.feature_index i 0) in
              elim (Bool-cases (leb 2 (get_or benson.num_healthy b.index 0))) [
                | inl healthy ↦
                    pass_loop-Covers fuel (suc i) over benson r covers
                      (rw (more, healthy, pass_loop) at e)
                | inr ill ↦
                    let (t, _, rest) =
                      >>=-eq-some (remove_feature b.index benson.block_ids) _
                        (rw (more, ill, pass_loop) at e) in
                    let (d, dropped, last) =
                      >>=-eq-some
                        (drop_areas b.closed_areas.n_feature 0 b s
                          (record benson { block_ids = t }))
                        (pass_loop fuel (suc i) s false) rest in
                    pass_loop-Covers fuel (suc i) false d r
                      (drop_areas-Covers b.closed_areas.n_feature 0 b
                        (record benson { block_ids = t }) d (forget-Covers benson t covers) dropped)
                      last
              ]
        ]

    life_loop-Covers :
        (fuel : ℕ) (benson r : Benson) → Covers benson → life_loop fuel s benson ≡ some r → Covers r
    unfolding life_loop
    life_loop-Covers zero benson r covers e = absurd (none≢some e)
    life_loop-Covers (suc fuel) benson r covers e =
        let (p, passed, rest) =
          >>=-eq-some (pass_loop (suc benson.block_ids.n_feature) 0 s true benson) _ e in
        let after =
          pass_loop-Covers (suc benson.block_ids.n_feature) 0 true benson p covers passed in
        elim (Bool-cases p.0) [
          | inl over ↦ subst Covers (some_inj (rw over at rest)) after
          | inr again ↦ life_loop-Covers fuel p.1 r after (rw again at rest)
        ]

    -- No count exceeds the areas at the end, if none does at the start.
    pub find_benson_life-Covers :
        (benson r : Benson) → Covers benson → find_benson_life s benson ≡ some r → Covers r
    unfolding find_benson_life
    find_benson_life-Covers benson r covers e =
        life_loop-Covers (suc benson.block_ids.n_feature) benson r covers e
