-- ===== src/Games/Go/Benson/Life.antt =====
-- Games/Go.cpp, findBensonLife: the passes end, and the blocks that are left keep two healthy areas.
use proof_cost_network.Base.{
  ℕ, zero, suc, ◌+◌, ◌-◌, ◌≤◌, ◌<◌, ◌≡◌, refl, sym, ◌∙◌, ap, subst, Bool, true, false, not, ◌&&◌,
  ◌==◌, Option, none, some, arith, ◌⊎◌, inl, inr, ltb, leb, ltb→lt, ltb→le, Bool-cases,
  Option-cases, true≢false, get_or, set,
}
use proof_cost_network.Storage.FeatureIndex.{FeatureIndexList, contains, remove_feature}
use proof_cost_network.Storage.FeatureIndex.Laws.{IsValid, remove_feature-Removes}
use proof_cost_network.Games.Go.Block.{GoBlock}
use proof_cost_network.Games.Go.State.{GoGame, block_at}
use proof_cost_network.Games.Go.Benson.Areas.{num_areas, Covers, find_benson_life-Covers}
use proof_cost_network.Games.Go.Benson.{
  Benson, area_at, lower_loop, drop_areas, pass_loop, life_loop, find_benson_life,
}

abbrev removed_at : FeatureIndexList → ℕ → ℕ → FeatureIndexList
removed_at f id i =
    let n = f.n_feature - 1 in
    let last = get_or f.feature_index n 0 in
    record {
      n_feature = n;
      feature_index = set f.feature_index i last;
      index = set (set f.index last (some i)) id none;
    }

remove_feature-some :
    (id : ℕ) (f : FeatureIndexList)
    → contains f id ≡ true
    → (t : FeatureIndexList) × (remove_feature id f ≡ some t)
unfolding contains remove_feature
remove_feature-some id f h = elim (Option-cases (get_or f.index id none)) [
  | inl gone ↦ absurd (true≢false (sym (rw gone at h)))
  | inr (i, here) ↦ (removed_at f id i, rw (here, remove_feature) refl)
]

module _ (s : GoGame) where
  -- The ids are those of blocks that carry them.
  pub record Ok (max_size max_id : ℕ) (ids : FeatureIndexList) : Type 0 where
    pub valid : IsValid max_size max_id ids
    pub named : (id : ℕ) → contains ids id ≡ true → (block_at s id).index ≡ id

  drop_areas-returns :
      (n i : ℕ) (b : GoBlock) (benson : Benson)
      → (r : Benson) × (drop_areas n i b s benson ≡ some r) × (r.block_ids ≡ benson.block_ids)
  unfolding drop_areas
  drop_areas-returns zero i b benson = (benson, refl, refl)
  drop_areas-returns (suc n) i b benson =
      let id = get_or b.closed_areas.feature_index i 0 in
      elim (Bool-cases (contains benson.area_ids id)) [
        | inr gone ↦
            let (r, e, same) = drop_areas-returns n (suc i) b benson in
            (r, rw (gone, drop_areas) e, same)
        | inl here ↦
            let (t, removed) = remove_feature-some id benson.area_ids here in
            let ids = (area_at s id).block_ids in
            let (r, e, same) = drop_areas-returns n (suc i) b (record benson {
              area_ids = t;
              num_healthy = lower_loop ids.n_feature 0 ids benson.num_healthy;
            }) in
            (r, rw (here, drop_areas) (rw removed e), same)
      ]

  module _ (max_size max_id : ℕ) where
    abbrev Kept : Benson → Benson → Type 0
    Kept benson r =
        Ok max_size max_id r.block_ids
        × ((id : ℕ) → contains r.block_ids id ≡ true → contains benson.block_ids id ≡ true)

    abbrev id_at : Benson → ℕ → ℕ
    id_at benson k = get_or benson.block_ids.feature_index k 0

    listed-contains :
        (benson : Benson) (k : ℕ)
        → Ok max_size max_id benson.block_ids
        → k < benson.block_ids.n_feature
        → contains benson.block_ids (id_at benson k) ≡ true
    unfolding contains
    listed-contains benson k ok h = rw (ok.valid.listed k h) refl

    abbrev Passes : ℕ → Bool → Benson → Bool × Benson → Type 0
    Passes i over benson r =
        Kept benson r.1
        × (r.1.block_ids.n_feature ≤ benson.block_ids.n_feature)
        × (r.0 ≡ true
            → (over ≡ true)
              × (r.1 ≡ benson)
              × ((k : ℕ)
                  → i ≤ k
                  → k < benson.block_ids.n_feature
                  → 2 ≤ get_or benson.num_healthy (id_at benson k) 0))
        × (r.0 ≡ false → (over ≡ false) ⊎ (r.1.block_ids.n_feature < benson.block_ids.n_feature))

    -- The block at `i` is dropped.
    drop_step :
        (i : ℕ) (benson : Benson)
        → Ok max_size max_id benson.block_ids
        → i < benson.block_ids.n_feature
        → let b = block_at s (id_at benson i) in
          (t : FeatureIndexList) × (d : Benson) × (remove_feature b.index benson.block_ids ≡ some t)
          × (drop_areas b.closed_areas.n_feature 0 b s (record benson { block_ids = t }) ≡ some d)
          × Kept benson d
          × (d.block_ids.n_feature + 1 ≡ benson.block_ids.n_feature)
    drop_step i benson ok h =
        let id = id_at benson i in
        let b = block_at s id in
        let here = listed-contains benson i ok h in
        let (t, removed, valid, held, fewer) = remove_feature-Removes ok.valid id here in
        let (d, dropped, same) =
          drop_areas-returns b.closed_areas.n_feature 0 b (record benson { block_ids = t }) in
        let before : (j : ℕ) → contains t j ≡ true → contains benson.block_ids j ≡ true =
          λ j hj. second (not (id == j)) _ (sym (held j) ∙ hj) in
        let ok' : Ok max_size max_id t = record {
          valid = valid;
          named = λ j hj. ok.named j (before j hj);
        } in
        (
          t,
          d,
          ap (λ k. remove_feature k benson.block_ids) (ok.named id here) ∙ removed,
          dropped,
          (subst (Ok max_size max_id) (sym same) ok', λ j hj. before j (rw same at hj)),
          rw same fewer,
        )
      where
        second : (a b : Bool) → (a && b) ≡ true → b ≡ true
        second a b h = ground (arith, h)

    at_or_above : (i k : ℕ) → i ≤ k → (suc i ≤ k) ⊎ (i ≡ k)
    at_or_above i k h = omega (arith, h)

    two_healthy : (n : ℕ) → leb 2 n ≡ true → 2 ≤ n
    two_healthy n h = ground (arith, h)

    pass_loop-ends :
        (fuel i : ℕ) (over : Bool) (benson : Benson)
        → Ok max_size max_id benson.block_ids
        → 0 < fuel
        → benson.block_ids.n_feature < fuel + i
        → (r : Bool × Benson) × (pass_loop fuel i s over benson ≡ some r) × Passes i over benson r
    unfolding pass_loop
    pass_loop-ends zero i over benson ok some_fuel room = absurd (omega (arith, some_fuel))
    pass_loop-ends (suc fuel) i over benson ok some_fuel room =
        elim (Bool-cases (ltb i benson.block_ids.n_feature)) [
          | inr done ↦ (
            (over, benson),
            rw (done, pass_loop) refl,
            (
              (ok, λ id h. h),
              omega arith,
              λ h. (h, refl, λ k lo hi. absurd (omega (arith, ltb→le i _ done, lo, hi))),
              λ h. inl h,
            ),
          )
          | inl more ↦
              let here = ltb→lt i _ more in
              let name = ok.named _ (listed-contains benson i ok here) in
              let left : 0 < fuel = omega (arith, here, room) in
              elim (Bool-cases
                (leb 2 (get_or benson.num_healthy (block_at s (id_at benson i)).index 0))) [
                  | inl healthy ↦
                      let (r, e, (kept, le, ends, goes)) =
                        pass_loop-ends fuel (suc i) over benson ok left (omega (arith, room)) in
                      (
                        r,
                        rw (more, pass_loop) (rw healthy e),
                        (
                          kept,
                          le,
                          λ h. (
                            (ends h).0,
                            (ends h).1,
                            λ k lo hi. elim (at_or_above i k lo) [
                              | inl above ↦ (ends h).2 k above hi
                              | inr at ↦
                                  subst (λ j. 2 ≤ get_or benson.num_healthy (id_at benson j) 0) at
                                    (subst (λ j. 2 ≤ get_or benson.num_healthy j 0) name
                                      (two_healthy _ healthy))
                            ],
                          ),
                          goes,
                        ),
                      )
                  | inr ill ↦
                      let (t, d, removed, dropped, kept_d, fewer) = drop_step i benson ok here in
                      let (r, e, (kept, le, ends, goes)) =
                        pass_loop-ends fuel (suc i) false d kept_d.0 left
                          (omega (arith, room, fewer)) in
                      (
                        r,
                        rw (more, pass_loop) (rw ill (rw removed (rw dropped e))),
                        (
                          (kept.0, λ id h. kept_d.1 id (kept.1 id h)),
                          omega (arith, le, fewer),
                          λ h. absurd (true≢false (sym (ends h).0)),
                          λ h. inr (omega (arith, le, fewer)),
                        ),
                      )
                ]
        ]

    abbrev Lives : Benson → Type 0
    Lives r = (id : ℕ) → contains r.block_ids id ≡ true → 2 ≤ get_or r.num_healthy id 0

    all-Lives :
        (r : Benson)
        → IsValid max_size max_id r.block_ids
        → ((k : ℕ) → k < r.block_ids.n_feature → 2 ≤ get_or r.num_healthy (id_at r k) 0)
        → Lives r
    unfolding contains
    all-Lives r valid each id held = elim (Option-cases (get_or r.block_ids.index id none)) [
      | inl gone ↦ absurd (true≢false (sym (rw gone at held)))
      | inr (k, at) ↦
          let (less, same) = valid.used id k at in
          subst (λ j. 2 ≤ get_or r.num_healthy j 0) same (each k less)
    ]

    abbrev Ends : Option Benson → Benson → Type 0
    Ends o benson = (r : Benson) × (o ≡ some r) × Kept benson r × Lives r

    life_step :
        (fuel : ℕ) (benson : Benson) (over : Bool) (d : Benson)
        → IsValid max_size max_id benson.block_ids
        → pass_loop (suc benson.block_ids.n_feature) 0 s true benson ≡ some (over, d)
        → Passes 0 true benson (over, d)
        → (d.block_ids.n_feature < benson.block_ids.n_feature → Ends (life_loop fuel s d) d)
        → Ends (life_loop (suc fuel) s benson) benson
    unfolding life_loop
    life_step fuel benson true d valid e (kept, le, ends, goes) rest =
        let (_, same, each) = ends refl in
        let lives = all-Lives benson valid (λ k. each k (omega arith)) in
        (d, rw (e, life_loop) refl, kept, subst Lives (sym same) lives)
    life_step fuel benson false d valid e (kept, le, ends, goes) rest =
        let (r, e', kept', lives) = rest (ground (arith, goes refl)) in
        (r, rw (e, life_loop) e', (kept'.0, λ id held. kept.1 id (kept'.1 id held)), lives)

    life_loop-Ends :
        (fuel : ℕ) (benson : Benson)
        → Ok max_size max_id benson.block_ids
        → benson.block_ids.n_feature < fuel
        → Ends (life_loop fuel s benson) benson
    life_loop-Ends zero benson ok room = absurd (omega (arith, room))
    life_loop-Ends (suc fuel) benson ok room =
        let (r, e, ends) =
          pass_loop-ends (suc benson.block_ids.n_feature) 0 true benson ok (omega arith)
            (omega arith) in
        life_step fuel benson r.0 r.1 ok.valid e ends
          (λ less. life_loop-Ends fuel r.1 ends.0.0 (omega (arith, less, room)))

  -- From a set of blocks that carry their ids, with a count for each block that is no higher than
  -- the number of the areas in the set of areas that touch it, the search for life ends; the blocks
  -- that it keeps were in the set, and at the end each of them is touched by two or more of the
  -- areas that are left, and no count is higher than the number of the areas left that touch its
  -- block.
  pub find_benson_life-Lives :
      (max_size max_id max_areas max_area max_blocks max_block : ℕ) (benson : Benson)
      → Ok max_size max_id benson.block_ids
      → Covers s max_areas max_area max_blocks max_block benson
      → (r : Benson) × (find_benson_life s benson ≡ some r)
        × ((id : ℕ)
            → contains r.block_ids id ≡ true
            → (contains benson.block_ids id ≡ true)
              × (2 ≤ num_areas s (suc max_area) r.area_ids id))
        × ((id : ℕ) → get_or r.num_healthy id 0 ≤ num_areas s (suc max_area) r.area_ids id)
  unfolding find_benson_life
  find_benson_life-Lives max_size max_id max_areas max_area max_blocks max_block benson ok covers =
      let (r, e, kept, lives) =
        life_loop-Ends max_size max_id (suc benson.block_ids.n_feature) benson ok (omega arith) in
      let left =
        find_benson_life-Covers s max_areas max_area max_blocks max_block benson r covers e in
      (r, e, λ id h. (kept.1 id h, omega (arith, lives id h, left.counted id)), left.counted)
