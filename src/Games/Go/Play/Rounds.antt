-- ===== src/Games/Go/Play/Rounds.antt =====
-- The rounds of the two loops over the neighbours, and their ends.
use proof_cost_network.Base.{
  ℕ, ◌≡◌, ◌≢◌, refl, sym, ◌∙◌, ap, subst, true, false, List, [], ◌∷◌, some, inl, inr, Bool-cases,
  true≢false, ltb, if◌then◌else◌, bit_xor, In,
}
use proof_cost_network.Board.Color.{Color, eqb, eqb→≡, eqb→≢, eqb_self}
use proof_cost_network.Board.Bitboard.{bit_count, set_bit_on}
use proof_cost_network.Board.Bitboard.Bits.{bit_is_on-reset}
use proof_cost_network.Games.Go.Block.{GoBlock}
use proof_cost_network.Games.Go.Area.{max_num_moves}
use proof_cost_network.Games.Go.State.{GoGame, grid_at, block_at}
use proof_cost_network.Games.Go.State.Linked.{Belongs, IsLinked}
use proof_cost_network.Games.Go.Legal.{Survey, survey, member, nothing_met}
use proof_cost_network.Games.Go.Play.{Neighbors, collect_neighbors, no_neighbors}
use proof_cost_network.Games.Go.Play.Capture.{dies}
use proof_cost_network.Games.Go.Play.Collect.{
  Met, Met-kept, covered, uncovered, met_own, met_opp, own_step, opp_step,
}

module _ (c : Color) (s : GoGame) (linked : IsLinked s) (nbr : List ℕ) where
  module _ (q i : ℕ) (near : In nbr q) (here : Belongs s q i) (n : Neighbors) (r : Survey)
      (met : Met c s linked nbr n r) where
    abbrev b : GoBlock
    b = block_at s i

    -- One round of the two loops at a stone.
    abbrev Round : List ℕ → Type 0
    Round qs =
        (n' : Neighbors) × (r' : Survey) × (collect_neighbors c s (q ∷ qs) n
          ≡ collect_neighbors c s qs n')
        × (survey c s (q ∷ qs) r ≡ survey c s qs r')
        × Met c s linked nbr n' r'

    own-Round : (qs : List ℕ) → (grid_at s q).color ≡ c → eqb c Color.none ≡ false → Round qs
    unfolding collect_neighbors survey
    own-Round qs own stone =
        let filled : eqb (grid_at s q).color Color.none ≡ false =
          ap (λ d. eqb d Color.none) own ∙ stone in
        let is_own : eqb (grid_at s q).color c ≡ true = ap (λ d. eqb d c) own ∙ eqb_self c in
        let same = linked.index q i here in
        elim (Bool-cases (member b.index r.checked)) [
          | inl seen ↦
              let old =
                met_own c s linked nbr q i near here n r met own
                  (subst (λ k. member k r.checked ≡ true) same seen) in
              (
                n,
                r,
                rw (filled, collect_neighbors)
                    (rw here (
                      rw is_own
                        (rw (covered c s linked nbr n.own_map n.own i met.own_covers old) refl))),
                rw (filled, survey) (rw here (rw seen refl)),
                met,
              )
          | inr new ↦
              let fresh : ¬ In n.own i = λ h.
                true≢false
                  (sym (met.found i (inl h)) ∙ subst (λ k. member k r.checked ≡ false) same new) in
              let next = own_step c s linked nbr q i near here n r met b.index same own in
              let legal = if ltb 1 (bit_count b.liberties) then true else r.legal in
              (
                _,
                record r { checked = b.index ∷ r.checked; legal = legal },
                rw (filled, collect_neighbors)
                    (rw here (
                      rw is_own (
                        rw (uncovered c s linked nbr n.own_map n.own q i met.own_covers here fresh)
                          refl))),
                rw (filled, survey)
                    (rw here (
                      rw new (
                        rw is_own (elim (Bool-cases (ltb 1 (bit_count b.liberties))) [
                          | inl many ↦ rw many refl
                          | inr few ↦ rw few refl
                        ])))),
                Met-kept c s linked nbr _ _ n.liberties legal next,
              )
        ]

    opp-Round :
        (qs : List ℕ) → (grid_at s q).color ≢ c → (grid_at s q).color ≢ Color.none → Round qs
    unfolding collect_neighbors survey
    opp-Round qs foe stone =
        let filled : eqb (grid_at s q).color Color.none ≡ false = differ _ _ stone in
        let is_foe : eqb (grid_at s q).color c ≡ false = differ _ _ foe in
        let same = linked.index q i here in
        elim (Bool-cases (member b.index r.checked)) [
          | inl seen ↦
              let old =
                met_opp c s linked nbr q i near here n r met foe
                  (subst (λ k. member k r.checked ≡ true) same seen) in
              (
                n,
                r,
                rw (filled, collect_neighbors)
                    (rw here (
                      rw is_foe
                        (rw (covered c s linked nbr n.opp_map n.opp i met.opp_covers old) refl))),
                rw (filled, survey) (rw here (rw seen refl)),
                met,
              )
          | inr new ↦
              let new' = subst (λ k. member k r.checked ≡ false) same new in
              let fresh : ¬ In n.opp i = λ h. true≢false (sym (met.found i (inr h)) ∙ new') in
              let next = opp_step c s linked nbr q i near here n r met b.index same foe new' in
              let legal = if dies b then true else r.legal in
              (
                _,
                record r {
                  checked = b.index ∷ r.checked;
                  key = if dies b then bit_xor r.key b.hash_key else r.key;
                  legal = legal;
                },
                rw (filled, collect_neighbors)
                    (rw here (
                      rw is_foe (
                        rw (uncovered c s linked nbr n.opp_map n.opp q i met.opp_covers here fresh)
                          refl))),
                rw (filled, survey)
                    (rw here (
                      rw new (
                        rw is_foe (elim (Bool-cases (dies b)) [
                          | inl last ↦ rw last refl
                          | inr safe ↦ rw safe refl
                        ])))),
                Met-kept c s linked nbr _ _ n.liberties legal next,
              )
        ]
      where
        differ : (d e : Color) → d ≢ e → eqb d e ≡ false
        differ d e h = elim (Bool-cases (eqb d e)) [
          | inl same ↦ absurd (h (eqb→≡ d e same))
          | inr ne ↦ ne
        ]

  -- Both loops end, and their results agree.
  pub collect_neighbors-Meets :
      (qs : List ℕ)
      → eqb c Color.none ≡ false
      → ((q : ℕ) → In qs q → In nbr q)
      → (n : Neighbors) (r : Survey) → Met c s linked nbr n r
      → (n' : Neighbors) × (r' : Survey) × (collect_neighbors c s qs n ≡ some n')
        × (survey c s qs r ≡ some r')
        × Met c s linked nbr n' r'
  unfolding collect_neighbors survey
  collect_neighbors-Meets [] stone sub n r met = (n, r, refl, refl, met)
  collect_neighbors-Meets (q ∷ qs) stone sub n r met =
      elim (Bool-cases (eqb (grid_at s q).color Color.none)) [
        | inl free ↦
            let (n', r', e, e', met') =
              collect_neighbors-Meets qs stone (λ p k. sub p (inr k))
                (record n { liberties = set_bit_on q n.liberties }) (record r { legal = true })
                (Met-kept c s linked nbr n r (set_bit_on q n.liberties) true met) in
            (n', r', rw (free, collect_neighbors) e, rw (free, survey) e', met')
        | inr filled ↦
            let color = eqb→≢ _ _ filled in
            let (i, here) = linked.has_block q color in
            let round : Round q i (sub q (inl refl)) here n r met qs =
              elim (Bool-cases (eqb (grid_at s q).color c)) [
                | inl own ↦ own-Round q i (sub q (inl refl)) here n r met qs (eqb→≡ _ _ own) stone
                | inr foe ↦ opp-Round q i (sub q (inl refl)) here n r met qs (eqb→≢ _ _ foe) color
              ] in
            let (n1, r1, e, e', met1) = round in
            let (n', r', f, f', met') =
              collect_neighbors-Meets qs stone (λ p k. sub p (inr k)) n1 r1 met1 in
            (n', r', e ∙ f, e' ∙ f', met')
      ]

  -- Before the first neighbour.
  pub nothing-Met : Met c s linked nbr no_neighbors nothing_met
  unfolding no_neighbors member
  nothing-Met = record {
    own_covers =
        (λ x h. absurd (true≢false (sym h ∙ bit_is_on-reset max_num_moves x)), λ x j h. elim h [ ]);
    opp_covers =
        (λ x h. absurd (true≢false (sym h ∙ bit_is_on-reset max_num_moves x)), λ x j h. elim h [ ]);
    own_color = λ j h. elim h [ ];
    opp_color = λ j h. elim h [ ];
    distinct = tt;
    checked = λ j h. absurd (true≢false (sym h));
    found = λ j h. elim h [ inl x ↦ elim x [ ] | inr x ↦ elim x [ ] ];
    key = refl;
  }
