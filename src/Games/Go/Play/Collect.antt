-- ===== src/Games/Go/Play/Collect.antt =====
-- The two loops over the neighbours of a stone, in `play` and in `isLegalMove`, find the same blocks.
use proof_cost_network.Base.{
  ℕ, ◌≡◌, ◌≢◌, sym, ◌∙◌, ap, subst, Bool, true, false, List, [], ◌∷◌, ◌++◌, ◌==◌, ==→≡, ==_self,
  ◌⊎◌, inl, inr, Bool-cases, true≢false, arith, if◌then◌else◌, bit_xor, In, In-append, In-old,
  In-added, Distinct, Distinct-append, some_inj,
}
use proof_cost_network.Board.Color.{Color}
use proof_cost_network.Board.Bitboard.{Bitboard, bit_is_on, is_empty, ◌∪◌, ◌∖◌}
use proof_cost_network.Board.Bitboard.Bits.{bit_is_on-union, bit_is_on-difference}
use proof_cost_network.Board.Bitboard.Counts.{is_empty-clear, is_empty_off}
use proof_cost_network.Games.Go.Block.{GoBlock}
use proof_cost_network.Games.Go.State.{GoGame, grid_at, block_at}
use proof_cost_network.Games.Go.State.Linked.{Belongs, IsLinked}
use proof_cost_network.Games.Go.Legal.{Survey, member}
use proof_cost_network.Games.Go.Play.{Neighbors}
use proof_cost_network.Games.Go.Play.Capture.{dies, taken_key, taken_key-append}

-- A set of positions is the union of the blocks of a list.
abbrev pub Covers : GoGame → Bitboard → List ℕ → Type 0
Covers s b js =
    ((x : ℕ) → bit_is_on b x ≡ true → (j : ℕ) × In js j × (bit_is_on (block_at s j).grids x ≡ true))
    × ((x j : ℕ) → In js j → bit_is_on (block_at s j).grids x ≡ true → bit_is_on b x ≡ true)

-- The colour of a block that a neighbour belongs to.
abbrev pub Colored : GoGame → List ℕ → List ℕ → (Color → Type 0) → Type 0
Colored s nbr js good =
    (j : ℕ) → In js j → (q : ℕ) × In nbr q × Belongs s q j × good (block_at s j).color

module _ (c : Color) (s : GoGame) (linked : IsLinked s) (nbr : List ℕ) where
  pub record Met (n : Neighbors) (r : Survey) : Type 0 where
    pub own_covers : Covers s n.own_map n.own
    pub opp_covers : Covers s n.opp_map n.opp
    pub own_color : Colored s nbr n.own (λ d. d ≡ c)
    pub opp_color : Colored s nbr n.opp (λ d. d ≢ c)
    pub distinct : Distinct n.opp
    pub checked : (j : ℕ) → member j r.checked ≡ true → In n.own j ⊎ In n.opp j
    pub found : (j : ℕ) → In n.own j ⊎ In n.opp j → member j r.checked ≡ true
    pub key : r.key ≡ taken_key s 0 n.opp

  -- A block that was met adds no stones, and another one does.
  pub covered :
      (b : Bitboard) (js : List ℕ) (i : ℕ)
      → Covers s b js
      → In js i
      → is_empty ((block_at s i).grids ∖ b) ≡ true
  covered b js i (from, to) met = is_empty-clear _ (λ x.
      bit_is_on-difference (block_at s i).grids b x
      ∙ elim (Bool-cases (bit_is_on (block_at s i).grids x)) [
        | inl on ↦ ground (arith, to x i met on)
        | inr off ↦ ground (arith, off)
      ])

  pub uncovered :
      (b : Bitboard) (js : List ℕ) (q i : ℕ)
      → Covers s b js
      → Belongs s q i
      → ¬ In js i
      → is_empty ((block_at s i).grids ∖ b) ≡ false
  uncovered b js q i (from, to) here new = elim (Bool-cases (is_empty ((block_at s i).grids ∖ b))) [
    | inr h ↦ h
    | inl empty ↦
        let on = linked.holds q i here in
        let gone = is_empty_off ((block_at s i).grids ∖ b) q empty in
        let in_map : bit_is_on b q ≡ true =
          ground (arith, bit_is_on-difference (block_at s i).grids b q, gone, on) in
        let (j, met, at) = from q in_map in
        absurd (new (subst (In js) (some_inj (sym (linked.only q j at) ∙ here)) met))
  ]

  Covers-append :
      (b : Bitboard) (js : List ℕ) (i : ℕ)
      → Covers s b js
      → Covers s (b ∪ (block_at s i).grids) (js ++ i ∷ [])
  Covers-append b js i (from, to) = (
    λ x on. elim (Bool-cases (bit_is_on b x)) [
      | inl old ↦ let (j, met, at) = from x old in (j, In-old js i j met, at)
      | inr off ↦
          (i, In-added js i, ground (arith, bit_is_on-union b (block_at s i).grids x, on, off))
    ],
    λ x j met at. bit_is_on-union b (block_at s i).grids x ∙ elim (In-append js i j met) [
      | inl e ↦
          let at' : bit_is_on (block_at s i).grids x ≡ true =
            subst (λ k. bit_is_on (block_at s k).grids x ≡ true) e at in
          ground (arith, at')
      | inr old ↦ ground (arith, to x j old at)
    ],
  )

  Colored-append :
      (js : List ℕ) (good : Color → Type 0) (q i : ℕ)
      → Colored s nbr js good
      → In nbr q
      → Belongs s q i
      → good (block_at s i).color
      → Colored s nbr (js ++ i ∷ []) good
  Colored-append js good q i all near here fits j met = elim (In-append js i j met) [
    | inr old ↦ all j old
    | inl e ↦
        subst (λ k. (q : ℕ) × In nbr q × Belongs s q k × good (block_at s k).color) (sym e)
          (q, near, here, fits)
  ]

  member_new : (i j : ℕ) (is : List ℕ) → member j (i ∷ is) ≡ true → (j ≡ i) ⊎ (member j is ≡ true)
  unfolding member
  member_new i j is h = elim (Bool-cases (j == i)) [
    | inl e ↦ inl (==→≡ j i e)
    | inr ne ↦ inr (ground (arith, h, ne))
  ]

  member_here : (i : ℕ) (is : List ℕ) → member i (i ∷ is) ≡ true
  unfolding member
  member_here i is = ground (arith, ==_self i)

  member_old : (i j : ℕ) (is : List ℕ) → member j is ≡ true → member j (i ∷ is) ≡ true
  unfolding member
  member_old i j is h = ground (arith, h)

  pub Met-kept :
      (n : Neighbors) (r : Survey) (liberties : Bitboard) (legal : Bool)
      → Met n r
      → Met (record n { liberties = liberties }) (record r { legal = legal })
  Met-kept n r liberties legal met = record {
    own_covers = met.own_covers;
    opp_covers = met.opp_covers;
    own_color = met.own_color;
    opp_color = met.opp_color;
    distinct = met.distinct;
    checked = met.checked;
    found = met.found;
    key = met.key;
  }

  module _ (q i : ℕ) (near : In nbr q) (here : Belongs s q i) (n : Neighbors) (r : Survey)
      (met : Met n r) where
    abbrev pub b : GoBlock
    b = block_at s i

    -- A block that was met is met in the list of its colour.
    pub met_own : (grid_at s q).color ≡ c → member i r.checked ≡ true → In n.own i
    met_own own seen = elim (met.checked i seen) [
      | inl h ↦ h
      | inr h ↦ let (_, _, _, foe) = met.opp_color i h in absurd (foe (linked.color q i here ∙ own))
    ]

    pub met_opp : (grid_at s q).color ≢ c → member i r.checked ≡ true → In n.opp i
    met_opp foe seen = elim (met.checked i seen) [
      | inr h ↦ h
      | inl h ↦
          let (_, _, _, own) = met.own_color i h in absurd (foe (sym (linked.color q i here) ∙ own))
    ]

    module _ (k : ℕ) (same : k ≡ i) where
      abbrev pub met_more : Survey
      met_more = record r { checked = k ∷ r.checked }

      checked_more :
          (own opp : List ℕ)
          → ((j : ℕ) → In n.own j ⊎ In n.opp j → In own j ⊎ In opp j)
          → In own i ⊎ In opp i
          → (j : ℕ) → member j (k ∷ r.checked) ≡ true
          → In own j ⊎ In opp j
      checked_more own opp old new j h = elim (member_new k j r.checked h) [
        | inl e ↦ subst (λ x. In own x ⊎ In opp x) (sym (e ∙ same)) new
        | inr h' ↦ old j (met.checked j h')
      ]

      found_new : (j : ℕ) → j ≡ i → member j (k ∷ r.checked) ≡ true
      found_new j e =
          subst (λ x. member x (k ∷ r.checked) ≡ true) (same ∙ sym e) (member_here k r.checked)

      pub own_step :
          (grid_at s q).color ≡ c
          → Met (record n { own_map = n.own_map ∪ b.grids; own = n.own ++ i ∷ [] }) met_more
      own_step own = record {
        own_covers = Covers-append n.own_map n.own i met.own_covers;
        opp_covers = met.opp_covers;
        own_color =
            Colored-append n.own (λ d. d ≡ c) q i met.own_color near here
              (linked.color q i here ∙ own);
        opp_color = met.opp_color;
        distinct = met.distinct;
        checked =
            checked_more (n.own ++ i ∷ []) n.opp
              (λ j h. elim h [ inl x ↦ inl (In-old n.own i j x) | inr x ↦ inr x ])
              (inl (In-added n.own i));
        found = λ j h. elim h [
          | inl x ↦ elim (In-append n.own i j x) [
            | inl e ↦ found_new j e
            | inr old ↦ member_old k j r.checked (met.found j (inl old))
          ]
          | inr x ↦ member_old k j r.checked (met.found j (inr x))
        ];
        key = met.key;
      }

      pub opp_step :
          (grid_at s q).color ≢ c
          → member i r.checked ≡ false
          → Met
              (record n { opp_map = n.opp_map ∪ b.grids; opp = n.opp ++ i ∷ [] })
              (record met_more { key = if dies b then bit_xor r.key b.hash_key else r.key })
      opp_step foe new = record {
        own_covers = met.own_covers;
        opp_covers = Covers-append n.opp_map n.opp i met.opp_covers;
        own_color = met.own_color;
        opp_color =
            Colored-append n.opp (λ d. d ≢ c) q i met.opp_color near here
              (λ e. foe (sym (linked.color q i here) ∙ e));
        distinct =
            Distinct-append n.opp i (λ h. true≢false (sym (met.found i (inr h)) ∙ new))
              met.distinct;
        checked =
            checked_more n.own (n.opp ++ i ∷ [])
              (λ j h. elim h [ inl x ↦ inl x | inr x ↦ inr (In-old n.opp i j x) ])
              (inr (In-added n.opp i));
        found = λ j h. elim h [
          | inl x ↦ member_old k j r.checked (met.found j (inl x))
          | inr x ↦ elim (In-append n.opp i j x) [
            | inl e ↦ found_new j e
            | inr old ↦ member_old k j r.checked (met.found j (inr old))
          ]
        ];
        key =
            ap (λ x. if dies b then bit_xor x b.hash_key else x) met.key
            ∙ sym (taken_key-append s 0 n.opp i);
      }
