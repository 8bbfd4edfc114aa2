-- ===== src/Games/Go/Play/Stone.antt =====
-- The block that the stone of a move joins, and what it leaves alone.
use proof_cost_network.Base.{
  ℕ, ◌<◌, ◌≡◌, ◌≢◌, refl, sym, ◌∙◌, ap, subst, true, false, List, [], ◌∷◌, length, Option, some,
  ◌⊎◌, inl, inr, Bool-cases, arith, In, get_or, length-set,
}
use proof_cost_network.Board.Color.{Color, black, white}
use proof_cost_network.Board.Move.{Move}
use proof_cost_network.Board.Bitboard.{bit_is_on, is_empty, bit_scan_forward}
use proof_cost_network.Board.Bitboard.Counts.{some_bit}
use proof_cost_network.Games.Go.Area.{num_grids}
use proof_cost_network.Games.Go.Grid.{get_neighbors}
use proof_cost_network.Games.Go.State.{
  HashKeys, GoGame, blank_grid, grid_at, block_at, set_block, remove_liberty, set_color,
  add_grid_and_liberties_to_block,
}
use proof_cost_network.Games.Go.State.Frame.{Safe, Frame, Frame-then, set_block-Frame}
use proof_cost_network.Games.Go.State.Joins.{SafeBut, new_block-Frames, add_grid-Frames}
use proof_cost_network.Games.Go.State.Linked.{Belongs, IsLinked}
use proof_cost_network.Games.Go.Legal.{Survey}
use proof_cost_network.Games.Go.Play.{Neighbors, combine_all, join_own, turned, placed}
use proof_cost_network.Games.Go.Play.Collect.{Met}
use proof_cost_network.Games.Go.Play.Keys.{combine_all-Frames, with_stone, grid_at-with_stone}

-- A block is free for a new stone.
abbrev pub HasBlock : GoGame → Type 0
HasBlock s = (j : ℕ) × ((bit_scan_forward s.block_usage).0 ≡ some j) × (j < length s.blocks)

abbrev pub Player : Color → Type 0
Player c = (c ≡ black) ⊎ (c ≡ white)

pub player_stone : (c : Color) → Player c → c ≢ Color.none
player_stone c p e = elim p [ inl b ↦ ground (arith, b, e) | inr w ↦ ground (arith, w, e) ]

module _ (keys : HashKeys) (m : Move) (s : GoGame) (linked : IsLinked s) (player : Player m.color)
    (inside : m.position < num_grids) where
  abbrev u : GoGame
  u = with_stone keys m s

  abbrev nbr : List ℕ
  nbr = get_neighbors m.position

  sized : length u.grids ≡ num_grids
  unfolding placed turned set_color
  sized = length-set s.grids m.position _ ∙ linked.sized

  module _ (n : Neighbors) (r : Survey) (met : Met m.color s linked nbr n r) where
    abbrev pub K : ℕ → Type 0
    K = In n.opp

    own_out : (j q : ℕ) → Belongs s q j → (grid_at s q).color ≡ m.color → ¬ K j
    own_out j q here own h =
        let (_, _, _, foe) = met.opp_color j h in foe (linked.color q j here ∙ own)

    begun : SafeBut m.color K m.position u
    begun q other h =
        let same = grid_at-with_stone keys m s q other in
        let own = ap (λ g. g.color) (sym same) ∙ h in
        let (i, here) = linked.has_block q (λ e. player_stone _ player (sym own ∙ e)) in
        (i, ap (λ g. g.block) same ∙ here, own_out i q here own)

    listed_out : (j : ℕ) → In n.own j → ¬ K j
    listed_out j h =
        let (q, _, here, own) = met.own_color j h in
        own_out j q here (sym (linked.color q j here) ∙ own)

    used : (k : ℕ) → K k → bit_is_on u.block_usage k ≡ false
    unfolding placed turned set_color
    used k h = let (q, _, here, _) = met.opp_color k h in linked.in_use q k here

    abbrev pub Joined : Option GoGame → Type 0
    Joined o = (t : GoGame) × (o ≡ some t) × Frame m.color K u t × Safe m.color K t

    join_new : HasBlock u → is_empty n.own_map ≡ true → Joined (join_own keys m n u)
    unfolding join_own
    join_new (j, first, room) alone =
        let (t, e, step, out) = new_block-Frames m.color K m.color u j first room used in
        let begun_t : SafeBut m.color K m.position t = SafeBut_same t step.grids in
        let (f, safe) =
          add_grid-Frames m.color K keys m j n.liberties t
            (subst (λ k. m.position < k) (sym (ap length step.grids ∙ sized)) inside) out begun_t in
        (
          add_grid_and_liberties_to_block keys m j n.liberties t,
          rw (alone, join_own) (rw e refl),
          Frame-then m.color K step.frame f,
          safe,
        )
      where
        SafeBut_same : (t : GoGame) → t.grids ≡ u.grids → SafeBut m.color K m.position t
        SafeBut_same t e =
            subst
              (λ gs.
                (q : ℕ)
                → q ≢ m.position
                → (get_or gs q blank_grid).color ≡ m.color
                → (i : ℕ) × ((get_or gs q blank_grid).block ≡ some i) × ¬ K i)
              (sym e) begun

    join_old :
        (own : List ℕ) → n.own ≡ own → is_empty n.own_map ≡ false → Joined (join_own keys m n u)
    unfolding join_own
    join_old [] e some_own =
        let (x, on) = some_bit n.own_map some_own in
        let (j, h, _) = met.own_covers.0 x on in elim (subst (λ own. In own j) e h) [ ]
    join_old (i ∷ rest) e some_own =
        let outs : (j : ℕ) → In (i ∷ rest) j → ¬ K j =
          λ j h. listed_out j (subst (λ own. In own j) (sym e) h) in
        let (f, safe) =
          add_grid-Frames m.color K keys m i n.liberties u
            (subst (λ k. m.position < k) (sym sized) inside) (outs i (inl refl)) begun in
        let v = add_grid_and_liberties_to_block keys m i n.liberties u in
        let (out, g, safe') =
          combine_all-Frames m.color K i rest v (outs i (inl refl)) (λ j h. outs j (inr h)) safe in
        let all = combine_all i rest v in
        (
          set_block all.0 (remove_liberty m.position (block_at all.1 all.0)) all.1,
          rw (some_own, join_own) (rw e refl),
          Frame-then m.color K (Frame-then m.color K f g)
              (set_block-Frame m.color K all.1 all.0 _ out),
          safe',
        )

    -- The stone joins a block of its colour, or a new one; no block of the opponent changes.
    pub join_own-Frames : HasBlock u → Joined (join_own keys m n u)
    join_own-Frames free = elim (Bool-cases (is_empty n.own_map)) [
      | inl alone ↦ join_new free alone
      | inr some_own ↦ join_old n.own refl some_own
    ]
