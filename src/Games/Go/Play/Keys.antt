-- ===== src/Games/Go/Play/Keys.antt =====
-- The stone of a move, its block, and the key of the position after the move.
use proof_cost_network.Base.{
  ℕ, zero, suc, ◌<◌, ◌≡◌, ◌≢◌, refl, sym, ◌∙◌, ap, subst, Bool, true, not, ◌&&◌, List, [], ◌∷◌,
  ◌==◌, ==→≡, inl, inr, Bool-cases, Option-cases, arith, bit_xor, In, get_or-set_ne,
}
use proof_cost_network.Base.Xor.{bit_xor_comm, bit_xor_assoc, zero_bit_xor}
use proof_cost_network.Board.Color.{Color, eqb}
use proof_cost_network.Board.Move.{Move}
use proof_cost_network.Games.Go.Area.{num_grids}
use proof_cost_network.Games.Go.Grid.{get_neighbors}
use proof_cost_network.Games.Go.State.{
  HashKeys, GoGame, blank_grid, grid_at, block_at, set_color, recolored, combine_blocks,
}
use proof_cost_network.Games.Go.State.Frame.{Safe, Frame, Frame-id, Frame-then}
use proof_cost_network.Games.Go.State.Joins.{combine_blocks-Frames}
use proof_cost_network.Games.Go.Play.{Neighbors, collect_neighbors, combine_all, turned, placed}
use proof_cost_network.Games.Go.Play.Capture.{dies, taken_key}

-- No position is a neighbour of itself.
none_is : ℕ → List ℕ → Bool
none_is p [] = true
none_is p (q ∷ qs) = not (q == p) && none_is p qs

all_apart : ℕ → Bool
all_apart zero = true
all_apart (suc n) = none_is n (get_neighbors n) && all_apart n

board_apart : all_apart num_grids ≡ true
unfolding all_apart none_is get_neighbors
board_apart = refl

none_is_sound : (p : ℕ) (qs : List ℕ) → none_is p qs ≡ true → (q : ℕ) → In qs q → q ≢ p
unfolding none_is
none_is_sound p [] h q k = elim k [ ]
none_is_sound p (x ∷ qs) h q (inl e) = λ same. ground (arith, h, e, same)
none_is_sound p (x ∷ qs) h q (inr k) = none_is_sound p qs (ground (arith, h)) q k

all_apart_sound : (n p : ℕ) → all_apart n ≡ true → p < n → none_is p (get_neighbors p) ≡ true
unfolding all_apart
all_apart_sound zero p h less = absurd (omega (arith, less))
all_apart_sound (suc n) p h less = elim (Bool-cases (p == n)) [
  | inl e ↦ subst (λ k. none_is k (get_neighbors k) ≡ true) (sym (==→≡ p n e)) (ground (arith, h))
  | inr ne ↦ all_apart_sound n p (ground (arith, h)) (ground (arith, less, ne))
]

pub neighbors_apart : (p q : ℕ) → p < num_grids → In (get_neighbors p) q → q ≢ p
neighbors_apart p q inside near =
    none_is_sound p (get_neighbors p) (all_apart_sound num_grids p board_apart inside) q near

-- Taking blocks changes the key by that of all of them.
pub taken_key_from :
    (s : GoGame) (k : ℕ) (js : List ℕ) → taken_key s k js ≡ bit_xor k (taken_key s 0 js)
taken_key_from s k [] = sym (zero_bit_xor k) ∙ bit_xor_comm 0 k
taken_key_from s k (j ∷ js) = elim (Bool-cases (dies (block_at s j))) [
  | inr lives ↦ rw lives (taken_key_from s k js)
  | inl taken ↦
      let h = (block_at s j).hash_key in
      rw taken (
        taken_key_from s (bit_xor k h) js
        ∙ bit_xor_assoc k h (taken_key s 0 js)
        ∙ ap (bit_xor k) (
            sym (
              taken_key_from s (bit_xor 0 h) js
              ∙ ap (λ x. bit_xor x (taken_key s 0 js)) (zero_bit_xor h))))
]

module _ (c : Color) (K : ℕ → Type 0) where
  pub combine_all-Frames :
      (i : ℕ) (js : List ℕ) (s : GoGame)
      → ¬ K i
      → ((j : ℕ) → In js j → ¬ K j)
      → Safe c K s
      → (¬ K (combine_all i js s).0)
        × Frame c K s (combine_all i js s).1
        × Safe c K (combine_all i js s).1
  unfolding combine_all
  combine_all-Frames i [] s out outs safe = (out, Frame-id c K s, safe)
  combine_all-Frames i (j ∷ js) s out outs safe =
      let (out', f, safe') = combine_blocks-Frames c K i j s out (outs j (inl refl)) safe in
      let (out'', f', safe'') =
        combine_all-Frames (combine_blocks i j s).0 js (combine_blocks i j s).1 out'
          (λ k h. outs k (inr h)) safe' in
      (out'', Frame-then c K f f', safe'')

module _ (keys : HashKeys) (m : Move) (s : GoGame) where
  abbrev pub with_stone : GoGame
  with_stone = placed keys m (turned keys m s)

  pub grid_at-with_stone : (q : ℕ) → q ≢ m.position → grid_at with_stone q ≡ grid_at s q
  unfolding placed turned set_color
  grid_at-with_stone q other =
      get_or-set_ne s.grids m.position q (recolored m.color (grid_at s m.position)) blank_grid
        (λ e. other (sym e))

  -- The new stone is none of the grids that the loop reads.
  pub collect_neighbors_same :
      (qs : List ℕ) (n : Neighbors)
      → ((q : ℕ) → In qs q → q ≢ m.position)
      → collect_neighbors m.color with_stone qs n ≡ collect_neighbors m.color s qs n
  unfolding collect_neighbors placed turned set_color
  collect_neighbors_same [] n other = refl
  collect_neighbors_same (q ∷ qs) n other =
      let same = grid_at-with_stone q (other q (inl refl)) in
      let color = ap (λ g. eqb g.color Color.none) same in
      let owner = ap (λ g. eqb g.color m.color) same in
      let block = ap (λ g. g.block) same in
      let rest : (n : Neighbors)
          → collect_neighbors m.color with_stone qs n ≡ collect_neighbors m.color s qs n =
        λ n. collect_neighbors_same qs n (λ x h. other x (inr h)) in
      elim (Bool-cases (eqb (grid_at s q).color Color.none)) [
        | inl free ↦ rw (color ∙ free, collect_neighbors) (rw (free, collect_neighbors) (rest _))
        | inr filled ↦ elim (Option-cases (grid_at s q).block) [
          | inl gone ↦
              rw (color ∙ filled, collect_neighbors)
                (rw (block ∙ gone) (rw (filled, collect_neighbors) (rw gone refl)))
          | inr (i, here) ↦
              rw (color ∙ filled, collect_neighbors)
                (rw (block ∙ here) (rw (filled, collect_neighbors) (rw here (rw owner (rest _)))))
        ]
      ]
