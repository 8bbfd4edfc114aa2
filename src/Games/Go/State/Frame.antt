-- ===== src/Games/Go/State/Frame.antt =====
-- What the operations on grids and blocks leave alone: the blocks of a set that no grid of the moving
-- colour belongs to, the key of the position and the table of the keys before.
use proof_cost_network.Base.{
  ℕ, ◌≡◌, ◌≢◌, refl, sym, ◌∙◌, ap, subst, List, [], ◌∷◌, some, inl, inr, Bool-cases, get_or,
  get_or-set_ne, get_or-set_cases,
}
use proof_cost_network.Board.Color.{Color, eqb, eqb→≡, against_color}
use proof_cost_network.Board.Bitboard.{positions}
use proof_cost_network.Games.Go.Block.{GoBlock}
use proof_cost_network.Games.Go.Grid.{get_neighbors}
use proof_cost_network.Games.Go.State.{
  GoGame, blank_grid, blank_block, grid_at, block_at, set_block, recolored, set_color, remove_block,
  add_liberty, free_neighbors, remove_stones, remove_block_and_grids,
}

module _ (c : Color) (K : ℕ → Type 0) where
  -- Every stone of the colour has a block outside the set.
  abbrev pub Safe : GoGame → Type 0
  Safe s = (q : ℕ) → (grid_at s q).color ≡ c → (i : ℕ) × ((grid_at s q).block ≡ some i) × ¬ K i

  pub record Frame (s t : GoGame) : Type 0 where
    pub keeps : (k : ℕ) → K k → block_at t k ≡ block_at s k
    pub key : t.hash_key ≡ s.hash_key
    pub table : t.hash_table ≡ s.hash_table

  pub Frame-id : (s : GoGame) → Frame s s
  Frame-id s = record { keeps = λ k h. refl; key = refl; table = refl }

  pub Frame-then : {s t u : GoGame} → Frame s t → Frame t u → Frame s u
  Frame-then f g = record {
    keeps = λ k h. g.keeps k h ∙ f.keeps k h;
    key = g.key ∙ f.key;
    table = g.table ∙ f.table;
  }

  apart : {i k : ℕ} → ¬ K i → K k → i ≢ k
  apart out hk e = out (subst K (sym e) hk)

  pub set_block-Frame : (s : GoGame) (i : ℕ) (b : GoBlock) → ¬ K i → Frame s (set_block i b s)
  set_block-Frame s i b out = record {
    keeps = λ k h. get_or-set_ne s.blocks i k b blank_block (apart out h);
    key = refl;
    table = refl;
  }

  pub remove_block-Frame : (s : GoGame) (i : ℕ) → ¬ K i → Frame s (remove_block i s)
  unfolding remove_block
  remove_block-Frame s i out = record {
    keeps = λ k h. get_or-set_ne s.blocks i k _ blank_block (apart out h);
    key = refl;
    table = refl;
  }

  -- A step that changes the blocks outside the set and no grid.
  pub record BlockStep (s t : GoGame) : Type 0 where
    pub frame : Frame s t
    pub grids : t.grids ≡ s.grids

  pub Safe-moved : (s t : GoGame) → t.grids ≡ s.grids → Safe s → Safe t
  Safe-moved s t e safe =
      subst
        (λ gs.
          (q : ℕ)
          → (get_or gs q blank_grid).color ≡ c
          → (i : ℕ) × ((get_or gs q blank_grid).block ≡ some i) × ¬ K i)
        (sym e) safe

  free_neighbors-Frames :
      (p : ℕ) (qs : List ℕ) (s : GoGame)
      → Safe s
      → (t : GoGame) × (free_neighbors c p qs s ≡ some t) × BlockStep s t
  unfolding free_neighbors
  free_neighbors-Frames p [] s safe = (s, refl, record { frame = Frame-id s; grids = refl })
  free_neighbors-Frames p (q ∷ qs) s safe = elim (Bool-cases (eqb (grid_at s q).color c)) [
    | inr other ↦
        let (t, e, step) = free_neighbors-Frames p qs s safe in
        (t, rw (other, free_neighbors) e, step)
    | inl own ↦
        let (i, here, out) = safe q (eqb→≡ _ c own) in
        let u = set_block i (add_liberty p (block_at s i)) s in
        let (t, e, step) = free_neighbors-Frames p qs u safe in
        (
          t,
          rw (own, free_neighbors) (rw here e),
          record { frame = Frame-then (set_block-Frame s i _ out) step.frame; grids = step.grids },
        )
  ]

  module _ (stone : c ≢ Color.none) where
    uncolored : (s : GoGame) (p : ℕ) → Safe s → Safe (set_color Color.none p s)
    unfolding set_color
    uncolored s p safe q h =
        elim (get_or-set_cases s.grids p q (recolored Color.none (grid_at s p)) blank_grid) [
          | inl (_, here) ↦ absurd (stone (sym h ∙ ap (λ g. g.color) here))
          | inr same ↦
              let (i, e, out) = safe q (ap (λ g. g.color) (sym same) ∙ h) in
              (i, ap (λ g. g.block) same ∙ e, out)
        ]

    uncolored-Frame : (s : GoGame) (p : ℕ) → Frame s (set_color Color.none p s)
    unfolding set_color
    uncolored-Frame s p = record { keeps = λ k h. refl; key = refl; table = refl }

    remove_stones-Frames :
        (ps : List ℕ) (s : GoGame)
        → Safe s
        → (t : GoGame) × (remove_stones c ps s ≡ some t) × Frame s t × Safe t
    unfolding remove_stones
    remove_stones-Frames [] s safe = (s, refl, Frame-id s, safe)
    remove_stones-Frames (p ∷ ps) s safe =
        let u = set_color Color.none p s in
        let (v, e, step) = free_neighbors-Frames p (get_neighbors p) u (uncolored s p safe) in
        let (t, e', frame, safe') =
          remove_stones-Frames ps v (Safe-moved u v step.grids (uncolored s p safe)) in
        (
          t,
          rw (e, remove_stones) e',
          Frame-then (uncolored-Frame s p) (Frame-then step.frame frame),
          safe',
        )

    -- The opponent's block `i` is taken off the board.
    pub remove_block_and_grids-Frames :
        (i : ℕ) (s : GoGame)
        → against_color (block_at s i).color ≡ c
        → ¬ K i
        → Safe s
        → (t : GoGame) × (remove_block_and_grids i s ≡ some t) × Frame s t × Safe t
    unfolding remove_block_and_grids remove_block
    remove_block_and_grids-Frames i s other out safe =
        let (t, e, frame, safe') = remove_stones-Frames (positions (block_at s i).grids) s safe in
        (
          remove_block i t,
          rw other (rw e refl),
          Frame-then frame (remove_block-Frame t i out),
          safe',
        )
