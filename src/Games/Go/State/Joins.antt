-- ===== src/Games/Go/State/Joins.antt =====
-- What a new block, a new stone and the union of two blocks leave alone.
use proof_cost_network.Base.{
  ℕ, zero, suc, ◌<◌, ◌≡◌, ◌≢◌, refl, sym, ◌∙◌, ap, true, false, List, [], ◌∷◌, length, none, some,
  some_inj, subst, inl, inr, Bool-cases, Option-cases, true≢false, get_or-set_cases,
  get_or-set_self, get_or-set_ne, arith, ltb, ==→≡, ==→≢, ◌==◌,
}
use proof_cost_network.Board.Color.{Color}
use proof_cost_network.Board.Bitboard.{Bitboard, bit_is_on, bit_scan_forward, bit_count, positions}
use proof_cost_network.Board.Move.{Move}
use proof_cost_network.Games.Go.Block.{combine}
use proof_cost_network.Games.Go.State.{
  HashKeys, GoGame, blank_grid, grid_at, block_at, set_grid, set_block, new_block, remove_block,
  add_grid_and_liberties_to_block, link_grids, combine_into, combine_blocks,
}
use proof_cost_network.Games.Go.State.Frame.{
  Safe, Frame, Frame-id, Frame-then, BlockStep, set_block-Frame, remove_block-Frame,
}

none≢some : (i : ℕ) → none ≢ some i
none≢some i h = cc

pub bit_scan_forward_on :
    (b : Bitboard) (i : ℕ) → (bit_scan_forward b).0 ≡ some i → bit_is_on b i ≡ true
unfolding bit_scan_forward
bit_scan_forward_on [] i h = cc
bit_scan_forward_on (true ∷ b) zero h = refl
bit_scan_forward_on (true ∷ b) (suc i) h = cc
bit_scan_forward_on (false ∷ b) i h = elim (Option-cases (bit_scan_forward b).0) [
  | inl gone ↦ absurd (none≢some i (rw gone at h))
  | inr (j, at) ↦
      subst (λ k. bit_is_on (false ∷ b) k ≡ true) (some_inj (rw at at h))
        (bit_scan_forward_on b j at)
]

module _ (c : Color) (K : ℕ → Type 0) where
  -- The first block that is not in use is taken; the set holds blocks in use.
  pub new_block-Frames :
      (d : Color) (s : GoGame) (j : ℕ)
      → (bit_scan_forward s.block_usage).0 ≡ some j
      → j < length s.blocks
      → ((k : ℕ) → K k → bit_is_on s.block_usage k ≡ false)
      → (t : GoGame) × (new_block d s ≡ some (j, t)) × BlockStep c K s t × ¬ K j
  unfolding new_block
  new_block-Frames d s j first inside used =
      let out : ¬ K j =
        λ h. true≢false (sym (bit_scan_forward_on s.block_usage j first) ∙ used j h) in
      let f = set_block-Frame c K s j (record (block_at s j) { color = d }) out in
      (
        record (set_block j (record (block_at s j) { color = d }) s) {
          block_usage = (bit_scan_forward s.block_usage).1;
        },
        rw first (ground (arith, inside)),
        record { frame = record { keeps = f.keeps; key = refl; table = refl }; grids = refl },
        out,
      )

  -- Every stone of the colour but the one at `p` has a block outside the set.
  abbrev pub SafeBut : ℕ → GoGame → Type 0
  SafeBut p s =
      (q : ℕ) → q ≢ p → (grid_at s q).color ≡ c → (i : ℕ) × ((grid_at s q).block ≡ some i) × ¬ K i

  pub add_grid-Frames :
      (keys : HashKeys) (m : Move) (i : ℕ) (liberties : Bitboard) (s : GoGame)
      → m.position < length s.grids
      → ¬ K i
      → SafeBut m.position s
      → Frame c K s (add_grid_and_liberties_to_block keys m i liberties s)
        × Safe c K (add_grid_and_liberties_to_block keys m i liberties s)
  unfolding add_grid_and_liberties_to_block
  add_grid-Frames keys m i liberties s inside out safe =
      let f = set_block-Frame c K s i _ out in
      let here =
        get_or-set_self s.grids m.position (record (grid_at s m.position) { block = some i })
          blank_grid inside in
      (
        record { keeps = f.keeps; key = refl; table = refl },
        λ q h. elim (Bool-cases (m.position == q)) [
          | inl e ↦ (
            i,
            ap (λ r. (grid_at (linked s) r).block) (sym (==→≡ _ q e)) ∙ ap (λ g. g.block) here,
            out,
          )
          | inr ne ↦
              let same =
                get_or-set_ne s.grids m.position q
                  (record (grid_at s m.position) { block = some i }) blank_grid (==→≢ _ q ne) in
              let (k, e, out') =
                safe q (λ e. ==→≢ _ q ne (sym e)) (ap (λ g. g.color) (sym same) ∙ h) in
              (k, ap (λ g. g.block) same ∙ e, out')
        ],
      )
    where
      linked : GoGame → GoGame
      linked s = set_grid m.position (record (grid_at s m.position) { block = some i }) s

  relinked :
      (s : GoGame) (p i : ℕ)
      → ¬ K i
      → Safe c K s
      → Safe c K (set_grid p (record (grid_at s p) { block = some i }) s)
  relinked s p i out safe q h =
      elim (get_or-set_cases s.grids p q (record (grid_at s p) { block = some i }) blank_grid) [
        | inl (_, here) ↦ (i, ap (λ g. g.block) here, out)
        | inr same ↦
            let (k, e, out') = safe q (ap (λ g. g.color) (sym same) ∙ h) in
            (k, ap (λ g. g.block) same ∙ e, out')
      ]

  link_grids-Frames :
      (i : ℕ) (ps : List ℕ) (s : GoGame)
      → ¬ K i
      → Safe c K s
      → Frame c K s (link_grids i ps s) × Safe c K (link_grids i ps s)
  unfolding link_grids
  link_grids-Frames i [] s out safe = (Frame-id c K s, safe)
  link_grids-Frames i (p ∷ ps) s out safe =
      let u = set_grid p (record (grid_at s p) { block = some i }) s in
      let (f, safe') = link_grids-Frames i ps u out (relinked s p i out safe) in
      (record { keeps = f.keeps; key = f.key; table = f.table }, safe')

  combine_into-Frames :
      (i j : ℕ) (s : GoGame)
      → ¬ K i
      → ¬ K j
      → Safe c K s
      → Frame c K s (combine_into i j s) × Safe c K (combine_into i j s)
  unfolding combine_into remove_block
  combine_into-Frames i j s out out' safe =
      let merged = set_block i (combine (block_at s j) (block_at s i)) s in
      let (f, safe') = link_grids-Frames i (positions (block_at merged j).grids) merged out safe in
      (
        Frame-then c K (set_block-Frame c K s i _ out)
            (Frame-then c K f (remove_block-Frame c K _ j out')),
        safe',
      )

  pub combine_blocks-Frames :
      (i j : ℕ) (s : GoGame)
      → ¬ K i
      → ¬ K j
      → Safe c K s
      → (¬ K (combine_blocks i j s).0)
        × Frame c K s (combine_blocks i j s).1
        × Safe c K (combine_blocks i j s).1
  unfolding combine_blocks
  combine_blocks-Frames i j s out out' safe =
      elim (Bool-cases (ltb (bit_count (block_at s i).grids) (bit_count (block_at s j).grids))) [
        | inl less ↦ rw less (let (f, g) = combine_into-Frames j i s out' out safe in (out', f, g))
        | inr more ↦ rw more (let (f, g) = combine_into-Frames i j s out out' safe in (out, f, g))
      ]
