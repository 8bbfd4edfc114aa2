-- ===== src/Solver/Size/Fuel.antt =====
-- Fuel as large as the limit is enough: every search below has a smaller limit.
use native.Mathlib.Nat.{div-le_self}
use proof_cost_network.Base.{
  ℕ, zero, suc, ◌+◌, ◌-◌, ◌/◌, ◌<◌, ◌≤◌, ◌≡◌, refl, sym, ◌∙◌, ap, subst, Bool, true, false, arith,
  inl, inr, Bool-cases,
}
use proof_cost_network.Base.{
  List, [], ◌∷◌, none, some, Gives, >>=-Gives, true≢false, ◌==◌, ==_ne, ==→≢, if◌then◌else◌,
}
use proof_cost_network.Board.Move.{Move}
use proof_cost_network.Solver.Game.{Game, all_moves, Playable, ◌∈◌}
use proof_cost_network.Solver.Size.{
  Outcome, loss, win, negated, is_loss, WinLoop, count_subtree, Solved, Search, try_move, win_loop,
  count_legal, pass_loop, any_passed, rest_loop, win_body, loss_body, guarded, find_win_tree_size,
  find_loss_tree_size,
}
use proof_cost_network.Solver.Size.Laws.{
  IsSound, Tried, try_move-Tried, Counts, count_subtree-Counts,
}
use proof_cost_network.Solver.Size.Trees.{sound, outcome-cases}

module _ (game : Game) where
  open game use {Position, is_terminal, is_legal_move, play}

  -- Every running position has a legal move of the player.
  abbrev pub AlwaysMoves : Type 0
  AlwaysMoves = (g : Position) → is_terminal g ≡ false → (m : Move) × Playable game g m

  abbrev ReturnsBelow : ℕ → Search game → Type 0
  ReturnsBelow bound tree =
      (limit : ℕ) (g : Position) → limit < bound → Gives (tree limit g) (λ r. Unit)

  try_move-Gives :
      (o : Outcome) (tree : Search game) (bound : ℕ)
      → IsSound game o tree
      → ReturnsBelow bound tree
      → (limit : ℕ) (m : Move) (g : Position) → limit < bound
      → is_terminal g ≡ false
      → Playable game g m
      → Gives (try_move game tree limit m g) (λ r. Tried game limit m g (negated o) r)
  unfolding try_move
  try_move-Gives o tree bound sound returns limit m g small running may =
      let (r, run, _) =
        >>=-Gives {Q = λ x. Unit {0}} _ _ (returns limit (play m g) small) (λ q _. (_, refl, tt)) in
      (r, run, try_move-Tried game o tree sound limit m g r running may run)

  win_loop-Gives :
      (tree : Search game) (limit : ℕ)
      → IsSound game loss tree
      → ReturnsBelow limit tree
      → (g : Position) (ms : List Move) (a : WinLoop) → is_terminal g ≡ false
      → ((m : Move) → m ∈ ms → m ∈ all_moves game g)
      → Counts game limit g a
      → Gives (win_loop game tree ms a g) (λ r. Unit)
  unfolding win_loop negated
  win_loop-Gives tree limit sound returns g [] a running among counts = (_, refl, tt)
  win_loop-Gives tree limit sound returns g (m ∷ ms) a running among counts =
      elim (Bool-cases (is_legal_move g m)) [
        | inr illegal ↦
            rw (illegal, win_loop)
              (win_loop-Gives tree limit sound returns g ms a running (λ x at. among x (inr at))
                counts)
        | inl legal ↦
            rw (legal, win_loop)
              (>>=-Gives _ _
                (try_move-Gives loss tree limit sound returns a.sub_limit m g counts.below running
                  (among m (inl refl), legal))
                (λ r one.
                  subst
                    (λ h.
                      Gives (win_loop game tree ms (count_subtree a r.outcome r.size) h)
                        (λ x. Unit))
                    (sym one.position)
                    (win_loop-Gives tree limit sound returns g ms (count_subtree a r.outcome r.size)
                      running (λ x at. among x (inr at))
                      (count_subtree-Counts game limit g a m r counts (among m (inl refl), legal)
                        one))))
      ]

  pass_loop-Gives :
      (tree : Search game) (bound share : ℕ)
      → IsSound game win tree
      → ReturnsBelow bound tree
      → share < bound
      → (g : Position) (ms : List Move) (size : ℕ) → is_terminal g ≡ false
      → ((m : Move) → m ∈ ms → m ∈ all_moves game g)
      → 0 < size
      → Gives (pass_loop game tree share ms size g) (λ r.
        (0 < r.1) × (r.2 ≡ g) × ((m : Move) (b : Bool) → (m, b) ∈ r.0 → m ∈ all_moves game g))
  unfolding pass_loop
  pass_loop-Gives tree bound share sound returns small g [] size running among positive =
      (_, refl, (positive, refl, λ m b at. absurd at))
  pass_loop-Gives tree bound share sound returns small g (m ∷ ms) size running among positive =
      elim (Bool-cases (is_legal_move g m)) [
        | inr illegal ↦
            rw (illegal, pass_loop)
              (>>=-Gives _ _
                (pass_loop-Gives tree bound share sound returns small g ms size running
                  (λ x at. among x (inr at)) positive)
                (λ r (above, back, old). (_, refl, (above, back, tabled _ _ old))))
        | inl legal ↦
            rw (legal, pass_loop)
              (>>=-Gives _ _
                (try_move-Gives win tree bound sound returns share m g small running
                  (among m (inl refl), legal))
                (λ r one.
                  >>=-Gives _ _
                    (subst
                      (λ h.
                        Gives
                          (pass_loop game tree share ms
                            (if is_loss r.outcome then size + r.size else size) h)
                          (λ x.
                            (0 < x.1)
                            × (x.2 ≡ g)
                            × ((m : Move) (b : Bool) → (m, b) ∈ x.0 → m ∈ all_moves game g)))
                      (sym one.position)
                      (pass_loop-Gives tree bound share sound returns small g ms
                        (if is_loss r.outcome then size + r.size else size) running
                        (λ x at. among x (inr at)) (ground (arith, positive))))
                    (λ x (above, back, old). (_, refl, (above, back, tabled _ _ old)))))
      ]
    where
      tabled :
          (r : List (Move × Bool)) (c : Bool)
          → ((x : Move) (b : Bool) → (x, b) ∈ r → x ∈ all_moves game g)
          → (x : Move) (b : Bool) → (x, b) ∈ (m, c) ∷ r
          → x ∈ all_moves game g
      tabled r c old x b (inl e) = rw (ap (λ (y : Move × Bool). y.0) e) (among m (inl refl))
      tabled r c old x b (inr at) = old x b at

  rest_loop-Gives :
      (tree : Search game) (limit : ℕ)
      → IsSound game win tree
      → ReturnsBelow limit tree
      → (g : Position) (table : List (Move × Bool)) (size : ℕ) → is_terminal g ≡ false
      → ((m : Move) (b : Bool) → (m, b) ∈ table → m ∈ all_moves game g)
      → 0 < size
      → 0 < limit
      → Gives (rest_loop game tree limit table size g) (λ r. Unit)
  unfolding rest_loop
  rest_loop-Gives tree limit sound returns g [] size running among positive above = (_, refl, tt)
  rest_loop-Gives tree limit sound returns g ((m, passed) ∷ table) size running among positive
        above =
      elim (Bool-cases (is_legal_move g m)) [
        | inr illegal ↦
            rw (illegal, rest_loop)
              (rest_loop-Gives tree limit sound returns g table size running among' positive above)
        | inl legal ↦ elim (Bool-cases passed) [
          | inl pass ↦
              rw (legal, pass, rest_loop)
                (rest_loop-Gives tree limit sound returns g table size running among' positive
                  above)
          | inr open_ ↦
              rw (legal, open_, rest_loop)
                (>>=-Gives _ _
                  (try_move-Gives win tree limit sound returns (limit - size) m g (omega arith)
                    running (among m passed (inl refl), legal))
                  (λ r one. elim (outcome-cases game r.outcome) [
                    | inl e ↦ rw e (
                        subst
                          (λ h.
                            Gives (rest_loop game tree limit table (size + r.size) h) (λ x. Unit))
                          (sym one.position)
                          (rest_loop-Gives tree limit sound returns g table (size + r.size) running
                            among' (omega (arith, positive)) above))
                    | inr (inl e) ↦ rw e (_, refl, tt)
                    | inr (inr e) ↦ rw e (_, refl, tt)
                  ]))
        ]
      ]
    where
      among' : (x : Move) (b : Bool) → (x, b) ∈ table → x ∈ all_moves game g
      among' x b at = among x b (inr at)

  win_body-Gives :
      (tree : Search game) (limit : ℕ) (g : Position)
      → IsSound game loss tree
      → ReturnsBelow limit tree
      → 0 < limit
      → is_terminal g ≡ false
      → Gives (win_body game tree limit g) (λ r. Unit)
  unfolding win_body
  win_body-Gives tree limit g sound returns positive running =
      >>=-Gives _ _
        (win_loop-Gives tree limit sound returns g (all_moves game g)
          (record { best_outcome = loss; tree_size = 1; sub_limit = limit - 1; win_size = 0 })
          running (λ m at. at)
          (record { found = λ e. cc; fits = λ e. cc; below = omega (arith, positive) }))
        (λ r _. (_, refl, tt))

  count_legal-positive :
      (g : Position) (ms : List Move) (m : Move)
      → m ∈ ms
      → is_legal_move g m ≡ true
      → (count_legal game g ms == 0) ≡ false
  unfolding count_legal
  count_legal-positive g [] m at legal = absurd at
  count_legal-positive g (x ∷ ms) m at legal = elim (Bool-cases (is_legal_move g x)) [
    | inl yes' ↦ rw (yes', count_legal) (==_ne (1 + count_legal game g ms) 0 (omega arith))
    | inr no' ↦ elim at [
      | inl e ↦ absurd (true≢false (sym legal ∙ ap (is_legal_move g) e ∙ no'))
      | inr later ↦
          rw (no', count_legal)
            (==_ne (0 + count_legal game g ms) 0 (λ z.
              ==→≢ (count_legal game g ms) 0 (count_legal-positive g ms m later legal)
                (omega (arith, z))))
    ]
  ]

  loss_body-Gives :
      (tree : Search game) (limit : ℕ) (g : Position)
      → AlwaysMoves
      → IsSound game win tree
      → ReturnsBelow limit tree
      → 0 < limit
      → is_terminal g ≡ false
      → Gives (loss_body game tree limit g) (λ r. Unit)
  unfolding loss_body
  loss_body-Gives tree limit g moves sound returns positive running =
      let (m, (at, legal)) = moves g running in
      let n = count_legal game g (all_moves game g) in
      let some_legal = count_legal-positive g (all_moves game g) m at legal in
      let smaller : (limit - 1) / n < limit = omega (arith, div-le_self (limit - 1) n, positive) in
      elim (Bool-cases ((limit - 1) / n == 0)) [
        | inl too_small ↦ rw (some_legal, too_small, loss_body) (_, refl, tt)
        | inr enough ↦
            rw (some_legal, enough, loss_body)
              (>>=-Gives _ _
                (pass_loop-Gives tree limit ((limit - 1) / n) sound returns smaller g
                  (all_moves game g) 1 running (λ m at. at) (omega arith))
                (λ q done. elim (Bool-cases (any_passed game q.0)) [
                  | inr no_pass ↦ rw no_pass (_, refl, tt)
                  | inl pass ↦ rw pass (
                      subst (λ h. Gives (rest_loop game tree limit q.0 q.1 h) (λ x. Unit))
                        (sym done.1)
                        (rest_loop-Gives tree limit sound returns g q.0 q.1 running done.2 done.0
                          positive))
                ]))
      ]

  guarded-Gives :
      (body : Search game) (limit : ℕ) (g : Position)
      → (0 < limit → is_terminal g ≡ false → Gives (body limit g) (λ r. Unit))
      → Gives (guarded game body limit g) (λ r. Unit)
  unfolding guarded
  guarded-Gives body zero g inner = (_, refl, tt)
  guarded-Gives body (suc limit) g inner = elim (Bool-cases (is_terminal g)) [
    | inl over ↦ rw (==_ne (suc limit) 0 (omega arith), over, guarded) (_, refl, tt)
    | inr running ↦
        rw (==_ne (suc limit) 0 (omega arith), running, guarded) (inner (omega arith) running)
  ]

  returns :
      AlwaysMoves
      → (fuel limit : ℕ) (g : Position) → limit ≤ fuel
      → Gives (find_win_tree_size game fuel limit g) (λ r. Unit)
        × Gives (find_loss_tree_size game fuel limit g) (λ r. Unit)
  unfolding find_win_tree_size find_loss_tree_size
  returns moves zero limit g enough = (
    guarded-Gives (λ l h. none) limit g (λ positive. absurd (omega (arith, enough, positive))),
    guarded-Gives (λ l h. none) limit g (λ positive. absurd (omega (arith, enough, positive))),
  )
  returns moves (suc fuel) limit g enough = (
    guarded-Gives _ limit g (
        win_body-Gives (find_loss_tree_size game fuel) limit g (sound game fuel).1
          (λ l h small. (returns moves fuel l h (omega (arith, small, enough))).1)),
    guarded-Gives _ limit g (
        loss_body-Gives (find_win_tree_size game fuel) limit g moves (sound game fuel).0
          (λ l h small. (returns moves fuel l h (omega (arith, small, enough))).0)),
  )

  -- In a game with the laws of Solver.Game, if every running position has a legal move, fuel as
  -- large as the limit is enough: both searches return from every position.
  pub find_tree_size-returns :
      AlwaysMoves
      → (fuel limit : ℕ) (g : Position) → limit ≤ fuel
      → ((r : Solved game) × (find_win_tree_size game fuel limit g ≡ some r))
        × ((r : Solved game) × (find_loss_tree_size game fuel limit g ≡ some r))
  find_tree_size-returns moves fuel limit g enough =
      let (wins, losses) = returns moves fuel limit g enough in
      ((wins.0, wins.1), (losses.0, losses.1))
