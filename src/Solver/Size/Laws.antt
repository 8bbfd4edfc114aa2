-- ===== src/Solver/Size/Laws.antt =====
-- What the two searches find is a forced win or loss, and the tree that they count fits the limit.
use proof_cost_network.Base.{
  ℕ, zero, suc, ◌+◌, ◌-◌, ◌<◌, ◌≤◌, ◌≡◌, ◌≢◌, refl, sym, ◌∙◌, ap, subst, true, false, arith, ◌⊎◌,
  inl, inr, Bool-cases,
}
use proof_cost_network.Base.{List, [], ◌∷◌, some, >>=-eq-some, some_inj, true≢false, ==_ne, ◌==◌}
use proof_cost_network.Board.Color
use proof_cost_network.Board.Color.{eqb, eqb→≡, eqb→≢}
use proof_cost_network.Board.Move.{Move}
use proof_cost_network.Solver.Game.{Game, all_moves, Playable, all_moves-InTurn, ◌∈◌}
use proof_cost_network.Solver.Size.{
  Outcome, loss, unsolved, win, negated, max_outcome, is_win, WinLoop, count_subtree, Solved,
  Search, ended, try_move, win_loop, win_body, guarded,
}
use proof_cost_network.Solver.Size.Forced.{Wins, Loses, won, wins_by, lost, loses_all, Holds}

module _ (game : Game) where
  open game use {Position, get_turn_color, is_terminal, eval, is_legal_move, play, undo}

  -- An answer of the limit: the position is as before, the outcome holds of it, and a tree of the
  -- outcome `o` has at most that size.
  pub record Answers (o : Outcome) (limit : ℕ) (g : Position) (r : Solved game) : Type 0 where
    pub position : r.position ≡ g
    pub holds : Holds game g r.outcome
    pub fits : r.outcome ≡ o → r.size ≤ limit

  abbrev pub IsSound : Outcome → Search game → Type 0
  IsSound o tree =
      (limit : ℕ) (g : Position) (r : Solved game) → tree limit g ≡ some r → Answers o limit g r

  ended-Answers :
      (o : Outcome) (limit : ℕ) (g : Position)
      → 0 < limit
      → is_terminal g ≡ true
      → Answers o limit g (ended game g)
  unfolding ended
  ended-Answers o limit g h over = elim (Bool-cases (eqb (eval g) (get_turn_color g))) [
    | inl mine ↦
        rw (mine, ended)
          (record { position = refl; holds = won over (eqb→≡ _ _ mine); fits = λ e. h })
    | inr other ↦ elim (Bool-cases (eqb (eval g) Color.none)) [
      | inl draw ↦ rw (other, draw, ended) (record { position = refl; holds = tt; fits = λ e. h })
      | inr theirs ↦
          rw (other, theirs, ended)
            (record {
              position = refl;
              holds = lost over (eqb→≢ _ _ other) (eqb→≢ _ _ theirs);
              fits = λ e. h;
            })
    ]
  ]

  pub guarded-IsSound :
      (o : Outcome) (body : Search game)
      → ((limit : ℕ) (g : Position) (r : Solved game)
          → 0 < limit
          → is_terminal g ≡ false
          → body limit g ≡ some r
          → Answers o limit g r)
      → IsSound o (guarded game body)
  unfolding guarded
  guarded-IsSound o body sound zero g r run =
      subst (λ x. Answers o 0 g x) (some_inj run)
        (record { position = refl; holds = tt; fits = λ e. omega arith })
  guarded-IsSound o body sound (suc limit) g r run = elim (Bool-cases (is_terminal g)) [
    | inl over ↦
        subst (λ x. Answers o (suc limit) g x) (some_inj (rw (over, positive, guarded) at run))
          (ended-Answers o (suc limit) g (omega arith) over)
    | inr running ↦
        sound (suc limit) g r (omega arith) running (rw (running, positive, guarded) at run)
  ]
    where
      positive : (suc limit == 0) ≡ false
      positive = ==_ne (suc limit) 0 (omega arith)

  -- What a tried move shows: the outcome is the player's, so the opponent's is the other one.
  pub record Tried (limit : ℕ) (m : Move) (g : Position) (o : Outcome) (r : Solved game)
      : Type 0 where
    pub position : r.position ≡ g
    pub mine : r.outcome ≡ win → Loses game (play m g)
    pub theirs : r.outcome ≡ loss → Wins game (play m g)
    pub fits : r.outcome ≡ o → r.size ≤ limit

  negated-win : (o : Outcome) → negated o ≡ win → o ≡ loss
  unfolding negated
  negated-win loss e = refl
  negated-win unsolved e = cc
  negated-win win e = cc

  negated-loss : (o : Outcome) → negated o ≡ loss → o ≡ win
  unfolding negated
  negated-loss loss e = cc
  negated-loss unsolved e = cc
  negated-loss win e = refl

  negated-negated : (o : Outcome) → negated (negated o) ≡ o
  unfolding negated
  negated-negated loss = refl
  negated-negated unsolved = refl
  negated-negated win = refl

  pub try_move-Tried :
      (o : Outcome) (tree : Search game)
      → IsSound o tree
      → (limit : ℕ) (m : Move) (g : Position) (r : Solved game) → is_terminal g ≡ false
      → Playable game g m
      → try_move game tree limit m g ≡ some r
      → Tried limit m g (negated o) r
  unfolding try_move
  try_move-Tried o tree sound limit m g r running may run =
      let (q, searched, rest) = >>=-eq-some (tree limit (play m g)) _ run in
      let answer = sound limit (play m g) q searched in
      subst (λ x. Tried limit m g (negated o) x) (some_inj rest)
        (record {
          position =
              ap undo answer.position
              ∙ game.undo-play g m running may.1 (all_moves-InTurn game g m may.0);
          mine = λ e. subst (λ x. Holds game (play m g) x) (negated-win q.outcome e) answer.holds;
          theirs =
              λ e. subst (λ x. Holds game (play m g) x) (negated-loss q.outcome e) answer.holds;
          fits =
              λ e. answer.fits (sym (negated-negated q.outcome) ∙ ap negated e ∙ negated-negated o);
        })

  -- What the loop of `findWinTreeSize` keeps below a limit.
  pub record Counts (limit : ℕ) (g : Position) (a : WinLoop) : Type 0 where
    pub found : a.best_outcome ≡ win → (m : Move) × Playable game g m × Loses game (play m g)
    pub fits : a.best_outcome ≡ win → 1 + a.win_size ≤ limit
    pub below : a.sub_limit < limit

  max-win : (a b : Outcome) → max_outcome a b ≡ win → (a ≡ win) ⊎ (b ≡ win)
  unfolding max_outcome
  max-win win b e = inl refl
  max-win loss b e = inr e
  max-win unsolved win e = inr refl
  max-win unsolved loss e = cc
  max-win unsolved unsolved e = cc

  max-loss : (a b : Outcome) → max_outcome a b ≡ loss → (a ≡ loss) × (b ≡ loss)
  unfolding max_outcome
  max-loss win b e = cc
  max-loss loss b e = (refl, e)
  max-loss unsolved win e = cc
  max-loss unsolved loss e = cc
  max-loss unsolved unsolved e = cc

  is_win→≡ : (o : Outcome) → is_win o ≡ true → o ≡ win
  is_win→≡ loss h = cc
  is_win→≡ unsolved h = cc
  is_win→≡ win h = refl

  not_win : (o : Outcome) → is_win o ≡ false → o ≢ win
  not_win loss h e = cc
  not_win unsolved h e = cc
  not_win win h e = cc

  pub count_subtree-Counts :
      (limit : ℕ) (g : Position) (a : WinLoop) (m : Move) (r : Solved game)
      → Counts limit g a
      → Playable game g m
      → Tried a.sub_limit m g win r
      → Counts limit g (count_subtree a r.outcome r.size)
  unfolding count_subtree
  count_subtree-Counts limit g a m r before may tried = record {
    found = λ e. elim (max-win a.best_outcome r.outcome e) [
      | inl old ↦ before.found old
      | inr new ↦ (m, may, tried.mine new)
    ];
    fits = λ e. sizes.0 (max-win a.best_outcome r.outcome e);
    below = sizes.1;
  }
    where
      sizes :
          ((a.best_outcome ≡ win) ⊎ (r.outcome ≡ win)
            → 1 + (count_subtree a r.outcome r.size).win_size ≤ limit)
          × ((count_subtree a r.outcome r.size).sub_limit < limit)
      sizes = elim (Bool-cases (is_win r.outcome)) [
        | inl new ↦
            let small : r.size ≤ a.sub_limit = tried.fits (is_win→≡ r.outcome new) in
            elim (Bool-cases (is_win a.best_outcome)) [
              | inl old ↦
                  rw (new, old, count_subtree)
                    (λ e. grind (arith, before.below), grind (arith, before.below))
              | inr first ↦
                  rw (new, first, count_subtree)
                    (λ e. omega (arith, before.below), omega (arith, before.below))
            ]
        | inr same ↦
            rw (same, count_subtree)
              (
                λ e. elim e [
                  | inl old ↦ before.fits old
                  | inr new ↦ absurd (not_win r.outcome same new)
                ],
                before.below,
              )
      ]

  -- The loop of `findWinTreeSize` over moves of the player.
  record Ended (limit : ℕ) (g : Position) (ms : List Move) (a : WinLoop) (r : WinLoop × Position)
      : Type 0 where
    position : r.1 ≡ g
    counts : Counts limit g r.0
    all_lost :
        r.0.best_outcome ≡ loss
        → (a.best_outcome ≡ loss)
          × ((m : Move) → m ∈ ms → is_legal_move g m ≡ true → Wins game (play m g))

  win_loop-Ended :
      (tree : Search game)
      → IsSound loss tree
      → (limit : ℕ) (g : Position) (ms : List Move) (a : WinLoop) → is_terminal g ≡ false
      → ((m : Move) → m ∈ ms → m ∈ all_moves game g)
      → Counts limit g a
      → (r : WinLoop × Position) → win_loop game tree ms a g ≡ some r
      → Ended limit g ms a r
  unfolding win_loop negated count_subtree
  win_loop-Ended tree sound limit g [] a running among before r run =
      subst (λ x. Ended limit g [] a x) (some_inj run)
        (record { position = refl; counts = before; all_lost = λ e. (e, λ m at. absurd at) })
  win_loop-Ended tree sound limit g (m ∷ ms) a running among before r run =
      elim (Bool-cases (is_legal_move g m)) [
        | inr illegal ↦
            let rest =
              win_loop-Ended tree sound limit g ms a running (λ x at. among x (inr at)) before r
                (rw (illegal, win_loop) at run) in
            record {
              position = rest.position;
              counts = rest.counts;
              all_lost = λ e.
                  let (old, others) = rest.all_lost e in
                  (
                    old,
                    λ x at legal. elim at [
                      | inl here ↦
                          absurd (true≢false (sym legal ∙ ap (is_legal_move g) here ∙ illegal))
                      | inr later ↦ others x later legal
                    ],
                  );
            }
        | inl legal ↦
            let (q, tried, next) =
              >>=-eq-some (try_move game tree a.sub_limit m g) _ (rw (legal, win_loop) at run) in
            let may : Playable game g m = (among m (inl refl), legal) in
            let one = try_move-Tried loss tree sound a.sub_limit m g q running may tried in
            let after = count_subtree-Counts limit g a m q before may one in
            let rest =
              win_loop-Ended tree sound limit g ms (count_subtree a q.outcome q.size) running
                (λ x at. among x (inr at)) after r
                (subst (λ h. win_loop game tree ms (count_subtree a q.outcome q.size) h ≡ some r)
                  one.position next) in
            record {
              position = rest.position;
              counts = rest.counts;
              all_lost = λ e.
                  let (both, others) = rest.all_lost e in
                  let (old, this) = max-loss a.best_outcome q.outcome both in
                  (
                    old,
                    λ x at legal'. elim at [
                      | inl here ↦ rw here (one.theirs this)
                      | inr later ↦ others x later legal'
                    ],
                  );
            }
      ]

  -- A win that `findWinTreeSize` reports is forced, and its tree fits the limit; a loss is forced.
  pub win_body-Answers :
      (tree : Search game)
      → IsSound loss tree
      → (limit : ℕ) (g : Position) (r : Solved game) → 0 < limit
      → is_terminal g ≡ false
      → win_body game tree limit g ≡ some r
      → Answers win limit g r
  unfolding win_body
  win_body-Answers tree sound limit g r positive running run =
      let start : WinLoop = record {
        best_outcome = loss;
        tree_size = 1;
        sub_limit = limit - 1;
        win_size = 0;
      } in
      let (q, looped, rest) = >>=-eq-some (win_loop game tree (all_moves game g) start g) _ run in
      let before : Counts limit g start = record {
        found = λ e. cc;
        fits = λ e. cc;
        below = omega (arith, positive);
      } in
      let end =
        win_loop-Ended tree sound limit g (all_moves game g) start running (λ m at. at) before q
          looped in
      subst (λ x. Answers win limit g x) (some_inj rest)
        (record {
          position = end.position;
          holds = by_outcome q.0.best_outcome end.counts.found (λ e. (end.all_lost e).1);
          fits = λ e. rw e (end.counts.fits e);
        })
    where
      by_outcome :
          (o : Outcome)
          → (o ≡ win → (m : Move) × Playable game g m × Loses game (play m g))
          → (o ≡ loss
              → (m : Move) → m ∈ all_moves game g
              → is_legal_move g m ≡ true
              → Wins game (play m g))
          → Holds game g o
      by_outcome win found others =
          let (m, may, theirs) = found refl in wins_by m running may theirs
      by_outcome loss found others = loses_all running (λ m may. others refl m may.0 may.1)
      by_outcome unsolved found others = tt
