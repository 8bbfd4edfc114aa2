-- ===== src/Solver/Depth/Deepening.antt =====
-- Iterative deepening finds the least depth, and `findWinMoves` lists exactly the winning moves.
use proof_cost_network.Base.{
  ℕ, zero, suc, ◌+◌, ◌<◌, ◌≤◌, ◌≡◌, refl, sym, ◌∙◌, ap, ◌↔◌, ◌⊎◌, inl, inr, Bool, true, false,
  arith,
}
use proof_cost_network.Base.{
  List, [], ◌∷◌, ◌++◌, Option, none, some, subst, ◌==◌, ==→≡, ==→≢, Bool-cases,
}
use proof_cost_network.Board.Move.{Move}
use proof_cost_network.Solver.Game.{Game, all_moves, all_moves-InTurn, ◌∈◌}
use proof_cost_network.Solver.Depth.{
  path, loss, deepen, find_win_depth, find_loss_depth, collect_wins, find_win_moves,
}
use proof_cost_network.Solver.Depth.Within.{WinsWithin, LosesWithin}
use proof_cost_network.Solver.Depth.Laws.{ListsMoves, Decides, path-Decides, loss-Decides}

-- The least number from `i` on, below `i + left`, at which `P` holds; `none` if there is none.
abbrev pub IsLeast : (ℕ → Type 0) → ℕ → ℕ → Option ℕ → Type 0
IsLeast P i left none = (j : ℕ) → i ≤ j → j < i + left → ¬ P j
IsLeast P i left (some k) = (k < i + left) × P k × ((j : ℕ) → i ≤ j → j < k → ¬ P j)

mem-append : {A : Type 0} (xs ys : List A) (a : A) → (a ∈ xs ++ ys) ↔ ((a ∈ xs) ⊎ (a ∈ ys))
mem-append [] ys a = (λ at. inr at, elim [ inl at ↦ absurd at | inr at ↦ at ])
mem-append (x ∷ xs) ys a =
    (ground (arith, (mem-append xs ys a).0), ground (arith, (mem-append xs ys a).1))

right_of : {P : Type 0} → ⊥ ⊎ P → P
right_of (inl no_way) = absurd no_way
right_of (inr p) = p

below-skip : (P : ℕ → Type 0) (i j : ℕ) → ¬ P i → (i + 1 ≤ j → ¬ P j) → i ≤ j → ¬ P j
below-skip P i j here later lo p = elim (Bool-cases (i == j)) [
  | inl same ↦ here (subst P (sym (==→≡ i j same)) p)
  | inr other ↦ later (omega (arith, ==→≢ i j other)) p
]

IsLeast-skip :
    (P : ℕ → Type 0) (i left : ℕ) (r : Option ℕ)
    → ¬ P i
    → IsLeast P (i + 1) left r
    → IsLeast P i (suc left) r
IsLeast-skip P i left none here least =
    λ j lo hi. below-skip P i j here (λ l. least j l (omega arith)) lo
IsLeast-skip P i left (some k) here (hi, p, least) =
    (omega arith, p, λ j lo below. below-skip P i j here (λ l. least j l below) lo)

module _ (game : Game) (network : game.Position → List Move) where
  open game use {Position, get_turn_color, is_terminal, is_legal_move, play, undo, undo-play}

  deepen-IsLeast :
      (P : ℕ → Position → Type 0) (test : ℕ → Position → Bool × Position)
      → ((d : ℕ) (g : Position) → Decides game network (P d) (test d g) g)
      → (left i : ℕ) (g : Position)
      → ((deepen game network test left i g).1 ≡ g)
        × IsLeast (λ d. P d g) i left (deepen game network test left i g).0
  unfolding deepen
  deepen-IsLeast P test decides zero i g = (refl, λ j lo hi. absurd (omega arith))
  deepen-IsLeast P test decides (suc left) i g =
      let here = decides i g in
      elim (Bool-cases (test i g).0) [
        | inl found ↦
            rw (deepen, found)
              (here.kept, (omega arith, here.answer.0 found, λ j lo hi. absurd (omega arith)))
        | inr missed ↦
            let (kept, least) = deepen-IsLeast P test decides left (i + 1) g in
            rw (deepen, missed, here.kept)
              (kept, IsLeast-skip (λ d. P d g) i left _ (λ p. cc (here.answer.1 p)) least)
      ]

  module _ (lists : ListsMoves game network) where
    -- In a game with the laws of Solver.Game, where the network lists moves of the player, every
    -- legal one among them: `findWinDepth` restores the position and returns the least depth, up to
    -- the limit, within which the player to move forces a win, or -1 if there is none;
    -- `findLossDepth` does so for a loss.
    pub find_depth-IsLeast :
        (limit : ℕ) (g : Position)
        → (((find_win_depth game network limit g).1 ≡ g)
            × IsLeast
                (λ d. WinsWithin game d g)
                0
                (suc limit)
                (find_win_depth game network limit g).0)
          × (((find_loss_depth game network limit g).1 ≡ g)
              × IsLeast
                  (λ d. LosesWithin game d g)
                  0
                  (suc limit)
                  (find_loss_depth game network limit g).0)
    unfolding find_win_depth find_loss_depth
    find_depth-IsLeast limit g = (
      deepen-IsLeast (WinsWithin game) (path game network) (path-Decides game network lists)
          (suc limit) 0 g,
      deepen-IsLeast (LosesWithin game) (loss game network) (loss-Decides game network lists)
          (suc limit) 0 g,
    )

    -- A position of the list `ps` is the position of a winning move among `ms`.
    abbrev pub Wins : ℕ → Position → List Move → ℕ → Type 0
    Wins d g ms p =
        (m : Move) × (m ∈ ms)
        × (is_legal_move g m ≡ true)
        × LosesWithin game d (play m g)
        × (m.position ≡ p)

    skip_move :
        (d : ℕ) (g : Position) (m : Move) (ms : List Move) (found : List ℕ) (p : ℕ) {Q : Type 0}
        → ¬ ((is_legal_move g m ≡ true) × LosesWithin game d (play m g))
        → Q ↔ ((p ∈ found) ⊎ Wins d g ms p)
        → Q ↔ ((p ∈ found) ⊎ Wins d g (m ∷ ms) p)
    skip_move d g m ms found p no_win (to, from) = (λ q. keep (to q), λ s. from (drop s))
      where
        keep : (p ∈ found) ⊎ Wins d g ms p → (p ∈ found) ⊎ Wins d g (m ∷ ms) p
        keep (inl at) = inl at
        keep (inr (k, at, a, b, c)) = inr (k, inr at, a, b, c)

        drop : (p ∈ found) ⊎ Wins d g (m ∷ ms) p → (p ∈ found) ⊎ Wins d g ms p
        drop (inl at) = inl at
        drop (inr (k, inl e, legal, l, w)) = absurd (no_win (rw e at legal, rw e at l))
        drop (inr (k, inr at, a, b, c)) = inr (k, at, a, b, c)

    take_move :
        (d : ℕ) (g : Position) (m : Move) (ms : List Move) (found : List ℕ) (p : ℕ) {Q : Type 0}
        → is_legal_move g m ≡ true
        → LosesWithin game d (play m g)
        → Q ↔ ((p ∈ found ++ m.position ∷ []) ⊎ Wins d g ms p)
        → Q ↔ ((p ∈ found) ⊎ Wins d g (m ∷ ms) p)
    take_move d g m ms found p legal l (to, from) = (λ q. keep (to q), λ s. from (drop s))
      where
        keep : (p ∈ found ++ m.position ∷ []) ⊎ Wins d g ms p → (p ∈ found) ⊎ Wins d g (m ∷ ms) p
        keep (inl at) = elim ((mem-append found (m.position ∷ []) p).0 at) [
          | inl old ↦ inl old
          | inr (inl e) ↦ inr (m, inl refl, legal, l, sym e)
          | inr (inr nowhere) ↦ absurd nowhere
        ]
        keep (inr (k, at, a, b, c)) = inr (k, inr at, a, b, c)

        drop : (p ∈ found) ⊎ Wins d g (m ∷ ms) p → (p ∈ found ++ m.position ∷ []) ⊎ Wins d g ms p
        drop (inl at) = inl ((mem-append found (m.position ∷ []) p).1 (inl at))
        drop (inr (k, inl e, _, _, w)) = inl (
            (mem-append found (m.position ∷ []) p).1
              (inr (inl (sym w ∙ ap (λ (h : Move). h.position) e))))
        drop (inr (k, inr at, a, b, c)) = inr (k, at, a, b, c)

    collect_wins-lists :
        (d : ℕ) (g : Position) (ms : List Move) (found : List ℕ)
        → is_terminal g ≡ false
        → ((m : Move) → m ∈ ms → m.color ≡ get_turn_color g)
        → ((collect_wins game network d ms found g).1 ≡ g)
          × ((p : ℕ)
              → (p ∈ (collect_wins game network d ms found g).0) ↔ ((p ∈ found) ⊎ Wins d g ms p))
    unfolding collect_wins
    collect_wins-lists d g [] found running mine =
        (refl, λ p. (λ at. inl at, elim [ inl at ↦ at | inr w ↦ absurd w.1 ]))
    collect_wins-lists d g (m ∷ ms) found running mine = elim (Bool-cases (is_legal_move g m)) [
      | inr illegal ↦
          let rest = collect_wins-lists d g ms found running (λ k at. mine k (inr at)) in
          rw (illegal, collect_wins)
            (rest.0, λ p. skip_move d g m ms found p (λ (legal, _). cc) (rest.1 p))
      | inl legal ↦
          let here = loss-Decides game network lists d (play m g) in
          let back = undo-play g m running legal (mine m (inl refl)) in
          elim (Bool-cases (loss game network d (play m g)).0) [
            | inl hit ↦
                let rest =
                  collect_wins-lists d g ms (found ++ m.position ∷ []) running
                    (λ k at. mine k (inr at)) in
                rw (legal, collect_wins, hit, here.kept, back)
                  (rest.0, λ p. take_move d g m ms found p legal (here.answer.0 hit) (rest.1 p))
            | inr miss ↦
                let rest = collect_wins-lists d g ms found running (λ k at. mine k (inr at)) in
                rw (legal, collect_wins, miss, here.kept, back)
                  (
                    rest.0,
                    λ p. skip_move d g m ms found p (λ (_, l). cc (here.answer.1 l)) (rest.1 p),
                  )
          ]
    ]

    -- In a game with the laws of Solver.Game, where the network lists moves of the player, every
    -- legal one among them: on a running position `findWinMoves` restores the position and lists
    -- the position of a move exactly if the move is legal and the opponent loses within the limit
    -- after it.
    pub find_win_moves-lists :
        (d : ℕ) (g : Position)
        → is_terminal g ≡ false
        → ((find_win_moves game network d g).1 ≡ g)
          × ((p : ℕ) → (p ∈ (find_win_moves game network d g).0) ↔ Wins d g (all_moves game g) p)
    unfolding find_win_moves
    find_win_moves-lists d g running =
        let (kept, lists') =
          collect_wins-lists d g (all_moves game g) [] running (all_moves-InTurn game g) in
        (kept, λ p. (λ at. right_of ((lists' p).0 at), λ w. (lists' p).1 (inr w)))
