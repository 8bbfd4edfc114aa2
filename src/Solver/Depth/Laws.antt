-- ===== src/Solver/Depth/Laws.antt =====
-- The two depth-limited searches decide exactly the forced wins and losses within the limit.
use proof_cost_network.Base.{ℕ, zero, suc, ◌≡◌, refl, ◌↔◌, ◌⊎◌, inl, inr, Bool, true, false}
use proof_cost_network.Base.{List, [], ◌∷◌, Bool-cases, leb, ltb}
use proof_cost_network.Base.Int.{pos, negsuc}
use proof_cost_network.Board.Color.{Color, eqb, eqb→≡, eqb→≢, eqb_self}
use proof_cost_network.Board.Move.{Move}
use proof_cost_network.Solver.Game.{Game, all_moves, Playable, all_moves-InTurn, ◌∈◌}
use proof_cost_network.Solver.Depth.{
  any_reply, all_replies, must_loss_now, look_ahead, ordered, path, loss, find_winning_path,
  must_loss_within, depth_for_network,
}
use proof_cost_network.Solver.Depth.Within.{WinsWithin, LosesWithin, won, wins_by, lost, loses_all}

-- The network lists moves of the player, and every legal one.
abbrev pub ListsMoves : (game : Game) → (game.Position → List Move) → Type 0
ListsMoves game network =
    (g : game.Position) (m : Move)
    → (m ∈ network g → m ∈ all_moves game g) × (Playable game g m → m ∈ network g)

module _ (game : Game) (network : game.Position → List Move) where
  open game use {Position, get_turn_color, is_terminal, eval, is_legal_move, play, undo, undo-play}

  -- A search leaves the position as it was, and answers whether `P` holds there.
  pub record Decides (P : Position → Type 0) (r : Bool × Position) (g : Position) : Type 0 where
    pub kept : r.1 ≡ g
    pub answer : (r.0 ≡ true) ↔ P g

  -- Some legal move of the list leads to a position in `P`; all of them do.
  abbrev Some : (Position → Type 0) → List Move → Position → Type 0
  Some P ms g = (m : Move) × (m ∈ ms) × (is_legal_move g m ≡ true) × P (play m g)

  abbrev Every : (Position → Type 0) → List Move → Position → Type 0
  Every P ms g = (m : Move) → m ∈ ms → is_legal_move g m ≡ true → P (play m g)

  Some-skip :
      (P : Position → Type 0) (m : Move) (ms : List Move) (g : Position)
      → ¬ ((is_legal_move g m ≡ true) × P (play m g))
      → Some P ms g ↔ Some P (m ∷ ms) g
  Some-skip P m ms g none_here = (
    λ (k, at, legal, p). (k, inr at, legal, p),
    λ (k, at, legal, p). elim at [
      | inl e ↦ absurd (none_here (rw e at legal, rw e at p))
      | inr later ↦ (k, later, legal, p)
    ],
  )

  module _ (P : Position → Type 0) (test : Position → Bool × Position)
      (decides : (g : Position) → Decides P (test g) g) (g : Position)
      (running : is_terminal g ≡ false) where
    -- The moves of a list are the player's.
    abbrev InTurn : List Move → Type 0
    InTurn ms = (m : Move) → m ∈ ms → m.color ≡ get_turn_color g

    back :
        (m : Move)
        → is_legal_move g m ≡ true
        → m.color ≡ get_turn_color g
        → undo (test (play m g)).1 ≡ g
    back m legal mover = rw (decides (play m g)).kept (undo-play g m running legal mover)

    any_reply-Decides :
        (ms : List Move) → InTurn ms → Decides (Some P ms) (any_reply game network test ms g) g
    unfolding any_reply
    any_reply-Decides [] mine = record {
      kept = refl;
      answer = (λ h. cc, λ (m, at, _, _). absurd at);
    }
    any_reply-Decides (m ∷ ms) mine =
        let rest = any_reply-Decides ms (λ k at. mine k (inr at)) in
        let here = decides (play m g) in
        elim (Bool-cases (is_legal_move g m)) [
          | inr illegal ↦
              let same = Some-skip P m ms g (λ (legal, _). cc) in
              rw (illegal, any_reply)
                (record {
                  kept = rest.kept;
                  answer = (λ h. same.0 (rest.answer.0 h), λ w. rest.answer.1 (same.1 w));
                })
          | inl legal ↦ elim (Bool-cases (test (play m g)).0) [
            | inl hit ↦
                rw (legal, any_reply, hit, back m legal (mine m (inl refl)))
                  (record {
                    kept = refl;
                    answer = (λ _. (m, inl refl, legal, here.answer.0 hit), λ _. refl);
                  })
            | inr missed ↦
                let same = Some-skip P m ms g (λ (_, p). cc (here.answer.1 p)) in
                rw (legal, any_reply, missed, back m legal (mine m (inl refl)))
                  (record {
                    kept = rest.kept;
                    answer = (λ h. same.0 (rest.answer.0 h), λ w. rest.answer.1 (same.1 w));
                  })
          ]
        ]

    all_replies-Decides :
        (ms : List Move) → InTurn ms → Decides (Every P ms) (all_replies game network test ms g) g
    unfolding all_replies
    all_replies-Decides [] mine = record { kept = refl; answer = (λ _ m at. absurd at, λ _. refl) }
    all_replies-Decides (m ∷ ms) mine =
        let rest = all_replies-Decides ms (λ k at. mine k (inr at)) in
        let here = decides (play m g) in
        elim (Bool-cases (is_legal_move g m)) [
          | inr illegal ↦
              rw (illegal, all_replies)
                (record {
                  kept = rest.kept;
                  answer = (
                    λ h. Every-cons m ms (λ legal. cc) (rest.answer.0 h),
                    λ w. rest.answer.1 (λ k at. w k (inr at)),
                  );
                })
          | inl legal ↦ elim (Bool-cases (test (play m g)).0) [
            | inl hit ↦
                rw (legal, all_replies, hit, back m legal (mine m (inl refl)))
                  (record {
                    kept = rest.kept;
                    answer = (
                      λ h. Every-cons m ms (λ _. here.answer.0 hit) (rest.answer.0 h),
                      λ w. rest.answer.1 (λ k at. w k (inr at)),
                    );
                  })
            | inr missed ↦
                rw (legal, all_replies, missed, back m legal (mine m (inl refl)))
                  (record {
                    kept = refl;
                    answer = (λ h. cc, λ w. cc (here.answer.1 (w m (inl refl) legal)));
                  })
          ]
        ]
      where
        Every-cons :
            (m : Move) (ms : List Move)
            → (is_legal_move g m ≡ true → P (play m g))
            → Every P ms g
            → Every P (m ∷ ms) g
        Every-cons m ms first others k (inl e) legal = rw e (first (rw e at legal))
        Every-cons m ms first others k (inr at) legal = others k at legal

  won_over :
      (d : ℕ) (g : Position)
      → is_terminal g ≡ true
      → WinsWithin game d g
      → eval g ≡ get_turn_color g
  won_over d g over (won _ e) = e
  won_over _ g over (wins_by m running _ _) = cc (over, running)

  lost_over :
      (d : ℕ) (g : Position)
      → is_terminal g ≡ true
      → LosesWithin game d g
      → ¬ ((eval g ≡ get_turn_color g) ⊎ (eval g ≡ Color.none))
  lost_over d g over (lost _ a b) (inl e) = a e
  lost_over d g over (lost _ a b) (inr e) = b e
  lost_over _ g over (loses_all running _) e = cc (over, running)

  move_of :
      (d : ℕ) (g : Position)
      → is_terminal g ≡ false
      → WinsWithin game (suc d) g
      → (m : Move) × Playable game g m × LosesWithin game d (play m g)
  move_of d g running (won over _) = cc (over, running)
  move_of d g running (wins_by m _ playable l) = (m, playable, l)

  moves_of :
      (d : ℕ) (g : Position)
      → is_terminal g ≡ false
      → LosesWithin game (suc d) g
      → (m : Move) → Playable game g m
      → WinsWithin game d (play m g)
  moves_of d g running (lost over _ _) = cc (over, running)
  moves_of d g running (loses_all _ wins) = wins

  terminal_win :
      (d : ℕ) (g : Position)
      → is_terminal g ≡ true
      → Decides (WinsWithin game d) (eqb (eval g) (get_turn_color g), g) g
  terminal_win d g over = record {
    kept = refl;
    answer = (λ h. won over (eqb→≡ _ _ h), λ w. rw (won_over d g over w) (eqb_self _));
  }

  terminal_loss :
      (d : ℕ) (g : Position)
      → is_terminal g ≡ true
      → Decides (LosesWithin game d) (must_loss_now game network g) g
  unfolding must_loss_now
  terminal_loss d g over = elim (Bool-cases (eqb (eval g) (get_turn_color g))) [
    | inl mine ↦
        rw (over, must_loss_now, mine)
          (record {
            kept = refl;
            answer = (λ h. cc, λ w. absurd (lost_over d g over w (inl (eqb→≡ _ _ mine))));
          })
    | inr other ↦ elim (Bool-cases (eqb (eval g) Color.none)) [
      | inl draw ↦
          rw (over, must_loss_now, other, draw)
            (record {
              kept = refl;
              answer = (λ h. cc, λ w. absurd (lost_over d g over w (inr (eqb→≡ _ _ draw))));
            })
      | inr decided ↦
          rw (over, must_loss_now, other, decided)
            (record {
              kept = refl;
              answer = (λ _. lost over (eqb→≢ _ _ other) (eqb→≢ _ _ decided), λ _. refl);
            })
    ]
  ]

  not_yet_win : (g : Position) → is_terminal g ≡ false → ¬ WinsWithin game zero g
  not_yet_win g running (won over _) = cc (over, running)

  not_yet_loss : (g : Position) → is_terminal g ≡ false → ¬ LosesWithin game zero g
  not_yet_loss g running (lost over _ _) = cc (over, running)

  later : (d : ℕ) (g : Position) → LosesWithin game zero g → LosesWithin game d g
  later d g (lost over a b) = lost over a b

  must_loss_now-Decides :
      (g : Position) → Decides (LosesWithin game zero) (must_loss_now game network g) g
  unfolding must_loss_now
  must_loss_now-Decides g = elim (Bool-cases (is_terminal g)) [
    | inl over ↦ terminal_loss zero g over
    | inr running ↦
        rw (running, must_loss_now)
          (record { kept = refl; answer = (λ h. cc, λ w. absurd (not_yet_loss g running w)) })
  ]

  look_ahead-finds :
      (d : ℕ) (g : Position)
      → is_terminal g ≡ false
      → ((look_ahead game network (suc d) g).1 ≡ g)
        × ((look_ahead game network (suc d) g).0 ≡ true → WinsWithin game (suc d) g)
  unfolding look_ahead
  look_ahead-finds d g running = elim (Bool-cases (ltb 1 (suc d))) [
    | inr shallow ↦ rw (shallow, look_ahead) (refl, λ h. cc)
    | inl deep ↦
        let r =
          any_reply-Decides (LosesWithin game zero) (must_loss_now game network)
            must_loss_now-Decides g running (all_moves game g) (all_moves-InTurn game g) in
        rw (deep, look_ahead)
          (
            r.kept,
            λ h.
                let (m, at, legal, l) = r.answer.0 h in
                wins_by m running (at, legal) (later d (play m g) l),
          )
  ]

  module _ (lists : ListsMoves game network) where
    ordered-lists :
        (d : ℕ) (g : Position) (m : Move)
        → (m ∈ ordered game network d g → m ∈ all_moves game g)
          × (Playable game g m → m ∈ ordered game network d g)
    unfolding ordered
    ordered-lists d g m = elim (Bool-cases (leb depth_for_network d)) [
      | inl deep ↦ rw (deep, ordered) (lists g m)
      | inr shallow ↦ rw (shallow, ordered) (λ at. at, λ p. p.0)
    ]

    ordered-InTurn :
        (d : ℕ) (g : Position) (m : Move)
        → m ∈ ordered game network d g
        → m.color ≡ get_turn_color g
    ordered-InTurn d g m at = all_moves-InTurn game g m ((ordered-lists d g m).0 at)

    win_by :
        (d : ℕ) (g : Position)
        → is_terminal g ≡ false
        → Some (LosesWithin game d) (ordered game network (suc d) g) g
        → WinsWithin game (suc d) g
    win_by d g running (m, at, legal, l) =
        wins_by m running ((ordered-lists (suc d) g m).0 at, legal) l

    win_move :
        (d : ℕ) (g : Position)
        → is_terminal g ≡ false
        → WinsWithin game (suc d) g
        → Some (LosesWithin game d) (ordered game network (suc d) g) g
    win_move d g running w =
        let (m, playable, l) = move_of d g running w in
        (m, (ordered-lists (suc d) g m).1 playable, playable.1, l)

    all_lose :
        (d : ℕ) (g : Position)
        → is_terminal g ≡ false
        → Every (WinsWithin game d) (ordered game network (suc d) g) g
        → LosesWithin game (suc d) g
    all_lose d g running wins =
        loses_all running (λ m playable. wins m ((ordered-lists (suc d) g m).1 playable) playable.1)

    mutual
      unfolding path loss

      pub path-Decides :
          (d : ℕ) (g : Position) → Decides (WinsWithin game d) (path game network d g) g
      path-Decides zero g = elim (Bool-cases (is_terminal g)) [
        | inl over ↦ rw (over, path) (terminal_win zero g over)
        | inr running ↦
            rw (running, path)
              (record { kept = refl; answer = (λ h. cc, λ w. absurd (not_yet_win g running w)) })
      ]
      path-Decides (suc d) g = elim (Bool-cases (is_terminal g)) [
        | inl over ↦ rw (over, path) (terminal_win (suc d) g over)
        | inr running ↦
            let look = look_ahead-finds d g running in
            let r =
              any_reply-Decides (LosesWithin game d) (loss game network d) (λ h. loss-Decides d h) g
                running (ordered game network (suc d) g) (ordered-InTurn (suc d) g) in
            elim (Bool-cases (look_ahead game network (suc d) g).0) [
              | inl seen ↦
                  rw (running, path, seen)
                    (record { kept = look.0; answer = (λ _. look.1 seen, λ _. refl) })
              | inr unseen ↦
                  rw (running, path, unseen, look.0)
                    (record {
                      kept = r.kept;
                      answer = (
                        λ h. win_by d g running (r.answer.0 h),
                        λ w. r.answer.1 (win_move d g running w),
                      );
                    })
            ]
      ]

      pub loss-Decides :
          (d : ℕ) (g : Position) → Decides (LosesWithin game d) (loss game network d g) g
      loss-Decides zero g = must_loss_now-Decides g
      loss-Decides (suc d) g = elim (Bool-cases (is_terminal g)) [
        | inl over ↦ rw (over, loss) (terminal_loss (suc d) g over)
        | inr running ↦
            let r =
              all_replies-Decides (WinsWithin game d) (path game network d) (λ h. path-Decides d h)
                g running (ordered game network (suc d) g) (ordered-InTurn (suc d) g) in
            rw (running, loss)
              (record {
                kept = r.kept;
                answer = (
                  λ h. all_lose d g running (r.answer.0 h),
                  λ w. r.answer.1 (λ m at legal.
                      moves_of d g running w m ((ordered-lists (suc d) g m).0 at, legal)),
                );
              })
      ]

    -- In a game with the laws of Solver.Game, where the network lists moves of the player, every
    -- legal one among them: at every depth limit that is not negative, `findWinningPath` restores
    -- the position, and returns true exactly when the player to move forces a win within the limit,
    -- and `mustLossWithin` does so for a forced loss; at a negative limit both return false.
    pub find_winning_path-Decides :
        (g : Position)
        → ((d : ℕ)
            → Decides (WinsWithin game d) (find_winning_path game network (pos d) g) g
              × Decides (LosesWithin game d) (must_loss_within game network (pos d) g) g)
          × ((d : ℕ)
              → (find_winning_path game network (negsuc d) g ≡ (false, g))
                × (must_loss_within game network (negsuc d) g ≡ (false, g)))
    unfolding find_winning_path must_loss_within
    find_winning_path-Decides g = (λ d. (path-Decides d g, loss-Decides d g), λ d. (refl, refl))
