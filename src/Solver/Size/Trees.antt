-- ===== src/Solver/Size/Trees.antt =====
-- `findLossTreeSize`, and the two searches together.
use native.Mathlib.Nat.{mul-div-le}
use proof_cost_network.Base.{
  ℕ, zero, suc, ◌+◌, ◌-◌, ◌*◌, ◌/◌, ◌<◌, ◌≤◌, ◌≡◌, refl, sym, ◌∙◌, ap, subst, Bool, true, false,
  arith, ◌⊎◌, inl, inr, Bool-cases,
}
use proof_cost_network.Base.{
  List, [], ◌∷◌, none, some, >>=-eq-some, some_inj, none≢some, true≢false, ◌==◌, if◌then◌else◌,
}
use proof_cost_network.Board.Move.{Move}
use proof_cost_network.Solver.Game.{Game, all_moves, Playable, ◌∈◌}
use proof_cost_network.Solver.Size.{
  Outcome, loss, unsolved, win, negated, is_loss, Solved, Search, try_move, count_legal, pass_loop,
  any_passed, rest_loop, loss_body, find_win_tree_size, find_loss_tree_size,
}
use proof_cost_network.Solver.Size.Forced.{Wins, wins_by, loses_all, Holds}
use proof_cost_network.Solver.Size.Laws.{
  Answers, IsSound, try_move-Tried, guarded-IsSound, win_body-Answers,
}

module _ (game : Game) where
  open game use {Position, is_terminal, is_legal_move, play}

  is_loss→≡ : (o : Outcome) → is_loss o ≡ true → o ≡ loss
  is_loss→≡ loss h = refl
  is_loss→≡ unsolved h = cc
  is_loss→≡ win h = cc

  -- A flag in the table says that the opponent wins after the move.
  abbrev AreTrue : Position → List (Move × Bool) → Type 0
  AreTrue g table = (m : Move) (b : Bool) → (m, b) ∈ table → b ≡ true → Wins game (play m g)

  record Passed (share : ℕ) (g : Position) (ms : List Move) (before : ℕ)
      (r : List (Move × Bool) × ℕ × Position) : Type 0 where
    position : r.2 ≡ g
    flags : AreTrue g r.0
    listed : (m : Move) (b : Bool) → (m, b) ∈ r.0 → m ∈ ms
    covered : (m : Move) → m ∈ ms → (b : Bool) × ((m, b) ∈ r.0)
    fits : r.1 ≤ before + count_legal game g ms * share

  size_fits :
      (before share : ℕ) (p : Solved game)
      → (p.outcome ≡ loss → p.size ≤ share)
      → (if is_loss p.outcome then before + p.size else before) ≤ before + share
  size_fits before share p fits = elim (Bool-cases (is_loss p.outcome)) [
    | inl pass ↦ let small = fits (is_loss→≡ p.outcome pass) in rw pass (omega (arith, small))
    | inr other ↦ rw other (omega arith)
  ]

  fits_skip : (x b c s : ℕ) → x ≤ b + c * s → x ≤ b + (0 + c) * s
  fits_skip x b c s h = omega arith

  fits_take : (x size b c s : ℕ) → x ≤ size + c * s → size ≤ b + s → x ≤ b + (1 + c) * s
  fits_take x size b c s h k = omega arith

  pass_loop-Passed :
      (tree : Search game)
      → IsSound game win tree
      → (share : ℕ) (g : Position) (ms : List Move) (before : ℕ) → is_terminal g ≡ false
      → ((m : Move) → m ∈ ms → m ∈ all_moves game g)
      → (r : List (Move × Bool) × ℕ × Position) → pass_loop game tree share ms before g ≡ some r
      → Passed share g ms before r
  unfolding pass_loop negated count_legal
  pass_loop-Passed tree sound share g [] before running among r run =
      subst (λ x. Passed share g [] before x) (some_inj run)
        (record {
          position = refl;
          flags = λ m b at. absurd at;
          listed = λ m b at. absurd at;
          covered = λ m at. absurd at;
          fits = omega arith;
        })
  pass_loop-Passed tree sound share g (m ∷ ms) before running among r run =
      elim (Bool-cases (is_legal_move g m)) [
        | inr illegal ↦
            let (q, looped, last) =
              >>=-eq-some (pass_loop game tree share ms before g) _
                (rw (illegal, pass_loop) at run) in
            let rest =
              pass_loop-Passed tree sound share g ms before running (λ x at. among x (inr at)) q
                looped in
            subst (λ x. Passed share g (m ∷ ms) before x) (some_inj last)
              (record {
                position = rest.position;
                flags = λ x b at t. elim at [
                  | inl e ↦ absurd (true≢false (sym t ∙ ap (λ (y : Move × Bool). y.1) e))
                  | inr later ↦ rest.flags x b later t
                ];
                listed = λ x b at. elim at [
                  | inl e ↦ inl (ap (λ (y : Move × Bool). y.0) e)
                  | inr later ↦ inr (rest.listed x b later)
                ];
                covered = λ x at. elim at [
                  | inl e ↦ (false, inl (ap (λ y. (y, false)) e))
                  | inr later ↦ let (b, there) = rest.covered x later in (b, inr there)
                ];
                fits = rw (illegal, count_legal) (fits_skip q.1 before _ share rest.fits);
              })
        | inl legal ↦
            let (p, tried, next) =
              >>=-eq-some (try_move game tree share m g) _ (rw (legal, pass_loop) at run) in
            let one =
              try_move-Tried game win tree sound share m g p running (among m (inl refl), legal)
                tried in
            let size = if is_loss p.outcome then before + p.size else before in
            let (q, looped, last) =
              >>=-eq-some (pass_loop game tree share ms size p.position) _ next in
            let rest =
              pass_loop-Passed tree sound share g ms size running (λ x at. among x (inr at)) q
                (subst (λ h. pass_loop game tree share ms size h ≡ some q) one.position looped) in
            subst (λ x. Passed share g (m ∷ ms) before x) (some_inj last)
              (record {
                position = rest.position;
                flags = λ x b at t. elim at [
                  | inl e ↦
                      let same = ap (λ (y : Move × Bool). y.0) e in
                      let flag = is_loss→≡ p.outcome (sym (ap (λ (y : Move × Bool). y.1) e) ∙ t) in
                      rw same (one.theirs flag)
                  | inr later ↦ rest.flags x b later t
                ];
                listed = λ x b at. elim at [
                  | inl e ↦ inl (ap (λ (y : Move × Bool). y.0) e)
                  | inr later ↦ inr (rest.listed x b later)
                ];
                covered = λ x at. elim at [
                  | inl e ↦ (is_loss p.outcome, inl (ap (λ y. (y, is_loss p.outcome)) e))
                  | inr later ↦ let (b, there) = rest.covered x later in (b, inr there)
                ];
                fits =
                    rw (legal, count_legal)
                      (fits_take q.1 size before _ share rest.fits
                        (size_fits before share p one.fits));
              })
      ]

  -- The second pass.
  record Rest (limit : ℕ) (g : Position) (table : List (Move × Bool)) (r : Solved game)
      : Type 0 where
    position : r.position ≡ g
    mine : r.outcome ≡ win → Wins game g
    theirs :
        r.outcome ≡ loss
        → (m : Move) (b : Bool) → (m, b) ∈ table
        → is_legal_move g m ≡ true
        → Wins game (play m g)
    fits : r.outcome ≡ loss → r.size ≤ limit

  Rest-more :
      {limit : ℕ} {g : Position} {table : List (Move × Bool)} (m : Move) (passed : Bool)
      (r : Solved game)
      → (is_legal_move g m ≡ true → Wins game (play m g))
      → Rest limit g table r
      → Rest limit g ((m, passed) ∷ table) r
  Rest-more {g = g} m passed r here rest = record {
    position = rest.position;
    mine = rest.mine;
    theirs = λ e x b at legal. elim at [
      | inl same ↦
          let one = ap (λ (y : Move × Bool). y.0) same in
          subst (λ y. Wins game (play y g)) (sym one)
            (here (ap (is_legal_move g) (sym one) ∙ legal))
      | inr later ↦ rest.theirs e x b later legal
    ];
    fits = rest.fits;
  }

  pub outcome-cases : (o : Outcome) → (o ≡ loss) ⊎ (o ≡ unsolved) ⊎ (o ≡ win)
  outcome-cases loss = inl refl
  outcome-cases unsolved = inr (inl refl)
  outcome-cases win = inr (inr refl)

  rest_loop-Rest :
      (tree : Search game)
      → IsSound game win tree
      → (limit : ℕ) (g : Position) (table : List (Move × Bool)) (size : ℕ) → is_terminal g ≡ false
      → AreTrue g table
      → ((m : Move) (b : Bool) → (m, b) ∈ table → m ∈ all_moves game g)
      → size ≤ limit
      → (r : Solved game) → rest_loop game tree limit table size g ≡ some r
      → Rest limit g table r
  unfolding rest_loop negated
  rest_loop-Rest tree sound limit g [] size running flags among small r run =
      subst (λ x. Rest limit g [] x) (some_inj run)
        (record {
          position = refl;
          mine = λ e. cc;
          theirs = λ e m b at. absurd at;
          fits = λ e. small;
        })
  rest_loop-Rest tree sound limit g ((m, passed) ∷ table) size running flags among small r run =
      elim (Bool-cases (is_legal_move g m)) [
        | inr illegal ↦
            Rest-more m passed r (λ legal. absurd (true≢false (sym legal ∙ illegal)))
              (rest_loop-Rest tree sound limit g table size running flags' among' small r
                (rw (illegal, rest_loop) at run))
        | inl legal ↦ elim (Bool-cases passed) [
          | inl pass ↦
              Rest-more m passed r (λ l. flags m passed (inl refl) pass)
                (rest_loop-Rest tree sound limit g table size running flags' among' small r
                  (rw (legal, pass, rest_loop) at run))
          | inr open_ ↦
              let (p, tried, next) =
                >>=-eq-some (try_move game tree (limit - size) m g) _
                  (rw (legal, open_, rest_loop) at run) in
              let one =
                try_move-Tried game win tree sound (limit - size) m g p running
                  (among m passed (inl refl), legal) tried in
              elim (outcome-cases p.outcome) [
                | inl pass ↦
                    let fitting = one.fits pass in
                    Rest-more m passed r (λ l. one.theirs pass)
                      (rest_loop-Rest tree sound limit g table (size + p.size) running flags' among'
                        (omega (arith, fitting, small)) r
                        (subst (λ h. rest_loop game tree limit table (size + p.size) h ≡ some r)
                          one.position (rw pass at next)))
                | inr (inl open') ↦
                    subst (λ x. Rest limit g ((m, passed) ∷ table) x) (some_inj (rw open' at next))
                      (record {
                        position = one.position;
                        mine = λ e. cc;
                        theirs = λ e. cc;
                        fits = λ e. cc;
                      })
                | inr (inr mine) ↦
                    subst (λ x. Rest limit g ((m, passed) ∷ table) x) (some_inj (rw mine at next))
                      (record {
                        position = one.position;
                        mine = λ e.
                            wins_by m running (among m passed (inl refl), legal) (one.mine mine);
                        theirs = λ e. cc;
                        fits = λ e. cc;
                      })
              ]
        ]
      ]
    where
      flags' : AreTrue g table
      flags' x b at t = flags x b (inr at) t

      among' : (x : Move) (b : Bool) → (x, b) ∈ table → x ∈ all_moves game g
      among' x b at = among x b (inr at)

  loss_body-Answers :
      (tree : Search game)
      → IsSound game win tree
      → (limit : ℕ) (g : Position) (r : Solved game) → 0 < limit
      → is_terminal g ≡ false
      → loss_body game tree limit g ≡ some r
      → Answers game loss limit g r
  unfolding loss_body
  loss_body-Answers tree sound limit g r positive running run =
      let n = count_legal game g (all_moves game g) in
      let share = (limit - 1) / n in
      elim (Bool-cases (n == 0)) [
        | inl none_legal ↦ absurd (none≢some (rw (none_legal, loss_body) at run))
        | inr some_legal ↦ elim (Bool-cases (share == 0)) [
          | inl too_small ↦ unsolved_at g r refl (rw (some_legal, too_small, loss_body) at run)
          | inr enough ↦
              let (q, passed, next) =
                >>=-eq-some (pass_loop game tree share (all_moves game g) 1 g) _
                  (rw (some_legal, enough, loss_body) at run) in
              let first =
                pass_loop-Passed tree sound share g (all_moves game g) 1 running (λ m at. at) q
                  passed in
              elim (Bool-cases (any_passed game q.0)) [
                | inr no_pass ↦ unsolved_at q.2 r first.position (rw no_pass at next)
                | inl pass ↦
                    let second =
                      rest_loop-Rest tree sound limit g q.0 q.1 running first.flags first.listed
                        (omega (arith, first.fits, mul-div-le (limit - 1) n, positive)) r
                        (subst (λ h. rest_loop game tree limit q.0 q.1 h ≡ some r) first.position
                          (rw pass at next)) in
                    record {
                      position = second.position;
                      holds = by_outcome r.outcome second.mine (λ e m may.
                          let (b, at) = first.covered m may.0 in second.theirs e m b at may.1);
                      fits = second.fits;
                    }
              ]
        ]
      ]
    where
      unsolved_at :
          (h : Position) (x : Solved game)
          → h ≡ g
          → some (record { outcome = unsolved; size = 0; position = h }) ≡ some x
          → Answers game loss limit g x
      unsolved_at h x here e =
          subst (λ y. Answers game loss limit g y) (some_inj e)
            (record { position = here; holds = tt; fits = λ k. cc })

      by_outcome :
          (o : Outcome)
          → (o ≡ win → Wins game g)
          → (o ≡ loss → (m : Move) → Playable game g m → Wins game (play m g))
          → Holds game g o
      by_outcome win mine theirs = mine refl
      by_outcome loss mine theirs = loses_all running (theirs refl)
      by_outcome unsolved mine theirs = tt

  pub sound :
      (fuel : ℕ)
      → IsSound game win (find_win_tree_size game fuel)
        × IsSound game loss (find_loss_tree_size game fuel)
  unfolding find_win_tree_size find_loss_tree_size
  sound zero = (
    guarded-IsSound game win (λ l h. none) (λ l h r p q e. absurd (none≢some e)),
    guarded-IsSound game loss (λ l h. none) (λ l h r p q e. absurd (none≢some e)),
  )
  sound (suc fuel) =
      let (wins, losses) = sound fuel in
      (
        guarded-IsSound game win _ (win_body-Answers game (find_loss_tree_size game fuel) losses),
        guarded-IsSound game loss _ (loss_body-Answers (find_win_tree_size game fuel) wins),
      )
