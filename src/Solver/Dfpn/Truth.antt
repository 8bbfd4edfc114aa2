-- ===== src/Solver/Dfpn/Truth.antt =====
-- Every status in the table is true of every position with the key of its entry.
use proof_cost_network.Base.{
  ℕ, ◌≡◌, sym, ◌∙◌, ap, subst, ◌↔◌, true, false, List, some, >>=-eq-some, some_inj, true≢false, map,
  arith, inl, inr, Option-cases,
}
use proof_cost_network.Base.{get_or, set, get_or-set_cases}
use proof_cost_network.Board.Color.{Color}
use proof_cost_network.Board.Move.{Move}
use proof_cost_network.Storage.OpenAddress.{Entry, entry_at, out_of_range}
use proof_cost_network.Storage.OpenAddress.Laws.{lookup-hit, store-written, stored}
use proof_cost_network.Solver.Game.{Game, Playable, ◌∈◌}
use proof_cost_network.Solver.Double.{Double}
use proof_cost_network.Solver.TreeNode.{
  TreeNode, SolutionStatus, solution_unknown, solution_win, solution_loss,
}
use proof_cost_network.Solver.Dfpn.Numbers.{
  Configure, PnsMode, vanilla_pns, policy_pns, focused_pns,
}
use proof_cost_network.Solver.Dfpn.Entries.{
  Environment, DfpnTtEntry, TtTable, clean_entry, get_tt_entry, set_tt_entry, store_tt_entry,
  get_tt_entry_index,
}
use proof_cost_network.Solver.Dfpn.Mid.{save, entry_for}
use proof_cost_network.Solver.Dfpn.Semantics.{MoverWins, MoverLoses, IsCorrect}

module _ (game : Game) (double : Double) where
  open game use {Position, is_terminal, get_tt_hash_key, eval, play}
  open double use {D}

  -- Positions with one key are alike: they end together, offer the same moves, and have one value.
  pub record KeyIdentifies : Type 0 where
    pub same_end :
        (g h : Position) → get_tt_hash_key g ≡ get_tt_hash_key h → is_terminal g ≡ is_terminal h
    pub same_moves :
        (g h : Position)
        → get_tt_hash_key g ≡ get_tt_hash_key h
        → (m : Move) → Playable game g m
        → Playable game h m
    pub same_wins :
        (g h : Position)
        → get_tt_hash_key g ≡ get_tt_hash_key h
        → MoverWins game g
        → MoverWins game h
    pub same_loses :
        (g h : Position)
        → get_tt_hash_key g ≡ get_tt_hash_key h
        → MoverLoses game g
        → MoverLoses game h

  abbrev pub moves_of : List (Move × D) → List Move
  moves_of cs = map (λ (c : Move × D). c.0) cs

  -- The list has exactly the legal moves.
  abbrev pub AreMoves : Position → List Move → Type 0
  AreMoves g ms = (m : Move) → (m ∈ ms) ↔ Playable game g m

  -- Only the modes with a network keep candidates.
  abbrev pub Covers : PnsMode → Position → List (Move × D) → Type 0
  Covers vanilla_pns g cs = Unit
  Covers policy_pns g cs = is_terminal g ≡ false → AreMoves g (moves_of cs)
  Covers focused_pns g cs = is_terminal g ≡ false → AreMoves g (moves_of cs)

  moves-alike :
      KeyIdentifies
      → (g h : Position) (cs : List (Move × D)) → get_tt_hash_key h ≡ get_tt_hash_key g
      → (is_terminal g ≡ false → AreMoves g (moves_of cs))
      → is_terminal h ≡ false
      → AreMoves h (moves_of cs)
  moves-alike ids g h cs e v running m =
      let same = v (sym (ids.same_end h g e) ∙ running) m in
      (λ i. ids.same_moves g h (sym e) m (same.0 i), λ p. same.1 (ids.same_moves h g e m p))

  Covers-alike :
      KeyIdentifies
      → (mode : PnsMode) (g h : Position) (cs : List (Move × D))
      → get_tt_hash_key h ≡ get_tt_hash_key g
      → Covers mode g cs
      → Covers mode h cs
  Covers-alike ids vanilla_pns g h cs e v = v
  Covers-alike ids policy_pns g h cs e v = moves-alike ids g h cs e v
  Covers-alike ids focused_pns g h cs e v = moves-alike ids g h cs e v

  IsCorrect-alike :
      KeyIdentifies
      → (g h : Position) (status : SolutionStatus) → get_tt_hash_key h ≡ get_tt_hash_key g
      → IsCorrect game g status
      → IsCorrect game h status
  IsCorrect-alike ids g h solution_unknown e c = c
  IsCorrect-alike ids g h solution_win e c = ids.same_wins g h (sym e) c
  IsCorrect-alike ids g h solution_loss e c = ids.same_loses g h (sym e) c

  pub terminal-Covers :
      (mode : PnsMode) (g : Position) (cs : List (Move × D))
      → is_terminal g ≡ true
      → Covers mode g cs
  terminal-Covers vanilla_pns g cs over = tt
  terminal-Covers policy_pns g cs over = λ running. absurd (true≢false (sym over ∙ running))
  terminal-Covers focused_pns g cs over = λ running. absurd (true≢false (sym over ∙ running))

  module _ (mode : PnsMode) where
    -- What an entry says of every position with its key.
    abbrev pub IsTrue : ℕ → SolutionStatus → List (Move × D) → Type 0
    IsTrue key status cs =
        (g : Position) → get_tt_hash_key g ≡ key → IsCorrect game g status × Covers mode g cs

    abbrev pub IsTrueEntry : Entry (DfpnTtEntry game double) → Type 0
    IsTrueEntry e = e.is_free ≡ false → IsTrue e.key e.content.status e.content.candidates

    abbrev pub IsTrueTable : TtTable game double → Type 0
    IsTrueTable t = (i : ℕ) → IsTrueEntry (entry_at (clean_entry game double) t i)

    -- What is true of one position with the key is true of all.
    pub IsCorrect-IsTrue :
        KeyIdentifies
        → (g : Position) (status : SolutionStatus) (cs : List (Move × D)) → IsCorrect game g status
        → Covers mode g cs
        → IsTrue (get_tt_hash_key g) status cs
    IsCorrect-IsTrue ids g status cs c v h e =
        (IsCorrect-alike ids g h status e c, Covers-alike ids mode g h cs e v)

    -- A write to one slot of a true table.
    set-IsTrue :
        (t u : TtTable game double) (i : ℕ) (e : Entry (DfpnTtEntry game double))
        → IsTrueTable t
        → u.entries ≡ set t.entries i e
        → IsTrueEntry e
        → IsTrueTable u
    set-IsTrue t u i e good same new j =
        elim (get_or-set_cases t.entries i j e (out_of_range (clean_entry game double))) [
          | inl (_, seen) ↦
              subst (λ x. IsTrueEntry x)
                (sym (ap (λ l. get_or l j (out_of_range (clean_entry game double))) same ∙ seen))
                new
          | inr seen ↦
              subst (λ x. IsTrueEntry x)
                (sym (ap (λ l. get_or l j (out_of_range (clean_entry game double))) same ∙ seen))
                (good j)
        ]

    pub store_tt_entry-IsTrue :
        (t u : TtTable game double) (key : ℕ) (entry : DfpnTtEntry game double)
        → IsTrueTable t
        → store_tt_entry game double key entry t ≡ some u
        → IsTrue key entry.status entry.candidates
        → IsTrueTable u
    unfolding store_tt_entry
    store_tt_entry-IsTrue t u key entry good run new =
        let (s, e) = store-written (clean_entry game double) t u key entry (ground (arith, run)) in
        set-IsTrue t u s (stored (clean_entry game double) key entry) good
          (ap (λ (x : TtTable game double). x.entries) e) (λ taken. new)

  -- A node's status may be written to the entry of its key.
  module _ (cfg : Configure double) (env : Environment game double) (root_color : Color) where
    pub save-IsTrue :
        KeyIdentifies
        → (g : Position) (node : TreeNode double) (pv dv : D) (cs : List (Move × D))
          (t u : TtTable game double)
        → IsTrueTable cfg.pns_mode t
        → node.hashkey ≡ get_tt_hash_key g
        → IsCorrect game g node.status
        → Covers cfg.pns_mode g cs
        → save game double cfg env root_color node pv dv cs t ≡ some u
        → IsTrueTable cfg.pns_mode u
    unfolding save set_tt_entry get_tt_entry get_tt_entry_index
    save-IsTrue ids g node pv dv cs t u good key c v run =
        let (index, found, rest) =
          >>=-eq-some (get_tt_entry_index game double node.hashkey t) _ run in
        elim (Option-cases index) [
          | inl e ↦
              store_tt_entry-IsTrue cfg.pns_mode t u node.hashkey
                (entry_for game double cfg env root_color node pv dv cs) good (rw e at rest)
                (true_here cs v)
          | inr (i, e) ↦
              let (taken, same) =
                lookup-hit (clean_entry game double) t node.hashkey i (found ∙ ap some e) in
              let old = (good i taken g (sym key ∙ sym same)).1 in
              let entries =
                ap (λ (x : TtTable game double). x.entries) (sym (some_inj (rw e at rest))) in
              set-IsTrue cfg.pns_mode t u i _ good entries (λ _. rw same (true_here _ old))
        ]
      where
        true_here :
            (ds : List (Move × D))
            → Covers cfg.pns_mode g ds
            → IsTrue cfg.pns_mode node.hashkey node.status ds
        true_here ds w = rw key (IsCorrect-IsTrue cfg.pns_mode ids g node.status ds c w)
