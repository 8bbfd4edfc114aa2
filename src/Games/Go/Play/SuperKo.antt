-- ===== src/Games/Go/Play/SuperKo.antt =====
-- `isLegalMove` predicts the key that `play` gives the position, and forbids a key that was there.
use proof_cost_network.Base.{
  ℕ, List, ◌*◌, ◌<◌, ◌≡◌, ◌≢◌, refl, sym, ◌∙◌, ap, subst, Bool, true, false, not, ◌&&◌, ◌==◌, none,
  some, ◌⊎◌, ◌↔◌, inl, inr, Option-cases, arith, if◌then◌else◌, bit_xor, some_inj, true≢false,
}
use proof_cost_network.Base.Xor.{bit_xor_comm, bit_xor_assoc}
use proof_cost_network.Board.Color.{Color, eqb, against_color}
use proof_cost_network.Board.Move.{Move, is_pass}
use proof_cost_network.Storage.HashTable
use proof_cost_network.Storage.HashTable.Laws as Table
use proof_cost_network.Games.Go.Area.{board_size, num_grids}
use proof_cost_network.Games.Go.Grid.{get_neighbors}
use proof_cost_network.Games.Go.State.{HashKeys, GoGame, grid_at, block_at, set_color}
use proof_cost_network.Games.Go.State.Linked.{IsLinked}
use proof_cost_network.Games.Go.Legal.{
  Rules, Survey, survey, nothing_met, key_after, is_forbidden, is_legal_stone,
}
use proof_cost_network.Games.Go.Play.{Neighbors, no_neighbors, turned, placed, with_history, play}
use proof_cost_network.Games.Go.Play.Capture.{Prey, capture-Captured, taken_key}
use proof_cost_network.Games.Go.Play.Collect.{Met}
use proof_cost_network.Games.Go.Play.Rounds.{collect_neighbors-Meets, nothing-Met}
use proof_cost_network.Games.Go.Play.Keys.{neighbors_apart, collect_neighbors_same, taken_key_from}
use proof_cost_network.Games.Go.Play.Stone.{HasBlock, Player, player_stone, join_own-Frames}

foe_against : (c d : Color) → Player c → Player d → d ≢ c → against_color d ≡ c
unfolding against_color
foe_against Color.black Color.white p q h = refl
foe_against Color.white Color.black p q h = refl
foe_against Color.black Color.black p q h = absurd (h refl)
foe_against Color.white Color.white p q h = absurd (h refl)
foe_against Color.none d p q h = absurd (player_stone Color.none p refl)
foe_against c Color.none p q h = absurd (player_stone Color.none q refl)
foe_against Color.color_size d p q h =
    absurd (elim p [ inl e ↦ ground (arith, e) | inr e ↦ ground (arith, e) ])
foe_against c Color.color_size p q h =
    absurd (elim q [ inl e ↦ ground (arith, e) | inr e ↦ ground (arith, e) ])

stone_color : (c : Color) → Player c → eqb c Color.none ≡ false
stone_color c p = elim p [ inl e ↦ ground (arith, e) | inr e ↦ ground (arith, e) ]

keys_agree :
    (old turn grid taken : ℕ)
    → bit_xor (bit_xor (bit_xor old turn) grid) taken
      ≡ bit_xor (bit_xor (bit_xor taken grid) old) turn
keys_agree old turn grid taken =
    bit_xor_comm (bit_xor (bit_xor old turn) grid) taken
    ∙ ap (bit_xor taken) (bit_xor_comm (bit_xor old turn) grid)
    ∙ sym (bit_xor_assoc taken grid (bit_xor old turn))
    ∙ sym (bit_xor_assoc (bit_xor taken grid) old turn)

module _ (keys : HashKeys) (m : Move) (s : GoGame) (linked : IsLinked s) (player : Player m.color)
    (inside : m.position < num_grids) (free : (grid_at s m.position).color ≡ Color.none)
    (has_block : HasBlock s) (valid : Table.IsValid s.hash_table)
    (room : Table.HasRoom s.hash_table) where
  abbrev nbr : List ℕ
  nbr = get_neighbors m.position

  prey :
      (n : Neighbors) (r : Survey)
      → Met m.color s linked nbr n r
      → Prey keys m.position m.color (player_stone m.color player) s n.opp
  prey n r met j h =
      let (q, near, here, foe) = met.opp_color j h in
      (
        foe_against m.color (block_at s j).color player
            (subst Player (sym (linked.color q j here)) (linked.has_stone q j here)) foe,
        linked.liberty m.position q j inside near free here,
      )

  -- A stone on a free grid of a linked position, with a block for it and room in the table: the loop
  -- over its neighbours ends, and so does the move. The key of the position after it is the one that
  -- the loop predicts, and the table then has that key and those that it had.
  pub play-Predicts :
      (r : Survey) × (survey m.color s (get_neighbors m.position) nothing_met ≡ some r)
      × (t : GoGame) × (play keys m s ≡ some t)
      × (t.hash_key ≡ key_after keys m s r)
      × ((k : ℕ)
          → Table.Contains t.hash_table k ↔ ((t.hash_key ≡ k) ⊎ Table.Contains s.hash_table k))
  unfolding play is_pass placed turned set_color
  play-Predicts =
      let color = player_stone m.color player in
      let (n, r, e, e', met) =
        collect_neighbors-Meets m.color s linked nbr nbr (stone_color m.color player) (λ q h. h)
          no_neighbors nothing_met (nothing-Met m.color s linked nbr) in
      let collected =
        collect_neighbors_same keys m s nbr no_neighbors
          (λ q h. neighbors_apart m.position q inside h)
        ∙ e in
      let (joined, f, frame, safe) =
        join_own-Frames keys m s linked player inside n r met has_block in
      let (captured, g, key, table) =
        capture-Captured keys m.position m.color color s n.opp joined met.distinct (prey n r met)
          (λ j h. frame.keeps j h) safe in
      let same_table = table ∙ frame.table in
      let (stored, st, _, _, holds) = Table.store-Adds s.hash_table valid room captured.hash_key in
      let on_board : (m.position == board_size * board_size) ≡ false = ground (arith, inside) in
      let predicted : captured.hash_key ≡ key_after keys m s r =
        key
        ∙ taken_key_from s joined.hash_key n.opp
        ∙ ap (λ k. bit_xor k (taken_key s 0 n.opp)) frame.key
        ∙ keys_agree s.hash_key keys.turn (keys.grid_hash m.position m.color) (taken_key s 0 n.opp)
        ∙ ap
            (λ k.
              bit_xor (bit_xor (bit_xor k (keys.grid_hash m.position m.color)) s.hash_key)
                keys.turn)
            (sym met.key) in
      (
        r,
        e',
        with_history keys (record captured { hash_table = stored }),
        rw (on_board, play) (rw collected (rw f (rw g (rw same_table (rw st refl))))),
        predicted,
        holds,
      )

  allowed_unseen :
      (rules : Rules) (r : Survey) (seen : Bool)
      → survey m.color s (get_neighbors m.position) nothing_met ≡ some r
      → HashTable.lookup (key_after keys m s r) s.hash_table ≡ some seen
      → is_legal_stone keys rules m s ≡ some true
      → seen ≡ false
  unfolding is_legal_stone
  allowed_unseen rules r seen e looked legal =
      let at_stone = rw (ap (λ d. eqb d Color.none) free, is_legal_stone) at legal in
      let surveyed = rw e at at_stone in
      elim (Option-cases (is_forbidden keys rules m s)) [
        | inl gone ↦ absurd (none≢some (rw gone at surveyed))
        | inr (f, forbidden) ↦
            last f r.legal seen (some_inj (rw looked at (rw forbidden at surveyed)))
      ]
    where
      none≢some : none ≢ some true
      none≢some h = cc

      last : (f l b : Bool) → ((if f then false else l) && not b) ≡ true → b ≡ false
      last f l b h = ground (arith, h)

  -- When the part of `isLegalMove` that comes after the forced moves and the pass allows a stone of
  -- a player, on a free grid of a linked position with a block for it and a valid table with a free
  -- slot: the move can be played, the key of the position after it is not among the keys that the
  -- table had, and the table then has it.
  pub is_legal_stone-IsNew :
      (rules : Rules)
      → is_legal_stone keys rules m s ≡ some true
      → (t : GoGame) × (play keys m s ≡ some t)
        × (¬ Table.Contains s.hash_table t.hash_key)
        × Table.Contains t.hash_table t.hash_key
  unfolding is_legal_stone
  is_legal_stone-IsNew rules legal =
      let (r, e, t, played, key, holds) = play-Predicts in
      let (seen, looked, decides) =
        Table.lookup-Decides s.hash_table valid room (key_after keys m s r) in
      (
        t,
        played,
        λ old. true≢false (
            sym (decides.1 (subst (Table.Contains s.hash_table) key old))
            ∙ allowed_unseen rules r seen e looked legal),
        (holds t.hash_key).1 (inl refl),
      )
