-- ===== src/Storage/HashTable/Laws.antt =====
-- The table is a set: what lookup, store, erase and clear do to its members.
use native.Mathlib.Nat.{mod-lt}
use proof_cost_network.Base.{ℕ, zero, suc, ◌+◌, ◌%◌, ◌<◌, ◌≡◌, refl, ◌∙◌, Bool, true, false, arith}
use proof_cost_network.Base.{Option, none, some, ◌⊎◌, ◌↔◌}
use proof_cost_network.Base.{
  length, set, get_or, get_or-set, length-set, replicate, length-replicate, sym, ◌≢◌, ◌^◌,
}
use proof_cost_network.Storage.Probing.{
  slot, Member, IsProbed, probe, land, probe-Ends, Ends, hit, miss,
}
use proof_cost_network.Storage.Probing.{
  write, land-Lands, not-Member, write-IsProbed, Member-write, distance_of,
}
use proof_cost_network.Storage.FeatureIndex.{is_some}
use mathlib.Core.Option
use mathlib.Core.Path.{fun_ext, ap}
use proof_cost_network.Storage.HashTable.{
  HashTable, new, home, view, lookup, store, lookup_loop, store_loop, out_of_range,
}

pub record IsValid (t : HashTable) : Type 0 where
  pub sized : length t.entries ≡ t.size
  pub probed : IsProbed t.size (home t.size) (view t)

-- Some slot is free.
abbrev pub HasRoom : HashTable → Type 0
HasRoom t = (s : ℕ) × (s < t.size) × (view t s ≡ none)

abbrev pub Contains : HashTable → ℕ → Type 0
Contains t k = Member t.size (view t) k

pub home-lt : (n k : ℕ) → 0 < n → home n k < n
unfolding home
home-lt n k h = mod-lt _ h

pub lookup_loop-probe :
    (fuel : ℕ) (t : HashTable) (k i : ℕ)
    → lookup_loop fuel t k i ≡ Option.map is_some (probe t.size (view t) k fuel i)
unfolding lookup_loop probe view
lookup_loop-probe zero t k i = refl
lookup_loop-probe (suc fuel) t k i = ground (arith, lookup_loop-probe fuel t k ((i + 1) % t.size))

-- The table after a write to a slot.
abbrev pub written : HashTable → ℕ → ℕ → HashTable
written t k s = record t { entries = set t.entries s (record { key = k; is_free = false }) }

pub store_loop-land :
    (fuel : ℕ) (t : HashTable) (k i : ℕ)
    → store_loop fuel t k i ≡ Option.map (written t k) (land t.size (view t) fuel i)
unfolding store_loop land view
store_loop-land zero t k i = refl
store_loop-land (suc fuel) t k i = ground (arith, store_loop-land fuel t k ((i + 1) % t.size))

pub view-written :
    (t : HashTable) (k s i : ℕ)
    → s < length t.entries
    → view (written t k s) i ≡ write (view t) s k i
unfolding view
view-written t k s i h =
    ground (arith, get_or-set t.entries s i (record { key = k; is_free = false }) out_of_range h)

module _ (t : HashTable) (valid : IsValid t) (room : HasRoom t) (k : ℕ) where
  positive : 0 < t.size
  positive = omega (arith, room.1)

  start : (d : ℕ) × (d < t.size) × (view t (slot t.size (home t.size k) d) ≡ none)
  start =
      let (d, hd, e) =
        distance_of t.size (home t.size k) room.0 (home-lt t.size k positive) room.1 in
      (d, hd, rw e room.2)

  -- In a valid table with a free slot a lookup ends, and says whether the key was stored.
  pub lookup-Decides : (b : Bool) × (lookup k t ≡ some b) × ((b ≡ true) ↔ Contains t k)
  unfolding lookup
  lookup-Decides =
      let (d, hd, free) = start in
      finish _ (lookup_loop-probe t.size t k (home t.size k))
        (probe-Ends t.size (view t) k t.size (home t.size k) d (home-lt t.size k positive) hd free)
    where
      finish :
          (r : Option (Option ℕ))
          → lookup k t ≡ Option.map is_some r
          → Ends t.size (view t) k (home t.size k) r
          → (b : Bool) × (lookup k t ≡ some b) × ((b ≡ true) ↔ Contains t k)
      finish _ e (hit s hs held) = (true, e, (λ _. (s, hs, held), λ _. refl))
      finish _ e (miss d free passed) = (
        false,
        e,
        (
          λ h. cc,
          λ m. absurd (not-Member t.size (home t.size) (view t) valid.probed k d free passed m),
        ),
      )

  -- In a valid table with a free slot a store ends; the table stays valid, keeps its size, and has
  -- the new key beside those it had.
  pub store-Adds :
      (u : HashTable) × (store k t ≡ some u)
      × IsValid u
      × (u.size ≡ t.size)
      × ((j : ℕ) → Contains u j ↔ ((k ≡ j) ⊎ Contains t j))
  unfolding store
  store-Adds =
      let (d, hd, free) = start in
      let (l, e, _) =
        land-Lands t.size (view t) t.size (home t.size k) d (home-lt t.size k positive) hd free in
      let s : ℕ = slot t.size (home t.size k) l.distance in
      let seen : view (written t k s) ≡ write (view t) s k =
        fun_ext (λ i. view-written t k s i (rw valid.sized (mod-lt _ positive))) in
      (
        written t k s,
        store_loop-land t.size t k (home t.size k) ∙ ap (Option.map (written t k)) e,
        record {
          sized = length-set t.entries s _ ∙ valid.sized;
          probed = rw seen (write-IsProbed t.size (home t.size) (view t) valid.probed k l);
        },
        refl,
        λ j. rw seen (Member-write t.size (view t) (home t.size k) k j l positive),
      )

free_slots :
    (n junk i : ℕ)
    → (get_or (replicate n (record { key = junk; is_free = true })) i out_of_range).is_free ≡ true
free_slots zero junk i = refl
free_slots (suc n) junk zero = refl
free_slots (suc n) junk (suc i) = free_slots n junk i

-- The table that the constructor makes is valid, and every slot of it is free.
pub new-IsValid :
    (junk bit_size : ℕ)
    → IsValid (new junk bit_size) × ((i : ℕ) → view (new junk bit_size) i ≡ none)
unfolding new view
new-IsValid junk bit_size =
    let open_at : (i : ℕ) → view (new junk bit_size) i ≡ none =
      λ i. rw (free_slots (2 ^ bit_size) junk i) refl in
    (
      record {
        sized = length-replicate (2 ^ bit_size) _;
        probed = λ i k h e. absurd (none≢some k (sym (open_at i) ∙ e));
      },
      open_at,
    )
  where
    none≢some : (k : ℕ) → none ≢ some k
    none≢some k h = cc
