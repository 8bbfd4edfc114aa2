-- ===== src/Storage/OpenAddress.antt =====
-- MiniZero/OpenAddressHashTable.h: the open-addressing map behind both transposition tables.
-- A loop that meets no end takes all its fuel, and returns `none`. `clean` is `_data()`, the value
-- that the data has at first and after its `clear`.
pub mod Laws
pub mod Full
pub mod AsMap
use package.proof_cost_network.Base.{
  ℕ, zero, suc, ◌+◌, ◌%◌, ◌^◌, Bool, true, false, Option, none, some,
}
use package.proof_cost_network.Base.{List, map, ◌==◌, leb, if◌then◌else◌, get_or, set, replicate}
use package.proof_cost_network.Storage.Probing.{View}

pub record Entry (A : Type 0) : Type 0 where
  pub key : ℕ
  pub is_free : Bool
  pub content : A

-- `size` is 2 ^ bitSize, and `x & m_mask` is the remainder by it.
pub record Table (A : Type 0) : Type 0 where
  pub size : ℕ
  pub count : ℕ
  pub entries : List (Entry A)

-- The 64-bit key is cut to `unsigned int`, and masked.
unfoldable pub home : ℕ → ℕ → ℕ
home size key = key % 2 ^ 32 % size

unfoldable pub is_full : {A : Type 0} → Table A → Bool
is_full t = leb t.size t.count

module _ {A : Type 0} (clean : A) where
  abbrev pub out_of_range : Entry A
  out_of_range = record { key = 0; is_free = true; content = clean }

  abbrev pub entry_at : Table A → ℕ → Entry A
  entry_at t s = get_or t.entries s out_of_range

  unfoldable pub new : ℕ → ℕ → Table A
  new junk bit_size = record {
    size = 2 ^ bit_size;
    count = 0;
    entries = replicate (2 ^ bit_size) (record { key = junk; is_free = true; content = clean });
  }

  -- The index -1 is `none`.
  pub lookup_loop : ℕ → Table A → ℕ → ℕ → Option (Option ℕ)
  lookup_loop zero t key index = none
  lookup_loop (suc fuel) t key index =
      let entry = entry_at t index in
      let rest = lookup_loop fuel t key ((index + 1) % t.size) in
      if entry.is_free then some none else if entry.key == key then some (some index) else rest

  pub store_loop : ℕ → Table A → ℕ → A → ℕ → Option (Table A)
  store_loop zero t key content index = none
  store_loop (suc fuel) t key content index =
      let entry = entry_at t index in
      let rest = store_loop fuel t key content ((index + 1) % t.size) in
      if entry.is_free
      then some (record t {
        count = t.count + 1;
        entries = set t.entries index (record { key = key; is_free = false; content = content });
      })
      else rest

  -- Every loop returns to its first slot after `size` rounds.
  unfoldable pub lookup : ℕ → Table A → Option (Option ℕ)
  unfolding lookup_loop home
  lookup key t = lookup_loop t.size t key (home t.size key)

  unfoldable pub store : ℕ → A → Table A → Option (Table A)
  unfolding store_loop home
  store key content t = store_loop t.size t key content (home t.size key)

  -- The keys stay as they are in memory.
  released : Entry A → Entry A
  released e = record e { is_free = true; content = clean }

  unfoldable pub clear : Table A → Table A
  unfolding released
  clear t = record t { count = 0; entries = map released t.entries }

  -- The keys as a partial map from slots.
  unfoldable pub view : Table A → View
  view t i = let e = entry_at t i in if e.is_free then none else some e.key
