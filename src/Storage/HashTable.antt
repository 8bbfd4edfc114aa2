-- ===== src/Storage/HashTable.antt =====
-- Games/HashTable.h: the open-addressing set of position keys that the super-ko test reads.
-- A loop that meets no end takes all its fuel, and returns `none`.
pub mod Laws
pub mod Erase
use package.proof_cost_network.Base.{
  ℕ, zero, suc, ◌+◌, ◌%◌, ◌^◌, Bool, true, false, Option, none, some,
}
use package.proof_cost_network.Base.{List, map, ◌==◌, if◌then◌else◌, get_or, set, replicate}
use package.proof_cost_network.Storage.Probing.{View}

pub record OaEntry : Type 0 where
  pub key : ℕ
  pub is_free : Bool

-- `size` is 2 ^ bitSize, and `x & m_mask` is the remainder by it.
pub record HashTable : Type 0 where
  pub size : ℕ
  pub entries : List OaEntry

-- The constructor leaves the keys as they are in memory: `junk`.
unfoldable pub new : ℕ → ℕ → HashTable
new junk bit_size = record {
  size = 2 ^ bit_size;
  entries = replicate (2 ^ bit_size) (record { key = junk; is_free = true });
}

abbrev pub out_of_range : OaEntry
out_of_range = record { key = 0; is_free = true }

-- The 64-bit key is cut to `unsigned int`, and masked.
unfoldable pub home : ℕ → ℕ → ℕ
home size key = key % 2 ^ 32 % size

pub lookup_loop : ℕ → HashTable → ℕ → ℕ → Option Bool
lookup_loop zero t key index = none
lookup_loop (suc fuel) t key index =
    let entry = get_or t.entries index out_of_range in
    let rest = lookup_loop fuel t key ((index + 1) % t.size) in
    if entry.is_free then some false else if entry.key == key then some true else rest

pub store_loop : ℕ → HashTable → ℕ → ℕ → Option HashTable
store_loop zero t key index = none
store_loop (suc fuel) t key index =
    let entry = get_or t.entries index out_of_range in
    let rest = store_loop fuel t key ((index + 1) % t.size) in
    if entry.is_free
    then some (record t { entries = set t.entries index (record { key = key; is_free = false }) })
    else rest

-- The test does not ask whether the entry is free.
pub erase_loop : ℕ → HashTable → ℕ → ℕ → Option HashTable
erase_loop zero t key index = none
erase_loop (suc fuel) t key index =
    let entry = get_or t.entries index out_of_range in
    let rest = erase_loop fuel t key ((index + 1) % t.size) in
    if entry.key == key
    then some (record t { entries = set t.entries index (record entry { is_free = true }) })
    else rest

-- Every loop returns to its first slot after `size` rounds.
unfoldable pub lookup : ℕ → HashTable → Option Bool
unfolding lookup_loop home
lookup key t = lookup_loop t.size t key (home t.size key)

unfoldable pub store : ℕ → HashTable → Option HashTable
unfolding store_loop home
store key t = store_loop t.size t key (home t.size key)

unfoldable pub erase : ℕ → HashTable → Option HashTable
unfolding erase_loop home
erase key t = erase_loop t.size t key (home t.size key)

released : OaEntry → OaEntry
released e = record e { is_free = true }

unfoldable pub clear : HashTable → HashTable
unfolding released
clear t = record t { entries = map released t.entries }

-- The keys as a partial map from slots.
unfoldable pub view : HashTable → View
view t i = let e = get_or t.entries i out_of_range in if e.is_free then none else some e.key
