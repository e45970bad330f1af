-- ===== src/Machines/CreateSnapshot.antt =====
-- `createSnapshot`, `CreateSystemSnapshot` and `CreateUserSnapshot` of internal/machines/snapshot.go,
-- with `GetPoolFreeSpace` of internal/zfs/pool.go. The maps are visited in the order in which they
-- hold their entries, and the pools in the order in which they are met. The `refresh` that follows a
-- success is not part of it.
pub mod Laws
pub mod Complete
mod Tests
use zsys.Prelude.{
  ℕ, ◌+◌, ◌-◌, Bool, true, false, not, ◌||◌, Option, none, some, List, [], ◌∷◌, ◌++◌, ◌⊎◌, inl, inr,
  if◌then◌else◌, leb,
}
use zsys.Prelude.Int.{ℤ, pos, negsuc}
use zsys.Text.{Bytes, codes, has_suffix, split}
use zsys.Text.Numbers.{atoi}
use zsys.Zfs.Dataset.{Dataset, name_of}
use zsys.Zfs.Cache.{Cache}
use zsys.Zfs.Transaction.{Libzfs, Transaction, SnapshotError, Outcome, snapshot, cancel, done}
use zsys.Machines.Model.{
  State, SystemState, Machine, get_datasets, get_users_datasets, is_zsys_machine,
}
use zsys.Machines.Maps.{lookup}
use zsys.Machines.StateName.{NameError, validate_state_name}

pub data PoolError : Type 0 where
  not_opened : PoolError
  invalid_capacity : PoolError

-- `100 - i`, in integers that do not overflow here.
unfoldable pub hundred_minus : ℤ → ℤ
hundred_minus (pos n) = if leb n 100 then pos (100 - n) else negsuc (n - 101)
hundred_minus (negsuc n) = pos (101 + n)

unfoldable pub le_int : ℤ → ℤ → Bool
le_int (pos a) (pos b) = leb a b
le_int (pos a) (negsuc b) = false
le_int (negsuc a) (pos b) = true
le_int (negsuc a) (negsuc b) = leb b a

-- `GetPoolFreeSpace`, from the capacity of the pool that libzfs answers when it opens it.
unfoldable pub get_pool_free_space : Option Bytes → PoolError ⊎ ℤ
unfolding atoi hundred_minus
get_pool_free_space none = inl not_opened
get_pool_free_space (some capacity) = elim (atoi capacity) [
  | none ↦ inl invalid_capacity
  | some used ↦ inr (hundred_minus used)
]

pub data SaveError : Type 0 where
  not_zsys : SaveError
  no_user_name : SaveError
  invalid_name : NameError → SaveError
  unknown_user : Bytes → SaveError
  already_in_history : Bytes → SaveError
  pool_failed : PoolError → SaveError
  low_space : Bytes → ℤ → SaveError
  snapshot_failed : SnapshotError → SaveError

-- What the operation asks of its surroundings.
pub record Surroundings : Type 0 where
  pub libzfs : Libzfs
  -- The property of a pool that has the used space in percent, if the pool opens.
  pub capacity : Bytes → Option Bytes
  -- `General.MinFreePoolSpace` of the configuration.
  pub min_free_pool_space : ℤ
  -- What `GenerateID(6)` returns.
  pub generated_id : Bytes

abbrev pub automated_snapshot_prefix : Bytes
automated_snapshot_prefix = codes "autozsys_"

unfoldable pub chosen_name : Bytes → Bytes → Bytes
chosen_name generated [] = automated_snapshot_prefix ++ generated
chosen_name generated (c ∷ name) = c ∷ name

-- A system history entry matches the desired snapshot name.
unfoldable pub name_in_history : Bytes → List (Bytes × SystemState) → Bool
name_in_history name [] = false
name_in_history name ((n, h) ∷ hs) = has_suffix n (b'@' ∷ name) || name_in_history name hs

unfoldable pub to_snapshot : Machine → Bytes → Bytes → SaveError ⊎ List Dataset
unfolding name_in_history get_datasets get_users_datasets lookup
to_snapshot m name [] = inr (get_datasets m.main.state ++ get_users_datasets m.main)
to_snapshot m name (c ∷ user) = elim (lookup (c ∷ user) m.main.users) [
  | none ↦ inl (unknown_user (c ∷ user))
  | some s ↦
      if name_in_history name m.history then inl (already_in_history name) else inr (get_datasets s)
]

-- The first element of a dataset's name.
unfoldable pub pool_of : Bytes → Bytes
unfolding split
pool_of name = elim (split name b'/') [ [] ↦ [] | pool ∷ rest ↦ pool ]

module _ (env : Surroundings) where
  unfoldable pub has_space_for : Bytes → PoolError ⊎ ℤ → Option SaveError
  unfolding le_int
  has_space_for pool (inl e) = some (pool_failed e)
  has_space_for pool (inr free) =
      if le_int free env.min_free_pool_space then some (low_space pool free) else none

  -- A pool that is met again has the space that it had.
  unfoldable pub check_pools : List Dataset → Option SaveError
  unfolding has_space_for get_pool_free_space pool_of
  check_pools [] = none
  check_pools (d ∷ ds) =
      let rest = check_pools ds in
      elim (has_space_for (pool_of (name_of d))
        (get_pool_free_space (env.capacity (pool_of (name_of d))))) [
          | some e ↦ some e
          | none ↦ rest
        ]

  -- The loop over the datasets, up to the first error.
  unfoldable pub snapshot_all : Bytes → List Dataset → Transaction → Outcome
  unfolding snapshot
  snapshot_all name [] t = record { transaction = t; error = none }
  snapshot_all name (d ∷ ds) t =
      let now = snapshot env.libzfs name (name_of d) false t in
      elim now.error [ some e ↦ now | none ↦ snapshot_all name ds now.transaction ]

  unfoldable pub finish_snapshot : Bytes → Outcome → Cache × (SaveError ⊎ Bytes)
  unfolding cancel done
  finish_snapshot name o = elim o.error [
    | some e ↦ ((cancel o.transaction).cache, inl (snapshot_failed e))
    | none ↦ ((done o.transaction).cache, inr name)
  ]

  -- The part behind the choice of the datasets.
  unfoldable pub save : Bytes → SaveError ⊎ List Dataset → Cache → Cache × (SaveError ⊎ Bytes)
  unfolding check_pools snapshot_all finish_snapshot
  save name (inl e) cache = (cache, inl e)
  save name (inr ds) cache = elim (check_pools ds) [
    | some e ↦ (cache, inl e)
    | none ↦ finish_snapshot name (snapshot_all name ds (record { cache = cache; reverts = [] }))
  ]

  unfoldable pub save_named : Machine → Bytes → Bytes → Cache → Cache × (SaveError ⊎ Bytes)
  unfolding save to_snapshot validate_state_name
  save_named m name only_user cache = elim (validate_state_name name) [
    | some e ↦ (cache, inl (invalid_name e))
    | none ↦ save name (to_snapshot m name only_user) cache
  ]

  unfoldable pub create_snapshot :
      Option Machine → Bytes → Bytes → Cache → Cache × (SaveError ⊎ Bytes)
  unfolding save_named chosen_name is_zsys_machine
  create_snapshot none name only_user cache = (cache, inl not_zsys)
  create_snapshot (some m) name only_user cache =
      if not (is_zsys_machine (some m))
      then (cache, inl not_zsys)
      else save_named m (chosen_name env.generated_id name) only_user cache

  unfoldable pub create_system_snapshot :
      Option Machine → Bytes → Cache → Cache × (SaveError ⊎ Bytes)
  unfolding create_snapshot
  create_system_snapshot current name cache = create_snapshot current name [] cache

  unfoldable pub create_user_snapshot :
      Option Machine → Bytes → Bytes → Cache → Cache × (SaveError ⊎ Bytes)
  unfolding create_snapshot
  create_user_snapshot current [] name cache = (cache, inl no_user_name)
  create_user_snapshot current (c ∷ user) name cache = create_snapshot current name (c ∷ user) cache
