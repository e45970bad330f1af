-- ===== src/Machines/CreateSnapshot/Complete.antt =====
-- What a snapshot without an error has done.
use zsys.Prelude.{false, List, ◌≡◌, inr}
use zsys.Prelude.Int.{ℤ}
use mathlib.Core.List.{Memᴰ}
use zsys.Text.{Bytes}
use zsys.Zfs.Names.{snapshot_of}
use zsys.Zfs.Dataset.{Dataset, name_of}
use zsys.Zfs.Cache.{Cache, vacant_in_children}
use zsys.Zfs.Transaction.{Transaction}
use zsys.Machines.CreateSnapshot.{Surroundings, get_pool_free_space, le_int, pool_of}

-- The pool of a dataset has more free space than the minimum.
abbrev pub HasSpace : Surroundings → Dataset → Type 0
HasSpace env d =
    (free : ℤ) × (get_pool_free_space (env.capacity (pool_of (name_of d))) ≡ inr free)
    × (le_int free env.min_free_pool_space ≡ false)

-- A dataset has a child of the snapshot's name.
abbrev pub HasSnapshot : Bytes → Cache → Dataset → Type 0
HasSnapshot name cache d =
    vacant_in_children (name_of d) (snapshot_of (name_of d) name) cache ≡ false

-- What is known of the datasets of which a snapshot was made.
abbrev pub Saved : Surroundings → Bytes → Cache → List Dataset → Type 0
Saved env name cache ds = (d : Dataset) → Memᴰ d ds → HasSpace env d × HasSnapshot name cache d
