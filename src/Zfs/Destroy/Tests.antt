-- ===== src/Zfs/Destroy/Tests.antt =====
-- Destructions on a small tree.
use mathlib.Core.List.{Memᴰ}
use zsys.Prelude.{true, false, none, some, [], ◌∷◌, ◌≡◌, inl, refl}
use zsys.Text.{Bytes, codes}
use zsys.Zfs.Dataset.{Dataset, dataset, nil, cons}
use zsys.Zfs.Hierarchy.{collect_dataset}
use zsys.Zfs.Samples.{plain}
use zsys.Zfs.Cache.{Cache, find_in_children}
use zsys.Zfs.Destroy.{Backend, DestroyError, destroy}
use zsys.Zfs.Destroy.Laws.{destroy-Refused}
use zsys.Zfs.Destroy.Laws.Filesystems.{AllWellNamed, filesystems, destroy-snapshot}

abbrev backend : Backend
backend = record { destroys = λ name. true; clones = λ name. some [] }

abbrev cloning : Backend
cloning = record { destroys = λ name. true; clones = λ name. some (codes "c" ∷ []) }

abbrev snap : Bytes → Dataset
snap name = dataset name true plain nil

-- A dataset and one below it, each with the snapshot s.
abbrev below : Dataset
below = dataset (codes "r/a") false plain (cons (snap (codes "r/a@s")) nil)

abbrev top : Dataset
top = dataset (codes "r") false plain (cons (snap (codes "r@s")) (cons below nil))

abbrev cache : Cache
cache = cons top nil

abbrev left : Cache
left = cons (dataset (codes "r") false plain (cons (dataset (codes "r/a") false plain nil) nil)) nil

snapshots-destroyed : destroy backend (codes "r@s") cache ≡ (left, none)
unfolding destroy zsys.Text.text_eq find_in_children zsys.Zfs.Names.split_snapshot_name
    zsys.Zfs.Cache.change_in_children zsys.Zfs.Cache.drop_child zsys.Zfs.Hierarchy.remove_child
snapshots-destroyed = refl

destroy-Refused_example :
    ((destroy cloning (codes "r@s") cache).0 ≡ cache)
    × ((e : DestroyError) × ((destroy cloning (codes "r@s") cache).1 ≡ some e))
unfolding find_in_children collect_dataset zsys.Zfs.Destroy.own_clones zsys.Text.text_eq
destroy-Refused_example =
    destroy-Refused cloning (codes "r@s") cache (snap (codes "r@s")) refl
      (inl (snap (codes "r@s"), Memᴰ.head refl, λ e. absurd cc))

destroy-snapshot_example :
    AllWellNamed (destroy backend (codes "r@s") cache).0
    × (filesystems (destroy backend (codes "r@s") cache).0 ≡ codes "r" ∷ codes "r/a" ∷ [])
unfolding find_in_children zsys.Text.text_eq zsys.Text.has_byte zsys.Zfs.Names.split_snapshot_name
destroy-snapshot_example =
    destroy-snapshot backend (codes "r@s") cache (snap (codes "r@s"))
      (
        (
          refl,
          (
            (λ e. absurd cc),
            (
              (refl, ((λ e. refl), tt)),
              ((refl, ((λ e. absurd cc), ((refl, ((λ e. refl), tt)), tt))), tt),
            ),
          ),
        ),
        tt,
      )
      refl refl (λ e. absurd cc)
