-- ===== src/Zfs/InverseOrigin/Tests.antt =====
-- A promotion at a concrete input.
use mathlib.Core.List.{Memᴰ}
use zsys.Prelude.{true, false, none, [], ◌∷◌, ◌≡◌, refl}
use zsys.Text.{Bytes, codes, text_eq, has_prefix, last_index}
use zsys.Zfs.Names.{split_snapshot_name}
use zsys.Zfs.Samples.{plain}
use zsys.Zfs.Dataset.{Dataset, dataset, nil, cons, name_of}
use zsys.Zfs.Hierarchy.{remove_child, has_child_named}
use zsys.Zfs.Cache.{Cache, find_in_children, change_in_children, append_child, drop_child}
use zsys.Zfs.InverseOrigin.{
  Handles, moved_name, move_origins, reloaded, new_prop, migrate_all, inverse_origin,
}
use zsys.Zfs.InverseOrigin.Laws.{EveryIn}
use zsys.Zfs.InverseOrigin.Moved.{Moved, migrate_all-Moved}

abbrev handles : Handles
handles = record { opens = λ name. true; reloads = λ name. true }

abbrev base : Dataset
base = dataset (codes "r/a@s") true plain nil

abbrev original : Dataset
original = dataset (codes "r/a") false plain (cons base nil)

abbrev clone : Bytes → Dataset
clone name = dataset name false (record plain { origin = codes "r/a@s" }) nil

abbrev pools : Cache
pools =
    cons
      (dataset (codes "r") false plain
        (cons original (cons (clone (codes "r/b")) (cons (clone (codes "r/c")) nil))))
      nil

-- The base moves to r/b, and r/c and r/a stand on its new name.
abbrev promoted : Cache
promoted =
    cons
      (dataset (codes "r") false plain (
        cons (dataset (codes "r/a") false (record plain { origin = codes "r/b@s" }) nil) (
          cons
            (dataset (codes "r/b") false plain (cons (dataset (codes "r/b@s") true plain nil) nil))
            (cons (dataset (codes "r/c") false (record plain { origin = codes "r/b@s" }) nil)
              nil))))
      nil

promotion_run : inverse_origin handles original (clone (codes "r/b")) pools ≡ (promoted, none)
unfolding inverse_origin find_in_children text_eq last_index split_snapshot_name has_prefix
    remove_child has_child_named change_in_children append_child drop_child move_origins reloaded
    new_prop
promotion_run = refl

migrated : (migrate_all handles (codes "r/a") (codes "r/b") (base ∷ []) pools).1 ≡ none
unfolding migrate_all find_in_children text_eq last_index split_snapshot_name has_prefix
    remove_child change_in_children append_child drop_child move_origins reloaded
migrated = refl

apart :
    (s u : Dataset)
    → Memᴰ s (base ∷ [])
    → Memᴰ u (base ∷ [])
    → text_eq (moved_name (codes "r/b") s) (name_of u) ≡ false
unfolding moved_name text_eq split_snapshot_name last_index
apart s u (Memᴰ.head x) (Memᴰ.head y) = rw (x, y) refl
apart s u (Memᴰ.tail i) j = elim i [ ]
apart s u (Memᴰ.head x) (Memᴰ.tail j) = elim j [ ]

migrate_all-Moved_example :
    EveryIn
      (Moved (codes "r/b") base)
      (migrate_all handles (codes "r/a") (codes "r/b") (base ∷ []) pools).0
migrate_all-Moved_example =
    migrate_all-Moved handles (codes "r/a") (codes "r/b") (base ∷ []) pools base apart migrated
      (Memᴰ.head refl)
