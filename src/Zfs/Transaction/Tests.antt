-- ===== src/Zfs/Transaction/Tests.antt =====
-- Snapshots in a transaction at concrete inputs.
use zsys.Zfs.Samples.{plain, refuses, refuses-Documented}
use zsys.Prelude.{true, false, none, some, List, [], ◌∷◌, ◌≡◌, refl, inl}
use zsys.Text.{codes, text_eq, has_byte}
use zsys.Zfs.Names.{split_snapshot_name, snapshot_of}
use zsys.Zfs.Dataset.{Dataset, dataset, nil, cons}
use zsys.Zfs.Hierarchy.Reach.{Reach}
use zsys.Zfs.Cache.{Cache, vacant_in_children, find_in_children, append_child, change_in_children}
use zsys.Zfs.Hierarchy.{has_child_named}
use zsys.Zfs.Transaction.{Transaction, Outcome, not_created, snapshot, cancel}
use zsys.Zfs.Transaction.Laws.{snapshot_atomic}
use zsys.Zfs.Transaction.Restore.{Request, snapshots, cancel-snapshots}
use zsys.Zfs.Transaction.Success.{snapshot_complete}

abbrev pools : Cache
pools =
    cons (dataset (codes "r") false plain (cons (dataset (codes "r/u") false plain nil) nil)) nil

abbrev started : Transaction
started = record { cache = pools; reverts = [] }

refused_run :
    (snapshot (refuses (codes "r/u@s")) (codes "s") (codes "r") true started).error
    ≡ some (not_created (codes "r/u@s"))
unfolding snapshot find_in_children vacant_in_children has_child_named text_eq split_snapshot_name
refused_run = refl

snapshot_atomic_example :
    (snapshot (refuses (codes "r/u@s")) (codes "s") (codes "r") true started).transaction ≡ started
snapshot_atomic_example =
    snapshot_atomic (refuses (codes "r/u@s")) (refuses-Documented (codes "r/u@s")) (codes "s")
      (codes "r") true started (not_created (codes "r/u@s")) (unfold has_byte in refl) refused_run

abbrev requests : List Request
requests =
    record { snap = codes "s"; name = codes "r"; recursive = true }
    ∷ record { snap = codes "s"; name = codes "r/u"; recursive = false }
    ∷ []

cancel_example : cancel (snapshots (refuses (codes "x@y")) requests started) ≡ started
cancel_example =
    cancel-snapshots (refuses (codes "x@y")) (refuses-Documented (codes "x@y")) requests pools
      (unfold has_byte in (refl, (refl, tt)))

abbrev accepted : Outcome
accepted = snapshot (refuses (codes "x@y")) (codes "s") (codes "r") true started

accepted_run : accepted.error ≡ none
unfolding snapshot find_in_children vacant_in_children has_child_named text_eq split_snapshot_name
    append_child change_in_children
accepted_run = refl

abbrev home : Dataset
home = dataset (codes "r/u") false plain nil

abbrev pool : Dataset
pool = dataset (codes "r") false plain (cons home nil)

pool_found : find_in_children (codes "r") pools ≡ some pool
unfolding find_in_children text_eq
pool_found = refl

snapshot_complete_example :
    vacant_in_children
      (codes "r/u")
      (snapshot_of (codes "r/u") (codes "s"))
      accepted.transaction.cache
    ≡ false
snapshot_complete_example =
    snapshot_complete (refuses (codes "x@y")) (codes "s") (codes "r") started pool home pool_found
      accepted_run (Reach.below home (inl refl) refl (Reach.here refl))
