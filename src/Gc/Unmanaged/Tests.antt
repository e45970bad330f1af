-- ===== src/Gc/Unmanaged/Tests.antt =====
-- A round over the unmanaged datasets at a concrete input.
use zsys.Zfs.Samples.{plain}
use zsys.Prelude.{true, false, Option, some, List, [], ◌∷◌, ◌≡◌, refl}
use mathlib.Core.List.{Memᴰ}
use zsys.Text.{codes, text_eq, has_prefix, has_byte, trim_prefix, contains}
use zsys.Zfs.Names.{split_snapshot_name}
use zsys.Zfs.Dataset.{Dataset, dataset, nil, cons}
use zsys.Zfs.Hierarchy.{is_user_dataset, collect_children, has_snapshot_in_hierarchy, remove_child}
use zsys.Zfs.Cache.{Cache, find_in_children, dir, change_in_children, drop_child}
use zsys.Zfs.Destroy.{Backend, check_no_clone, destroy}
use zsys.Zfs.Dependencies.{dependencies, is_dependency}
use zsys.Gc.Unmanaged.{Unmanaged, again, unmanaged_round, is_candidate}
use zsys.Gc.Unmanaged.Laws.{Step, unmanaged_round-Step}

abbrev backend : Backend
backend = record { destroys = λ name. true; clones = λ name. some [] }

abbrev home : Dataset
home =
    dataset (codes "r/USERDATA/u_1") false
      (record plain { sources = record plain.sources { bootfs_datasets = codes "local" } }) nil

abbrev pools : Cache
pools =
    cons
      (dataset (codes "r") false plain
        (cons (dataset (codes "r/USERDATA") false plain (cons home nil)) nil))
      nil

abbrev start : Unmanaged
start = record { cache = pools; datasets = home ∷ []; keep = []; keep_due_to_error = [] }

abbrev left : Unmanaged
left = record {
  cache =
      cons
        (dataset (codes "r") false plain (cons (dataset (codes "r/USERDATA") false plain nil) nil))
        nil;
  datasets = [];
  keep = [];
  keep_due_to_error = [];
}

-- Nothing unmanaged is left.
abbrev refresh : Cache → Option (List Dataset)
refresh cache = some []

abbrev first : Dataset → List Dataset → Dataset
first c cs = c

round_run : unmanaged_round backend refresh first 5 start ≡ again left
unfolding unmanaged_round is_candidate is_user_dataset contains has_prefix text_eq dependencies
    is_dependency has_byte trim_prefix collect_children destroy find_in_children check_no_clone dir
    change_in_children has_snapshot_in_hierarchy remove_child split_snapshot_name drop_child
round_run = refl

unmanaged_round-Step_example : Step backend refresh first 5 start left
unmanaged_round-Step_example =
    unmanaged_round-Step backend refresh first 5 (λ c cs. Memᴰ.head refl) start left round_run
