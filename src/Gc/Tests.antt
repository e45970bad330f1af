-- ===== src/Gc/Tests.antt =====
-- Runs of the garbage collection at concrete inputs.
use mathlib.Core.List.{Sublistᴰ}
use zsys.Prelude.{ℕ, ◌+◌, ◌-◌, ◌*◌, some, List, [], ◌∷◌, ◌≡◌, refl, arith, length}
use zsys.Prelude.Int.{pos, negsuc}
use zsys.Text.{Bytes, codes}
use zsys.Machines.Model.{State}
use zsys.Gc.Combinations.{combinations}
use zsys.Gc.Combinations.Binomial.{paths}
use zsys.Gc.Combinations.Enumeration.{choices, combinations_lem}
use zsys.Gc.Selection.{
  KeepStatus, keep_unknown, keep_yes, StateWithKeep, interval, to_keep, to_place,
  select_states_to_remove,
}
use zsys.Gc.Buckets.{GcRule, HistoryRules, Bucket, time_day, compute_buckets}
use zsys.Gc.Buckets.Laws.{Tiles, total_buckets, compute_buckets_lem}
use zsys.Gc.Selection.Quota.{candidates, select_total, select_quota}

pairs_of_four :
    combinations 4 2
    ≡ some (
        (0 ∷ 1 ∷ [])
        ∷ (0 ∷ 2 ∷ [])
        ∷ (0 ∷ 3 ∷ [])
        ∷ (1 ∷ 2 ∷ [])
        ∷ (1 ∷ 3 ∷ [])
        ∷ (2 ∷ 3 ∷ [])
        ∷ [])
unfolding combinations
pairs_of_four = refl

combinations_example : combinations 4 2 ≡ some (choices 0 2 4)
unfolding paths
combinations_example = combinations_lem 4 2 (omega arith) (omega arith, omega arith)

abbrev state_at : ℕ → State
state_at t = record { ref = t; id = codes "rpool/ROOT/u@autozsys_a"; last_used = t; datasets = [] }

abbrev at : ℕ → KeepStatus → StateWithKeep
at t keep = record { state = state_at t; keep = keep }

abbrev busy_day : List StateWithKeep
busy_day = at 90 keep_unknown ∷ at 70 keep_yes ∷ at 50 keep_unknown ∷ at 10 keep_unknown ∷ []

abbrev one_moment : List StateWithKeep
one_moment = at 50 keep_unknown ∷ at 50 keep_unknown ∷ at 50 keep_unknown ∷ []

busy_day_removed : select_states_to_remove (pos 2) busy_day ≡ some (state_at 90 ∷ state_at 10 ∷ [])
unfolding select_states_to_remove combinations
busy_day_removed = refl

select_quota_example :
    (removed : List State) × (select_states_to_remove (pos 2) busy_day ≡ some removed)
    × (length removed + 2 ≡ 4)
unfolding interval to_keep to_place paths
select_quota_example =
    select_quota 2 busy_day (omega arith, omega arith) (omega arith) (omega arith) (omega arith)

select_total_example :
    (removed : List State) × (select_states_to_remove (pos 2) busy_day ≡ some removed)
    × Sublistᴰ removed (candidates busy_day)
unfolding to_keep to_place paths
select_total_example = select_total (pos 2) busy_day (omega arith, omega arith)

abbrev names : List Bytes
names = codes "a" ∷ codes "b" ∷ codes "a" ∷ []

abbrev two_days : GcRule
two_days = record {
  name = codes "PreviousDay";
  buckets = 2;
  bucket_length = 1;
  samples_per_bucket = pos 1;
}

abbrev no_length : GcRule
no_length = record {
  name = codes "Broken";
  buckets = 2;
  bucket_length = 0;
  samples_per_bucket = pos 1;
}

abbrev daily : HistoryRules
daily = record { gc_start_after = 1; keep_last = pos 1; gc_rules = two_days ∷ [] }

abbrev broken : HistoryRules
broken = record daily { gc_rules = two_days ∷ no_length ∷ [] }

compute_buckets_example :
    (b : Bucket) × (bs : List Bucket) × (compute_buckets 3 864010000000000 864000000000000 daily
      ≡ some (b ∷ bs))
    × Tiles 864010000000000 0 (b ∷ bs)
    × (length (b ∷ bs) ≡ total_buckets daily.gc_rules + 2)
    × (b.samples ≡ negsuc 0)
    × (b.start ≡ 864000000000000 - daily.gc_start_after * time_day)
compute_buckets_example =
    compute_buckets_lem 3 864010000000000 864000000000000 daily (omega arith) (omega arith)
      (omega arith, omega arith, omega arith, omega arith, tt)
