-- ===== src/Gc/Buckets.antt =====
-- `computeBuckets` of internal/machines/gc.go, with the rules of internal/config/config.go. Times are
-- nanoseconds since the zero of `time.Time`, and a time does not go below that. A duration is an `int64`
-- as the 64 bits that it has, so its arithmetic wraps. The numbers of a rule are not negative here.
pub mod Laws
use zsys.Prelude.{
  ℕ, zero, suc, ◌+◌, ◌-◌, ◌*◌, ◌%◌, ◌^◌, Bool, true, false, ◌||◌, Option, none, some, List, [], ◌∷◌,
  ◌++◌, ◌≡◌, refl, if◌then◌else◌, ltb, ◌==◌, ◌>>=◌,
}
use zsys.Prelude.Int.{ℤ, pos, negsuc}
use zsys.Text.{Bytes}

pub record GcRule : Type 0 where
  pub name : Bytes
  pub buckets : ℕ
  pub bucket_length : ℕ
  pub samples_per_bucket : ℤ

pub record HistoryRules : Type 0 where
  pub gc_start_after : ℕ
  pub keep_last : ℤ
  pub gc_rules : List GcRule

pub record Bucket : Type 0 where
  pub start : ℕ
  pub end : ℕ
  pub samples : ℤ

abbrev pub second : ℕ
second = 1000000000

abbrev pub time_day : ℕ
time_day = 86400000000000

-- `time.Duration` of a number, and its negation.
unfoldable pub duration : ℕ → ℕ
duration n = n % 2 ^ 64

unfoldable pub negate : ℕ → ℕ
negate d = (2 ^ 64 - d) % 2 ^ 64

-- `Time.Add`: a duration with the highest bit set is negative.
unfoldable pub add_duration : ℕ → ℕ → ℕ
add_duration t d = if ltb d (2 ^ 63) then t + d else t - (2 ^ 64 - d)

-- The inner loop at d, on fuel; `none` means that the fuel ran out.
unfoldable pub rule_loop : ℕ → ℕ → ℕ → ℕ → ℤ → Option (List Bucket)
unfolding negate add_duration
rule_loop zero d start_period length samples = none
rule_loop (suc fuel) d start_period length samples =
    let rest = rule_loop fuel (add_duration d (negate length)) start_period length samples in
    let this : Bucket = record { start = d; end = add_duration d length; samples = samples } in
    if ltb start_period d || d == start_period then (rest >>= λ bs. some (this ∷ bs)) else some []

-- The loop over the rules, and the oldest bucket behind it.
unfoldable pub rules_loop : ℕ → ℕ → List GcRule → Option (List Bucket)
unfolding rule_loop duration negate add_duration
rules_loop fuel end [] = some (record { start = 0; end = end; samples = pos 0 } ∷ [])
rules_loop fuel end (rule ∷ rules) =
    let length = duration (time_day * rule.bucket_length) in
    let start_period = add_duration end (negate (duration (length * rule.buckets))) in
    do
      bs ←
          rule_loop fuel (add_duration end (negate length)) start_period length
            rule.samples_per_bucket
      rest ← rules_loop fuel start_period rules
      some (bs ++ rest)

-- The time at which garbage collection starts.
unfoldable pub collection_start : ℕ → HistoryRules → ℕ
unfolding duration negate add_duration
collection_start now_day rules =
    add_duration now_day (negate (duration (rules.gc_start_after * time_day)))

-- `now_day` is `time.Date` of the day of `now`, at midnight.
unfoldable pub compute_buckets : ℕ → ℕ → ℕ → HistoryRules → Option (List Bucket)
unfolding rules_loop collection_start
compute_buckets fuel now now_day rules =
    let end = collection_start now_day rules in
    do
      rest ← rules_loop fuel end rules.gc_rules
      some (record { start = end; end = now; samples = negsuc 0 } ∷ rest)
