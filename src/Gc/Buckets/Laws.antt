-- ===== src/Gc/Buckets/Laws.antt =====
-- The buckets tile the time before now.
use zsys.Prelude.{
  ℕ, zero, suc, ◌+◌, ◌-◌, ◌*◌, ◌^◌, ◌≤◌, ◌<◌, ◌||◌, true, some, List, [], ◌∷◌, ◌++◌, ◌≡◌, refl, ap,
  ◌∙◌, arith, ltb, ◌==◌, length, length-append, ◌>>=◌,
}
use zsys.Prelude.Int.{ℤ, pos, negsuc}
use zsys.Gc.Buckets.{
  GcRule, HistoryRules, Bucket, time_day, duration, negate, add_duration, rule_loop, rules_loop,
  collection_start, compute_buckets,
}
use native.Mathlib.Nat.{mod-eq_of_lt}

-- The buckets follow one another without a gap from top down to bottom.
abbrev pub Tiles : ℕ → ℕ → List Bucket → Type 0
Tiles top bottom [] = top ≡ bottom
Tiles top bottom (b ∷ bs) = (b.end ≡ top) × (b.start ≤ b.end) × Tiles b.start bottom bs

Tiles-append :
    (top middle bottom : ℕ) (xs ys : List Bucket)
    → Tiles top middle xs
    → Tiles middle bottom ys
    → Tiles top bottom (xs ++ ys)
Tiles-append top middle bottom [] ys h g = rw h g
Tiles-append top middle bottom (x ∷ xs) ys h g =
    (h.0, h.1, Tiles-append x.start middle bottom xs ys h.2 g)

more : (d sp : ℕ) → sp ≤ d → (ltb sp d || d == sp) ≡ true
more d sp h = ground arith

-- A duration below 2 ^ 63 nanoseconds is what it says, and so is its negation.
pub duration_fits : (n : ℕ) → n < 2 ^ 63 → duration n ≡ n
unfolding duration
duration_fits n h = mod-eq_of_lt (omega (arith, h))

forward : (t d : ℕ) → d < 2 ^ 63 → add_duration t d ≡ t + d
unfolding add_duration
forward t d h = ground arith

pub backward : (t d : ℕ) → d < 2 ^ 63 → add_duration t (negate d) ≡ t - d
unfolding negate
backward t zero h = let e : t + 0 ≡ t - 0 = omega arith in forward t 0 (omega arith) ∙ e
backward t (suc d) h = ap (add_duration t) (mod-eq_of_lt (omega arith)) ∙ subtract
  where
    subtract : add_duration t (2 ^ 64 - suc d) ≡ t - suc d
    subtract = unfold add_duration in ground arith

-- r buckets are left above the start of the period.
rule_loop_lem :
    (fuel r top d start_period length_of : ℕ) (samples : ℤ)
    → r < fuel
    → 0 < length_of
    → length_of < 2 ^ 63
    → length_of ≤ start_period
    → top ≡ start_period + length_of * r
    → d ≡ top - length_of
    → (bs : List Bucket) × (rule_loop fuel d start_period length_of samples ≡ some bs)
      × Tiles top start_period bs
      × (length bs ≡ r)
unfolding rule_loop
rule_loop_lem zero r top d sp w samples lt some_w fits low e q = elim lt [ ]
rule_loop_lem (suc fuel) zero top d sp w samples lt some_w fits low e q =
    ([], ground arith, omega arith, refl)
rule_loop_lem (suc fuel) (suc r) top d sp w samples lt some_w fits low e q =
    let above : d ≡ sp + w * r = omega arith in
    let (bs, run, tiles, count) =
      rule_loop_lem fuel r d (d - w) sp w samples (omega arith) some_w fits low above refl in
    (
      record { start = d; end = add_duration d w; samples = samples } ∷ bs,
      rw (more d sp (omega arith), backward d w fits) (rw run refl),
      (forward d w fits ∙ omega arith, rw (forward d w fits) (omega arith), tiles),
      ap suc count,
    )

abbrev pub duration_of : GcRule → ℕ
duration_of rule = time_day * rule.bucket_length

abbrev pub total_buckets : List GcRule → ℕ
total_buckets [] = 0
total_buckets (rule ∷ rules) = rule.buckets + total_buckets rules

-- Every rule has buckets of some length, which end at times after the zero of `time.Time`, and fewer
-- of them than the fuel; with one bucket more, its period is below 2 ^ 63 nanoseconds, some 292 years.
abbrev pub InRange : ℕ → ℕ → List GcRule → Type 0
InRange fuel end [] = Unit
InRange fuel end (rule ∷ rules) =
    (0 < rule.bucket_length)
    × (rule.buckets < fuel)
    × (duration_of rule * rule.buckets + duration_of rule ≤ end)
    × (duration_of rule * rule.buckets + duration_of rule < 2 ^ 63)
    × InRange fuel (end - duration_of rule * rule.buckets) rules

rules_loop_lem :
    (fuel end : ℕ) (rules : List GcRule)
    → InRange fuel end rules
    → (bs : List Bucket) × (rules_loop fuel end rules ≡ some bs)
      × Tiles end 0 bs
      × (length bs ≡ total_buckets rules + 1)
unfolding rules_loop
rules_loop_lem fuel end [] h = (
  record { start = 0; end = end; samples = pos 0 } ∷ [],
  refl,
  (refl, omega arith, refl),
  omega arith,
)
rules_loop_lem fuel end (rule ∷ rules) h =
    let w = duration_of rule in
    let sp = end - w * rule.buckets in
    let whole : w < 2 ^ 63 = omega (arith, h.3) in
    let period : w * rule.buckets < 2 ^ 63 = omega (arith, h.3) in
    let (bs, run, tiles, count) =
      rule_loop_lem fuel rule.buckets end (end - w) sp w rule.samples_per_bucket h.1
        (omega (arith, h.0)) whole (omega (arith, h.2)) (omega (arith, h.2)) refl in
    let (cs, run', tiles', count') = rules_loop_lem fuel sp rules h.4 in
    (
      bs ++ cs,
      rw
          (
            rules_loop,
            duration_fits w whole,
            duration_fits (w * rule.buckets) period,
            backward end w whole,
            backward end (w * rule.buckets) period,
            run,
            ◌>>=◌,
          )
          (rw (run', ◌>>=◌) refl),
      Tiles-append end sp 0 bs cs tiles tiles',
      length-append bs cs ∙ omega (arith, count, count'),
    )

-- Below 2 ^ 63 nanoseconds the collection starts the given number of days before today.
pub collection_start_lem :
    (now_day : ℕ) (rules : HistoryRules)
    → rules.gc_start_after * time_day < 2 ^ 63
    → collection_start now_day rules ≡ now_day - rules.gc_start_after * time_day
unfolding collection_start
collection_start_lem now_day rules h =
    ap (λ d. add_duration now_day (negate d)) (duration_fits (rules.gc_start_after * time_day) h)
    ∙ backward now_day (rules.gc_start_after * time_day) h

-- When every rule has a bucket length above 0, more fuel than buckets, its buckets lie after the
-- zero of time, and no duration overflows an `int64`: the buckets are computed, and they cover the
-- time from now down to zero without a gap or an overlap, one for each bucket of a rule and two more;
-- the newest keeps all states and starts the given number of days before today.
pub compute_buckets_lem :
    (fuel now now_day : ℕ) (rules : HistoryRules)
    → now_day ≤ now
    → rules.gc_start_after * time_day < 2 ^ 63
    → InRange fuel (now_day - rules.gc_start_after * time_day) rules.gc_rules
    → (b : Bucket) × (bs : List Bucket) × (compute_buckets fuel now now_day rules ≡ some (b ∷ bs))
      × Tiles now 0 (b ∷ bs)
      × (length (b ∷ bs) ≡ total_buckets rules.gc_rules + 2)
      × (b.samples ≡ negsuc 0)
      × (b.start ≡ now_day - rules.gc_start_after * time_day)
unfolding compute_buckets
compute_buckets_lem fuel now now_day rules le fits h =
    let end = now_day - rules.gc_start_after * time_day in
    let (bs, run, tiles, count) = rules_loop_lem fuel end rules.gc_rules h in
    (
      record { start = end; end = now; samples = negsuc 0 },
      bs,
      rw (compute_buckets, collection_start_lem now_day rules fits, run, ◌>>=◌) refl,
      (refl, omega arith, tiles),
      omega (arith, count),
      refl,
      refl,
    )
