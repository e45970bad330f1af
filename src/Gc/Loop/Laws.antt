-- ===== src/Gc/Loop/Laws.antt =====
-- Where the loop of passes ends.
use zsys.Prelude.{ℕ, suc, Bool, true, Option, none, some, List, [], ◌≡◌, some_inj}
use mathlib.Core.Path.{subst}
use zsys.Prelude.Int.{ℤ}
use zsys.Text.{Bytes}
use zsys.Machines.Model.{State, Machine}
use zsys.Gc.Buckets.{Bucket}
use zsys.Gc.Walk.{Links}
use zsys.Gc.Pass.{Policy, is_failed, system_pass}
use zsys.Gc.Loop.{GcState, GcRound, finished, not_refreshed, next_pass, gc_round, system_gc}

module _ {W : Type 0} (machines : W → List Machine) (remove : State → W → W × Bool)
    (refresh : W → Option W) (sort : List State → List State) (all : Bool) (keep_last : ℤ)
    (buckets : List Bucket) where
  abbrev policy : List Bytes → Policy
  policy failed = record { all = all; keep_last = keep_last; failed = failed }

  -- A pass over the machines of the state, with its failures and maps, selects nothing.
  abbrev pub Settled : GcState W → Type 0
  Settled h =
      (links : Links) × (system_pass sort (policy h.failed) buckets (machines h.world) links
        ≡ some ([], h.links))

  -- Every failure of the first state is one of the second.
  abbrev pub KeepsFailed : GcState W → GcState W → Type 0
  KeepsFailed g h = (id : Bytes) → is_failed id g.failed ≡ true → is_failed id h.failed ≡ true

  -- What the way from one state to a round may be.
  Reaches : GcState W → GcRound W → Type 0
  Reaches g (finished h) = Settled h × KeepsFailed g h
  Reaches g (next_pass h) = KeepsFailed g h
  Reaches g (not_refreshed w) = refresh w ≡ none

  -- How the loop may end: with a pass that changes nothing, or with an error of the refresh.
  abbrev pub Ended : GcState W → GcRound W → Type 0
  Ended g (finished h) = Settled h × KeepsFailed g h
  Ended g (not_refreshed w) = refresh w ≡ none
  Ended g (next_pass h) = ⊥

  ended_later : (g h : GcState W) (r : GcRound W) → KeepsFailed g h → Ended h r → Ended g r
  ended_later g h (finished k) keeps (settled, more) = (settled, λ id e. more id (keeps id e))
  ended_later g h (not_refreshed w) keeps e = e
  ended_later g h (next_pass k) keeps e = e

  go_on :
      (fuel : ℕ) (g : GcState W) (r s : GcRound W)
      → ((h : GcState W)
          → system_gc machines remove refresh sort all keep_last buckets fuel h ≡ some s
          → Ended h s)
      → gc_round machines remove refresh sort all keep_last buckets g ≡ some r
      → Reaches g r
      → system_gc machines remove refresh sort all keep_last buckets (suc fuel) g ≡ some s
      → Ended g s
  unfolding system_gc Reaches
  go_on fuel g (finished h) s later e reached run =
      subst (Ended g) (some_inj (rw (system_gc, e) at run)) reached
  go_on fuel g (not_refreshed w) s later e reached run =
      subst (Ended g) (some_inj (rw (system_gc, e) at run)) reached
  go_on fuel g (next_pass h) s later e reached run =
      ended_later g h s reached (later h (rw (system_gc, e) at run))
