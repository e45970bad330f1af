-- ===== src/Gc/UserPass/Total.antt =====
-- A pass over the users' states ends without a panic.
use mathlib.Core.List.{Memᴰ}
use zsys.Prelude.{◌≤◌, some, List, [], ◌∷◌, ◌++◌, ◌≡◌, refl, length, ◌>>=◌}
use zsys.Text.{Bytes}
use zsys.Machines.Model.{State, Machine}
use zsys.Gc.Buckets.{Bucket}
use zsys.Gc.Walk.{Links}
use zsys.Gc.Walk.Total.{walk-total}
use zsys.Gc.Pass.{Policy}
use zsys.Gc.UserPass.{user_keep, past_states, users_step, user_pass}

module _ (p : Policy) (sort : List State → List State) where
  -- No user has more than 43 past states, once sorted.
  abbrev pub FewPast : Machine → List (Bytes × List (Bytes × State)) → Type 0
  FewPast m users =
      (user : Bytes × List (Bytes × State))
      → Memᴰ user users
      → length (sort (past_states m.main.users user.1)) ≤ 43

  users_step-total :
      (buckets : List Bucket) (m : Machine) (users : List (Bytes × List (Bytes × State)))
      (links : Links)
      → FewPast m users
      → (out : List State × Links) × (users_step sort p buckets m users links ≡ some out)
  unfolding users_step
  users_step-total buckets m [] links h = (([], links), refl)
  users_step-total buckets m ((user, us) ∷ users) links h =
      let (first, done) =
        walk-total (user_keep p m.history) buckets (sort (past_states m.main.users us)) 0 links
          (h (user, us) (Memᴰ.head refl)) in
      let (later, left) = users_step-total buckets m users first.1 (λ x i. h x (Memᴰ.tail i)) in
      ((first.0 ++ later.0, later.1), rw (done, ◌>>=◌) (rw (left, ◌>>=◌) refl))

  -- If no user of a machine has more than 43 past states, a pass over the users' states of the
  -- machines ends without a panic, whatever the buckets, the rules and the maps are.
  pub user_pass_total :
      (buckets : List Bucket) (ms : List Machine) (links : Links)
      → ((m : Machine) → Memᴰ m ms → FewPast m m.all_users_states)
      → (out : List State × Links) × (user_pass sort p buckets ms links ≡ some out)
  unfolding user_pass
  user_pass_total buckets [] links h = (([], links), refl)
  user_pass_total buckets (m ∷ ms) links h =
      let (first, done) =
        users_step-total buckets m m.all_users_states links (h m (Memᴰ.head refl)) in
      let (later, left) = user_pass_total buckets ms first.1 (λ x i. h x (Memᴰ.tail i)) in
      ((first.0 ++ later.0, later.1), rw (done, ◌>>=◌) (rw (left, ◌>>=◌) refl))
