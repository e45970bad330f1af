-- ===== src/Machines/Remove.antt =====
-- `remove` of internal/machines/state.go, with `parentSystemState`: the tags of a state's datasets are
-- taken off, the state is unlinked from its system state, and its datasets are destroyed unless the
-- removal is an indirect one. The maps are visited in the order in which they hold their entries.
pub mod Laws
mod Tests
use zsys.Prelude.{
  ℕ, Bool, true, false, not, ◌&&◌, ◌||◌, Option, none, some, List, [], ◌∷◌, ◌++◌, ◌≡◌, refl,
  if◌then◌else◌, ◌==◌,
}
use zsys.Text.{Bytes, text_eq}
use zsys.Zfs.Dataset.{Dataset, name_of, prop_of}
use zsys.Zfs.Cache.{Cache}
use zsys.Zfs.Transaction.{Transaction, cancel}
use zsys.Zfs.Property.{bootfs_datasets, Host, PropertyError, set_property_of}
use zsys.Zfs.Destroy.{Backend, DestroyError, destroy}
use zsys.Machines.Model.{State, SystemState, is_snapshot_state, get_datasets}
use zsys.Machines.Tags.{new_tag}
use zsys.Machines.UserTags.{current, Done, each}

-- The cache, and the system states of the machines with their users: of each machine the main state
-- and then its history.
pub record Linked : Type 0 where
  pub cache : Cache
  pub systems : List SystemState

pub data RemoveError : Type 0 where
  untag_failed : PropertyError → RemoveError
  destroy_failed : DestroyError → RemoveError

abbrev pub Removed : Type 0
Removed = Linked × Option RemoveError

unfoldable pub has_user : ℕ → List (Bytes × State) → Bool
has_user ref [] = false
has_user ref ((user, s) ∷ us) = s.ref == ref || has_user ref us

-- `delete(ps.Users, user)` of the first user whose state it is.
unfoldable pub delete_user : ℕ → List (Bytes × State) → List (Bytes × State)
delete_user ref [] = []
delete_user ref ((user, s) ∷ us) =
    let rest = delete_user ref us in if s.ref == ref then us else (user, s) ∷ rest

-- The first system state that has the state as a user loses it.
unfoldable pub unlink : ℕ → List SystemState → List SystemState
unfolding has_user delete_user
unlink ref [] = []
unlink ref (h ∷ hs) =
    let rest = unlink ref hs in
    if has_user ref h.users then record h { users = delete_user ref h.users } ∷ hs else h ∷ rest

module _ (host : Host) (z : Backend) where
  -- One round of the loop over the datasets.
  unfoldable pub untag_dataset : Bytes → Dataset → Transaction → Done
  unfolding new_tag set_property_of
  untag_dataset linked d t =
      let tags = (prop_of (current d t.cache)).bootfs_datasets in
      if text_eq (new_tag linked tags) tags
      then (t, none)
      else set_property_of host bootfs_datasets (new_tag linked tags) (name_of d) false t

  -- The transaction, cancelled on an error and done otherwise.
  unfoldable pub finish : Done → Cache × Option PropertyError
  unfolding cancel
  finish (t, some e) = ((cancel t).cache, some e)
  finish (t, none) = (t.cache, none)

  unfoldable pub untag_datasets : State → Bytes → Cache → Cache × Option PropertyError
  unfolding finish untag_dataset each get_datasets is_snapshot_state
  untag_datasets s linked cache =
      if not (is_snapshot_state s) && not (text_eq linked [])
      then finish (
          each host (untag_dataset linked) (get_datasets s)
            (record { cache = cache; reverts = [] }))
      else (cache, none)

  unfoldable pub destroy_routes : List (Bytes × List Dataset) → Cache → Cache × Option DestroyError
  unfolding destroy
  destroy_routes [] cache = (cache, none)
  destroy_routes ((route, ds) ∷ rs) cache =
      let (left, error) = destroy z route cache in
      elim error [ some e ↦ (left, some e) | none ↦ destroy_routes rs left ]

  -- The end of a removal, and the step from one part to the next.
  unfoldable pub destroy_state : State → Bytes → Linked → Removed
  unfolding destroy_routes
  destroy_state s linked w =
      if not (text_eq linked [])
      then (w, none)
      else let (left, error) = destroy_routes s.datasets w.cache in
        (record w { cache = left }, elim error [ some e ↦ some (destroy_failed e) | none ↦ none ])

  unfoldable pub and_then : Removed → (Linked → Removed) → Removed
  and_then (w, some e) next = (w, some e)
  and_then (w, none) next = next w

  unfoldable pub untag_and_unlink : State → Bytes → Linked → Removed
  unfolding untag_datasets unlink
  untag_and_unlink s linked w =
      let (left, error) = untag_datasets s linked w.cache in
      elim error [
        | some e ↦ (record w { cache = left }, some (untag_failed e))
        | none ↦ (record { cache = left; systems = unlink s.ref w.systems }, none)
      ]

  -- `remove` of a user's state.
  unfoldable pub remove_user : State → Bytes → Linked → Removed
  unfolding untag_and_unlink destroy_state and_then
  remove_user s linked w = and_then (untag_and_unlink s linked w) (destroy_state s linked)

  unfoldable pub remove_users : List (Bytes × State) → Bytes → Linked → Removed
  unfolding remove_user
  remove_users [] linked w = (w, none)
  remove_users ((user, s) ∷ us) linked w =
      and_then (remove_user s linked w) (remove_users us linked)

  -- `remove` of a system state.
  unfoldable pub remove_system : SystemState → Bytes → Linked → Removed
  unfolding remove_users
  remove_system h linked w =
      and_then (untag_and_unlink h.state linked w)
        (λ w'. and_then (remove_users h.users h.state.id w') (destroy_state h.state linked))
