-- ===== src/Machines/Boot/Clones.antt =====
-- `createClones` of internal/machines/boot.go: a snapshot of a system is cloned, and those of its users
-- if their data is to be reverted.
pub mod Name
use zsys.Prelude.{
  ℕ, ◌+◌, Bool, true, false, not, ◌||◌, Option, none, some, List, [], ◌∷◌, ◌++◌, if◌then◌else◌,
  take, drop,
}
use zsys.Text.{Bytes, has_suffix, last_index}
use zsys.Zfs.Dataset.{Dataset}
use zsys.Zfs.Transaction.{Transaction}
use zsys.Zfs.Property.{bootfs_datasets, Host, PropertyError, set_property_of}
use zsys.Zfs.Clone.{Cloner, CloningError, clone}
use zsys.Machines.Model.{State, SystemState}
use zsys.Machines.Boot.Clones.Name.{booted_suffix, user_dataset_name}

pub record Cloning : Type 0 where
  pub cloner : Cloner
  -- What `GenerateID(6)` returns.
  pub generated_id : Bytes

pub data ClonesError : Type 0 where
  no_valid_suffix : ClonesError
  not_cloned : Bytes → CloningError → ClonesError
  not_tagged : Bytes → PropertyError → ClonesError
  clones_panicked : ClonesError

module _ (host : Host) (z : Cloning) where
  -- The loop over the routes of the snapshot.
  unfoldable pub clone_routes :
      List (Bytes × List Dataset) → Bytes → Transaction → Transaction × Option ClonesError
  unfolding clone
  clone_routes [] suffix t = (t, none)
  clone_routes ((route, ds) ∷ rs) suffix t =
      let (left, error) = clone z.cloner route suffix true true t in
      elim error [ some e ↦ (left, some (not_cloned route e)) | none ↦ clone_routes rs suffix left ]

  -- The clone of one user's data is tagged with the booted state.
  unfoldable pub tag_clone : Bytes → Bytes → Transaction → Transaction × Option ClonesError
  unfolding set_property_of user_dataset_name
  tag_clone booted id t = elim (user_dataset_name id z.generated_id) [
    | none ↦ (t, some clones_panicked)
    | some name ↦
        let (left, error) = set_property_of host bootfs_datasets booted name false t in
        elim error [ some e ↦ (left, some (not_tagged id e)) | none ↦ (left, none) ]
  ]

  unfoldable pub clone_users :
      List (Bytes × State) → Bytes → Transaction → Transaction × Option ClonesError
  unfolding clone tag_clone
  clone_users [] booted t = (t, none)
  clone_users ((user, us) ∷ rest) booted t =
      let (left, error) = clone z.cloner us.id z.generated_id false true t in
      let (tagged, refused) = tag_clone booted us.id left in
      elim error [
        | some e ↦ (left, some (not_cloned us.id e))
        | none ↦ elim refused [ some e ↦ (tagged, some e) | none ↦ clone_users rest booted tagged ]
      ]

  unfoldable pub create_clones :
      SystemState → Bytes → Bool → Transaction → Transaction × Option ClonesError
  unfolding clone_routes clone_users booted_suffix
  create_clones snapshot booted need_user_datas t = elim (booted_suffix booted) [
    | none ↦ (t, some no_valid_suffix)
    | some suffix ↦
        let (left, error) = clone_routes snapshot.state.datasets suffix t in
        elim error [
          | some e ↦ (left, some e)
          | none ↦ if need_user_datas then clone_users snapshot.users booted left else (left, none)
        ]
  ]
