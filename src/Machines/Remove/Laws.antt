-- ===== src/Machines/Remove/Laws.antt =====
-- What an indirect removal leaves.
use zsys.Prelude.{
  false, not, ◌&&◌, Option, none, some, List, [], ◌∷◌, ◌≡◌, refl, ap, ◌∙◌, Bool-cases, inl, inr,
}
use zsys.Text.{Bytes, text_eq}
use zsys.Zfs.Dataset.{Dataset, Children, name_of, prop_of}
use zsys.Zfs.Cache.{Cache}
use zsys.Zfs.Transaction.{Transaction}
use zsys.Zfs.Property.{bootfs_datasets, Host, PropertyError}
use zsys.Zfs.Property.Laws.{erase_children}
use zsys.Zfs.Property.Laws.Frame.{OnlyChanges, cancel-OnlyChanges, set_property_of-OnlyChanges}
use zsys.Zfs.Destroy.{Backend}
use zsys.Machines.Model.{State, is_snapshot_state, get_datasets}
use zsys.Machines.Tags.{new_tag}
use zsys.Machines.UserTags.{current, Done, each}
use zsys.Machines.Remove.{
  Linked, Removed, untag_failed, untag_dataset, finish, untag_datasets, destroy_state, and_then,
  untag_and_unlink, remove_user, remove_users, unlink,
}

-- The cache without the tags.
abbrev pub untagged_cache : Cache → Children
untagged_cache = erase_children bootfs_datasets

abbrev OnlyTags : Cache → Transaction → Type 0
OnlyTags = OnlyChanges bootfs_datasets

module _ (host : Host) where
  each-OnlyTags :
      (step : Dataset → Transaction → Done) (start : Cache)
      → ((d : Dataset) (t : Transaction) → OnlyTags start t → OnlyTags start (step d t).0)
      → (ds : List Dataset) (t : Transaction) → OnlyTags start t
      → OnlyTags start (each host step ds t).0
  unfolding each
  each-OnlyTags step start h [] t g = g
  each-OnlyTags step start h (d ∷ ds) t g =
      go (step d t).0 (step d t).1 (h d t g) (each-OnlyTags step start h ds)
    where
      go :
          (left : Transaction) (error : Option PropertyError)
          → OnlyTags start left
          → ((t : Transaction) → OnlyTags start t → OnlyTags start (each host step ds t).0)
          → OnlyTags start
              (elim error as (λ e. Done) [
                | some e ↦ (left, some e)
                | none ↦ each host step ds left
              ]).0
      go left none g again = again left g
      go left (some e) g again = g

  untag_dataset-OnlyTags :
      (z : Backend) (linked : Bytes) (start : Cache) (d : Dataset) (t : Transaction)
      → OnlyTags start t
      → OnlyTags start (untag_dataset host z linked d t).0
  unfolding untag_dataset
  untag_dataset-OnlyTags z linked start d t g =
      let tags = (prop_of (current d t.cache)).bootfs_datasets in
      elim (Bool-cases (text_eq (new_tag linked tags) tags)) [
        | inl y ↦ rw (y, untag_dataset) g
        | inr n ↦
            rw (n, untag_dataset)
              (set_property_of-OnlyChanges host bootfs_datasets (new_tag linked tags) (name_of d)
                false start t g)
      ]

module _ (host : Host) (z : Backend) where
  finish-OnlyTags :
      (start : Cache) (r : Done)
      → OnlyTags start r.0
      → untagged_cache (finish host z r).0 ≡ untagged_cache start
  unfolding finish
  finish-OnlyTags start (t, none) g = g.0
  finish-OnlyTags start (t, some e) g = cancel-OnlyChanges bootfs_datasets start t g

  untag_datasets-tags :
      (s : State) (linked : Bytes) (cache : Cache)
      → untagged_cache (untag_datasets host z s linked cache).0 ≡ untagged_cache cache
  unfolding untag_datasets
  untag_datasets-tags s linked cache =
      elim (Bool-cases (not (is_snapshot_state s) && not (text_eq linked []))) [
        | inl y ↦
            let t : Transaction = record { cache = cache; reverts = [] } in
            rw (y, untag_datasets)
              (finish-OnlyTags cache (each host (untag_dataset host z linked) (get_datasets s) t) (
                each-OnlyTags host (untag_dataset host z linked) cache
                  (untag_dataset-OnlyTags host z linked cache) (get_datasets s) t (refl, tt)))
        | inr n ↦ rw (n, untag_datasets) refl
      ]

  untag_and_unlink-tags :
      (s : State) (linked : Bytes) (w : Linked)
      → untagged_cache (untag_and_unlink host z s linked w).0.cache ≡ untagged_cache w.cache
  unfolding untag_and_unlink
  untag_and_unlink-tags s linked w =
      go (untag_datasets host z s linked w.cache).0 (untag_datasets host z s linked w.cache).1
        (untag_datasets-tags s linked w.cache)
    where
      go :
          (left : Cache) (error : Option PropertyError)
          → untagged_cache left ≡ untagged_cache w.cache
          → untagged_cache
              (elim error as (λ e. Removed) [
                | some e ↦ (record w { cache = left }, some (untag_failed e))
                | none ↦ (record { cache = left; systems = unlink s.ref w.systems }, none)
              ]).0.cache
            ≡ untagged_cache w.cache
      go left none e = e
      go left (some x) e = e

  and_then-tags :
      (r : Removed) (next : Linked → Removed)
      → ((w : Linked) → untagged_cache (next w).0.cache ≡ untagged_cache w.cache)
      → untagged_cache (and_then host z r next).0.cache ≡ untagged_cache r.0.cache
  unfolding and_then
  and_then-tags (w, none) next h = h w
  and_then-tags (w, some e) next h = refl

  destroy_state-indirect :
      (s : State) (linked : Bytes) (w : Linked)
      → text_eq linked [] ≡ false
      → destroy_state host z s linked w ≡ (w, none)
  unfolding destroy_state
  destroy_state-indirect s linked w h = rw (h, destroy_state) refl

  remove_user-tags :
      (s : State) (linked : Bytes) (w : Linked)
      → text_eq linked [] ≡ false
      → untagged_cache (remove_user host z s linked w).0.cache ≡ untagged_cache w.cache
  unfolding remove_user
  remove_user-tags s linked w h =
      and_then-tags (untag_and_unlink host z s linked w) (destroy_state host z s linked)
        (λ v. ap (λ r. untagged_cache r.0.cache) (destroy_state-indirect s linked v h))
      ∙ untag_and_unlink-tags s linked w

  -- The removal of the users of a system state, which names that state, destroys nothing and sets
  -- nothing but tags, in whatever way it ends: but for the tags and their sources, the datasets of
  -- the cache are as they were.
  pub remove_users-tags :
      (us : List (Bytes × State)) (linked : Bytes) (w : Linked)
      → text_eq linked [] ≡ false
      → untagged_cache (remove_users host z us linked w).0.cache ≡ untagged_cache w.cache
  unfolding remove_users
  remove_users-tags [] linked w h = refl
  remove_users-tags ((user, s) ∷ us) linked w h =
      and_then-tags (remove_user host z s linked w) (remove_users host z us linked)
        (λ v. remove_users-tags us linked v h)
      ∙ remove_user-tags s linked w h
