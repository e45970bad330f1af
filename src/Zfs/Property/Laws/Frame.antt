-- ===== src/Zfs/Property/Laws/Frame.antt =====
-- A transaction that sets one property, and its cancellation, change nothing else in the cache.
use zsys.Prelude.{
  Bool, not, ◌&&◌, Option, none, some, List, [], ◌∷◌, ◌++◌, ◌≡◌, inl, inr, refl, sym, ap, ◌∙◌,
  Bool-cases, some_inj,
}
use zsys.Text.{Bytes, text_eq}
use zsys.Zfs.Dataset.{Dataset, dataset, Children, nil, cons, prop_of}
use zsys.Zfs.Refresh.{local}
use zsys.Zfs.Cache.{Cache, find_dataset, find_in_children}
use zsys.Zfs.Transaction.{Transaction, cancel, run_reverts, register_revert}
use zsys.Zfs.Property.{
  PropName, Host, SetError, SetResult, set_to, failed, property_from_name, set_property, replace_in,
  replace_in_children, set_at, PropertyError, not_set, no_dataset, set_found, set_property_of,
}
use zsys.Zfs.Property.Laws.{erase, erase_tree, erase_children, set_property-erase}

none-some : {d : Dataset} → ◌≡◌ {A = Option Dataset} none (some d) → ⊥
none-some h = cc

replaced_part :
    (p : PropName) (name : Bytes) (c : Dataset) (cs : Children) (d e : Dataset) (o : Option Dataset)
    → (elim o as (λ o. Option Dataset) [ some x ↦ some x | none ↦ find_in_children name cs ])
      ≡ some d
    → (find_dataset name c ≡ some d → erase_tree p (replace_in name e c) ≡ erase_tree p c)
    → (find_in_children name cs ≡ some d
        → erase_children p (replace_in_children name e cs) ≡ erase_children p cs)
    → find_dataset name c ≡ o
    → erase_children p (elim o as (λ o. Children) [
      | some x ↦ cons (replace_in name e c) cs
      | none ↦ cons c (replace_in_children name e cs)
    ])
      ≡ cons (erase_tree p c) (erase_children p cs)
replaced_part p name c cs d e none f here later q = ap (cons (erase_tree p c)) (later f)
replaced_part p name c cs d e (some x) f here later q =
    ap (λ u. cons u (erase_children p cs)) (here (q ∙ f))

mutual
  unfolding find_dataset replace_in

  erase-replace :
      (p : PropName) (name : Bytes) (t d e : Dataset)
      → find_dataset name t ≡ some d
      → erase_tree p e ≡ erase_tree p d
      → erase_tree p (replace_in name e t) ≡ erase_tree p t
  erase-replace p name (dataset n s x cs) d e f h = elim (Bool-cases (text_eq n name)) [
    | inl y ↦ rw y (h ∙ ap (erase_tree p) (sym (some_inj (rw y at f))))
    | inr m ↦
        rw m (ap (dataset n s (erase p x)) (erase-replace_children p name cs d e (rw m at f) h))
  ]

  erase-replace_children :
      (p : PropName) (name : Bytes) (ds : Children) (d e : Dataset)
      → find_in_children name ds ≡ some d
      → erase_tree p e ≡ erase_tree p d
      → erase_children p (replace_in_children name e ds) ≡ erase_children p ds
  erase-replace_children p name nil d e f h = refl
  erase-replace_children p name (cons c cs) d e f h =
      replaced_part p name c cs d e (find_dataset name c) f (λ g. erase-replace p name c d e g h)
        (λ g. erase-replace_children p name cs d e g h) refl

-- Every revert of the transaction changes the property only.
abbrev pub Reverting : PropName → List (Cache → Cache) → Type 0
Reverting p [] = Unit
Reverting p (r ∷ rs) =
    ((cache : Cache) → erase_children p (r cache) ≡ erase_children p cache) × Reverting p rs

Reverting-append :
    (p : PropName) (rs : List (Cache → Cache)) (r : Cache → Cache)
    → Reverting p rs
    → ((cache : Cache) → erase_children p (r cache) ≡ erase_children p cache)
    → Reverting p (rs ++ r ∷ [])
Reverting-append p [] r g h = (h, tt)
Reverting-append p (q ∷ rs) r g h = (g.0, Reverting-append p rs r g.1 h)

run_reverts-erase :
    (p : PropName) (rs : List (Cache → Cache)) (cache : Cache)
    → Reverting p rs
    → erase_children p (run_reverts rs cache) ≡ erase_children p cache
unfolding run_reverts
run_reverts-erase p [] cache g = refl
run_reverts-erase p (r ∷ rs) cache g = g.0 (run_reverts rs cache) ∙ run_reverts-erase p rs cache g.1

-- Since the transaction began with a cache, it has changed the property only.
abbrev pub OnlyChanges : PropName → Cache → Transaction → Type 0
OnlyChanges p start t = (erase_children p t.cache ≡ erase_children p start) × Reverting p t.reverts

pub cancel-OnlyChanges :
    (p : PropName) (start : Cache) (t : Transaction)
    → OnlyChanges p start t
    → erase_children p (cancel t).cache ≡ erase_children p start
unfolding cancel
cancel-OnlyChanges p start t (e, g) = run_reverts-erase p t.reverts t.cache g ∙ e

module _ (host : Host) where
  set_at-erase :
      (p : PropName) (v s name : Bytes) (cache : Cache)
      → erase_children p (set_at host p v s name cache).0 ≡ erase_children p cache
  unfolding set_at
  set_at-erase p v s name cache = found (find_in_children name cache) refl
    where
      set_it :
          (d : Dataset)
          → find_in_children name cache ≡ some d
          → (r : SetResult) → set_property host p v s d ≡ r
          → erase_children p
              (elim r as (λ r. Cache × Option SetError) [
                | failed e ↦ (cache, some e)
                | set_to e ↦ (replace_in_children name e cache, none)
              ]).0
            ≡ erase_children p cache
      set_it d f (failed e) q = refl
      set_it d f (set_to e) q =
          erase-replace_children p name cache d e f (set_property-erase host p v s d e q)

      found :
          (o : Option Dataset)
          → find_in_children name cache ≡ o
          → erase_children p
              (elim o as (λ o. Cache × Option SetError) [
                | none ↦ (cache, none)
                | some d ↦ elim (set_property host p v s d) as (λ r. Cache × Option SetError) [
                  | failed e ↦ (cache, some e)
                  | set_to e ↦ (replace_in_children name e cache, none)
                ]
              ]).0
            ≡ erase_children p cache
      found none f = refl
      found (some d) f = set_it d f (set_property host p v s d) refl

  pub set_property_of-OnlyChanges :
      (p : PropName) (v name : Bytes) (force : Bool) (start : Cache) (t : Transaction)
      → OnlyChanges p start t
      → OnlyChanges p start (set_property_of host p v name force t).0
  unfolding set_property_of set_found register_revert
  set_property_of-OnlyChanges p v name force start t (e, g) =
      found (find_in_children name t.cache) refl
    where
      back : Dataset → Cache → Cache
      back d cache =
          (set_at host p (property_from_name host p (prop_of d)).0
            (property_from_name host p (prop_of d)).1 name cache).0

      set_it :
          (d : Dataset)
          → find_in_children name t.cache ≡ some d
          → (r : SetResult) → set_property host p v local d ≡ r
          → OnlyChanges p start
              (elim r as (λ r. Transaction × Option PropertyError) [
                | failed e ↦ (t, some (not_set e))
                | set_to e ↦ (
                  register_revert
                      (back d)
                      (record { cache = replace_in_children name e t.cache; reverts = t.reverts }),
                  none,
                )
              ]).0
      set_it d f (failed x) q = (e, g)
      set_it d f (set_to x) q = (
        erase-replace_children p name t.cache d x f (set_property-erase host p v local d x q) ∙ e,
        Reverting-append p t.reverts (back d) g (
            set_at-erase p (property_from_name host p (prop_of d)).0
              (property_from_name host p (prop_of d)).1 name),
      )

      found :
          (o : Option Dataset)
          → find_in_children name t.cache ≡ o
          → OnlyChanges p start
              (elim o as (λ o. Transaction × Option PropertyError) [
                | none ↦ (t, some (no_dataset name))
                | some d ↦ set_found host p v name force d t
              ]).0
      found none f = (e, g)
      found (some d) f =
          let s = (property_from_name host p (prop_of d)).1 in
          elim (Bool-cases (not force && (not (text_eq s local) && not (text_eq s [])))) [
            | inl skipped ↦ rw (skipped, set_found) (e, g)
            | inr sets ↦ rw (sets, set_found) (set_it d f (set_property host p v local d) refl)
          ]
