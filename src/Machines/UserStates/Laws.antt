-- ===== src/Machines/UserStates/Laws.antt =====
-- The user of a dataset, and the state under which it is found.
use zsys.Prelude.{ℕ, false, some, List, [], ◌∷◌, ◌++◌, ◌≡◌, refl, sym, ap, ◌∙◌, append_assoc}
use zsys.Text.{Bytes, codes, has_byte, split, join, base}
use zsys.Text.Split.{Separate, split-join, parts_of}
use zsys.Text.Base.{base-append}
use zsys.Zfs.Names.{split_snapshot_name}
use zsys.Zfs.Dataset.{Dataset, name_of}
use zsys.Machines.Model.{State, Machine}
use zsys.Machines.Maps.{lookup, put}
use zsys.Machines.Maps.Laws.{lookup-put_self}
use zsys.Machines.UserStates.{
  without_last, user_of, user_from_dataset_name, user_index, user_state, or_empty, add_user_state,
}

without_last-append : (ps : List Bytes) (q : Bytes) → without_last (ps ++ q ∷ []) ≡ ps
unfolding without_last
without_last-append [] q = refl
without_last-append (p ∷ []) q = refl
without_last-append (p ∷ r ∷ ps) q = ap (λ l. p ∷ l) (without_last-append (r ∷ ps) q)

user_of-append :
    (p q : Bytes) (ps : List Bytes) → user_of ((p ∷ ps) ++ q ∷ []) ≡ join (p ∷ ps) (codes "_")
unfolding user_of
user_of-append p q [] = ap (λ l. join l (codes "_")) (without_last-append (p ∷ []) q)
user_of-append p q (r ∷ ps) = ap (λ l. join l (codes "_")) (without_last-append (p ∷ r ∷ ps) q)

join-append :
    (p q : Bytes) (ps : List Bytes)
    → join ((p ∷ ps) ++ q ∷ []) (codes "_") ≡ join (p ∷ ps) (codes "_") ++ b'_' ∷ q
unfolding join
join-append p q [] = refl
join-append p q (r ∷ ps) =
    ap (λ t. p ++ b'_' ∷ t) (join-append r q ps)
    ∙ sym (append_assoc p (b'_' ∷ join (r ∷ ps) (codes "_")) (b'_' ∷ q))

Separate-append :
    (ps : List Bytes) (q : Bytes)
    → Separate b'_' ps
    → has_byte b'_' q ≡ false
    → Separate b'_' (ps ++ q ∷ [])
Separate-append [] q s h = (h, tt)
Separate-append (p ∷ ps) q s h = (s.0, Separate-append ps q s.1 h)

-- The element of a user's dataset is the user, an underscore and an id.
user_of-element :
    (user q : Bytes) → has_byte b'_' q ≡ false → user_of (split (user ++ b'_' ∷ q) b'_') ≡ user
user_of-element user q n =
    let (p, ps, e, s) = parts_of user b'_' in
    let joined : join ((p ∷ ps) ++ q ∷ []) (codes "_") ≡ user ++ b'_' ∷ q =
      join-append p q ps ∙ ap (λ t. t ++ b'_' ∷ q) e in
    rw (← joined) (
      rw (split-join p (ps ++ q ∷ []) b'_' (Separate-append (p ∷ ps) q s n))
        (user_of-append p q ps ∙ e))

base-user :
    (dir user q : Bytes)
    → has_byte b'/' (user ++ b'_' ∷ q) ≡ false
    → base (dir ++ b'/' ∷ (user ++ b'_' ∷ q)) ≡ user ++ b'_' ∷ q
base-user dir [] q h = base-append dir b'_' q h
base-user dir (c ∷ user) q h = base-append dir c (user ++ b'_' ∷ q) h

-- A user dataset, or a snapshot of it, whose name ends in the user's name, an underscore and an id
-- without one, is attached under that user: the user is read from the name, whatever underscores it
-- has, and the new state is then found under the user and its key.
pub add_user_state-found :
    (ref : ℕ) (system_id dir user q : Bytes) (r : Dataset) (children : List Dataset) (m : Machine)
    → has_byte b'/' (user ++ b'_' ∷ q) ≡ false
    → has_byte b'_' q ≡ false
    → (split_snapshot_name (name_of r)).0 ≡ dir ++ b'/' ∷ (user ++ b'_' ∷ q)
    → (let (m', (u, s)) = add_user_state ref system_id r children m in
        (u ≡ user)
        × ((states : List (Bytes × State)) × (lookup user m'.all_users_states ≡ some states)
            × (lookup (user_index system_id r) states ≡ some s)))
unfolding add_user_state user_from_dataset_name
add_user_state-found ref system_id dir user q r children m h n e =
    let s = user_state ref r children in
    let named : user_from_dataset_name (name_of r) ≡ user =
      ap (λ b. user_of (split (base b) b'_')) e
      ∙ ap (λ b. user_of (split b b'_')) (base-user dir user q h)
      ∙ user_of-element user q n in
    let states = or_empty (lookup (user_from_dataset_name (name_of r)) m.all_users_states) in
    (
      named,
      (
        put (user_index system_id r) s states,
        ap
              (λ u. lookup u (
                put (user_from_dataset_name (name_of r)) (put (user_index system_id r) s states)
                  m.all_users_states))
              (sym named)
            ∙ lookup-put_self (user_from_dataset_name (name_of r))
                (put (user_index system_id r) s states) m.all_users_states,
        lookup-put_self (user_index system_id r) s states,
      ),
    )
