-- ===== src/Authorizer/Laws.antt =====
-- Who is allowed to do what, and what the start time of a process is read from.
use mathlib.Core.Path.{subst}
use zsys.Prelude.{
  ℕ, suc, ◌+◌, ◌<◌, ◌^◌, ◌%◌, Bool, true, false, Option, none, some, List, [], ◌∷◌, ◌++◌, ◌≡◌, ◌↔◌,
  refl, sym, ap, ◌∙◌, if◌then◌else◌, ◌==◌, ltb, Bool-cases, ◌⊎◌, inl, inr, length, drop, get_elem?,
  arith,
}
use zsys.Prelude.Int.{ℤ, pos}
use zsys.Text.{Bytes, codes, has_byte, join}
use zsys.Text.Laws.{index_byte-append}
use zsys.Text.Split.{Separate, split-join}
use zsys.Text.Numbers.{parse_uint, to_uint32, atoi}
use zsys.Authorizer.StartTime.{
  StartTimeError, after_parenthesis, start_time_token, parsed, get_start_time_from_reader,
}
use zsys.Authorizer.{
  Action, always_allowed, manage_service, system_list, system_write, user_write, user_write_self,
  user_write_others, action_name, check_allow_interaction, AuthResult, Authority, PermissionDenied,
  read_reply, ask, check_process, asked_action, is_always_allowed, is_allowed, AuthInfo,
  peer_creds_info, Context, other_info, no_peer_creds, no_peer_creds_info, invalid_uid,
  uid_of_account, action_uid_of, with_action_uid, is_allowed_from_context,
}

drop-append_two :
    (x : Bytes) (b c : ℕ) (rest : Bytes) → drop (length x + 2) (x ++ b ∷ c ∷ rest) ≡ rest
drop-append_two x b c rest =
    let e : length x + 2 ≡ suc (suc (length x)) = omega arith in rw e (go x)
  where
    go : (x : Bytes) → drop (suc (suc (length x))) (x ++ b ∷ c ∷ rest) ≡ rest
    go [] = refl
    go (d ∷ x) = go x

long_enough :
    (x : Bytes) (b c : ℕ) (rest : Bytes) → ltb (length (x ++ b ∷ c ∷ rest)) (length x + 2) ≡ false
long_enough [] b c rest = ground arith
long_enough (d ∷ x) b c rest = let e = long_enough x b c rest in ground arith

-- The start time of a process is the 20th of the tokens that the spaces separate behind the byte
-- after the FIRST closing parenthesis of its stat file, whatever other parentheses follow: the text
-- before has none, and the result is that token read as a number.
pub start_time-first_parenthesis :
    (x : Bytes) (c : ℕ) (p : Bytes) (ps : List Bytes) (t : Bytes)
    → has_byte b')' x ≡ false
    → Separate b' ' (p ∷ ps)
    → get_elem? (p ∷ ps) 19 ≡ some t
    → get_start_time_from_reader (some (x ++ b')' ∷ c ∷ join (p ∷ ps) (b' ' ∷ [])))
      ≡ parsed (parse_uint t)
unfolding get_start_time_from_reader after_parenthesis start_time_token
start_time-first_parenthesis x c p ps t h k e =
    let rest = join (p ∷ ps) (b' ' ∷ []) in
    rw
      (
        index_byte-append x (c ∷ rest) b')' h,
        long_enough x b')' c rest,
        drop-append_two x b')' c rest,
        split-join p ps b' ' k,
        start_time_token,
        e,
      )
      refl

-- What makes an action allowed, on its own: the administrator, an action that anyone may do, or the
-- consent of polkit to the process, named by its start time.
pub data Permitted (a : Authority) (action : Action) (pid : ℤ) (uid action_uid : ℕ) : Type 0 where
  by_administrator : uid ≡ 0 → Permitted a action pid uid action_uid
  by_action : action ≡ always_allowed → Permitted a action pid uid action_uid
  by_polkit :
      (contents : Option Bytes) (start_time : ℕ) (result : AuthResult)
      → a.stat pid ≡ some contents
      → get_start_time_from_reader contents ≡ inr start_time
      → a.check_authorization
          (record {
            kind = codes "unix-process";
            pid = to_uint32 pid;
            start_time = start_time;
            uid = uid;
          })
          (action_name (asked_action action uid action_uid))
          check_allow_interaction
        ≡ some result
      → result.is_authorized ≡ true
      → Permitted a action pid uid action_uid

read_reply-authorized :
    (o : Option AuthResult)
    → read_reply o ≡ none
    → (r : AuthResult) × (o ≡ some r) × (r.is_authorized ≡ true)
unfolding read_reply
read_reply-authorized none h = cc
read_reply-authorized (some r) h = elim (Bool-cases (r.is_authorized)) [
  | inl y ↦ (r, refl, y)
  | inr n ↦ absurd (ground arith)
]

module _ (a : Authority) (action : Action) (pid : ℤ) (uid action_uid : ℕ) where
  ask-Permitted :
      (contents : Option Bytes)
      → a.stat pid ≡ some contents
      → ask a (asked_action action uid action_uid) pid uid (get_start_time_from_reader contents)
        ≡ none
      → Permitted a action pid uid action_uid
  unfolding ask
  ask-Permitted contents e h = go (get_start_time_from_reader contents) refl h
    where
      go :
          (r : StartTimeError ⊎ ℕ)
          → get_start_time_from_reader contents ≡ r
          → ask a (asked_action action uid action_uid) pid uid r ≡ none
          → Permitted a action pid uid action_uid
      go (inl x) q k = cc
      go (inr t) q k =
          let (r, answer, y) = read_reply-authorized _ k in by_polkit contents t r e q answer y

module _ (a : Authority) (action : Action) (pid : ℤ) (uid action_uid : ℕ) where
  check_process-Permitted :
      check_process a (asked_action action uid action_uid) pid uid (a.stat pid) ≡ none
      → Permitted a action pid uid action_uid
  unfolding check_process
  check_process-Permitted h = go (a.stat pid) refl h
    where
      go :
          (o : Option (Option Bytes))
          → a.stat pid ≡ o
          → check_process a (asked_action action uid action_uid) pid uid o ≡ none
          → Permitted a action pid uid action_uid
      go none e k = cc
      go (some contents) e k = ask-Permitted a action pid uid action_uid contents e k

  is_allowed_sound :
      is_allowed a action pid uid action_uid ≡ none → Permitted a action pid uid action_uid
  unfolding is_allowed
  is_allowed_sound h = elim (Bool-cases (uid == 0)) [
    | inl root ↦ by_administrator (ground arith)
    | inr other ↦ elim (Bool-cases (is_always_allowed action)) [
      | inl y ↦ by_action (anyone action y)
      | inr n ↦ check_process-Permitted (rw (other, n) at h)
    ]
  ]
    where
      anyone : (action : Action) → is_always_allowed action ≡ true → action ≡ always_allowed
      anyone always_allowed h = refl
      anyone manage_service h = cc
      anyone system_list h = cc
      anyone system_write h = cc
      anyone user_write h = cc
      anyone user_write_self h = cc
      anyone user_write_others h = cc

  is_allowed_complete :
      Permitted a action pid uid action_uid → is_allowed a action pid uid action_uid ≡ none
  unfolding is_allowed is_always_allowed check_process ask read_reply
  is_allowed_complete (by_administrator e) = rw e refl
  is_allowed_complete (by_action e) = elim (Bool-cases (uid == 0)) [
    | inl root ↦ rw root refl
    | inr other ↦ rw (other, e) refl
  ]
  is_allowed_complete (by_polkit contents t r e q answer y) = elim (Bool-cases (uid == 0)) [
    | inl root ↦ rw root refl
    | inr other ↦ elim (Bool-cases (is_always_allowed action)) [
      | inl anyone ↦ rw (other, anyone) refl
      | inr n ↦ rw (other, n, e, q, answer, y) refl
    ]
  ]

-- A client is allowed an action exactly where it is permitted: it is the administrator, or the action
-- is the one that anyone may do, or the start time of the process is read from its stat file and
-- polkit authorizes the subject with this time for the action, which is the one on the client's
-- own data or on others' data where the action is to write user data.
pub is_allowed_iff :
    (a : Authority) (action : Action) (pid : ℤ) (uid action_uid : ℕ)
    → (is_allowed a action pid uid action_uid ≡ none) ↔ Permitted a action pid uid action_uid
is_allowed_iff a action pid uid action_uid =
    (is_allowed_sound a action pid uid action_uid, is_allowed_complete a action pid uid action_uid)

module _ (a : Authority) (pid : ℤ) (uid : ℕ) where
  own_decision :
      (n : ℕ)
      → (n == uid) ≡ true
      → is_allowed a user_write pid uid n ≡ is_allowed a user_write_self pid uid 0
  unfolding is_allowed asked_action is_always_allowed
  own_decision n e = rw e refl

  other_decision :
      (n : ℕ)
      → (n == uid) ≡ false
      → is_allowed a user_write pid uid n ≡ is_allowed a user_write_others pid uid 0
  unfolding is_allowed asked_action is_always_allowed
  other_decision n e = rw e refl

  with_action_uid-Permitted :
      (r : PermissionDenied ⊎ ℕ)
      → with_action_uid a user_write pid uid r ≡ none
      → (n : ℕ) × (r ≡ inr n) × Permitted a user_write pid uid n
  unfolding with_action_uid
  with_action_uid-Permitted (inl e) h = cc
  with_action_uid-Permitted (inr n) h = (n, refl, is_allowed_sound a user_write pid uid n h)

uid_of_account-number :
    (account : Option Bytes) {n : ℕ}
    → uid_of_account account ≡ inr n
    → (text : Bytes) × (i : ℤ) × (account ≡ some text) × (atoi text ≡ some i) × (to_uint32 i ≡ n)
unfolding uid_of_account
uid_of_account-number none h = cc
uid_of_account-number (some text) {n = n} h = go (atoi text) refl h
  where
    go :
        (o : Option ℤ)
        → atoi text ≡ o
        → elim o as (λ o. PermissionDenied ⊎ ℕ) [
          | none ↦ inl invalid_uid
          | some i ↦ inr (to_uint32 i)
        ]
          ≡ inr n
        → (t : Bytes) × (i : ℤ) × (some text ≡ some t) × (atoi t ≡ some i) × (to_uint32 i ≡ n)
    go none e k = cc
    go (some i) e k = (text, i, refl, e, cc)

-- Where a client asks to write the data of a user whose account has a number below 2^32, the
-- decision is the one on the client's own data if this is the client's number, and the one on the
-- data of others if it is not.
pub is_allowed_from_context-own :
    (a : Authority) (ctx : Context) (pid : ℤ) (uid n : ℕ) (name account : Bytes)
    → ctx.peer ≡ some (peer_creds_info pid uid)
    → ctx.on_user ≡ some name
    → a.user_lookup name ≡ some account
    → atoi account ≡ some (pos n)
    → n < 2 ^ 32
    → is_allowed_from_context a ctx user_write
      ≡ is_allowed a (if n == uid then user_write_self else user_write_others) pid uid 0
unfolding is_allowed_from_context with_action_uid uid_of_account action_uid_of to_uint32
is_allowed_from_context-own a ctx pid uid n name account hp hu hl hi below =
    let cut : n % 2 ^ 32 ≡ n = omega arith in
    rw (hp, hu, action_uid_of, hl, uid_of_account, hi, cut)
      (elim (Bool-cases (n == uid)) [
        | inl own ↦ own_decision a pid uid n own ∙ ap chosen (sym own)
        | inr other ↦ other_decision a pid uid n other ∙ ap chosen (sym other)
      ])
  where
    chosen : Bool → Option PermissionDenied
    chosen own = is_allowed a (if own then user_write_self else user_write_others) pid uid 0

-- Writing user data is allowed to no client, not even to the administrator, unless the request has
-- the credentials of a process and the name of a user who has an account with a number.
pub is_allowed_from_context-account :
    (a : Authority) (ctx : Context)
    → is_allowed_from_context a ctx user_write ≡ none
    → (pid : ℤ) × (uid : ℕ) × (name : Bytes) × (account : Bytes) × (i : ℤ) × (ctx.peer
        ≡ some (peer_creds_info pid uid))
      × (ctx.on_user ≡ some name)
      × (a.user_lookup name ≡ some account)
      × (atoi account ≡ some i)
      × Permitted a user_write pid uid (to_uint32 i)
unfolding is_allowed_from_context action_uid_of
is_allowed_from_context-account a ctx h = go (ctx.peer) refl h
  where
    Result : Type 0
    Result =
        (pid : ℤ) × (uid : ℕ) × (name : Bytes) × (account : Bytes) × (i : ℤ) × (ctx.peer
          ≡ some (peer_creds_info pid uid))
        × (ctx.on_user ≡ some name)
        × (a.user_lookup name ≡ some account)
        × (atoi account ≡ some i)
        × Permitted a user_write pid uid (to_uint32 i)

    named :
        (pid : ℤ) (uid n : ℕ) (o : Option Bytes)
        → ctx.peer ≡ some (peer_creds_info pid uid)
        → ctx.on_user ≡ o
        → action_uid_of a user_write o ≡ inr n
        → Permitted a user_write pid uid n
        → Result
    named pid uid n none p e k m = cc
    named pid uid n (some name) p e k m =
        let (text, i, found, number, same) = uid_of_account-number (a.user_lookup name) k in
        (
          pid,
          uid,
          name,
          text,
          i,
          p,
          e,
          found,
          number,
          subst (Permitted a user_write pid uid) (sym same) m,
        )

    go :
        (o : Option AuthInfo)
        → ctx.peer ≡ o
        → elim o as (λ o. Option PermissionDenied) [
          | none ↦ some no_peer_creds
          | some other_info ↦ some no_peer_creds_info
          | some (peer_creds_info pid uid) ↦
              with_action_uid a user_write pid uid (action_uid_of a user_write ctx.on_user)
        ]
          ≡ none
        → Result
    go none e k = cc
    go (some other_info) e k = cc
    go (some (peer_creds_info pid uid)) e k =
        let (n, r, m) = with_action_uid-Permitted a pid uid _ k in
        named pid uid n (ctx.on_user) e refl r m
