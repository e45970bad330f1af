-- ===== src/Authorizer/Tests.antt =====
-- Runs of the authorizer at concrete inputs.
use zsys.Prelude.{
  ℕ, zero, suc, arith, false, none, some, List, [], ◌∷◌, ◌++◌, ◌≡◌, ◌↔◌, refl, replicate,
  if◌then◌else◌, ◌==◌,
}
use zsys.Prelude.Int.{ℤ, pos, negsuc}
use zsys.Text.{Bytes, text_eq, codes, join, has_byte}
use zsys.Text.Numbers.{atoi, parse_uint, to_uint32}
use zsys.Text.Split.{Separate}
use zsys.Authorizer.StartTime.{start_time_token, get_start_time_from_reader, parsed}
use zsys.Authorizer.{
  user_write, user_write_self, user_write_others, system_write, Authority, Context, peer_creds_info,
  is_allowed, is_allowed_from_context, uid_of_account,
}
use zsys.Authorizer.Laws.{
  Permitted, start_time-first_parenthesis, is_allowed_iff, is_allowed_from_context-own,
  is_allowed_from_context-account,
}

-- Two's complement, and numbers that do not fit.
minus_one : atoi (codes "-1") ≡ some (negsuc 0)
unfolding atoi
minus_one = refl

minus_one_cut : to_uint32 (negsuc 0) ≡ 4294967295
unfolding to_uint32
minus_one_cut = refl

too_large : parse_uint (codes "18446744073709551616") ≡ none
unfolding parse_uint
too_large = refl

abbrev zeros : List Bytes
zeros = replicate 18 (codes "0")

-- The real fields follow the ones that the name has.
abbrev behind : List Bytes
behind = codes "42" ∷ codes "0)" ∷ codes "S" ∷ codes "1" ∷ []

Separate-zeros :
    (n : ℕ) (ps : List Bytes) → Separate b' ' ps → Separate b' ' (replicate n (codes "0") ++ ps)
unfolding has_byte
Separate-zeros zero ps h = h
Separate-zeros (suc n) ps h = (refl, Separate-zeros n ps h)

-- A process that is named `a) R 0 0`, and so on, chooses the start time that is read.
start_time-first_parenthesis_example :
    get_start_time_from_reader
      (some (codes "7 (a" ++ b')' ∷ b' ' ∷ join (codes "R" ∷ (zeros ++ behind)) (b' ' ∷ [])))
    ≡ parsed (parse_uint (codes "42"))
unfolding has_byte
start_time-first_parenthesis_example =
    start_time-first_parenthesis (codes "7 (a") b' ' (codes "R") (zeros ++ behind) (codes "42") refl
      (refl, Separate-zeros 18 behind (refl, (refl, (refl, (refl, tt))))) refl

abbrev stat_content : Bytes
stat_content =
    codes "7 (sh" ++ b')' ∷ b' ' ∷ join (codes "R" ∷ (zeros ++ codes "42" ∷ [])) (b' ' ∷ [])

-- Polkit agrees to a process that was started at 42; the user `u` has the number 1000.
abbrev authority : Authority
authority = record {
  stat = λ pid. some (some stat_content);
  check_authorization =
      λ s name flags. some (record { is_authorized = s.start_time == 42; is_challenge = false });
  user_lookup = λ name. if text_eq name (codes "u") then some (codes "1000") else none;
}

allowed : is_allowed authority system_write (pos 7) 1000 0 ≡ none
unfolding is_allowed get_start_time_from_reader start_time_token join
allowed = refl

is_allowed_iff_example :
    (is_allowed authority system_write (pos 7) 1000 0 ≡ none)
    ↔ Permitted authority system_write (pos 7) 1000 0
is_allowed_iff_example = is_allowed_iff authority system_write (pos 7) 1000 0

abbrev request : Context
request = record { peer = some (peer_creds_info (pos 7) 1000); on_user = some (codes "u") }

is_allowed_from_context-own_example :
    is_allowed_from_context authority request user_write
    ≡ is_allowed authority
        (if 1000 == 1000 then user_write_self else user_write_others)
        (pos 7)
        1000
        0
unfolding text_eq atoi
is_allowed_from_context-own_example =
    is_allowed_from_context-own authority request (pos 7) 1000 1000 (codes "u") (codes "1000") refl
      refl refl refl (omega arith)

request_allowed : is_allowed_from_context authority request user_write ≡ none
unfolding is_allowed_from_context get_start_time_from_reader start_time_token text_eq uid_of_account
    join
request_allowed = refl

is_allowed_from_context-account_example :
    (pid : ℤ) × (uid : ℕ) × (name : Bytes) × (account : Bytes) × (i : ℤ) × (request.peer
      ≡ some (peer_creds_info pid uid))
    × (request.on_user ≡ some name)
    × (authority.user_lookup name ≡ some account)
    × (atoi account ≡ some i)
    × Permitted authority user_write pid uid (to_uint32 i)
is_allowed_from_context-account_example =
    is_allowed_from_context-account authority request request_allowed
