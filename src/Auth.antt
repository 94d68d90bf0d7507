-- ===== src/Auth.antt =====
-- Logins and refresh tokens of both realms (backend/app/auth/service.py). The check of a password, the
-- ids of fresh tokens and the signing of tokens are other code: the first two are arguments, and the
-- signed texts are left out.
pub mod Sessions
pub mod Lockout
use blyns_ops.Prelude.{
  ℕ, suc, ◌+◌, ◌*◌, ◌-◌, String, Bool, true, false, Option, none, some, List, [], ◌∷◌, not, str_eq,
  leb, ltb, length, if◌then◌else◌, any_of, filter_by, insert_one,
}

-- The fields of a user's document that these functions read and write; times are in microseconds.
pub record User : Type 0 where
  pub failed_attempts : ℕ
  pub locked_until : Option ℕ
  pub last_login_at : Option ℕ
  pub refresh_jtis : List String

pub data AuthError : Type 0 where
  account_locked invalid_credentials permission_denied : AuthError

-- How a function ended: it returned, or it raised.
pub data Outcome : Type 0 where
  returned : Outcome
  raised : AuthError → Outcome

abbrev is_past : ℕ → Option ℕ → Bool
is_past now none = true
is_past now (some until) = leb until now

-- `check_lockout`
unfoldable pub check_lockout : ℕ → User → Outcome
check_lockout now u =
    if is_past now u.locked_until then Outcome.returned else Outcome.raised AuthError.account_locked

abbrev pub lock_time : ℕ → ℕ → ℕ
lock_time now minutes = now + minutes * 60000000

-- `handle_password_check`: `ok` says whether the password is right.
unfoldable pub handle_password_check : ℕ → ℕ → ℕ → Bool → User → Outcome × User
handle_password_check now threshold minutes true u = (
  Outcome.returned,
  record u { failed_attempts = 0; locked_until = none; last_login_at = some now },
)
handle_password_check now threshold minutes false u = (
  Outcome.raised AuthError.invalid_credentials,
  if leb threshold (u.failed_attempts + 1)
      then record u { failed_attempts = 0; locked_until = some (lock_time now minutes) }
      else record u { failed_attempts = u.failed_attempts + 1 },
)

abbrev pub max_active_refresh_jtis : ℕ
max_active_refresh_jtis = 10

-- The last `n` items, as `$slice: -n` keeps them.
unfoldable pub last_items : ℕ → List String → List String
last_items n [] = []
last_items n (x ∷ xs) =
    let rest = last_items n xs in if leb (length (x ∷ xs)) n then x ∷ xs else rest

-- `issue_token_pair`: the id of the new refresh token joins the list.
unfoldable pub issue_token_pair : String → User → User
unfolding last_items
issue_token_pair jti u = record u {
  refresh_jtis = last_items max_active_refresh_jtis (insert_one u.refresh_jtis jti);
}

abbrev pub pull : String → List String → List String
pull jti xs = filter_by (λ x. not (str_eq jti x)) xs

-- `rotate_refresh`: the presented id must be on the list, and is taken off it.
unfoldable pub rotate_refresh : String → String → User → Outcome × User
unfolding issue_token_pair
rotate_refresh jti fresh u =
    if any_of (λ x. str_eq jti x) u.refresh_jtis
    then (
      Outcome.returned,
      issue_token_pair fresh (record u { refresh_jtis = pull jti u.refresh_jtis }),
    )
    else (Outcome.raised AuthError.permission_denied, u)

-- `revoke_all_refresh`
abbrev pub revoke_all_refresh : User → User
revoke_all_refresh u = record u { refresh_jtis = [] }
