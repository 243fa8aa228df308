-- ===== src/Accounts/Login.antt =====
-- `authenticate` of server/app/accounts.py: the check of a password with the lockout of the account.
-- A time counts microseconds. The argon2 time that is spent on a dummy hash has no result.
pub mod Guesses
use crashlens.Base.{
  ℕ, ◌+◌, ◌*◌, String, Bool, true, false, Option, none, some, find_if, update_where, ltb, leb, ◌==◌,
  nat_eq, string_eq, if◌then◌else◌,
}
use crashlens.Accounts.Users.{Crypto, User, Instance, has_email, has_id}

abbrev pub lockout_threshold : ℕ
lockout_threshold = 10

abbrev pub lockout_duration : ℕ
lockout_duration = 15 * 60_000_000

abbrev pub is_locked : ℕ → Option ℕ → Bool
is_locked now none = false
is_locked now (some until) = ltb now until

-- A lock that has run out starts the attempt from a clean counter.
abbrev pub effective_count : ℕ → User → Option ℕ → ℕ
effective_count now user none = user.failed_login_count
effective_count now user (some until) = if leb until now then 0 else user.failed_login_count

abbrev pub succeed : ℕ → User → User
succeed now user = record user {
  failed_login_count = 0;
  locked_until = none;
  last_login_at = some now;
}

abbrev pub fail : ℕ → ℕ → User → User
fail now new_count user = record user {
  failed_login_count = new_count;
  locked_until = if leb lockout_threshold new_count then some (now + lockout_duration) else none;
}

-- The row after an attempt, with whether the user is let in.
unfoldable pub attempt : Crypto → ℕ → String → User → Bool × User
attempt c now password user =
    if is_locked now user.locked_until
    then (false, user)
    else if c.verify_password user.password_hash password
    then (true, succeed now user)
    else (false, fail now (effective_count now user user.locked_until + 1) user)

abbrev pub let_in : Bool → User → Option User
let_in true user = some user
let_in false user = none

-- The columns that the flush of the session writes.
abbrev pub flush : User → User → User
flush user row = record row {
  failed_login_count = user.failed_login_count;
  locked_until = user.locked_until;
  last_login_at = user.last_login_at;
}

abbrev pub log_in : Crypto → ℕ → String → Option User → Instance → Option User × Instance
log_in c now password none s = (none, s)
log_in c now password (some user) s =
    let (ok, user') = attempt c now password user in
    (let_in ok user', record s { users = update_where (has_id user.id) (flush user') s.users })

-- none: the one 401 of every failure.
unfoldable pub authenticate : Crypto → ℕ → String → String → Instance → Option User × Instance
unfolding attempt
authenticate c now email password s = log_in c now password (find_if (has_email email) s.users) s
