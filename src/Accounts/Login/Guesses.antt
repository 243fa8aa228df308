-- ===== src/Accounts/Login/Guesses.antt =====
-- How many passwords can be tried against one account.
use crashlens.Base.{
  ℕ, ◌+◌, ◌-◌, ◌*◌, ◌/◌, ◌≤◌, ◌<◌, ◌≡◌, max, String, true, false, Option, none, some, List, [], ◌∷◌,
  ltb, arith, Bool-cases, inl, inr, if◌then◌else◌,
}
use crashlens.Accounts.Users.{Crypto, User}
use crashlens.Accounts.Login.{attempt, is_locked, effective_count, fail, lockout_duration}

-- Every password is the right one.
abbrev pub lenient : Crypto → Crypto
lenient c = record c { verify_password = λ hash password. true }

-- The attempts of a run that are guesses: those at which the right password would have been let in.
unfoldable pub guesses : Crypto → User → List (ℕ × String) → ℕ
guesses c user [] = 0
guesses c user ((now, password) ∷ attempts) =
    (if (attempt (lenient c) now password user).0 then 1 else 0)
    + guesses c (attempt c now password user).1 attempts

-- The attempts come in the order of their times, none before `start` or after `stop`, and none has
-- the right password.
abbrev pub Wrong : Crypto → String → ℕ → ℕ → List (ℕ × String) → Type 0
Wrong c hash start stop [] = start ≤ stop
Wrong c hash start stop ((now, password) ∷ attempts) =
    (start ≤ now) × (c.verify_password hash password ≡ false) × Wrong c hash now stop attempts

-- An account that is not locked has not reached the threshold.
abbrev pub Counts : User → Option ℕ → Type 0
Counts user none = user.failed_login_count < 10
Counts user (some until) = Unit {0}

-- The guesses that are left from a time on.
abbrev left : ℕ → ℕ → User → Option ℕ → ℕ
left now stop user none = 10 - user.failed_login_count + 10 * ((stop - now) / 900_000_000)
left now stop user (some until) =
    if ltb stop until then 0 else 10 + 10 * ((stop - max until now) / 900_000_000)

Wrong-le :
    (c : Crypto) (hash : String) (start stop : ℕ) (attempts : List (ℕ × String))
    → Wrong c hash start stop attempts
    → start ≤ stop
Wrong-le c hash start stop [] w = w
Wrong-le c hash start stop ((now, p) ∷ attempts) w =
    omega (arith, Wrong-le c hash now stop attempts w.2)

left-later :
    (t now stop : ℕ) (user : User) (o : Option ℕ)
    → t ≤ now
    → left now stop user o ≤ left t stop user o
left-later t now stop user none h = omega arith
left-later t now stop user (some until) h = ground arith

-- One wrong password that is compared takes one guess of those left.
failed :
    (now stop : ℕ) (user : User) (o : Option ℕ)
    → now ≤ stop
    → is_locked now o ≡ false
    → Counts user o
    → let user' = fail now (effective_count now user o + 1) user in
      (1 + left now stop user' user'.locked_until ≤ left now stop user o)
      × Counts user' user'.locked_until
failed now stop user none h l k = ground arith
failed now stop user (some until) h l k = ground arith

guesses-left :
    (c : Crypto) (start stop : ℕ) (user : User) (attempts : List (ℕ × String))
    → Counts user user.locked_until
    → Wrong c user.password_hash start stop attempts
    → guesses c user attempts ≤ left start stop user user.locked_until
unfolding guesses attempt
guesses-left c start stop user [] k w = omega arith
guesses-left c start stop user ((now, password) ∷ attempts) k w =
    let later = left-later start now stop user user.locked_until w.0 in
    elim (Bool-cases (is_locked now user.locked_until)) [
      | inl locked ↦ rw locked (omega (arith, guesses-left c now stop user attempts k w.2, later))
      | inr unlocked ↦
          let user' = fail now (effective_count now user user.locked_until + 1) user in
          let one =
            failed now stop user user.locked_until
              (Wrong-le c user.password_hash now stop attempts w.2) unlocked k in
          rw (unlocked, w.1)
            (omega (arith, guesses-left c now stop user' attempts one.1 w.2, one.0, later))
    ]

left_fresh :
    (start stop : ℕ) (user : User) (o : Option ℕ)
    → user.failed_login_count ≡ 0
    → o ≡ none
    → Counts user o × (left start stop user o ≤ 10 + 10 * ((stop - start) / 900_000_000))
left_fresh start stop user none zero unlocked = omega arith
left_fresh start stop user (some until) zero unlocked = cc

-- Whoever does not know the password of an account has at most ten guesses at it in every fifteen
-- minutes: of the attempts between two times, in their order, none with the right password, at most
-- ten and ten more for each whole fifteen minutes between the times come at a moment at which the
-- right password would have been let in. The account has not failed before.
pub guesses-le :
    (c : Crypto) (start stop : ℕ) (user : User) (attempts : List (ℕ × String))
    → user.failed_login_count ≡ 0
    → user.locked_until ≡ none
    → Wrong c user.password_hash start stop attempts
    → guesses c user attempts ≤ 10 + 10 * ((stop - start) / lockout_duration)
guesses-le c start stop user attempts zero unlocked w =
    let (k, fresh) = left_fresh start stop user user.locked_until zero unlocked in
    omega (arith, guesses-left c start stop user attempts k w, fresh)
