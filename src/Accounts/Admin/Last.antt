-- ===== src/Accounts/Admin/Last.antt =====
-- The last instance administrator of server/app/admin.py.
use crashlens.Base.{
  ℕ, ◌+◌, ◌≤◌, ◌<◌, ◌≡◌, All-imp, leb, ◌≢◌, inl, inr, refl, Bool, true, false, Option, none, some,
  List, [], ◌∷◌, any, count_if, find_if, update_where, ◌==◌, nat_eq, arith, Bool-cases,
}
use crashlens.Accounts.Users.{User, Instance, has_id, load_user_by_id, require_instance_admin}
use crashlens.Accounts.Admin.{
  is_admin, set_flag, admin_count, write_flag, toggle_on, set_instance_admin, would_orphan_instance,
}
use crashlens.Accounts.Soundness.{
  UsersApart, UsersApart-update_where, untouched, any-update_where, count_if-update_where,
}

pub any_of_count : (users : List User) → 1 ≤ count_if is_admin users → any is_admin users ≡ true
any_of_count [] h = absurd (omega arith)
any_of_count (u ∷ users) h = ground (arith, any_of_count users)

admin_found :
    (q : User → Bool) (users : List User) (u : User)
    → find_if q users ≡ some u
    → is_admin u ≡ true
    → any is_admin users ≡ true
admin_found q [] u found admin = cc
admin_found q (v ∷ users) u found admin = ground (arith, admin_found q users u)

-- A row that a write leaves alone.
pub any_other :
    (p q : User → Bool) (f : User → User) (users : List User) (u : User)
    → find_if q users ≡ some u
    → is_admin u ≡ true
    → ((v : User) → q v ≡ true → p v ≡ false)
    → any is_admin (update_where p f users) ≡ true
unfolding update_where
any_other p q f [] u found admin apart = cc
any_other p q f (v ∷ users) u found admin apart = elim (Bool-cases (q v)) [
  | inl hit ↦ let same : v ≡ u = ground arith in rw (apart v hit) (ground arith)
  | inr miss ↦ let rest = any_other p q f users u (ground arith) admin apart in ground arith
]

flag_written :
    (target : ℕ) (enabled : Bool) (s : Instance) (o : Option User)
    → any is_admin s.users ≡ true
    → any is_admin (update_where (has_id target) (set_flag enabled) s.users) ≡ true
    → any is_admin (write_flag target enabled o s).1.users ≡ true
flag_written target enabled s none h after = h
flag_written target enabled s (some u) h after = after

-- A toggle by an instance administrator, alone in its transaction, leaves the instance with an
-- administrator. Users have different ids and addresses.
pub set_instance_admin-keeps :
    (target : ℕ) (enabled : Bool) (acting : User) (s : Instance)
    → UsersApart s.users
    → load_user_by_id acting.id s ≡ some acting
    → require_instance_admin acting ≡ some acting
    → any is_admin (set_instance_admin target enabled acting.id s).1.users ≡ true
unfolding set_instance_admin load_user_by_id require_instance_admin
set_instance_admin-keeps target enabled acting s apart found admin = go enabled
  where
    is : is_admin acting ≡ true
    is = ground arith

    h : any is_admin s.users ≡ true
    h = admin_found (has_id acting.id) s.users acting found is

    go :
        (enabled : Bool)
        → any is_admin (set_instance_admin target enabled acting.id s).1.users ≡ true
    go true =
        flag_written target true s (find_if (has_id target) s.users) h
          (any-update_where is_admin (has_id target) (set_flag true) s.users (λ v _. refl) h)
    go false = elim (Bool-cases (target == acting.id)) [
      | inl self ↦ elim (Bool-cases (leb (count_if is_admin s.users) 1)) [
        | inl last ↦ rw (self, last) h
        | inr more ↦
            let one = count_if-update_where target (set_flag false) s.users apart in
            let after =
              any_of_count (update_where (has_id target) (set_flag false) s.users) (ground arith) in
            rw (self, more) (flag_written target false s (find_if (has_id target) s.users) h after)
      ]
      | inr other ↦
          let after =
            any_other (has_id target) (has_id acting.id) (set_flag false) s.users acting found is
              (λ v e. ground arith) in
          rw other (flag_written target false s (find_if (has_id target) s.users) h after)
    ]

demoted :
    (u : User) (users : List User)
    → UsersApart users
    → find_if (has_id u.id) users ≡ some u
    → is_admin u ≡ true
    → count_if is_admin (update_where (has_id u.id) (set_flag false) users) + 1
      ≡ count_if is_admin users
unfolding update_where
demoted u [] apart found admin = cc
demoted u (v ∷ users) apart found admin = elim (Bool-cases (has_id u.id v)) [
  | inl hit ↦
      let same : v ≡ u = ground arith in
      let rest =
        untouched (has_id u.id) (set_flag false) users
          (All-imp _ _ (λ w d. ground arith) users apart.0) in
      rw (hit, rest) (ground arith)
  | inr miss ↦
      let rest = demoted u users apart.1 (ground arith) admin in rw miss (omega (arith, rest))
]

still_there :
    (a b : User) (users : List User)
    → a.id ≢ b.id
    → find_if (has_id b.id) users ≡ some b
    → find_if (has_id b.id) (update_where (has_id a.id) (set_flag false) users) ≡ some b
unfolding update_where
still_there a b [] ne found = cc
still_there a b (v ∷ users) ne found = elim (Bool-cases (has_id b.id v)) [
  | inl hit ↦ let other : has_id a.id v ≡ false = ground arith in rw (other, hit) (ground arith)
  | inr miss ↦ let rest = still_there a b users ne (ground arith) in ground arith
]

self_demoted :
    (count : ℕ) (u : User) (s : Instance)
    → 1 < count
    → find_if (has_id u.id) s.users ≡ some u
    → (toggle_on count u.id false u.id s).1.users
      ≡ update_where (has_id u.id) (set_flag false) s.users
unfolding toggle_on would_orphan_instance
self_demoted count u s many found =
    let more : leb count 1 ≡ false = ground arith in
    let same : u.id == u.id ≡ true = ground arith in rw (more, same, found) refl

none_of_count : (users : List User) → count_if is_admin users ≡ 0 → any is_admin users ≡ false
none_of_count [] h = refl
none_of_count (u ∷ users) h = ground (arith, none_of_count users)

-- Two transactions that overlap defeat the guard: where an instance has exactly two administrators and
-- each removes their own flag, both on the count that was read before either wrote, no administrator
-- is left. Users have different ids and addresses.
pub overlapping_toggles :
    (a b : User) (s : Instance)
    → UsersApart s.users
    → a.id ≢ b.id
    → load_user_by_id a.id s ≡ some a
    → load_user_by_id b.id s ≡ some b
    → require_instance_admin a ≡ some a
    → require_instance_admin b ≡ some b
    → admin_count s ≡ 2
    → let s' = (toggle_on (admin_count s) a.id false a.id s).1 in
      any is_admin (toggle_on (admin_count s) b.id false b.id s').1.users ≡ false
unfolding load_user_by_id require_instance_admin
overlapping_toggles a b s apart ne fa fb aa ab two =
    let s' = (toggle_on (admin_count s) a.id false a.id s).1 in
    let users' = update_where (has_id a.id) (set_flag false) s.users in
    let many : 1 < admin_count s = omega arith in
    let first = self_demoted (admin_count s) a s many fa in
    let there = still_there a b s.users ne fb in
    let second = self_demoted (admin_count s) b s' many (rw first there) in
    let apart' =
      UsersApart-update_where (has_id a.id) (set_flag false) s.users (λ u. (refl, refl)) apart in
    let one = demoted a s.users apart fa (ground arith) in
    let zero = demoted b users' apart' there (ground arith) in
    rw (second, first)
      (none_of_count (update_where (has_id b.id) (set_flag false) users')
        (omega (arith, one, zero)))
