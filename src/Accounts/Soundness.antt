-- ===== src/Accounts/Soundness.antt =====
-- The invariant of the accounts.
use crashlens.Base.{
  ℕ, ◌+◌, ◌≤◌, ◌<◌, ◌≡◌, ◌≢◌, ◌⊎◌, inl, inr, refl, ap, Bool, true, false, List, [], ◌∷◌, ◌++◌, All,
  All-append, All-imp, All-update_where, any, count_if, update_where, nat_eq, string_eq, arith,
  Bool-cases,
}
use crashlens.Accounts.Users.{User, Membership, Instance, has_id, has_email, of_member}
use crashlens.Accounts.Admin.{is_admin}

-- Users differ in their ids and in their addresses.
abbrev pub Differ : User → User → Type 0
Differ u v = (u.id ≢ v.id) × (has_email u.email v ≡ false)

abbrev pub UsersApart : List User → Type 0
UsersApart [] = Unit {0}
UsersApart (u ∷ users) = All (Differ u) users × UsersApart users

-- A user has one membership of an organisation at most.
abbrev pub MembersApart : List Membership → Type 0
MembersApart [] = Unit {0}
MembersApart (m ∷ members) =
    All (λ n. of_member m.user_id m.org_id n ≡ false) members × MembersApart members

pub record IsSound (s : Instance) : Type 0 where
  pub users_apart : UsersApart s.users
  pub old_users : All (λ (u : User). u.id < s.next_id) s.users
  pub members_apart : MembersApart s.memberships
  pub old_members : All (λ (m : Membership). m.user_id < s.next_id) s.memberships
  -- An instance with users or invites has an instance administrator.
  pub administered : ((s.users ≡ []) × (s.invites ≡ [])) ⊎ (any is_admin s.users ≡ true)

pub UsersApart-append :
    (users : List User) (n : User)
    → UsersApart users
    → All (λ u. Differ u n) users
    → UsersApart (users ++ n ∷ [])
UsersApart-append [] n h d = (tt, tt)
UsersApart-append (u ∷ users) n h d =
    (All-append _ users (n ∷ []) h.0 (d.0, tt), UsersApart-append users n h.1 d.1)

pub MembersApart-append :
    (members : List Membership) (n : Membership)
    → MembersApart members
    → any (of_member n.user_id n.org_id) members ≡ false
    → MembersApart (members ++ n ∷ [])
MembersApart-append [] n h d = (tt, tt)
MembersApart-append (m ∷ members) n h d = (
  All-append _ members (n ∷ []) h.0 (ground arith, tt),
  MembersApart-append members n h.1 (ground arith),
)

-- A write that leaves ids and addresses alone.
pub UsersApart-update_where :
    (p : User → Bool) (f : User → User) (users : List User)
    → ((u : User) → ((f u).id ≡ u.id) × ((f u).email ≡ u.email))
    → UsersApart users
    → UsersApart (update_where p f users)
unfolding update_where
UsersApart-update_where p f [] same h = tt
UsersApart-update_where p f (u ∷ users) same h =
    let rest = UsersApart-update_where p f users same h.1 in
    elim (Bool-cases (p u)) [
      | inl hit ↦ rw hit (
        All-update_where _ _ p f (λ v d _. ground (arith, same u, same v))
            (λ v d _. ground (arith, same u)) users h.0,
        rest,
      )
      | inr miss ↦
          rw miss (
            All-update_where _ _ p f (λ v d _. ground (arith, same v)) (λ v d _. d) users h.0,
            rest,
          )
    ]

pub any-update_where {ℓ} :
    {A : Type ℓ} (p q : A → Bool) (f : A → A) (xs : List A)
    → ((x : A) → p x ≡ true → p (f x) ≡ true)
    → any p xs ≡ true
    → any p (update_where q f xs) ≡ true
unfolding update_where
any-update_where p q f [] keeps h = h
any-update_where p q f (x ∷ xs) keeps h = elim (Bool-cases (p x)) [
  | inl hit ↦ elim (Bool-cases (q x)) [
    | inl changed ↦ rw (changed, keeps x hit) refl
    | inr kept ↦ rw (kept, hit) refl
  ]
  | inr miss ↦ let rest = any-update_where p q f xs keeps (ground arith) in ground arith
]

pub untouched :
    (p : User → Bool) (f : User → User) (users : List User)
    → All (λ v. p v ≡ false) users
    → update_where p f users ≡ users
unfolding update_where
untouched p f [] h = refl
untouched p f (u ∷ users) h = rw h.0 (ap (λ l. u ∷ l) (untouched p f users h.1))

-- Of users with different ids, a write to one id changes one flag at most.
pub count_if-update_where :
    (id : ℕ) (f : User → User) (users : List User)
    → UsersApart users
    → count_if is_admin users ≤ count_if is_admin (update_where (has_id id) f users) + 1
unfolding update_where
count_if-update_where id f [] h = omega arith
count_if-update_where id f (u ∷ users) h = elim (Bool-cases (has_id id u)) [
  | inl hit ↦
      let same : update_where (has_id id) f users ≡ users =
        untouched (has_id id) f users (All-imp _ _ (λ v d. ground arith) users h.0) in
      rw (hit, same) (ground arith)
  | inr miss ↦ rw miss (omega (arith, count_if-update_where id f users h.1))
]
