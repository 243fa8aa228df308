-- ===== src/Accounts/Tests.antt =====
-- Runs and witnesses of the accounts, with stand-ins for the hashes.
use Prim.Native.String
use crashlens.Base.{
  ℕ, ◌+◌, ◌-◌, ◌*◌, ◌/◌, ◌≤◌, ◌≡◌, refl, String, true, false, none, some, is_some, List, [], ◌∷◌,
  any, update_where, ◌==◌, nat_eq, string_eq, arith,
}
use crashlens.Accounts.Users.{
  Crypto, User, Instance, empty_instance, verify_membership, validate_password, load_user_by_id,
  require_instance_admin, require_org_admin,
}
use crashlens.Audit.{log, check_data_safety}
use crashlens.Accounts.Login.Guesses.{guesses, guesses-le}
use crashlens.Accounts.Signup.{signup, create_invite, accept_invite}
use crashlens.Accounts.Signup.Once.{accept_invite_once}
use crashlens.Accounts.Admin.{
  set_instance_admin, is_admin, admin_count, toggle_on, would_orphan_instance,
}
use crashlens.Accounts.Admin.Last.{overlapping_toggles}
use crashlens.Accounts.Soundness.{IsSound}
use crashlens.Accounts.History.{
  Reachable, installed, after, sign_up, invite, accept, toggle, reachable-IsSound,
}

abbrev plain : Crypto
plain = record {
  hash_password = λ salt password. String.◌++◌ salt password;
  verify_password = λ hash password. hash == String.◌++◌ "s" password;
  sha256 = λ t. String.◌++◌ "h" t;
  lower = λ s. s;
  dashed = λ s. s;
  is_common = λ s. s == "password1234";
}

abbrev signed_up : Instance
signed_up = (signup plain 1 "s" "aaaaaaaaaaaa" "ann@x" "correct horse" "org" (empty_instance 0)).1

abbrev ann : User
ann = record {
  id = 0;
  email = "ann@x";
  password_hash = "scorrect horse";
  is_instance_admin = true;
  failed_login_count = 0;
  locked_until = none;
  last_login_at = none;
}

ann_there : load_user_by_id 0 signed_up ≡ some ann
unfolding load_user_by_id signup
ann_there = refl

abbrev invited : Instance
invited = (create_invite plain 2 1 "t" "bob@x" "member" (some 0) signed_up).1

abbrev accepted : Instance
accepted = (accept_invite plain 3 "s" "t" "bob@x" "battery staple" invited).1

abbrev two_admins : Instance
two_admins = (set_instance_admin 4 true 0 accepted).1

bob_is_member : verify_membership 4 1 accepted ≡ some "member"
unfolding verify_membership update_where accept_invite create_invite signup log check_data_safety
    validate_password
bob_is_member = refl

two_counted : admin_count two_admins ≡ 2
unfolding set_instance_admin toggle_on would_orphan_instance update_where accept_invite
    create_invite signup log check_data_safety validate_password
two_counted = refl

last_one_stays : any is_admin (set_instance_admin 0 false 0 signed_up).1.users ≡ true
unfolding set_instance_admin signup
last_one_stays = refl

abbrev wrong_twice : List (ℕ × String)
wrong_twice = (5, "guess") ∷ (9, "other guess") ∷ []

guesses-le_example : guesses plain ann wrong_twice ≤ 10 + 10 * ((9 - 5) / 900_000_000)
guesses-le_example =
    guesses-le plain 5 9 ann wrong_twice refl refl
      (omega arith, refl, (omega arith, refl, omega arith))

bob_accepts :
    (accept_invite plain 3 "s" "t" "bob@x" "battery staple" invited).0
    ≡ some (record { user_id = 4; email = "bob@x"; org_id = 1; role = "member" })
unfolding update_where accept_invite create_invite signup log check_data_safety validate_password
bob_accepts = refl

accept_invite_once_example :
    (is_some (verify_membership 4 1 accepted) ≡ true)
    × (accept_invite plain 7 "r" "t" "eve@x" "another password" accepted ≡ (none, accepted))
accept_invite_once_example =
    accept_invite_once plain 3 7 "s" "r" "t" "bob@x" "eve@x" "battery staple" "another password"
      invited (record { user_id = 4; email = "bob@x"; org_id = 1; role = "member" }) bob_accepts

abbrev bob : User
bob = record {
  id = 4;
  email = "bob@x";
  password_hash = "sbattery staple";
  is_instance_admin = true;
  failed_login_count = 0;
  locked_until = none;
  last_login_at = none;
}

ann_is_admin : require_instance_admin ann ≡ some ann
unfolding require_instance_admin
ann_is_admin = refl

bob_is_admin : require_instance_admin bob ≡ some bob
unfolding require_instance_admin
bob_is_admin = refl

ann_still_there : load_user_by_id 0 accepted ≡ some ann
unfolding load_user_by_id update_where accept_invite create_invite signup log check_data_safety
    validate_password
ann_still_there = refl

users_of_two : (load_user_by_id 0 two_admins ≡ some ann) × (load_user_by_id 4 two_admins ≡ some bob)
unfolding load_user_by_id set_instance_admin toggle_on would_orphan_instance update_where
    accept_invite create_invite signup log check_data_safety validate_password
users_of_two = (refl, refl)

ann_invites : is_some (require_org_admin 1 ann signed_up) ≡ true
unfolding require_org_admin verify_membership signup
ann_invites = refl

abbrev served : Reachable plain two_admins
served =
    after accepted two_admins
      (after invited accepted
        (after signed_up invited
          (after (empty_instance 0) signed_up (installed 0)
            (sign_up 1 "s" "aaaaaaaaaaaa" "ann@x" "correct horse" "org" (empty_instance 0)))
          (invite 2 1 "t" "bob@x" "member" ann signed_up ann_there ann_invites))
        (accept 3 "s" "t" "bob@x" "battery staple" invited))
      (toggle 4 true ann accepted ann_still_there ann_is_admin)

reachable-IsSound_example : IsSound two_admins
reachable-IsSound_example = reachable-IsSound plain two_admins served

abbrev sound : IsSound two_admins
sound = reachable-IsSound plain two_admins served

overlapping_toggles_example :
    let s' = (toggle_on (admin_count two_admins) 0 false 0 two_admins).1 in
    any is_admin (toggle_on (admin_count two_admins) 4 false 4 s').1.users ≡ false
overlapping_toggles_example =
    overlapping_toggles ann bob two_admins sound.users_apart (λ e. absurd (omega arith))
      users_of_two.0 users_of_two.1 ann_is_admin bob_is_admin two_counted
