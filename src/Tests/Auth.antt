-- ===== src/Tests/Auth.antt =====
-- The theorems on package auth at concrete inputs.
use etcd_studio.Base.{
  Result, [], ℕ, ◌<◌, eq_iff, String, true, false, ok, err, ◌≡◌, refl, ◌↔◌, some, none, leb,
  if◌then◌else◌, ◌+◌, arith,
}
use etcd_studio.Text.{is_space, trim_space, to_lower, fold_key}
use etcd_studio.AtomicFile.{replace_file}
use etcd_studio.Auth.Types.{
  AuthError, PersistedUser, role_operator, user_exists, Manager, Principal, Session,
  session_duration, provider_local,
}
use etcd_studio.Auth.Rules.{
  username_pattern, find_user, normalize_user_fields, cluster_ids_for_role, mode_includes,
  active_admin_count,
}
use etcd_studio.Auth.Password.{
  note_character, scan_password, validate_strong_password, hash_password,
}
use etcd_studio.Auth.Password.Policy.{IsStrong, validate_strong_password_iff}
use etcd_studio.Auth.Manager.Storage.{save_locked, save_or_restore, revoke_sessions}
use etcd_studio.Auth.Manager.Bootstrap.{bootstrap}
use etcd_studio.Auth.Manager.Accounts.{create_user, delete_user}
use etcd_studio.Auth.Manager.Sessions.{
  create_session, prune_sessions, session, session_key, current_principal,
}
use etcd_studio.Auth.Manager.Passwords.{check_change, change_password}
use etcd_studio.Auth.Manager.Login.{authenticate_local}
use etcd_studio.Auth.Manager.Invariant.{IsGood}
use etcd_studio.Auth.Preserved.Reach.{Reach-IsGood, new_manager-IsGood}
use etcd_studio.Auth.Preserved.Atomic.{run, run-atomic, create, Unchanged}
use etcd_studio.Auth.Access.Current.{session-IsCurrent, IsCurrent}
use etcd_studio.Auth.Access.Lifetime.{session-create_session}
use etcd_studio.Auth.Access.Revocation.{session-delete_user}
use etcd_studio.Auth.Access.Passwords.{
  change_password_sound, authenticate_local-change_password, IsChecked, IsStored,
}
use etcd_studio.Tests.Fixtures.{
  ascii, plain, monday, bob, bob_input, staffed, staffed-IsGood, logged_in, logged_in-Reach,
}

Reach-IsGood_example : IsGood logged_in
Reach-IsGood_example = Reach-IsGood logged_in-Reach new_manager-IsGood

name_taken : (run (create bob_input) monday staffed).0 ≡ err user_exists
unfolding run create_user bootstrap normalize_user_fields username_pattern hash_password
    validate_strong_password scan_password note_character save_or_restore save_locked replace_file
    find_user fold_key is_space trim_space to_lower cluster_ids_for_role
name_taken = refl

run-atomic_example : Unchanged staffed (run (create bob_input) monday staffed).1
run-atomic_example =
    run-atomic (create bob_input) monday staffed user_exists refl staffed-IsGood name_taken

answered : (session "token" 8 (λ _. logged_in) logged_in).0 ≡ some bob
unfolding session create_session prune_sessions current_principal mode_includes create_user
    bootstrap normalize_user_fields username_pattern hash_password validate_strong_password
    scan_password note_character save_or_restore save_locked replace_file find_user fold_key
    is_space trim_space to_lower cluster_ids_for_role
answered = refl

session-IsCurrent_example :
    (s : Session) × (logged_in.sessions (session_key "token") ≡ some s)
    × (8 < s.expires_at)
    × (bob.username ≡ s.principal.username)
    × (bob.provider ≡ s.principal.provider)
    × IsCurrent logged_in bob
session-IsCurrent_example = session-IsCurrent "token" 8 logged_in logged_in bob answered

session-create_session_example :
    (session "token" 9 (λ _. staffed) (create_session bob (some "token") 7 7 staffed).1).0
    ≡ (if leb (7 + session_duration) 9 then none else current_principal staffed bob)
session-create_session_example = session-create_session bob "token" 7 7 staffed 9 staffed

-- A name with a blank before it: the account goes, its session stays.
padded_deletion : (delete_user " bob" monday logged_in).0 ≡ ok tt
unfolding delete_user create_session prune_sessions mode_includes active_admin_count create_user
    bootstrap normalize_user_fields username_pattern hash_password validate_strong_password
    scan_password note_character save_or_restore save_locked replace_file find_user fold_key
    is_space trim_space to_lower cluster_ids_for_role
padded_deletion = refl

abbrev bobs_session : Session
bobs_session = record { principal = bob; expires_at = 7 + session_duration }

session_kept :
    (delete_user " bob" monday logged_in).1.sessions (session_key "token") ≡ some bobs_session
unfolding delete_user revoke_sessions create_session prune_sessions mode_includes active_admin_count
    create_user bootstrap normalize_user_fields username_pattern hash_password
    validate_strong_password scan_password note_character save_or_restore save_locked replace_file
    find_user fold_key is_space trim_space to_lower cluster_ids_for_role
session_kept = refl

same_name : fold_key (trim_space bob.username) ≡ fold_key (trim_space " bob")
unfolding fold_key trim_space is_space
same_name = refl

logged_in-IsGood : IsGood logged_in
logged_in-IsGood = Reach-IsGood logged_in-Reach new_manager-IsGood

session-delete_user_example :
    (session "token" 9 (λ x. x) (delete_user " bob" monday logged_in).1).0 ≡ none
session-delete_user_example =
    session-delete_user " bob" "token" monday 9 logged_in bobs_session logged_in-IsGood
      padded_deletion session_kept refl same_name

abbrev changed : Result AuthError Principal × Manager
changed = change_password "bob" "Passw0rd!!" "N3w-secret" monday (λ _. logged_in) logged_in

changed-ok : changed.0 ≡ ok bob
unfolding change_password check_change create_session prune_sessions mode_includes
    active_admin_count create_user bootstrap normalize_user_fields username_pattern hash_password
    validate_strong_password scan_password note_character save_or_restore save_locked replace_file
    find_user fold_key is_space trim_space to_lower cluster_ids_for_role
changed-ok = refl

change_password_sound_example :
    (current : PersistedUser) × (hash : String) × (i : ℕ) × (v : PersistedUser) × IsChecked "bob"
      "Passw0rd!!" "N3w-secret" monday logged_in logged_in current hash
    × IsStored "bob" "Passw0rd!!" "N3w-secret" monday logged_in logged_in current hash i v
change_password_sound_example =
    change_password_sound "bob" "Passw0rd!!" "N3w-secret" monday logged_in logged_in bob changed-ok

plain-hashes :
    (hash : String)
    → monday.generate "N3w-secret" ≡ some hash
    → plain.bcrypt_matches hash "N3w-secret" ≡ true
plain-hashes hash e = ground (arith, eq_iff hash "N3w-secret")

abbrev bob_stored : PersistedUser
bob_stored = record {
  user = record {
    username = "Bob";
    display_name = "Bob";
    role = role_operator;
    active = true;
    cluster_ids = [];
    must_change_password = false;
    created_at = 5;
    updated_at = 5;
  };
  password_hash = "Passw0rd!!";
}

bob_found : find_user logged_in.config.users "bob" ≡ some (1, bob_stored)
unfolding create_session prune_sessions mode_includes create_user bootstrap normalize_user_fields
    username_pattern hash_password validate_strong_password scan_password note_character
    save_or_restore save_locked replace_file find_user fold_key is_space trim_space to_lower
    cluster_ids_for_role
bob_found = refl

login_works :
    (logged_in.configured ≡ true) × (mode_includes logged_in.config.mode provider_local ≡ true)
unfolding create_session prune_sessions mode_includes create_user bootstrap normalize_user_fields
    username_pattern hash_password validate_strong_password scan_password note_character
    save_or_restore save_locked replace_file find_user fold_key is_space trim_space to_lower
    cluster_ids_for_role
login_works = (refl, refl)

authenticate_local-change_password_example :
    authenticate_local "bob" "N3w-secret" changed.1 ≡ ok bob
authenticate_local-change_password_example =
    authenticate_local-change_password "bob" "Passw0rd!!" "N3w-secret" monday logged_in logged_in
      bob plain-hashes changed-ok login_works.0 login_works.1 (λ i v e. ground (arith, bob_found))

validate_strong_password_iff_example :
    (validate_strong_password "Passw0rd!!" ≡ ok tt) ↔ IsStrong "Passw0rd!!"
validate_strong_password_iff_example = validate_strong_password_iff "Passw0rd!!"
