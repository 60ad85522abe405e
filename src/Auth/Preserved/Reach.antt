-- ===== src/Auth/Preserved/Reach.antt =====
-- The managers that sequences of calls lead to.
use etcd_studio.Base.{
  String, Bool, false, ◌≡◌, refl, inl, inr, Option, none, some, [], ok, err, arith,
}
use etcd_studio.Text.{Unicode}
use etcd_studio.AtomicFile.{chmod}
use etcd_studio.Auth.Types.{
  Manager, Principal, LocalUserInput, SettingsInput, Session, Time, Call, Crypto, no_config,
}
use etcd_studio.Auth.Manager.Storage.{Outcome}
use etcd_studio.Auth.Manager.Bootstrap.{bootstrap}
use etcd_studio.Auth.Manager.Settings.{update_settings}
use etcd_studio.Auth.Manager.Accounts.{
  create_user, update_user, delete_user, remove_cluster_permissions,
}
use etcd_studio.Auth.Manager.Passwords.{change_password, complete_temporary_password_change}
use etcd_studio.Auth.Manager.Sessions.{create_session, session, delete_session}
use etcd_studio.Auth.Manager.Invariant.{IsGood, Done}
use etcd_studio.Auth.Preserved.Accounts.{create_user-Done, update_user-Done, delete_user-Done}
use etcd_studio.Auth.Preserved.Grants.{remove_cluster_permissions-Done}
use etcd_studio.Auth.Preserved.Settings.{update_settings-Done, bootstrap-Done}
use etcd_studio.Auth.Preserved.Passwords.{
  EndsIn, change_password-EndsIn, complete_temporary_password_change-EndsIn,
}

-- `NewManager` where there is no file.
abbrev pub new_manager : Manager
new_manager = record {
  config = no_config;
  configured = false;
  sessions = λ _. none;
  disk = record { published = none; temporaries = [] };
}

-- A call in which making the saved file private does not fail.
abbrev pub Works : Call → Type 0
Works call = call.fails chmod ≡ false

-- What sequences of calls lead to, with other calls between the two parts of a call.
pub data Reach ⦃u : Unicode⦄ ⦃k : Crypto⦄ : Manager → Manager → Type 0 where
  here : (m : Manager) → Reach m m
  bootstrapped :
      {s m : Manager}
      → Reach s m
      → (input : LocalUserInput) (must_change : Bool) (call : Call) → Works call
      → Reach s (bootstrap input must_change call m).1
  settings_updated :
      {s m : Manager}
      → Reach s m
      → (input : SettingsInput) (call : Call) → Works call
      → Reach s (update_settings input call m).1
  user_created :
      {s m : Manager}
      → Reach s m
      → (input : LocalUserInput) (call : Call) → Works call
      → Reach s (create_user input call m).1
  user_updated :
      {s m : Manager}
      → Reach s m
      → (name : String) (input : LocalUserInput) (call : Call) → Works call
      → Reach s (update_user name input call m).1
  user_deleted :
      {s m : Manager}
      → Reach s m
      → (name : String) (call : Call) → Works call
      → Reach s (delete_user name call m).1
  permissions_removed :
      {s m : Manager}
      → Reach s m
      → (id : String) (call : Call) → Works call
      → Reach s (remove_cluster_permissions id call m).1
  password_changed :
      {s m m' : Manager}
      → Reach s m
      → Reach m m'
      → (name password new_password : String) (call : Call) → Works call
      → Reach s (change_password name password new_password call (λ _. m') m).1
  temporary_changed :
      {s m m' : Manager}
      → Reach s m
      → Reach m m'
      → (name new_password : String) (call : Call) → Works call
      → Reach s (complete_temporary_password_change name new_password call (λ _. m') m).1
  session_created :
      {s m : Manager}
      → Reach s m
      → (p : Principal) (token : Option String) (now later : Time)
      → Reach s (create_session p token now later m).1
  session_asked :
      {s m m' : Manager}
      → Reach s m
      → Reach m m'
      → (token : String) (now : Time) → Reach s (session token now (λ _. m') m).1
  session_deleted :
      {s m : Manager} → Reach s m → (token : String) → Reach s (delete_session token m)

module _ ⦃u : Unicode⦄ ⦃k : Crypto⦄ where
  Done-IsGood : {A : Type 0} (m : Manager) (o : Outcome A) → Done m o → IsGood o.1
  Done-IsGood m (ok a, m') h = h
  Done-IsGood m (err e, m') h = h.0

  EndsIn-IsGood :
      {A : Type 0} (m m' : Manager) (o : Outcome A) → IsGood m → EndsIn m m' o → IsGood o.1
  EndsIn-IsGood m m' o g (inl (e, same)) = rw same g
  EndsIn-IsGood m m' o g (inr done) = Done-IsGood m' o done

  -- Sessions are no part of the invariant.
  with_sessions-IsGood :
      (m : Manager) (f : String → Option Session) → IsGood m → IsGood (record m { sessions = f })
  with_sessions-IsGood m f g = record { sound = g.sound; blank = g.blank; durable = g.durable }

  delete_session-IsGood :
      (token : String) (m : Manager) → IsGood m → IsGood (delete_session token m)
  unfolding delete_session
  delete_session-IsGood token m g = with_sessions-IsGood m _ g

  create_session-IsGood :
      (p : Principal) (token : Option String) (now later : Time) (m : Manager)
      → IsGood m
      → IsGood (create_session p token now later m).1
  unfolding create_session
  create_session-IsGood p none now later m g = g
  create_session-IsGood p (some token) now later m g = with_sessions-IsGood m _ g

  session-IsGood :
      (token : String) (now : Time) (m m' : Manager)
      → IsGood m
      → IsGood m'
      → IsGood (session token now (λ _. m') m).1
  unfolding session
  session-IsGood token now m m' g g' =
      ground (arith, delete_session-IsGood token m g, delete_session-IsGood token m' g')

  -- From a manager that satisfies the invariant, every sequence of calls and of interleavings of the
  -- calls that give up their lock leads to one that does, where the chmod that ends each saving works:
  -- the configuration has its version, known roles, no grants for administrators, names that are
  -- unique up to case and an active local administrator wherever local accounts log in, and the file
  -- holds what is in memory.
  pub Reach-IsGood : {s m : Manager} → Reach s m → IsGood s → IsGood m
  Reach-IsGood (here m) g = g
  Reach-IsGood (bootstrapped {m = m} r input must_change call works) g =
      Done-IsGood m _ (bootstrap-Done call m works (Reach-IsGood r g) input must_change)
  Reach-IsGood (settings_updated {m = m} r input call works) g =
      Done-IsGood m _ (update_settings-Done call m works (Reach-IsGood r g) input)
  Reach-IsGood (user_created {m = m} r input call works) g =
      Done-IsGood m _ (create_user-Done call m works (Reach-IsGood r g) input)
  Reach-IsGood (user_updated {m = m} r name input call works) g =
      Done-IsGood m _ (update_user-Done call m works (Reach-IsGood r g) input name)
  Reach-IsGood (user_deleted {m = m} r name call works) g =
      Done-IsGood m _ (delete_user-Done name call m works (Reach-IsGood r g))
  Reach-IsGood (permissions_removed {m = m} r id call works) g =
      Done-IsGood m _ (remove_cluster_permissions-Done call m works (Reach-IsGood r g) id)
  Reach-IsGood (password_changed {m = m} {m' = m'} r r' name password new_password call works) g =
      let h = Reach-IsGood r g in
      EndsIn-IsGood m m' _ h
        (change_password-EndsIn name new_password call m m' works (Reach-IsGood r' h) password)
  Reach-IsGood (temporary_changed {m = m} {m' = m'} r r' name new_password call works) g =
      let h = Reach-IsGood r g in
      EndsIn-IsGood m m' _ h (
        complete_temporary_password_change-EndsIn name new_password call m m' works
          (Reach-IsGood r' h))
  Reach-IsGood (session_created {m = m} r p token now later) g =
      create_session-IsGood p token now later m (Reach-IsGood r g)
  Reach-IsGood (session_asked {m = m} {m' = m'} r r' token now) g =
      let h = Reach-IsGood r g in session-IsGood token now m m' h (Reach-IsGood r' h)
  Reach-IsGood (session_deleted {m = m} r token) g =
      delete_session-IsGood token m (Reach-IsGood r g)

  pub new_manager-IsGood : IsGood new_manager
  new_manager-IsGood = record { sound = λ h. cc; blank = λ h. refl; durable = λ h. cc }
