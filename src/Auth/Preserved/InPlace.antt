-- ===== src/Auth/Preserved/InPlace.antt =====
-- Changing one user in its place, which `UpdateUser` and the changes of a password do.
use etcd_studio.Base.{
  ℕ, false, true, ◌≡◌, refl, some, All-set, get_elem?, set, set-set, set-get_elem?,
}
use etcd_studio.Text.{Unicode}
use etcd_studio.AtomicFile.{chmod}
use etcd_studio.Auth.Types.{Manager, PersistedConfig, PersistedUser, Call}
use etcd_studio.Auth.Rules.Unique.{usernames-set}
use etcd_studio.Auth.Manager.Settings.{locks_out}
use etcd_studio.Auth.Manager.Storage.{with_users}
use etcd_studio.Auth.Manager.Invariant.{saved, saved-same, IsAccount, IsSound, IsGood}

module _ ⦃u : Unicode⦄ where
  -- Changing one user in place, keeping the name.
  module _ (call : Call) (m : Manager) (works : call.fails chmod ≡ false) (g : IsGood m) (i : ℕ)
      (v w : PersistedUser) where
    abbrev pub replaced : PersistedConfig
    replaced = with_users m.config (set m.config.users i w)

    pub undo_set :
        m.configured ≡ true
        → get_elem? m.config.users i ≡ some v
        → with_users (saved replaced) (set (set m.config.users i w) i v) ≡ m.config
    undo_set configured found =
        rw (set-set m.config.users i w v, set-get_elem? m.config.users i v found)
          (saved-same m.config (g.sound configured).version)

    pub replaced-IsSound :
        m.configured ≡ true
        → get_elem? m.config.users i ≡ some v
        → IsAccount w
        → w.username ≡ v.username
        → locks_out replaced.mode replaced ≡ false
        → IsSound (saved replaced)
    replaced-IsSound configured found account name kept =
        let s = g.sound configured in
        record {
          version = refl;
          accounts = All-set IsAccount m.config.users i w s.accounts account;
          unique = rw (usernames-set m.config.users i v w found name) s.unique;
          administrable = kept;
        }
