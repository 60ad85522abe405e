-- ===== src/Auth/Rules/Admins.antt =====
-- How the number of active administrators fares under the changes that the methods make.
use etcd_studio.Base.{
  ℕ, zero, suc, ◌≤◌, ◌≡◌, refl, true, some, List, [], ◌∷◌, ◌++◌, map, arith, get_elem?, set,
}
use etcd_studio.Auth.Types.{PersistedUser}
use etcd_studio.Auth.Rules.{active_admin_count, is_active_admin}

pub active_admin_count-append_one :
    (us : List PersistedUser) (v : PersistedUser)
    → active_admin_count us ≤ active_admin_count (us ++ v ∷ [])
unfolding active_admin_count
active_admin_count-append_one [] v = omega arith
active_admin_count-append_one (w ∷ us) v = ground (arith, active_admin_count-append_one us v)

pub active_admin_count-set :
    (us : List PersistedUser) (i : ℕ) (v w : PersistedUser)
    → get_elem? us i ≡ some v
    → is_active_admin w ≡ is_active_admin v
    → active_admin_count (set us i w) ≡ active_admin_count us
unfolding active_admin_count
active_admin_count-set [] i v w e same = refl
active_admin_count-set (x ∷ us) zero v w e same = ground arith
active_admin_count-set (x ∷ us) (suc i) v w e same =
    ground (arith, active_admin_count-set us i v w e same)

pub active_admin_count-map :
    (f : PersistedUser → PersistedUser) (us : List PersistedUser)
    → ((v : PersistedUser) → is_active_admin (f v) ≡ is_active_admin v)
    → active_admin_count (map f us) ≡ active_admin_count us
unfolding active_admin_count
active_admin_count-map f [] same = refl
active_admin_count-map f (v ∷ us) same = rw (same v, active_admin_count-map f us same)

pub active_admin_count-one :
    (v : PersistedUser) → is_active_admin v ≡ true → active_admin_count (v ∷ []) ≡ 1
unfolding active_admin_count
active_admin_count-one v h = rw h (omega arith)
