-- ===== src/App/Users.antt =====
-- The handlers of internal/app/auth.go on the users and on the settings of authentication. `s.auth` is
-- set here: without it the methods of the manager are called on nil.
use etcd_studio.Base.{
  String, Bool, true, false, not, ◌&&◌, ◌||◌, ◌==◌, Option, none, some, List, [], ◌∷◌, any, length,
  if◌then◌else◌, eqb, ok, err,
}
use etcd_studio.Base.Int.{pos}
use etcd_studio.Text.{Unicode, trim_space, equal_fold}
use etcd_studio.Auth.Types.{
  User, Principal, LocalUserInput, SettingsInput, SettingsStatus, Call, role_admin, mode_ldap,
  mode_both, provider_local, provider_ldap,
}
use etcd_studio.Auth.Manager.Accounts.{create_user, update_user, delete_user, list_users}
use etcd_studio.Auth.Manager.Settings.{settings, update_settings}
use etcd_studio.Store.Types.{AuditEvent}
use etcd_studio.Store.Kv.{HistoryStorage}
use etcd_studio.Store.Registry.Types.{Cluster, Registry}
use etcd_studio.Store.Registry.Clusters.{list_clusters}
use etcd_studio.Store.History.Records.{append_text, format_int}
use etcd_studio.App.Answers.{Answer, answered, refused, write_auth_error}
use etcd_studio.App.Server.{Request}
use etcd_studio.App.Access.{require_admin}
use etcd_studio.App.Studio.{Studio, event_on, concluded}

abbrev provider_label : String → String
provider_label provider = if provider == provider_ldap then "LDAP" else "本地账户"

abbrev auth_mode_label : String → String
auth_mode_label mode =
    if mode == mode_ldap then "仅 LDAP" else if mode == mode_both then "本地账户 + LDAP" else "仅本地账户"

abbrev role_label : String → String
role_label role = if role == role_admin then "管理员" else "操作员"

abbrev user_cluster_access_label : User → String
user_cluster_access_label user =
    if user.role == role_admin
    then "全部集群"
    else if eqb (length user.cluster_ids) 0
    then "未分配"
    else append_text (format_int (pos (length user.cluster_ids))) " 个集群"

abbrev active_label : Bool → String
active_label active = if active then "启用" else "停用"

abbrev created_event : User → AuditEvent
created_event user = event_on "user.create" "user" user.username (
    append_text "创建本地" (
      append_text (role_label user.role) (append_text "账户，集群权限：" (user_cluster_access_label user))))

abbrev updated_event : User → AuditEvent
updated_event user = event_on "user.update" "user" user.username (
    append_text "更新为" (
      append_text (role_label user.role) (
        append_text "，状态：" (
          append_text (active_label user.active)
            (append_text "，集群权限：" (user_cluster_access_label user))))))

abbrev settings_event : SettingsStatus → AuditEvent
settings_event given =
    event_on "auth.settings.update" "system_setting" "登录与认证"
      (append_text "认证方式设置为 " (auth_mode_label given.mode))

-- The loop over the identifiers that a user is given, against the clusters that are listed.
abbrev pub are_known : List Cluster → List String → Bool
are_known clusters [] = true
are_known clusters (id ∷ ids) =
    let rest = are_known clusters ids in
    if trim_space id == ""
    then rest
    else if any (λ (c : Cluster). c.id == trim_space id) clusters
    then rest
    else false

-- `input.Active != nil && !*input.Active`
abbrev pub disables : Option Bool → Bool
disables none = false
disables (some active) = not active

module _ ⦃u : Unicode⦄ where
  -- Whether there is no error.
  unfoldable pub validate_user_cluster_permissions : LocalUserInput → Registry → Bool
  validate_user_cluster_permissions input registry =
      if equal_fold (trim_space input.role) role_admin
      then true
      else are_known (list_clusters registry) input.cluster_ids

  -- The guards against an administrator who shuts himself out.
  unfoldable pub disables_self : Principal → String → LocalUserInput → Bool
  disables_self p username input =
      equal_fold p.username username
      && p.provider == provider_local
      && (disables input.active || not (input.role == role_admin))

  unfoldable pub deletes_self : Principal → String → Bool
  deletes_self p username = p.provider == provider_local && equal_fold p.username username

  module _ {W H : Type 0} (storage : HistoryStorage H) where
    unfoldable pub handle_create_user :
        Request → Option LocalUserInput → Call → Studio W H → Answer User × Studio W H
    unfolding require_admin validate_user_cluster_permissions
    handle_create_user r body call s = elim (require_admin true r) [
      | err refusal ↦ (refusal, s)
      | ok p ↦ elim body [
        | none ↦ (refused 400 "invalid_request", s)
        | some input ↦
            if not (validate_user_cluster_permissions input s.registry)
            then (refused 400 "invalid_cluster_permissions", s)
            else concluded storage r p created_event (create_user input call s.manager) s
      ]
    ]

    -- `username` is the name in the path.
    unfoldable pub handle_update_user :
        Request → String → Option LocalUserInput → Call → Studio W H → Answer User × Studio W H
    unfolding require_admin validate_user_cluster_permissions disables_self
    handle_update_user r username body call s = elim (require_admin true r) [
      | err refusal ↦ (refusal, s)
      | ok p ↦ elim body [
        | none ↦ (refused 400 "invalid_request", s)
        | some input ↦
            if disables_self p username input
            then (refused 409 "cannot_disable_self", s)
            else if not (validate_user_cluster_permissions input s.registry)
            then (refused 400 "invalid_cluster_permissions", s)
            else concluded storage r p updated_event (update_user username input call s.manager) s
      ]
    ]

    unfoldable pub handle_delete_user :
        Request → String → Call → Studio W H → Answer (Unit {0}) × Studio W H
    unfolding require_admin deletes_self
    handle_delete_user r username call s = elim (require_admin true r) [
      | err refusal ↦ (refusal, s)
      | ok p ↦
          if deletes_self p username
          then (refused 409 "cannot_delete_self", s)
          else concluded storage r p (λ _. event_on "user.delete" "user" username "删除本地账户")
              (delete_user username call s.manager) s
    ]

    unfoldable pub handle_list_users : Request → Studio W H → Answer (List User)
    unfolding require_admin
    handle_list_users r s = elim (require_admin true r) [
      | err refusal ↦ refusal
      | ok _ ↦ elim (list_users s.manager) [
        | err e ↦ write_auth_error e
        | ok users ↦ answered users
      ]
    ]

    unfoldable pub handle_auth_settings : Request → Studio W H → Answer SettingsStatus
    unfolding require_admin
    handle_auth_settings r s = elim (require_admin true r) [
      | err refusal ↦ refusal
      | ok _ ↦ elim (settings s.manager) [ err e ↦ write_auth_error e | ok given ↦ answered given ]
    ]

    unfoldable pub handle_update_auth_settings :
        Request → Option SettingsInput → Call → Studio W H → Answer SettingsStatus × Studio W H
    unfolding require_admin
    handle_update_auth_settings r body call s = elim (require_admin true r) [
      | err refusal ↦ (refusal, s)
      | ok p ↦ elim body [
        | none ↦ (refused 400 "invalid_request", s)
        | some input ↦ concluded storage r p settings_event (update_settings input call s.manager) s
      ]
    ]
