-- ===== src/Auth/Ldap.antt =====
-- `normalizeLDAPSettings` of internal/auth/ldap.go.
use etcd_studio.Base.{
  String, Bool, not, ◌&&◌, ◌||◌, ◌==◌, none, some, List, [], ◌∷◌, if◌then◌else◌, any, Result, ok,
  err,
}
use etcd_studio.Base.Int.{ℤ, pos, ltb_ℤ, eqb_ℤ}
use etcd_studio.Text.{Unicode, trim_space, to_lower, contains}
use etcd_studio.Auth.Types.{AuthError, invalid_input, LdapSettingsInput, LdapSettings}

abbrev pub ldap_tls_start_tls : String
ldap_tls_start_tls = "starttls"

abbrev pub ldap_tls_ldaps : String
ldap_tls_ldaps = "ldaps"

abbrev pub ldap_tls_plain : String
ldap_tls_plain = "plain"

abbrev or_default : String → String → String
or_default s fallback = if s == "" then fallback else s

module _ ⦃u : Unicode⦄ where
  -- The loop over the administrators: `seen` holds the lower-case names that were met.
  pub unique_admins : List String → List String → List String
  unique_admins seen [] = []
  unique_admins seen (x ∷ xs) =
      let username = trim_space x in
      let key = to_lower username in
      let skipped = unique_admins seen xs in
      let kept = username ∷ unique_admins (key ∷ seen) xs in
      if username == "" then skipped else if any (λ s. s == key) seen then skipped else kept

  -- The settings with the blanks trimmed, before the defaults.
  trimmed_settings : LdapSettingsInput → LdapSettings → LdapSettings
  trimmed_settings input current = record {
    host = trim_space input.host;
    port = input.port;
    tls_mode = to_lower (trim_space input.tls_mode);
    ca_file = trim_space input.ca_file;
    server_name = trim_space input.server_name;
    base_dn = trim_space input.base_dn;
    bind_dn = trim_space input.bind_dn;
    bind_password = elim input.bind_password [ none ↦ current.bind_password | some p ↦ p ];
    user_filter = trim_space input.user_filter;
    user_dn_template = trim_space input.user_dn_template;
    username_attribute = trim_space input.username_attribute;
    display_name_attribute = trim_space input.display_name_attribute;
    admin_usernames = unique_admins [] input.admin_usernames;
  }

default_port : String → ℤ → ℤ
default_port tls_mode port =
    if eqb_ℤ port (pos 0) then (if tls_mode == ldap_tls_ldaps then pos 636 else pos 389) else port

with_defaults : LdapSettings → LdapSettings
unfolding default_port
with_defaults c =
    let tls = or_default c.tls_mode ldap_tls_start_tls in
    record c {
      tls_mode = tls;
      port = default_port tls c.port;
      user_filter = or_default c.user_filter "(uid={{username}})";
      username_attribute = or_default c.username_attribute "uid";
      display_name_attribute = or_default c.display_name_attribute "cn";
    }

check_settings : LdapSettings → Result AuthError LdapSettings
check_settings c =
    if c.host == "" || ltb_ℤ c.port (pos 1) || ltb_ℤ (pos 65535) c.port
    then err invalid_input
    else if not (
        c.tls_mode == ldap_tls_start_tls
        || c.tls_mode == ldap_tls_ldaps
        || c.tls_mode == ldap_tls_plain)
    then err invalid_input
    else if (if c.user_dn_template == ""
        then c.base_dn == "" || not (contains c.user_filter "{{username}}")
        else not (contains c.user_dn_template "{{username}}"))
    then err invalid_input
    else if not (c.bind_dn == "") && c.bind_password == ""
    then err invalid_input
    else ok c

module _ ⦃u : Unicode⦄ where
  unfoldable pub normalize_ldap_settings :
      LdapSettingsInput → LdapSettings → Bool → Result AuthError LdapSettings
  unfolding trimmed_settings with_defaults check_settings
  normalize_ldap_settings input current required =
      let c = trimmed_settings input current in
      if not required && c.host == "" then ok current else check_settings (with_defaults c)
