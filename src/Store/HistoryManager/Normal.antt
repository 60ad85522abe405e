-- ===== src/Store/HistoryManager/Normal.antt =====
-- The configurations that the check of internal/store/history_manager.go lets through.
use etcd_studio.Base.{
  String, true, false, ◌||◌, ◌==◌, eq_iff, ◌≡◌, ◌⊎◌, inl, inr, refl, ap, ◌∙◌, List, [], ◌∷◌, All,
  ok, ok_inj, Bool-cases, arith, if◌then◌else◌,
}
use mathlib.Core.Path.{subst}
use etcd_studio.Base.Int.{ℤ, pos, ltb_ℤ, eqb_ℤ}
use etcd_studio.Text.{Unicode, trim_space, trim_space-trim_space, to_lower}
use etcd_studio.Store.HistoryManager.Input.{
  HistoryStorageInput, history_storage_local, history_storage_postgres, history_storage_mysql,
  one_of, postgres_modes, mysql_modes, database_input, local_input, checked_input, trimmed_input,
  normalize_history_storage_input,
}

module _ ⦃u : Unicode⦄ where
  abbrev pub IsSteady : String → Type 0
  IsSteady w = to_lower (trim_space w) ≡ w

  abbrev pub AllSteady : List String → Type 0
  AllSteady ws = All IsSteady ws

-- The words of a configuration are in lower case and have no spaces around them.
pub record HasWords (u : Unicode) : Type 0 where
  pub types :
      AllSteady ⦃u = u⦄
        (history_storage_local ∷ history_storage_postgres ∷ history_storage_mysql ∷ "" ∷ [])
  pub postgres : AllSteady ⦃u = u⦄ postgres_modes
  pub mysql : AllSteady ⦃u = u⦄ mysql_modes

-- A field that was trimmed and is not empty.
abbrev pub IsGiven : String → Type 0
IsGiven s = (trim_space s ≡ s) × ((s == "") ≡ false)

-- A configuration of a local file, and one of a database, whose type and TLS modes are given.
pub record IsLocal (n : HistoryStorageInput) : Type 0 where
  pub type_is : n.storage_type ≡ history_storage_local
  pub file : IsGiven n.local_file
  pub nothing_else :
      (n.host ≡ "")
      × (n.port ≡ pos 0)
      × (n.database ≡ "")
      × (n.username ≡ "")
      × (n.password ≡ "")
      × (n.tls_mode ≡ "")

pub record IsDatabase (modes : List String) (n : HistoryStorageInput) : Type 0 where
  pub no_file : n.local_file ≡ ""
  pub host_given : IsGiven n.host
  pub database_given : IsGiven n.database
  pub username_given : IsGiven n.username
  pub port_above : ltb_ℤ n.port (pos 1) ≡ false
  pub port_below : ltb_ℤ (pos 65535) n.port ≡ false
  pub mode_known : one_of n.tls_mode modes ≡ true

abbrev pub IsChecked : HistoryStorageInput → Type 0
IsChecked n =
    IsLocal n
    ⊎ ((n.storage_type ≡ history_storage_postgres) × IsDatabase postgres_modes n)
    ⊎ (n.storage_type ≡ history_storage_mysql) × IsDatabase mysql_modes n

module _ ⦃u : Unicode⦄ where
  one_of-IsSteady :
      (value : String) (allowed : List String)
      → AllSteady allowed
      → one_of value allowed ≡ true
      → IsSteady value
  one_of-IsSteady value [] h e = absurd (cc e)
  one_of-IsSteady value (w ∷ ws) h e = elim (Bool-cases (value == w)) [
    | inl same ↦ rw ((eq_iff value w).0 same) h.0
    | inr other ↦ one_of-IsSteady value ws h.1 (rw other at e)
  ]

  database_input-IsDatabase :
      (default_port : ℤ) (default_mode : String) (modes : List String)
      (input n : HistoryStorageInput)
      → database_input default_port default_mode modes (trimmed_input input) ≡ ok n
      → IsDatabase modes n × (n.storage_type ≡ (trimmed_input input).storage_type)
  database_input-IsDatabase default_port default_mode modes input n h =
      let t = trimmed_input input in
      let port : ℤ = if eqb_ℤ t.port (pos 0) then default_port else t.port in
      let mode : String = if t.tls_mode == "" then default_mode else t.tls_mode in
      elim (Bool-cases (one_of mode modes)) [
        | inr unknown ↦ absurd (cc (rw unknown at h))
        | inl known ↦ elim (Bool-cases (t.host == "" || t.database == "" || t.username == "")) [
          | inl missing ↦ absurd (cc (rw (known, missing) at h))
          | inr given ↦ elim (Bool-cases (ltb_ℤ port (pos 1) || ltb_ℤ (pos 65535) port)) [
            | inl outside ↦ absurd (cc (rw (known, given, outside) at h))
            | inr inside ↦
                let is : record t { local_file = ""; port = port; tls_mode = mode } ≡ n =
                  ok_inj (rw (known, given, inside) at h) in
                subst
                  (λ (x : HistoryStorageInput).
                    IsDatabase modes x × (x.storage_type ≡ t.storage_type))
                  is
                  (
                    record {
                      no_file = refl;
                      host_given = (trim_space-trim_space input.host, ground arith);
                      database_given = (trim_space-trim_space input.database, ground arith);
                      username_given = (trim_space-trim_space input.username, ground arith);
                      port_above = ground arith;
                      port_below = ground arith;
                      mode_known = known;
                    },
                    refl,
                  )
          ]
        ]
      ]

  -- What the check lets through, where the default of the file is trimmed and not empty.
  pub normalize-IsChecked :
      (default_local_file : String) (input n : HistoryStorageInput)
      → IsGiven default_local_file
      → normalize_history_storage_input default_local_file input ≡ ok n
      → IsChecked n
  unfolding normalize_history_storage_input
  normalize-IsChecked default_local_file input n given h =
      let t = trimmed_input input in
      elim (Bool-cases (t.storage_type == history_storage_local)) [
        | inl local ↦
            let is : local_input default_local_file t ≡ n = ok_inj (rw local at h) in
            inl (
              subst IsLocal is (record {
                type_is = (eq_iff t.storage_type history_storage_local).0 local;
                file = elim (Bool-cases (t.local_file == "")) [
                  | inl blank ↦ rw blank given
                  | inr named ↦ rw named (trim_space-trim_space input.local_file, named)
                ];
                nothing_else = (refl, refl, refl, refl, refl, refl);
              }))
        | inr remote ↦ elim (Bool-cases (t.storage_type == history_storage_postgres)) [
          | inl postgres ↦
              let (checked, same) =
                database_input-IsDatabase (pos 5432) "require" postgres_modes input n
                  (rw (remote, postgres) at h) in
              inr
                (inl (same ∙ (eq_iff t.storage_type history_storage_postgres).0 postgres, checked))
          | inr other ↦ elim (Bool-cases (t.storage_type == history_storage_mysql)) [
            | inl mysql ↦
                let (checked, same) =
                  database_input-IsDatabase (pos 3306) "preferred" mysql_modes input n
                    (rw (remote, other, mysql) at h) in
                inr (inr (same ∙ (eq_iff t.storage_type history_storage_mysql).0 mysql, checked))
            | inr unknown ↦ absurd (cc (rw (remote, other, unknown) at h))
          ]
        ]
      ]

  trim-empty : (s : String) → s ≡ "" → trim_space s ≡ s
  unfolding trim_space
  trim-empty s h = rw h refl

  local-again :
      (default_local_file : String) (n : HistoryStorageInput)
      → HasWords u
      → IsLocal n
      → normalize_history_storage_input default_local_file n ≡ ok n
  unfolding normalize_history_storage_input
  local-again default_local_file n laws is =
      let (h, p, d, a, w, m) = is.nothing_else in
      let steady : IsSteady n.storage_type = rw is.type_is laws.types.0 in
      let local : (n.storage_type == history_storage_local) ≡ true =
        (eq_iff n.storage_type history_storage_local).1 is.type_is in
      let same : record n {
        host = "";
        port = pos 0;
        database = "";
        username = "";
        password = "";
        tls_mode = "";
      }
          ≡ n =
        cc in
      rw (steady, local, is.file.0, is.file.1) (ap (λ (x : HistoryStorageInput). ok x) same)

  database-again :
      (default_port : ℤ) (default_mode : String) (modes : List String) (n : HistoryStorageInput)
      → IsSteady n.tls_mode
      → (n.tls_mode == "") ≡ false
      → IsDatabase modes n
      → database_input default_port default_mode modes n ≡ ok n
  database-again default_port default_mode modes n steady some_mode is =
      let some_port : eqb_ℤ n.port (pos 0) ≡ false = ground (arith, is.port_above) in
      let same : record n { local_file = "" } ≡ n = cc (is.no_file) in
      rw
        (
          some_port, some_mode, is.mode_known, is.host_given.1, is.database_given.1,
          is.username_given.1, is.port_above, is.port_below,
        )
        (ap (λ (x : HistoryStorageInput). ok x) same)

  trimmed_input-same :
      (modes : List String) (n : HistoryStorageInput)
      → IsSteady n.storage_type
      → IsSteady n.tls_mode
      → IsDatabase modes n
      → trimmed_input n ≡ n
  trimmed_input-same modes n type_steady mode_steady is = cc (
    type_steady,
    mode_steady,
    trim-empty n.local_file is.no_file,
    is.host_given.0,
    is.database_given.0,
    is.username_given.0,
  )

  not_blank :
      (value : String) (modes : List String)
      → one_of "" modes ≡ false
      → one_of value modes ≡ true
      → (value == "") ≡ false
  not_blank value modes h e = elim (Bool-cases (value == "")) [
    | inl blank ↦ absurd (cc (h, rw ((eq_iff value "").0 blank) at e))
    | inr some_value ↦ some_value
  ]

  pub checked-again :
      (default_local_file : String) (n : HistoryStorageInput)
      → HasWords u
      → IsChecked n
      → normalize_history_storage_input default_local_file n ≡ ok n
  unfolding normalize_history_storage_input
  checked-again default_local_file n laws (inl local) = local-again default_local_file n laws local
  checked-again default_local_file n laws (inr (inl (type_is, is))) =
      let type_steady : IsSteady n.storage_type = rw type_is laws.types.1.0 in
      let mode_steady = one_of-IsSteady n.tls_mode postgres_modes laws.postgres is.mode_known in
      ap (checked_input default_local_file)
        (trimmed_input-same postgres_modes n type_steady mode_steady is)
      ∙ rw
          (
            ap (λ (x : String). x == history_storage_local) type_is,
            ap (λ (x : String). x == history_storage_postgres) type_is,
          )
          (database-again (pos 5432) "require" postgres_modes n mode_steady
            (not_blank n.tls_mode postgres_modes refl is.mode_known) is)
  checked-again default_local_file n laws (inr (inr (type_is, is))) =
      let type_steady : IsSteady n.storage_type = rw type_is laws.types.1.1.0 in
      let mode_steady = one_of-IsSteady n.tls_mode mysql_modes laws.mysql is.mode_known in
      ap (checked_input default_local_file)
        (trimmed_input-same mysql_modes n type_steady mode_steady is)
      ∙ rw
          (
            ap (λ (x : String). x == history_storage_local) type_is,
            ap (λ (x : String). x == history_storage_postgres) type_is,
            ap (λ (x : String). x == history_storage_mysql) type_is,
          )
          (database-again (pos 3306) "preferred" mysql_modes n mode_steady
            (not_blank n.tls_mode mysql_modes refl is.mode_known) is)

  -- What the check lets through it lets through unchanged when it is checked again, where the default of
  -- the file is trimmed and not empty and lower case leaves the words of a configuration alone.
  pub normalize-again :
      (default_local_file : String) (input n : HistoryStorageInput)
      → HasWords u
      → IsGiven default_local_file
      → normalize_history_storage_input default_local_file input ≡ ok n
      → IsChecked n × (normalize_history_storage_input default_local_file n ≡ ok n)
  normalize-again default_local_file input n laws given h =
      let checked = normalize-IsChecked default_local_file input n given h in
      (checked, checked-again default_local_file n laws checked)
