-- ===== src/App/Audit.antt =====
-- The audit events of internal/app/server.go: who did something, how a key is shown, and the queue of
-- the events that wait until a history is set up.
use Prim.Native.String.{char_at, count}
use etcd_studio.Base.{
  ℕ, zero, suc, ◌-◌, Char, String, Bool, true, false, not, ◌==◌, none, some, List, [], ◌∷◌, ◌++◌,
  ltb, leb, length, drop, if◌then◌else◌, ok, err,
}
use etcd_studio.Base.Base64.{Bytes, encode_std}
use etcd_studio.Text.{Unicode, trim_space, is_space, trim_left}
use etcd_studio.Text.Utf8.{Utf8}
use etcd_studio.Auth.Types.{Principal}
use etcd_studio.Store.Types.{AuditEvent}
use etcd_studio.Store.Kv.{HistoryStorage}
use etcd_studio.Store.History.Records.{append_text}
use etcd_studio.App.Answers.{is_not_setup}
use etcd_studio.App.Server.{Server, Request}

abbrev space : Char
space = char_at " " 0

abbrev map_runes : (Char → Char) → String → String
map_runes f String.[] = String.[]
map_runes f (String.◌∷◌ c s) = String.◌∷◌ (f c) (map_runes f s)

-- `strings.Join(strings.Fields(s), " ")` after the leading spaces; the flag says that a space waits.
unfoldable pub join_fields : Bool → String → String
unfolding is_space
join_fields waits String.[] = String.[]
join_fields waits (String.◌∷◌ c s) =
    let separated = join_fields true s in
    let joined = join_fields false s in
    if is_space c
    then separated
    else if waits
    then String.◌∷◌ space (String.◌∷◌ c joined)
    else String.◌∷◌ c joined

unfoldable pub take_runes : ℕ → String → String
take_runes zero s = String.[]
take_runes (suc n) String.[] = String.[]
take_runes (suc n) (String.◌∷◌ c s) = String.◌∷◌ c (take_runes n s)

-- `compactPreview`
unfoldable pub compact_preview : String → ℕ → String
unfolding join_fields take_runes trim_left
compact_preview value limit =
    let text = join_fields false (trim_left value) in
    if leb (count text) limit then text else append_text (take_runes limit text) "…"

module _ ⦃u : Unicode⦄ where
  -- A control character is shown as a space.
  abbrev shown : Char → Char
  shown c = if u.is_control c then space else c

  unfoldable pub sanitized_audit_label : String → ℕ → String
  unfolding join_fields take_runes trim_left
  sanitized_audit_label value limit =
      let text = join_fields false (trim_left (map_runes shown (trim_space value))) in
      if ltb limit (count text) then append_text (take_runes limit text) "…" else text

  unfoldable pub audit_key_label : ⦃v : Utf8⦄ → Bytes → String
  unfolding sanitized_audit_label
  audit_key_label ⦃v = v⦄ key = elim (v.to_text key) [
    | none ↦ append_text "base64:" (encode_std key)
    | some text ↦
        let label = sanitized_audit_label text 512 in
        if not (label == "") then label else append_text "base64:" (encode_std key)
  ]

  -- `auditActor`: the actor, its type and the address of the client.
  unfoldable pub audit_actor : Request → String × String × String
  unfolding sanitized_audit_label
  audit_actor r =
      let address : String = elim r.remote_host [
        | none ↦ trim_space r.remote_addr
        | some host ↦ host
      ] in
      let client_ip = sanitized_audit_label address 80 in
      let authenticated = sanitized_audit_label r.authenticated_user 200 in
      let forwarded = sanitized_audit_label r.forwarded_user 200 in
      if not (authenticated == "")
      then (authenticated, "authenticated_user", client_ip)
      else if not (forwarded == "")
      then (forwarded, "authenticated_user", client_ip)
      else if client_ip == ""
      then ("未知客户端", "unknown", "")
      else (client_ip, "client_ip", client_ip)

-- The queue after one more event: at most 100, the oldest is dropped.
abbrev pub queued : AuditEvent → List AuditEvent → List AuditEvent
queued event pending =
    (if leb 100 (length pending) then drop (length pending - 99) pending else pending) ++ event ∷ []

module _ {H : Type 0} (storage : HistoryStorage H) where
  -- The loop over the events that waited: the history, and those that still wait.
  unfoldable pub flush_events : List AuditEvent → H → List AuditEvent × H
  flush_events [] h = ([], h)
  flush_events (event ∷ events) h =
      let (saved, h') = storage.save_audit event h in
      let rest = flush_events events h' in
      elim saved [ ok _ ↦ rest | err e ↦ if is_not_setup e then (event ∷ events, h') else rest ]

module _ {W H : Type 0} (storage : HistoryStorage H) where
  -- An event is saved, waits while no history is set up, and is lost on any other error.
  unfoldable pub save_audit_event : AuditEvent → Server W H → Server W H
  save_audit_event event s =
      let (saved, history) = storage.save_audit event s.history in
      elim saved [
        | ok _ ↦ record s { history = history }
        | err e ↦
            if is_not_setup e
            then record s { history = history; pending_audit = queued event s.pending_audit }
            else record s { history = history }
      ]

  -- `added` are the events that other requests put into the queue in the meantime.
  unfoldable pub flush_pending_audit : List AuditEvent → Server W H → Server W H
  unfolding flush_events
  flush_pending_audit added s =
      let (waiting, history) = flush_events storage s.pending_audit s.history in
      record s { history = history; pending_audit = waiting ++ added }

  -- The principal of a session, with the address of the client.
  unfoldable pub record_audit_for_principal :
      ⦃u : Unicode⦄ → Request → Principal → AuditEvent → Server W H → Server W H
  unfolding save_audit_event audit_actor
  record_audit_for_principal r p event =
      save_audit_event (record event {
        actor = p.username;
        actor_type = p.provider;
        client_ip = (audit_actor r).2;
      })

  unfoldable pub record_audit : ⦃u : Unicode⦄ → Request → AuditEvent → Server W H → Server W H
  unfolding record_audit_for_principal save_audit_event audit_actor
  record_audit r event s = elim r.principal [
    | some p ↦ record_audit_for_principal r p event s
    | none ↦
        let (actor, actor_type, client_ip) = audit_actor r in
        save_audit_event
          (record event { actor = actor; actor_type = actor_type; client_ip = client_ip }) s
  ]
