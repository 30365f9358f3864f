-- ===== src/Db/Policies.antt =====
-- The row-level security policies of migrations/, for the role `fukulow_app`. Reading and updating
-- a table go by one test each, `sees_…`; what a policy asks of a new row is `may_insert_…`.
use fukulow.Common.{
  ℕ, String, Bool, true, false, ◌&&◌, ◌||◌, not, none, some, [], ◌∷◌, ◌==◌, str_eq, ltb, is_some,
  if◌then◌else◌, any,
}
use fukulow.Db.Schema.{
  Actor, User, Organization, OrganizationMember, Team, TeamMember, Invite, Session, Channel,
  ChannelMember, StoredMessage, uuid, text, number, Metadata, AuditEvent, Db,
}
use fukulow.Db.Context.{Settings, is_self, matches}

-- `organization IN (SELECT fukulow_active_organizations())`
unfoldable pub active_in : Settings → Db → ℕ → Bool
active_in s db organization =
    any (λ m. is_self s m.actor_id && str_eq m.status "active" && m.organization_id == organization)
      db.organization_members

-- `fukulow_organization_has_members`
unfoldable pub has_members : Db → ℕ → Bool
has_members db organization = any (λ m. m.organization_id == organization) db.organization_members

unfoldable pub sees_organization : Settings → Db → Organization → Bool
sees_organization s db o = active_in s db o.id

unfoldable pub sees_member : Settings → Db → OrganizationMember → Bool
sees_member s db m = active_in s db m.organization_id || is_self s m.actor_id

unfoldable pub sees_actor : Settings → Db → Actor → Bool
sees_actor s db a =
    is_self s a.id || any (λ m. m.actor_id == a.id && sees_member s db m) db.organization_members

unfoldable pub sees_team : Settings → Db → Team → Bool
sees_team s db t = active_in s db t.organization_id

unfoldable pub sees_team_member : Settings → Db → TeamMember → Bool
sees_team_member s db m = active_in s db m.organization_id || is_self s m.actor_id

-- The policy on updates of team members has no branch for the actor's own rows.
unfoldable pub updates_team_member : Settings → Db → TeamMember → Bool
updates_team_member s db m = active_in s db m.organization_id

unfoldable pub sees_channel : Settings → Db → Channel → Bool
sees_channel s db c = active_in s db c.organization_id

unfoldable pub sees_channel_member : Settings → Db → ChannelMember → Bool
sees_channel_member s db m =
    any (λ c. c.id == m.channel_id && sees_channel s db c) db.channels || is_self s m.actor_id

unfoldable pub sees_message : Settings → Db → StoredMessage → Bool
sees_message s db m = active_in s db m.organization_id

unfoldable pub sees_invite : Settings → Db → Invite → Bool
sees_invite s db i = active_in s db i.organization_id || matches s.invite_token_hash i.token_hash

unfoldable pub sees_session : Settings → Db → Session → Bool
sees_session s db x = is_self s x.actor_id || matches s.session_token_hash x.token_hash

-- `lower` is `lower(… COLLATE "C")`.
unfoldable pub sees_user : (String → String) → Settings → Db → User → Bool
sees_user lower s db u =
    is_self s u.actor_id
    || (elim s.sign_in_email [ none ↦ false | some email ↦ str_eq (lower u.email) (lower email) ])

-- An invite that admits into the organization and that the current transaction has used.
unfoldable pub used_here : ℕ → ℕ → Settings → ℕ → Invite → Bool
used_here now xact s organization i =
    i.organization_id == organization
    && matches s.invite_token_hash i.token_hash
    && str_eq i.kind "organization"
    && not (is_some i.revoked_at)
    && ltb now i.expires_at
    && ltb 0 i.used_count
    && i.xmin == xact

-- `organization_members_insert` and `organization_members_insert_invite`.
unfoldable pub may_insert_member : ℕ → ℕ → Settings → Db → OrganizationMember → Bool
may_insert_member now xact s db m =
    active_in s db m.organization_id
    || (is_self s m.actor_id
        && str_eq m.role "owner"
        && str_eq m.status "active"
        && not (has_members db m.organization_id))
    || (is_self s m.actor_id
        && str_eq m.role "member"
        && str_eq m.status "active"
        && any (used_here now xact s m.organization_id) db.invites)

-- WITH CHECK of `organization_members_update`, and the trigger
-- `fukulow_guard_inactive_member_role`, on the old and the new row.
unfoldable pub may_update_member : Settings → Db → OrganizationMember → OrganizationMember → Bool
may_update_member s db old new =
    (active_in s db new.organization_id
      || (is_self s new.actor_id
          && str_eq new.status "left"
          && (elim new.display_name [ none ↦ true | some _ ↦ false ])))
    && not (
        not (str_eq old.status "active")
        && is_self s old.actor_id
        && not (str_eq new.role old.role))

-- `metadata->>key`, compared with a text and with the text of a uuid.
abbrev pub metadata_is_text : String → String → Metadata → Bool
metadata_is_text key value [] = false
metadata_is_text key value ((k, text t) ∷ m) =
    if str_eq k key then str_eq t value else metadata_is_text key value m
metadata_is_text key value ((k, uuid n) ∷ m) =
    if str_eq k key then false else metadata_is_text key value m
metadata_is_text key value ((k, number n) ∷ m) =
    if str_eq k key then false else metadata_is_text key value m

abbrev pub metadata_is_uuid : String → ℕ → Metadata → Bool
metadata_is_uuid key value [] = false
metadata_is_uuid key value ((k, uuid n) ∷ m) =
    if str_eq k key then n == value else metadata_is_uuid key value m
metadata_is_uuid key value ((k, text t) ∷ m) =
    if str_eq k key then false else metadata_is_uuid key value m
metadata_is_uuid key value ((k, number n) ∷ m) =
    if str_eq k key then false else metadata_is_uuid key value m

abbrev is_departure : AuditEvent → Bool
is_departure e =
    str_eq e.action "organization.member.left"
    || ((str_eq e.action "team.member.removed" || str_eq e.action "channel.member.removed")
        && metadata_is_text "reason" "left_service" e.metadata)

-- `audit_events_insert`
unfoldable pub may_insert_audit : Settings → Db → AuditEvent → Bool
may_insert_audit s db e =
    active_in s db e.organization_id
    || (is_self s e.actor_id
        && str_eq e.target_type "actor"
        && is_self s e.target_id
        && is_departure e
        && any (λ m. m.organization_id == e.organization_id && is_self s m.actor_id)
            db.organization_members)
    || (is_self s e.actor_id
        && str_eq e.target_type "actor"
        && is_self s e.target_id
        && str_eq e.action "channel.member.removed"
        && metadata_is_text "reason" "left_service" e.metadata
        && any
            (λ m.
              is_self s m.actor_id
              && m.organization_id == e.organization_id
              && metadata_is_uuid "channel_id" m.channel_id e.metadata)
            db.channel_members)
