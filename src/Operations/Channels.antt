-- ===== src/Operations/Channels.antt =====
-- crates/db/src/operations/channels.rs
use fukulow.Common.{
  ℕ, leb, String, Bool, true, false, ◌&&◌, ◌||◌, not, Option, none, some, [], ◌∷◌, ◌==◌, str_eq,
  if◌then◌else◌, is_some, find, any, insert,
}
use fukulow.Common.Characters.{char_count}
use fukulow.Domain.Identifiers.{ChannelScope, scope_as_str}
use fukulow.Db.Schema.{Channel, ChannelMember, Db}
use fukulow.Db.Context
use fukulow.Db.Context.{Settings}
use fukulow.Db.Policies.{active_in, sees_channel}
use fukulow.Db.Transaction.{
  Server, M, ◌>>=◌, ◌>>◌, pure, fail, ok_or, refuse_if, Statement, ok, SqlError, OperationError,
  refused, database, denied, violates, constraint, fetch, execute_or, begin, commit, all_pass,
  now_v7,
}
use fukulow.Audit.{channel_created, channel_member_added, write}
use fukulow.Operations.Support.{lock_organization, for_update, lock_actor}
use fukulow.Operations.Teams.{team_row}

pub data CreateChannelError : Type 0 where
  not_found name_taken : CreateChannelError

-- `ActorNotFound` is declared, and no branch returns it.
pub data AddChannelMemberError : Type 0 where
  not_found organization_scoped already_member actor_not_found actor_departed :
      AddChannelMemberError

abbrev same_team : Option ℕ → Option ℕ → Bool
same_team (some a) (some b) = a == b
same_team _ _ = false

-- The two unique indexes on lower-cased names, one for each scope.
abbrev pub clashes : (String → String) → Channel → Channel → Bool
clashes lower row c =
    str_eq (lower c.name) (lower row.name)
    && ((str_eq row.scope "team" && str_eq c.scope "team" && same_team c.team_id row.team_id)
        || (str_eq row.scope "organization"
            && str_eq c.scope "organization"
            && c.organization_id == row.organization_id))

abbrev team_exists : Channel → Db → Bool
team_exists row db = elim row.team_id [
  | none ↦ true
  | some team ↦ any (λ t. t.id == team && t.organization_id == row.organization_id) db.teams
]

-- INSERT INTO channels (id, organization_id, team_id, scope, name)
unfoldable pub insert_channel : (String → String) → Channel → Statement Unit
insert_channel lower row settings db =
    all_pass
      ((active_in settings db row.organization_id, denied)
        ∷ (
          leb 1 (char_count row.name) && leb (char_count row.name) 80,
          violates "channels_name_check",
        )
        ∷ (not (any (λ c. c.id == row.id) db.channels), violates "channels_pkey")
        ∷ (
          not (any (clashes lower row) db.channels),
          violates (
              if str_eq row.scope "team"
              then "channels_team_name_key"
              else "channels_organization_name_key"),
        )
        ∷ (
          any (λ o. o.id == row.organization_id) db.organizations,
          violates "channels_organization_id_fkey",
        )
        ∷ (team_exists row db, violates "channels_team_id_organization_id_fkey")
        ∷ [])
      (tt, record db { channels = insert row db.channels })

-- SELECT … FROM channels WHERE organization_id = $1 AND id = $2
unfoldable pub channel_row : ℕ → ℕ → Settings → Db → Option Channel
channel_row organization channel s db =
    find (λ c. sees_channel s db c && (c.organization_id == organization && c.id == channel))
      db.channels

-- The row that INSERT … SELECT makes of a channel.
abbrev listing : ℕ → Channel → ChannelMember
listing actor c = record {
  channel_id = c.id;
  channel_scope = c.scope;
  organization_id = c.organization_id;
  actor_id = actor;
}

insert_listing : ChannelMember → Statement Unit
insert_listing row settings db =
    all_pass
      ((any (λ c. c.id == row.channel_id && sees_channel settings db c) db.channels, denied)
        ∷ (str_eq row.channel_scope "team", violates "channel_members_channel_scope_check")
        ∷ (
          not (
              any (λ m. m.channel_id == row.channel_id && m.actor_id == row.actor_id)
                db.channel_members),
          violates "channel_members_pkey",
        )
        ∷ (any (λ a. a.id == row.actor_id) db.actors, violates "channel_members_actor_id_fkey")
        ∷ [])
      (tt, record db { channel_members = insert row db.channel_members })

-- INSERT INTO channel_members … SELECT … FROM channels WHERE organization_id = $1 AND id = $2
unfoldable pub insert_channel_member : ℕ → ℕ → ℕ → Statement Unit
unfolding insert_listing
insert_channel_member organization channel actor settings db =
    elim (channel_row organization channel settings db) [
      | none ↦ ok (tt, db)
      | some c ↦ insert_listing (listing actor c) settings db
    ]

abbrev pub name_taken_error : SqlError → OperationError CreateChannelError
name_taken_error e =
    if constraint e "channels_team_name_key" || constraint e "channels_organization_name_key"
    then refused name_taken
    else database e

abbrev pub already_member_error : SqlError → OperationError AddChannelMemberError
already_member_error e =
    if constraint e "channel_members_pkey" then refused already_member else database e

-- `match departed` of `add_channel_member`
abbrev pub refuse_departed : Option Bool → M AddChannelMemberError Unit
refuse_departed none = fail (refused AddChannelMemberError.not_found)
refuse_departed (some true) = fail (refused actor_departed)
refuse_departed (some false) = pure tt

module _ (server : Server) where
  -- The `match scope` of `create_channel`.
  unfoldable pub scope_team : ℕ → ChannelScope → M CreateChannelError (Option ℕ)
  scope_team organization ChannelScope.organization = pure none
  scope_team organization (ChannelScope.team team) = do
    found ← fetch server (team_row organization team)
    refuse_if (not (is_some found)) CreateChannelError.not_found
    pure (some team)

  unfoldable pub create_channel : ℕ → ℕ → ChannelScope → String → M CreateChannelError ℕ
  unfolding scope_team
  create_channel performed_by organization scope name = do
    begin server (Context.actor performed_by)
    lock_actor server performed_by performed_by
    found ← lock_organization server organization for_update
    refuse_if (not found) CreateChannelError.not_found
    team_id ← scope_team organization scope
    channel ← now_v7 server
    execute_or server name_taken_error (
        insert_channel server.lower (record {
          id = channel;
          organization_id = organization;
          team_id = team_id;
          scope = scope_as_str scope;
          name = name;
          next_message_seq = 0;
        }))
    write server (channel_created channel scope) organization performed_by
    commit server
    pure channel

  unfoldable pub add_channel_member : ℕ → ℕ → ℕ → ℕ → M AddChannelMemberError Unit
  add_channel_member performed_by organization channel actor = do
    begin server (Context.actor performed_by)
    departed ← lock_actor server actor performed_by
    found ← lock_organization server organization for_update
    refuse_if (not found) AddChannelMemberError.not_found
    row_found ← fetch server (channel_row organization channel)
    row ← ok_or (refused AddChannelMemberError.not_found) row_found
    refuse_if (str_eq row.scope (scope_as_str ChannelScope.organization)) organization_scoped
    refuse_departed departed
    execute_or server already_member_error (insert_channel_member organization channel actor)
    write server (channel_member_added actor channel) organization performed_by
    commit server
