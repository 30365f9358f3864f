-- ===== src/Db/Context.antt =====
-- crates/db/src/context.rs: the settings local to a transaction, which the policies read.
use fukulow.Common.{ℕ, String, Bool, false, Option, none, some, ◌==◌, str_eq}

-- `fukulow.actor_id`, `fukulow.session_token_hash`, `fukulow.sign_in_email` and
-- `fukulow.invite_token_hash`; `none` is a setting that the transaction has not made.
pub record Settings : Type 0 where
  pub actor_id : Option ℕ
  pub session_token_hash : Option String
  pub sign_in_email : Option String
  pub invite_token_hash : Option String

abbrev pub no_settings : Settings
no_settings = record {
  actor_id = none;
  session_token_hash = none;
  sign_in_email = none;
  invite_token_hash = none;
}

pub data Context : Type 0 where
  actor : ℕ → Context
  session_token sign_in_email invite_token : String → Context

-- The `set_config` call of `set_context`.
abbrev pub configure : Context → Settings → Settings
configure (actor a) s = record s { actor_id = some a }
configure (session_token hash) s = record s { session_token_hash = some hash }
configure (sign_in_email email) s = record s { sign_in_email = some email }
configure (invite_token hash) s = record s { invite_token_hash = some hash }

-- A comparison with a setting; with no setting it is NULL, which no policy admits.
abbrev pub is_self : Settings → ℕ → Bool
is_self s a = elim s.actor_id [ none ↦ false | some me ↦ a == me ]

abbrev pub matches : Option String → String → Bool
matches none t = false
matches (some setting) t = str_eq t setting
