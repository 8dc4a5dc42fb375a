-- ===== src/Auth/Sessions.antt =====
-- cloud/db/mixins/auth_mixin.py: refresh-token sessions.
use gov_crawler.Base.{
  ℕ, ◌+◌, Bool, false, not, ◌&&◌, Option, none, some, List, [], ◌∷◌, ◌++◌, ltb, ◌==◌, is_some,
}
use gov_crawler.Base.Table
use gov_crawler.Base.Text.{Text, text_eq}
use gov_crawler.Auth.{UserSession, AuthDb, is_session}

unfoldable pub create_session : ℕ → Text → ℕ → Option Text → Option Text → ℕ → AuthDb → ℕ × AuthDb
create_session user_id refresh_token_hash expires_at user_agent ip now db =
    let session : UserSession = record {
      id = db.next_session_id;
      user_id = user_id;
      refresh_token_hash = refresh_token_hash;
      user_agent = user_agent;
      ip = ip;
      created_at = now;
      last_used_at = none;
      expires_at = expires_at;
      revoked_at = none;
    } in
    (
      db.next_session_id,
      record db {
        sessions = db.sessions ++ session ∷ [];
        next_session_id = db.next_session_id + 1;
      },
    )

abbrev pub has_hash : Text → UserSession → Bool
has_hash h s = text_eq s.refresh_token_hash h

unfoldable pub get_session_by_hash : Text → AuthDb → Option UserSession
get_session_by_hash refresh_token_hash db = Table.first (has_hash refresh_token_hash) db.sessions

unfoldable pub get_session_by_id : ℕ → AuthDb → Option UserSession
get_session_by_id session_id db = Table.first (is_session session_id) db.sessions

-- `filter_by(user_id=..., revoked_at=None)`
abbrev pub is_live : ℕ → UserSession → Bool
is_live user_id s = s.user_id == user_id && not (is_some s.revoked_at)

-- The rows newest first: sessions are numbered in the order of their creation.
unfoldable pub list_active_sessions : ℕ → ℕ → AuthDb → List UserSession
list_active_sessions user_id now db = newest_first (Table.select active db.sessions)
  where
    active : UserSession → Bool
    active s = is_live user_id s && ltb now s.expires_at

    newest_first : List UserSession → List UserSession
    newest_first [] = []
    newest_first (s ∷ rest) = newest_first rest ++ s ∷ []

abbrev pub rotated : Text → ℕ → ℕ → UserSession → UserSession
rotated h expires now s = record s {
  refresh_token_hash = h;
  expires_at = expires;
  last_used_at = some now;
}

unfoldable pub rotate_session : ℕ → Text → ℕ → ℕ → AuthDb → AuthDb
rotate_session session_id new_hash new_expires_at now db = record db {
  sessions = Table.update (is_session session_id) (rotated new_hash new_expires_at now) db.sessions;
}

abbrev pub revoked : ℕ → UserSession → UserSession
revoked now s = record s { revoked_at = some now }

unfoldable pub revoke_session : ℕ → ℕ → AuthDb → AuthDb
revoke_session session_id now db = record db {
  sessions = Table.update (is_session session_id) (revoked now) db.sessions;
}

abbrev spared : Option ℕ → UserSession → Bool
spared none s = false
spared (some keep) s = s.id == keep

abbrev pub to_revoke : ℕ → Option ℕ → UserSession → Bool
to_revoke user_id keep s = is_live user_id s && not (spared keep s)

unfoldable pub revoke_sessions_except : ℕ → Option ℕ → ℕ → AuthDb → ℕ × AuthDb
revoke_sessions_except user_id keep_session_id now db = (
  Table.count (to_revoke user_id keep_session_id) db.sessions,
  record db {
    sessions = Table.update (to_revoke user_id keep_session_id) (revoked now) db.sessions;
  },
)

unfoldable pub revoke_session_family : ℕ → ℕ → AuthDb → AuthDb
unfolding revoke_sessions_except
revoke_session_family user_id now db = (revoke_sessions_except user_id none now db).1
