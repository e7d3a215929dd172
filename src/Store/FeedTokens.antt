-- ===== src/Store/FeedTokens.antt =====
-- src/store/mod.rs: the private feed tokens, from create_feed_token to revoke_feed_token.
-- The identifier that SQLite draws, `lower(hex(randomblob(16)))`, is an argument.
use tit.Prelude.{
  String, ℕ, Bool, ◌&&◌, ◌||◌, none, some, ◌∷◌, ◌==◌, str_eq, is_none, is_some, ltb, not,
}
use tit.Prelude.Tables.{find, count_where, update_where}
use tit.Store.Error.{Result, ok, sqlite, feed_token_limit, feed_token_not_found, guard, ◌>>=◌, ◌>>◌}
use tit.Store.Schema.{Database, FeedToken, Hash, Time}
use tit.Store.Common.{live_token_of, active_account_id}

abbrev pub max_active_feed_tokens : ℕ
max_active_feed_tokens = 1

-- The UNIQUE constraints of the table: the id, the hash, and one live token for each account.
abbrev pub token_collides : FeedToken → FeedToken → Bool
token_collides t u =
    str_eq u.id t.id || u.token_hash == t.token_hash || live_token_of t.account_id u

-- The statement, and the row that the query by last_insert_rowid reads back.
unfoldable pub insert_feed_token : FeedToken → Database → Result (FeedToken × Database)
insert_feed_token token db =
    guard (is_none (find (token_collides token) db.feed_tokens)) sqlite
    >> ok (token, record db { feed_tokens = token ∷ db.feed_tokens })

abbrev pub new_token : String → Hash → ℕ → Time → FeedToken
new_token id token_hash account_id created_at = record {
  id = id;
  token_hash = token_hash;
  account_id = account_id;
  created_at = created_at;
  revoked_at = none;
}

unfoldable pub create_feed_token :
    String → String → Hash → Time → Database → Result (FeedToken × Database)
create_feed_token random_id actor token_hash created_at db = do
  account_id ← active_account_id db actor
  guard (ltb (count_where (live_token_of account_id) db.feed_tokens) max_active_feed_tokens)
      feed_token_limit
  insert_feed_token (new_token random_id token_hash account_id created_at) db

-- `id = ?1 AND account_id = ?2 AND revoked_at IS NULL`
abbrev pub own_live_token : String → ℕ → FeedToken → Bool
own_live_token id account_id t =
    str_eq t.id id && t.account_id == account_id && is_none t.revoked_at

abbrev pub revoke_own : String → ℕ → Time → Database → Database
revoke_own id account_id now db = record db {
  feed_tokens =
      update_where (own_live_token id account_id) (λ t. record t { revoked_at = some now })
        db.feed_tokens;
}

unfoldable pub rotate_feed_token :
    String → String → String → Hash → Time → Database → Result (FeedToken × Database)
rotate_feed_token random_id actor id token_hash changed_at db = do
  account_id ← active_account_id db actor
  guard (is_some (find (own_live_token id account_id) db.feed_tokens)) feed_token_not_found
  insert_feed_token (new_token random_id token_hash account_id changed_at)
      (revoke_own id account_id changed_at db)

unfoldable pub revoke_feed_token : String → String → Time → Database → Result Database
revoke_feed_token actor id revoked_at db = do
  account_id ← active_account_id db actor
  guard (not (count_where (own_live_token id account_id) db.feed_tokens == 0)) feed_token_not_found
  ok (revoke_own id account_id revoked_at db)
