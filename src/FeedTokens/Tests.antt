-- ===== src/FeedTokens/Tests.antt =====
-- The theorems on feed tokens at one account with one token.
use tit.Prelude.{◌≡◌, refl, false, [], ◌∷◌, arith}
use tit.Prelude.Tables.{find, count_where, update_where}
use tit.Store.Error.{ok, ◌>>=◌, ◌>>◌}
use tit.Store.Schema.{Database, AccountState, FeedToken, empty}
use tit.Store.Common.{active_account_id}
use tit.Store.FeedTokens.{
  create_feed_token, revoke_feed_token, rotate_feed_token, insert_feed_token, revoke_own, new_token,
  own_live_token,
}
use tit.FeedTokens.OneLive.{HasOne}
use tit.FeedTokens.Replacing.{rotate_feed_token-revoke-create}
use tit.FeedTokens.Rotation.{IsOnly, rotate_feed_token-replaces}

abbrev old_token : FeedToken
old_token = new_token "aa" 7 1 10

abbrev start : Database
start = record empty {
  accounts =
      record {
        id = 1;
        username = "alice";
        is_administrator = false;
        state = AccountState.active;
        created_at = 5;
      }
      ∷ [];
  feed_tokens = old_token ∷ [];
}

start-HasOne : HasOne start
unfolding count_where
start-HasOne = record { live = λ a. ground arith }

rotate_feed_token-revoke-create_example : rotate_feed_token "cc" "alice" "aa" 9 30 start ≡ (
    revoke_feed_token "alice" "aa" 30 start >>= λ revoked.
    create_feed_token "cc" "alice" 9 30 revoked)
rotate_feed_token-revoke-create_example =
    rotate_feed_token-revoke-create "cc" "alice" "aa" 9 30 start start-HasOne

abbrev next_token : FeedToken
next_token = new_token "cc" 9 1 30

abbrev rotated : Database
rotated = record (revoke_own "aa" 1 30 start) {
  feed_tokens = next_token ∷ (revoke_own "aa" 1 30 start).feed_tokens;
}

rotate_feed_token-replaces_example :
    (active_account_id start "alice" ≡ ok 1)
    × (next_token.token_hash ≡ 9)
    × IsOnly 1 next_token rotated.feed_tokens
    × (count_where (own_live_token "aa" 1) rotated.feed_tokens ≡ 0)
unfolding rotate_feed_token insert_feed_token active_account_id ◌>>◌ find count_where update_where
rotate_feed_token-replaces_example =
    rotate_feed_token-replaces "cc" "alice" "aa" 9 30 start next_token rotated refl
