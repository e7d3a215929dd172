-- ===== src/FeedTokens/Replacing.antt =====
-- Rotating a feed token, against revoking it and creating another: src/store/mod.rs.
use tit.Prelude.{
  String, ℕ, ◌⊎◌, ◌≡◌, ◌+◌, refl, Bool, true, false, not, some, is_some, List, [], ◌∷◌, ◌==◌, ltb,
  arith, Bool-cases, inl, inr,
}
use tit.Prelude.Tables.{find, count_where, update_where}
use tit.Store.Error.{Result, StoreError, ok, err, ◌>>=◌, ◌>>◌}
use tit.Store.Schema.{Database, FeedToken, Hash, Time}
use tit.Store.Common.{live_token_of, active_account_id}
use tit.Store.FeedTokens.{
  create_feed_token, rotate_feed_token, revoke_feed_token, revoke_own, own_live_token,
  max_active_feed_tokens,
}
use tit.FeedTokens.OneLive.{HasOne}

-- A query finds a row where it counts one.
found_counted :
    (p : FeedToken → Bool) (ts : List FeedToken) → is_some (find p ts) ≡ not (count_where p ts == 0)
unfolding find count_where
found_counted p [] = ground arith
found_counted p (t ∷ ts) = ground (arith, found_counted p ts)

-- What an update takes out of a count.
count-update_loss :
    (u p : FeedToken → Bool) (f : FeedToken → FeedToken) (ts : List FeedToken)
    → ((t : FeedToken) → p t ≡ true → (u t ≡ true) × (u (f t) ≡ false))
    → count_where u (update_where p f ts) + count_where p ts ≡ count_where u ts
unfolding count_where update_where
count-update_loss u p f [] h = omega arith
count-update_loss u p f (t ∷ ts) h = ground (arith, h t, count-update_loss u p f ts h)

-- After the one live token was revoked, there is room for another.
room_left :
    (id : String) (a : ℕ) (now : Time) (db : Database)
    → HasOne db
    → not (count_where (own_live_token id a) db.feed_tokens == 0) ≡ true
    → ltb
        (count_where (live_token_of a) (revoke_own id a now db).feed_tokens)
        max_active_feed_tokens
      ≡ true
room_left id a now db inv own =
    let loss =
      count-update_loss (live_token_of a) (own_live_token id a)
        (λ t. record t { revoked_at = some now }) db.feed_tokens
        (λ t h. (ground (arith, h), ground (arith, h))) in
    ground (arith, loss, inv.live a, own)

-- The revocation leaves the accounts as they are.
active_account_id-revoke_own :
    (id actor : String) (a : ℕ) (now : Time) (db : Database)
    → active_account_id (revoke_own id a now db) actor ≡ active_account_id db actor
unfolding active_account_id
active_account_id-revoke_own id actor a now db = refl

active-cases : (m : Result ℕ) → ((a : ℕ) × (m ≡ ok a)) ⊎ ((x : StoreError) × (m ≡ err x))
active-cases (ok a) = inl (a, refl)
active-cases (err x) = inr (x, refl)

-- Where no account has two live tokens, a rotation does what a revocation of the old token does,
-- followed by a creation of the new one at the same time: it returns the same token and database, or
-- the same error, whoever asks and whichever token is named.
pub rotate_feed_token-revoke-create :
    (random_id actor id : String) (token_hash : Hash) (now : Time) (db : Database)
    → HasOne db
    → rotate_feed_token random_id actor id token_hash now db ≡ (
        revoke_feed_token actor id now db >>= λ revoked.
        create_feed_token random_id actor token_hash now revoked)
unfolding rotate_feed_token revoke_feed_token create_feed_token ◌>>=◌ ◌>>◌
rotate_feed_token-revoke-create random_id actor id token_hash now db inv =
    elim (active-cases (active_account_id db actor)) [
      | inr (x, e) ↦ rw e refl
      | inl (a, e) ↦
          elim (Bool-cases (not (count_where (own_live_token id a) db.feed_tokens == 0))) [
            | inr none_live ↦
                rw (e, found_counted (own_live_token id a) db.feed_tokens, none_live) refl
            | inl live ↦
                rw
                  (
                    e,
                    found_counted (own_live_token id a) db.feed_tokens,
                    live,
                    active_account_id-revoke_own id actor a now db,
                    e,
                    room_left id a now db inv live,
                  )
                  refl
          ]
    ]
