-- ===== src/FeedTokens/Rotation.antt =====
-- What rotating a feed token does: src/store/mod.rs, rotate_feed_token.
use mathlib.Core.Bool.{false≢true}
use tit.Prelude.{
  String, ℕ, ◌≡◌, ◌≤◌, refl, sym, subst, Bool, true, false, none, some, eq_iff, List, ◌∷◌, ==_refl,
  str_eq, is_some, arith, Bool-cases, inl, inr, Option-cases,
}
use tit.Prelude.Tables.{
  find, count_where, update_where, count-of-find-none, find-holds, count-update_none,
  count-update_pos, find-none_mono,
}
use tit.Store.Error.{ok, Ensures, Ensures-ok, Ensures-guard, Ensures-bind}
use tit.Store.Schema.{Database, FeedToken, Hash, Time}
use tit.Store.Common.{live_token_of, active_account_id}
use tit.Store.FeedTokens.{
  insert_feed_token, token_collides, new_token, rotate_feed_token, revoke_own, own_live_token,
}
use tit.FeedTokens.OneLive.{live_zero, none_of_test}

-- The token is the one live token of the account in the table.
pub record IsOnly (a : ℕ) (t : FeedToken) (tokens : List FeedToken) : Type 0 where
  pub found : find (live_token_of a) tokens ≡ some t
  pub alone : count_where (live_token_of a) tokens ≡ 1

inserted-IsOnly :
    (t : FeedToken) (ts : List FeedToken)
    → t.revoked_at ≡ none
    → find (token_collides t) ts ≡ none
    → IsOnly t.account_id t (t ∷ ts)
unfolding find count_where
inserted-IsOnly t ts live h = record {
  found = rw (==_refl t.account_id, live) refl;
  alone = rw (==_refl t.account_id, live) (omega (arith, live_zero t ts h));
}

abbrev same_id : String → FeedToken → Bool
same_id id t = str_eq t.id id

-- The row that was revoked keeps its id, so the new token's is another.
fresh_id :
    (t : FeedToken) (id : String) (a : ℕ) (now : Time) (ts : List FeedToken)
    → is_some (find (own_live_token id a) ts) ≡ true
    → find
        (token_collides t)
        (update_where (own_live_token id a) (λ r. record r { revoked_at = some now }) ts)
      ≡ none
    → str_eq t.id id ≡ false
fresh_id t id a now ts h free = elim (Option-cases (find (own_live_token id a) ts)) [
  | inl e ↦ absurd (false≢true (rw e at h))
  | inr (r, e) ↦ elim (Bool-cases (str_eq t.id id)) [
    | inr ne ↦ ne
    | inl eq ↦ absurd (omega (arith, clash r e eq))
  ]
]
  where
    collides :
        (r : FeedToken) → str_eq t.id id ≡ true → same_id id r ≡ true → token_collides t r ≡ true
    collides r eq k =
        let same = subst (λ x. str_eq r.id x ≡ true) (sym ((eq_iff t.id id).0 eq)) k in
        ground (arith, same)

    clash : (r : FeedToken) → find (own_live_token id a) ts ≡ some r → str_eq t.id id ≡ true → 1 ≤ 0
    clash r e eq =
        let there =
          count-update_pos (same_id id) (own_live_token id a) (own_live_token id a)
            (λ x. record x { revoked_at = some now }) ts (λ x k. ground arith) e
            (find-holds (own_live_token id a) ts e) in
        let gone =
          count-of-find-none (same_id id) _
            (find-none_mono (same_id id) (token_collides t) _ (λ x k. collides x eq k) free) in
        omega (arith, there, gone)

old_gone :
    (random_id id : String) (h : Hash) (a : ℕ) (now : Time) (ts : List FeedToken)
    → str_eq random_id id ≡ false
    → count_where (own_live_token id a) (
        new_token random_id h a now
        ∷ update_where (own_live_token id a) (λ t. record t { revoked_at = some now }) ts)
      ≡ 0
unfolding count_where
old_gone random_id id h a now ts other =
    let rest =
      count-update_none (own_live_token id a) (own_live_token id a)
        (λ t. record t { revoked_at = some now }) ts (λ r. ground arith) in
    rw other (omega (arith, rest))

-- A rotation that succeeds is one of the named active account; the token that it returns has the new
-- hash and is the one live token of the account, and the token with the old id is live no more.
pub rotate_feed_token-replaces :
    (random_id actor id : String) (token_hash : Hash) (now : Time) (db : Database)
    (token : FeedToken) (db' : Database)
    → rotate_feed_token random_id actor id token_hash now db ≡ ok (token, db')
    → (active_account_id db actor ≡ ok token.account_id)
      × (token.token_hash ≡ token_hash)
      × IsOnly token.account_id token db'.feed_tokens
      × (count_where (own_live_token id token.account_id) db'.feed_tokens ≡ 0)
rotate_feed_token-replaces random_id actor id token_hash now db token db' e = all.at (token, db') e
  where
    all :
        Ensures
          (λ (r : FeedToken × Database).
            (active_account_id db actor ≡ ok r.0.account_id)
            × (r.0.token_hash ≡ token_hash)
            × IsOnly r.0.account_id r.0 r.1.feed_tokens
            × (count_where (own_live_token id r.0.account_id) r.1.feed_tokens ≡ 0))
          (rotate_feed_token random_id actor id token_hash now db)
    all =
        unfold rotate_feed_token in
        unfold insert_feed_token in
        Ensures-bind _ _ λ a acts. Ensures-guard _ _ _ λ owned. Ensures-guard _ _ _ λ test.
          let t = new_token random_id token_hash a now in
          let free = none_of_test _ test in
          Ensures-ok _ (
            acts,
            refl,
            inserted-IsOnly t (revoke_own id a now db).feed_tokens refl free,
            old_gone random_id id token_hash a now db.feed_tokens
                (fresh_id t id a now db.feed_tokens owned free),
          )
