-- ===== src/FeedTokens/OneLive.antt =====
-- The number of live feed tokens that an account of src/store/mod.rs has.
use mathlib.Core.Bool.{false≢true}
use tit.Prelude.{
  String, ℕ, ◌≡◌, ◌≤◌, refl, true, Option, none, some, List, [], ◌∷◌, ◌==◌, ==_iff, is_none, arith,
  Bool-cases, inl, inr, subst,
}
use tit.Prelude.Tables.{find, count_where, count-of-find-none, count-update-le, find-none_mono}
use tit.Store.Error.{Result, ok, err, Ensures, Ensures-ok, Ensures-guard, Ensures-bind}
use tit.Store.Schema.{Database, FeedToken, Hash, Time}
use tit.Store.Common.{live_token_of}
use tit.Store.FeedTokens.{
  insert_feed_token, token_collides, create_feed_token, rotate_feed_token, revoke_feed_token,
  revoke_own, own_live_token,
}
use tit.Identity.Reach.{after, after-Ensures}

-- No account has two live tokens.
pub record HasOne (db : Database) : Type 0 where
  pub live : (a : ℕ) → count_where (live_token_of a) db.feed_tokens ≤ 1

-- Where no row collides with the new token, its account has no live token yet.
pub live_zero :
    (t : FeedToken) (ts : List FeedToken)
    → find (token_collides t) ts ≡ none
    → count_where (live_token_of t.account_id) ts ≡ 0
live_zero t ts h =
    count-of-find-none (live_token_of t.account_id) ts
      (find-none_mono (live_token_of t.account_id) (token_collides t) ts (λ r live. ground arith) h)

pub none_of_test : {A : Type 0} (o : Option A) → is_none o ≡ true → o ≡ none
none_of_test none h = refl
none_of_test (some a) h = absurd (false≢true h)

insert_feed_token-HasOne :
    (t : FeedToken) (db : Database) → HasOne db → Ensures (λ r. HasOne r.1) (insert_feed_token t db)
unfolding insert_feed_token count_where
insert_feed_token-HasOne t db inv = Ensures-guard _ _ _ λ test. Ensures-ok _ (record {
  live = λ a. elim (Bool-cases (t.account_id == a)) [
    | inl e ↦
        let zero = live_zero t db.feed_tokens (none_of_test _ test) in
        let none_here =
          subst (λ n. count_where (live_token_of n) db.feed_tokens ≡ 0)
            ((==_iff t.account_id a).0 e) zero in
        ground (arith, none_here)
    | inr e ↦ ground (arith, e, inv.live a)
  ];
})

revoke_own-HasOne :
    (id : String) (a : ℕ) (t : Time) (db : Database) → HasOne db → HasOne (revoke_own id a t db)
revoke_own-HasOne id a t db inv = record {
  live = λ n.
      let le =
        count-update-le (live_token_of n) (own_live_token id a)
          (λ r. record r { revoked_at = some t }) db.feed_tokens (λ r h. ground arith) in
      omega (arith, le, inv.live n);
}

pub data Call : Type 0 where
  create : String → String → Hash → Time → Call
  rotate : String → String → String → Hash → Time → Call
  revoke : String → String → Time → Call

abbrev drop_token : Result (FeedToken × Database) → Result Database
drop_token (ok r) = ok r.1
drop_token (err e) = err e

unfoldable pub exec : Call → Database → Result Database
exec (create r a h t) db = drop_token (create_feed_token r a h t db)
exec (rotate r a i h t) db = drop_token (rotate_feed_token r a i h t db)
exec (revoke a i t) db = revoke_feed_token a i t db

unfoldable pub run : Database → List Call → Database
run db [] = db
run db (c ∷ cs) = run (after db (exec c db)) cs

drop_token-Ensures :
    (P : Database → Type 0) (m : Result (FeedToken × Database))
    → Ensures (λ r. P r.1) m
    → Ensures P (drop_token m)
drop_token-Ensures P (ok r) h = Ensures-ok r.1 (h.at r refl)
drop_token-Ensures P (err e) h = record { at = λ a k. cc }

exec-HasOne : (c : Call) (db : Database) → HasOne db → Ensures HasOne (exec c db)
unfolding exec create_feed_token rotate_feed_token revoke_feed_token
exec-HasOne (create r a h t) db inv =
    drop_token-Ensures HasOne _
      (Ensures-bind _ _ λ id _. Ensures-guard _ _ _ λ _. insert_feed_token-HasOne _ db inv)
exec-HasOne (rotate r a i h t) db inv = drop_token-Ensures HasOne _ (
    Ensures-bind _ _ λ id _.
      Ensures-guard _ _ _
        λ _. insert_feed_token-HasOne _ (revoke_own i id t db) (revoke_own-HasOne i id t db inv))
exec-HasOne (revoke a i t) db inv =
    Ensures-bind _ _ λ id _. Ensures-guard _ _ _ λ _. Ensures-ok _ (revoke_own-HasOne i id t db inv)

-- Where no account has two live feed tokens, none has after any sequence of calls that create,
-- rotate and revoke tokens, failed ones included.
pub run-HasOne : (db : Database) (calls : List Call) → HasOne db → HasOne (run db calls)
unfolding run
run-HasOne db [] inv = inv
run-HasOne db (c ∷ cs) inv =
    run-HasOne (after db (exec c db)) cs
      (after-Ensures HasOne db (exec c db) inv (exec-HasOne c db inv))
