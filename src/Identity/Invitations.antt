-- ===== src/Identity/Invitations.antt =====
-- An invitation to sign up opens one account: src/store/mod.rs, create_account_with_invitation.
use tit.Prelude.{
  ℕ, ◌≡◌, ◌≤◌, ◌∙◌, refl, List, Option, some, String, Bool, false, true, ◌∷◌, none, ==_iff, arith,
  ◌&&◌, is_none,
}
use tit.Prelude.Tables.{find, count_where, count-update_none}
use tit.Store.Error.{
  StoreError, ok, err, invalid_invitation, Ensures, Ensures-ok, Ensures-guard, Ensures-bind, ◌>>◌,
}
use tit.Store.Schema.{Database, Account, Hash, SignupInvitation, Time}
use tit.Store.Common.{NewSshKey, named, insert_account, insert_ssh_key, insert_audit_event}
use tit.Store.Accounts.{
  InvitedAccount, redeemable, redeem, insert_recovery, create_account_with_invitation,
}

-- The invitations and the accounts are the same.
record Same (db db' : Database) : Type 0 where
  invitations : db'.signup_invitations ≡ db.signup_invitations
  accounts : db'.accounts ≡ db.accounts

insert_ssh_key-Same :
    (n : ℕ) (k : NewSshKey) (t : Time) (db : Database) → Ensures (Same db) (insert_ssh_key n k t db)
unfolding insert_ssh_key
insert_ssh_key-Same n k t db =
    Ensures-guard _ _ _ λ _. Ensures-ok _ (record { invitations = refl; accounts = refl })

insert_recovery-Same :
    (n : ℕ) (h : Hash) (t : Time) (db : Database) → Ensures (Same db) (insert_recovery n h t db)
unfolding insert_recovery
insert_recovery-Same n h t db =
    Ensures-guard _ _ _ λ _. Ensures-ok _ (record { invitations = refl; accounts = refl })

-- One account more than before, which no other has the name of and which is no administrator.
pub record IsJoined (u : String) (db db' : Database) : Type 0 where
  pub account : Account
  pub free : find (named u) db.accounts ≡ none
  pub joined : db'.accounts ≡ account ∷ db.accounts
  pub username : account.username ≡ u
  pub ordinary : account.is_administrator ≡ false

insert_account-IsJoined :
    (x : StoreError) (u : String) (t : Time) (db : Database)
    → Ensures
        (λ r. IsJoined u db r.1 × (r.1.signup_invitations ≡ db.signup_invitations))
        (insert_account x u false t db)
unfolding insert_account
insert_account-IsJoined x u t db = Ensures-guard _ _ _ λ free. Ensures-ok _ (
  record {
    account = _;
    free = free_name (find (named u) db.accounts) _ free;
    joined = refl;
    username = refl;
    ordinary = refl;
  },
  refl,
)
  where
    free_name : (o : Option Account) (c : Bool) → (is_none o && c) ≡ true → o ≡ none
    free_name none c h = refl
    free_name (some a) c h = cc

-- The invitation was redeemed by the signup of the account.
record Redeemed (a : InvitedAccount) (db db' : Database) : Type 0 where
  one : count_where (redeemable a.invitation_hash a.created_at) db.signup_invitations ≡ 1
  joined : IsJoined a.username db db'
  invitations : db'.signup_invitations ≡ redeem a.invitation_hash a.created_at db.signup_invitations

create_account_with_invitation-Redeemed :
    (a : InvitedAccount) (db : Database)
    → Ensures (Redeemed a db) (create_account_with_invitation a db)
unfolding create_account_with_invitation insert_audit_event
create_account_with_invitation-Redeemed a db = Ensures-guard _ _ _ λ one. Ensures-bind _ _ λ r e.
    Ensures-bind _ _ λ db₂ e₂. Ensures-bind _ _ λ db₃ e₃.
      let (new, kept) = (insert_account-IsJoined _ _ _ _).at r e in
      let s₂ = (insert_ssh_key-Same _ _ _ r.1).at db₂ e₂ in
      let s₃ = (insert_recovery-Same _ _ _ db₂).at db₃ e₃ in
      Ensures-ok _ (record {
        one = (==_iff _ 1).0 one;
        joined = record {
          account = new.account;
          free = new.free;
          joined = s₃.accounts ∙ s₂.accounts ∙ new.joined;
          username = new.username;
          ordinary = new.ordinary;
        };
        invitations = s₃.invitations ∙ s₂.invitations ∙ kept;
      })

-- No row that was redeemed can be redeemed at that time or later.
spent :
    (h : Hash) (t u : Time) (is : List SignupInvitation)
    → t ≤ u
    → count_where (redeemable h u) (redeem h t is) ≡ 0
spent h t u is later =
    count-update_none (redeemable h u) (redeemable h t) (λ i. record i { consumed_at = some t }) is
      (λ i. ground (arith, later))

refused :
    (b : InvitedAccount) (db : Database)
    → count_where (redeemable b.invitation_hash b.created_at) db.signup_invitations ≡ 0
    → create_account_with_invitation b db ≡ err invalid_invitation
unfolding create_account_with_invitation ◌>>◌
refused b db h = rw h refl

-- A signup succeeds only where exactly one invitation has the code, is not redeemed and not past its
-- time, and only under a name that no account has. It adds one account, of that name and no
-- administrator. A second signup with the same code, at that time or later, is refused as an invalid
-- invitation.
pub create_account_with_invitation-once :
    (a b : InvitedAccount) (db db' : Database)
    → create_account_with_invitation a db ≡ ok db'
    → b.invitation_hash ≡ a.invitation_hash
    → a.created_at ≤ b.created_at
    → (count_where (redeemable a.invitation_hash a.created_at) db.signup_invitations ≡ 1)
      × IsJoined a.username db db'
      × (create_account_with_invitation b db' ≡ err invalid_invitation)
create_account_with_invitation-once a b db db' ran same later =
    let r = (create_account_with_invitation-Redeemed a db).at db' ran in
    (
      r.one,
      r.joined,
      refused b db' (
          rw (r.invitations, same)
            (spent a.invitation_hash a.created_at b.created_at db.signup_invitations later)),
    )
