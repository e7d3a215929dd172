-- ===== src/Store/Schema.antt =====
-- The tables of src/store/migrations, after the last migration, as lists of rows.
-- Times are Unix seconds, which the schema holds at or above 0; a hash of 32 bytes is the number
-- that its bytes spell; `… IS NULL` columns are options. UNIQUE constraints are checked where a
-- statement can violate them; CHECK constraints on the shape of a text are not modelled.
mod Events
mod Changes
pub use Events.*
pub use Changes.*
use tit.Prelude.{String, ℕ, Bool, true, false, Option, List, []}

abbrev pub Hash : Type 0
Hash = ℕ

abbrev pub Time : Type 0
Time = ℕ

pub data AccountState : Type 0 where
  active suspended : AccountState

pub record Account : Type 0 where
  pub id : ℕ
  pub username : String
  pub is_administrator : Bool
  pub state : AccountState
  pub created_at : Time

pub record SshPublicKey : Type 0 where
  pub id : ℕ
  pub account_id : ℕ
  pub canonical_key : String
  pub fingerprint : String
  pub created_at : Time
  pub label : String
  pub revoked_at : Option Time

pub record RecoveryCredential : Type 0 where
  pub account_id : ℕ
  pub credential_hash : Hash
  pub created_at : Time

pub record SignupInvitation : Type 0 where
  pub code_hash : Hash
  pub created_at : Time
  pub expires_at : Time
  pub consumed_at : Option Time

pub record LoginNonce : Type 0 where
  pub nonce_hash : Hash
  pub csrf_hash : Hash
  pub account_id : ℕ
  pub ssh_public_key_id : Option ℕ
  pub created_at : Time
  pub expires_at : Time
  pub consumed_at : Option Time

pub data Purpose : Type 0 where
  login account_key : Purpose

pub record LoginApproval : Type 0 where
  pub secret_hash : Hash
  pub csrf_hash : Hash
  pub account_id : Option ℕ
  pub ssh_public_key_id : Option ℕ
  pub created_at : Time
  pub expires_at : Time
  pub approved_at : Option Time
  pub consumed_at : Option Time
  pub purpose : Purpose
  pub expected_account_id : Option ℕ

pub record WebSession : Type 0 where
  pub session_hash : Hash
  pub csrf_hash : Hash
  pub account_id : ℕ
  pub created_at : Time
  pub expires_at : Time
  pub ended_at : Option Time
  pub ssh_public_key_id : Option ℕ

pub record FeedToken : Type 0 where
  pub id : String
  pub token_hash : Hash
  pub account_id : ℕ
  pub created_at : Time
  pub revoked_at : Option Time

pub record AuditEvent : Type 0 where
  pub action : String
  pub actor : String
  pub target : String
  pub outcome : String
  pub correlation_id : String
  pub created_at : Time

pub data NamespaceKind : Type 0 where
  account organization : NamespaceKind

pub record Namespace : Type 0 where
  pub id : ℕ
  pub slug : String
  pub kind : NamespaceKind
  pub account_id : Option ℕ
  pub created_at : Time

pub data OrganizationState : Type 0 where
  active archived : OrganizationState

pub record Organization : Type 0 where
  pub namespace_id : ℕ
  pub display_name : String
  pub description : String
  pub state : OrganizationState
  pub created_at : Time

pub data Role : Type 0 where
  owner maintainer writer reader : Role

pub record OrganizationMember : Type 0 where
  pub organization_id : ℕ
  pub account_id : ℕ
  pub role : Role
  pub created_at : Time

-- `visibility` is public or private, and `state` is active or archived.
pub record Repository : Type 0 where
  pub id : String
  pub owner_namespace_id : ℕ
  pub slug : String
  pub visibility : String
  pub state : String
  pub object_format : String
  pub created_at : Time
  pub archived_at : Option Time

-- `role` is maintainer, writer or reader.
pub record RepositoryCollaborator : Type 0 where
  pub repository_id : String
  pub account_id : ℕ
  pub role : String
  pub created_at : Time

pub record RepositoryDefaultBranch : Type 0 where
  pub repository_id : String
  pub ref_name : String

pub record RepositoryCounter : Type 0 where
  pub repository_id : String
  pub next_issue_number : ℕ
  pub next_pull_request_number : ℕ

-- `state` is open or closed.
pub record Issue : Type 0 where
  pub id : String
  pub repository_id : String
  pub number : ℕ
  pub title : String
  pub body : String
  pub state : String
  pub author_account_id : ℕ
  pub created_at : Time
  pub updated_at : Time
  pub closed_at : Option Time

pub record IssueComment : Type 0 where
  pub id : String
  pub issue_id : String
  pub author_account_id : ℕ
  pub body : String
  pub created_at : Time

pub record Watch : Type 0 where
  pub id : String
  pub repository_id : String
  pub account_id : ℕ
  pub created_at : Time
  pub updated_at : Time

pub record RepositoryProfile : Type 0 where
  pub repository_id : String
  pub description : String

pub record DefaultBranchIntent : Type 0 where
  pub id : String
  pub repository_id : String
  pub actor : String
  pub previous_ref_name : String
  pub proposed_ref_name : String
  pub created_at : Time

pub record Database : Type 0 where
  pub accounts : List Account
  pub ssh_public_keys : List SshPublicKey
  pub recovery_credentials : List RecoveryCredential
  pub signup_invitations : List SignupInvitation
  pub login_nonces : List LoginNonce
  pub ssh_login_approvals : List LoginApproval
  pub web_sessions : List WebSession
  pub feed_tokens : List FeedToken
  pub audit_events : List AuditEvent
  pub namespaces : List Namespace
  pub organizations : List Organization
  pub organization_members : List OrganizationMember
  pub repositories : List Repository
  pub repository_collaborators : List RepositoryCollaborator
  pub repository_default_branches : List RepositoryDefaultBranch
  pub repository_counters : List RepositoryCounter
  pub issues : List Issue
  pub issue_comments : List IssueComment
  pub repository_events : List RepositoryEvent
  pub watches : List Watch
  pub repository_profiles : List RepositoryProfile
  pub default_branch_intents : List DefaultBranchIntent
  pub git_intents : List GitIntent
  pub git_operation_events : List GitOperationEvent
  pub merge_intents : List MergeIntent
  pub pull_requests : List PullRequest
  pub pull_request_revisions : List PullRequestRevision
  pub pull_request_reviews : List PullRequestReview
  pub pull_request_ref_intents : List PullRequestRefIntent

-- The database that the migrations leave.
abbrev pub empty : Database
empty = record {
  accounts = [];
  ssh_public_keys = [];
  recovery_credentials = [];
  signup_invitations = [];
  login_nonces = [];
  ssh_login_approvals = [];
  web_sessions = [];
  feed_tokens = [];
  audit_events = [];
  namespaces = [];
  organizations = [];
  organization_members = [];
  repositories = [];
  repository_collaborators = [];
  repository_default_branches = [];
  repository_counters = [];
  issues = [];
  issue_comments = [];
  repository_events = [];
  watches = [];
  repository_profiles = [];
  default_branch_intents = [];
  git_intents = [];
  git_operation_events = [];
  merge_intents = [];
  pull_requests = [];
  pull_request_revisions = [];
  pull_request_reviews = [];
  pull_request_ref_intents = [];
}

abbrev pub is_active : AccountState → Bool
is_active AccountState.active = true
is_active suspended = false

abbrev pub is_login : Purpose → Bool
is_login login = true
is_login account_key = false
