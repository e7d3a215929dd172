-- ===== src/Store/Schema/Changes.antt =====
-- The rows of the Git intents and of the pull requests.
use tit.Prelude.{String, ℕ, Option, List}
use tit.Store.Schema.Events.{Bytes}

pub data IntentState : Type 0 where
  pending promoted completed abandoned : IntentState

-- `repository_path` is the list of the components of the path, each as bytes.
pub record GitIntent : Type 0 where
  pub id : String
  pub repository_path : List Bytes
  pub actor : String
  pub initial_refs : Bytes
  pub proposed_refs : Bytes
  pub event_payload : Bytes
  pub quarantine_path : List Bytes
  pub state : IntentState
  pub pack_name : Option String
  pub created_at : ℕ

pub record GitOperationEvent : Type 0 where
  pub intent_id : String
  pub payload : Bytes

pub record MergeIntent : Type 0 where
  pub intent_id : String
  pub repository_id : String
  pub pull_request_id : String
  pub revision_id : String
  pub revision_number : ℕ
  pub method : String
  pub base_ref : Bytes
  pub old_target : Bytes
  pub new_target : Bytes
  pub created_at : ℕ

-- `state` is open, closed or merged.
pub record PullRequest : Type 0 where
  pub id : String
  pub repository_id : String
  pub number : ℕ
  pub title : String
  pub body : String
  pub state : String
  pub author_account_id : ℕ
  pub base_ref : Bytes
  pub head_ref : Bytes
  pub base_object_id : Bytes
  pub head_object_id : Bytes
  pub created_at : ℕ
  pub updated_at : ℕ

pub record PullRequestRevision : Type 0 where
  pub id : String
  pub pull_request_id : String
  pub number : ℕ
  pub author_account_id : ℕ
  pub base_object_id : Bytes
  pub head_object_id : Bytes
  pub created_at : ℕ

pub record PullRequestReview : Type 0 where
  pub id : String
  pub pull_request_id : String
  pub revision_id : String
  pub author_account_id : ℕ
  pub kind : String
  pub body : String
  pub commit_object_id : Option Bytes
  pub path : Option Bytes
  pub side : Option String
  pub line : Option ℕ
  pub created_at : ℕ

-- `operation` is open or revise, and `state` is pending, completed or abandoned.
pub record PullRequestRefIntent : Type 0 where
  pub id : String
  pub repository_id : String
  pub pull_request_id : String
  pub pull_request_number : ℕ
  pub revision_number : ℕ
  pub operation : String
  pub title : String
  pub body : String
  pub author_account_id : ℕ
  pub actor : String
  pub base_ref : Bytes
  pub head_ref : Bytes
  pub base_object_id : Bytes
  pub old_head_object_id : Option Bytes
  pub head_object_id : Bytes
  pub state : String
  pub created_at : ℕ
