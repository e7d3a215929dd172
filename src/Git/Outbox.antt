-- ===== src/Git/Outbox.antt =====
-- The events of completed Git operations: one for each intent that is completed, and no other.
use tit.Prelude.{
  String, ◌+◌, ◌≤◌, ◌≡◌, refl, subst, Bool, true, false, ◌&&◌, List, [], ◌∷◌, str_eq, eq_iff,
  if◌then◌else◌, Bool-cases, inl, inr, arith,
}
use tit.Prelude.Tables.{count_where, update_where, count-update_same, count-of-find-none}
use tit.Prelude.Rows.{count-update_gain}
use tit.Store.Schema.{
  Database, GitIntent, GitOperationEvent, IntentState, pending, promoted, completed, abandoned,
}
use tit.Store.GitIntents.{
  intent_with, pending_with, promoted_with, incomplete_with, is_completed, is_incomplete,
}
use tit.Identity.Reach.{after, after-Ensures}
use tit.Git.Calls.{Call, exec, run}
use tit.Git.IntentEffects.{
  IntentEffect, kept, begun, objects_promoted, given_up, recorded, exec-IntentEffect,
}

abbrev pub completed_with : String → GitIntent → Bool
completed_with id i = intent_with id i && is_completed i.state

abbrev pub event_of : String → GitOperationEvent → Bool
event_of id e = str_eq e.intent_id id

-- An intent has as many events as it has completed rows, and it has one row at most.
pub record IsRecorded (db : Database) : Type 0 where
  pub recorded_once :
      (id : String)
      → count_where (event_of id) db.git_operation_events
        ≡ count_where (completed_with id) db.git_intents
  pub unique : (id : String) → count_where (intent_with id) db.git_intents ≤ 1

-- Changes of rows whose state before and after is not completed.
quiet-count :
    (p : GitIntent → Bool) (f : GitIntent → GitIntent) (id : String) (is : List GitIntent)
    → ((i : GitIntent) → (f i).id ≡ i.id)
    → ((i : GitIntent) → p i ≡ true → is_completed i.state ≡ false)
    → ((i : GitIntent) → is_completed (f i).state ≡ false)
    → count_where (completed_with id) (update_where p f is) ≡ count_where (completed_with id) is
quiet-count p f id is same before later =
    count-update_same (completed_with id) p f is λ i h. rw (same i, before i h, later i) refl

same-count :
    (p : GitIntent → Bool) (f : GitIntent → GitIntent) (id : String) (is : List GitIntent)
    → ((i : GitIntent) → (f i).id ≡ i.id)
    → count_where (intent_with id) (update_where p f is) ≡ count_where (intent_with id) is
same-count p f id is same = count-update_same (intent_with id) p f is λ i _. rw (same i) refl

incomplete-not-completed : (s : IntentState) → is_incomplete s ≡ true → is_completed s ≡ false
incomplete-not-completed pending h = refl
incomplete-not-completed promoted h = refl
incomplete-not-completed completed h = cc
incomplete-not-completed abandoned h = refl

-- The statement that completes an intent.
complete-count :
    (x id : String) (is : List GitIntent)
    → count_where (promoted_with x) is ≡ 1
    → count_where
        (completed_with id)
        (update_where (promoted_with x) (λ i. record i { state = completed }) is)
      ≡ (if str_eq x id then 1 else 0) + count_where (completed_with id) is
complete-count x id is one = elim (Bool-cases (str_eq x id)) [
  | inr e ↦ rw e (
      omega (
        arith,
        count-update_same (completed_with id) (promoted_with x)
            (λ i. record i { state = completed }) is (other e),
      ))
  | inl e ↦ rw e (
      omega (
        arith,
        one,
        count-update_gain (completed_with id) (promoted_with x)
            (λ i. record i { state = completed }) is (hit e),
      ))
]
  where
    other :
        str_eq x id ≡ false
        → (i : GitIntent) → promoted_with x i ≡ true
        → completed_with id (record i { state = completed }) ≡ completed_with id i
    other e i h = ground (arith, eq_iff i.id x, eq_iff x id, eq_iff i.id id)

    hit :
        str_eq x id ≡ true
        → (i : GitIntent) → promoted_with x i ≡ true
        → (completed_with id i ≡ false)
          × (completed_with id (record i { state = completed }) ≡ true)
    hit e i h =
        ground (arith, incomplete-not-completed i.state, eq_iff i.id x, eq_iff x id, eq_iff i.id id)

effect-IsRecorded : (db db' : Database) → IsRecorded db → IntentEffect db db' → IsRecorded db'
unfolding count_where
effect-IsRecorded db db' inv (kept t v) = record {
  recorded_once = λ id. rw (t, v) (inv.recorded_once id);
  unique = λ id. rw t (inv.unique id);
}
effect-IsRecorded db db' inv (begun n free is t v) = record {
  recorded_once = λ id. rw (t, v, is) (ground (arith, inv.recorded_once id));
  unique = λ id. rw t (elim (Bool-cases (str_eq n.id id)) [
    | inr e ↦ rw e (omega (arith, inv.unique id))
    | inl e ↦ rw e (
        omega (
          arith,
          subst (λ y. count_where (intent_with y) db.git_intents ≡ 0) ((eq_iff n.id id).0 e)
              (count-of-find-none (intent_with n.id) db.git_intents free),
        ))
  ]);
}
effect-IsRecorded db db' inv (objects_promoted x pack t v) = record {
  recorded_once = λ id.
      rw
        (
          t,
          v,
          quiet-count (pending_with x) (λ i. record i { state = promoted; pack_name = pack }) id
              db.git_intents (λ i. refl)
              (λ i h. incomplete-not-completed i.state (ground (arith, h))) (λ i. refl),
        )
        (inv.recorded_once id);
  unique = λ id.
      rw
        (
          t,
          same-count (pending_with x) (λ i. record i { state = promoted; pack_name = pack }) id
              db.git_intents (λ i. refl),
        )
        (inv.unique id);
}
effect-IsRecorded db db' inv (given_up x t v) = record {
  recorded_once = λ id.
      rw
        (
          t,
          v,
          quiet-count (incomplete_with x) (λ i. record i { state = abandoned }) id db.git_intents
              (λ i. refl) (λ i h. incomplete-not-completed i.state (ground (arith, h))) (λ i. refl),
        )
        (inv.recorded_once id);
  unique = λ id.
      rw
        (
          t,
          same-count (incomplete_with x) (λ i. record i { state = abandoned }) id db.git_intents
              (λ i. refl),
        )
        (inv.unique id);
}
effect-IsRecorded db db' inv (recorded x payload one t v) = record {
  recorded_once =
      λ id. rw (t, v, complete-count x id db.git_intents one) (omega (arith, inv.recorded_once id));
  unique = λ id.
      rw
        (
          t,
          same-count (promoted_with x) (λ i. record i { state = completed }) id db.git_intents
              (λ i. refl),
        )
        (inv.unique id);
}

-- Where each stored intent has one row, and one event if it is completed and none if it is not, this
-- holds after every sequence of the calls on Git intents and pull requests, failed ones included.
pub run-IsRecorded : (calls : List Call) (db : Database) → IsRecorded db → IsRecorded (run db calls)
unfolding run
run-IsRecorded [] db inv = inv
run-IsRecorded (c ∷ cs) db inv = run-IsRecorded cs (after db (exec c db)) (
    after-Ensures IsRecorded db (exec c db) inv
      (record { at = λ x e. effect-IsRecorded db x inv ((exec-IntentEffect c db).at x e) }))
