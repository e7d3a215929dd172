-- ===== src/Git/Finish.antt =====
-- The end of an intent: completing and abandoning make it final, and a final one is refused.
use tit.Prelude.{
  String, ℕ, ◌≤◌, ◌≡◌, refl, sym, ◌∙◌, subst, ap, Bool, true, false, Option, none, some, List,
  Option-cases, inl, inr, arith, if_true,
}
use tit.Prelude.Tables.{find, count_where, update_where, find-holds, count-of-find-none}
use tit.Prelude.Rows.{find-update_if, find_only}
use tit.Store.Error.{err, sqlite, intent_state, ◌>>◌, Ensures, Ensures-bind, Ensures-ok_or}
use tit.Store.Schema.{Database, GitIntent, IntentState, completed, abandoned}
use tit.Store.GitIntents.{
  intent_with, pending_with, promoted_with, incomplete_with, is_incomplete, move_intent,
  mark_git_objects_promoted, abandon_git_intent,
}
use tit.Store.Merges.{complete_git_intent}
use tit.Git.Frame.{insert_push_events-Keeps}
use tit.Git.IntentEffects.{
  complete_pull_request_merge-intents, move_intent-tables, insert_operation_event-tables,
}
use tit.Git.Life.{
  Reaches, here, next, Step, promoting, completing, abandoning_pending, abandoning_promoted,
}
use tit.Git.Outbox.{IsRecorded}

-- The intent with the id is stored, and it is completed or abandoned.
abbrev pub IsFinished : String → Database → Type 0
IsFinished id db =
    (j : GitIntent) × (find (intent_with id) db.git_intents ≡ some j)
    × (is_incomplete j.state ≡ false)

-- The row that a statement of one intent is about, where its table has one row for it.
move-IsFinished :
    (id : String) (p : GitIntent → Bool) (s : IntentState) (is : List GitIntent)
    → is_incomplete s ≡ false
    → ((i : GitIntent) → p i ≡ true → intent_with id i ≡ true)
    → count_where (intent_with id) is ≤ 1
    → count_where p is ≡ 1
    → (j : GitIntent) × (find (intent_with id) (update_where p (λ i. record i { state = s }) is)
        ≡ some j)
      × (is_incomplete j.state ≡ false)
move-IsFinished id p s is final about one hit = elim (Option-cases (find p is)) [
  | inl e ↦ absurd (omega (arith, hit, count-of-find-none p is e))
  | inr (i, e) ↦ (
    record i { state = s },
    find-update_if (intent_with id) p (λ i. record i { state = s }) is (λ j. refl)
          (find_only p (intent_with id) is one e (about i (find-holds p is e)))
        ∙ ap some (if_true _ i (find-holds p is e)),
    final,
  )
]

-- An intent that is abandoned without an error is finished.
pub abandon_git_intent-IsFinished :
    (id : String) (db : Database)
    → IsRecorded db
    → Ensures (IsFinished id) (abandon_git_intent id db)
unfolding abandon_git_intent
abandon_git_intent-IsFinished id db inv = record {
  at = λ x e.
      let (one, t, _) = (move_intent-tables id _ _ _).at x e in
      rw t (
        move-IsFinished id (incomplete_with id) abandoned db.git_intents refl
          (λ i h. ground (arith, h)) (inv.unique id) one);
}

-- An intent that is completed without an error is finished.
pub complete_git_intent-IsFinished :
    (draw : ℕ → String) (e id : String) (db : Database)
    → IsRecorded db
    → Ensures (IsFinished id) (complete_git_intent draw e id db)
unfolding complete_git_intent
complete_git_intent-IsFinished draw e id db inv = Ensures-ok_or _ _ _ λ i _.
    Ensures-bind _ _ λ db₁ e₁. Ensures-bind _ _ λ db₂ e₂. Ensures-bind _ _ λ db₃ e₃. record {
      at = λ db₄ e₄.
          let (one, t₁, _) = (move_intent-tables id _ _ db).at db₁ e₁ in
          let (t₂, _) = (insert_operation_event-tables id _ db₁).at db₂ e₂ in
          let k = (insert_push_events-Keeps _ _ _ _ _ _ _ db₂).at db₃ e₃ in
          let s = (complete_pull_request_merge-intents _ _ _ _ db₃).at db₄ e₄ in
          rw (s.0 ∙ k.intents ∙ t₂ ∙ t₁) (
            move-IsFinished id (promoted_with id) completed db.git_intents refl
              (λ i h. ground (arith, h)) (inv.unique id) one);
    }

Step-incomplete : {s t : IntentState} → Step s t → is_incomplete s ≡ true
Step-incomplete promoting = refl
Step-incomplete completing = refl
Step-incomplete abandoning_pending = refl
Step-incomplete abandoning_promoted = refl

-- From a final state no other is reached.
pub Reaches-final :
    {s t : IntentState} → Reaches s t → is_incomplete s ≡ false → is_incomplete t ≡ false
Reaches-final here h = h
Reaches-final (next r x) h = absurd (cc (Step-incomplete x, Reaches-final r h))

-- No statement of the three is about the row of a finished intent.
none-finished :
    (id : String) (is : List GitIntent) (p : GitIntent → Bool) {j : GitIntent}
    → count_where (intent_with id) is ≤ 1
    → ((i : GitIntent) → p i ≡ true → incomplete_with id i ≡ true)
    → find (intent_with id) is ≡ some j
    → is_incomplete j.state ≡ false
    → find p is ≡ none
none-finished id is p {j} one about found final = elim (Option-cases (find p is)) [
  | inl e ↦ e
  | inr (i, e) ↦ absurd (ground (arith, about i, find-holds p is e, final, at_row i e))
]
  where
    at_row : (i : GitIntent) → find p is ≡ some i → is_incomplete j.state ≡ true
    at_row i e =
        let hit = about i (find-holds p is e) in
        let there = find_only p (intent_with id) is one e (split_hit i hit).0 in
        subst
          (λ (x : Option GitIntent). elim x [ none ↦ true | some y ↦ is_incomplete y.state ] ≡ true)
          (sym there ∙ found) (split_hit i hit).1
      where
        split_hit :
            (i : GitIntent)
            → incomplete_with id i ≡ true
            → (intent_with id i ≡ true) × (is_incomplete i.state ≡ true)
        split_hit i h = ground (arith, h)

-- Where each stored intent has one row, and its one event where it is completed and none where it is
-- not: an intent that is completed or abandoned can be neither
-- promoted nor abandoned nor completed. The first two are refused by the intent's state, and the
-- last by the query, which finds no promoted intent.
pub finished-refused :
    (db : Database) (id : String) (j : GitIntent) (pack : Option String) (draw : ℕ → String)
    (e : String)
    → IsRecorded db
    → find (intent_with id) db.git_intents ≡ some j
    → is_incomplete j.state ≡ false
    → (mark_git_objects_promoted id pack db ≡ err (intent_state id))
      × (abandon_git_intent id db ≡ err (intent_state id))
      × (complete_git_intent draw e id db ≡ err sqlite)
unfolding mark_git_objects_promoted abandon_git_intent complete_git_intent move_intent ◌>>◌
finished-refused db id j pack draw e inv found final =
    let is = db.git_intents in
    let at_pending =
      none-finished id is (pending_with id) (inv.unique id) (λ i h. ground (arith, h)) found
        final in
    let at_any = none-finished id is (incomplete_with id) (inv.unique id) (λ i h. h) found final in
    let at_promoted =
      none-finished id is (promoted_with id) (inv.unique id) (λ i h. ground (arith, h)) found
        final in
    (
      rw (count-of-find-none (pending_with id) is at_pending) refl,
      rw (count-of-find-none (incomplete_with id) is at_any) refl,
      rw at_promoted refl,
    )
