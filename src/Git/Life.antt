-- ===== src/Git/Life.antt =====
-- The life of the intent of a Git operation: the state machine that the calls implement.
use tit.Prelude.{
  String, ◌≡◌, ◌⊎◌, refl, sym, ap, ◌∙◌, subst, Bool, true, none, some, List, [], ◌∷◌, str_eq,
  eq_iff, if◌then◌else◌, Bool-cases, inl, inr, if_true, if_false, arith,
}
use tit.Prelude.Tables.{find, update_where}
use tit.Prelude.Rows.{find-update_if}
use tit.Store.Error.{Result, ok, err, Ensures}
use tit.Store.Schema.{Database, GitIntent, IntentState, pending, promoted, completed, abandoned}
use tit.Store.GitIntents.{
  intent_with, pending_with, promoted_with, incomplete_with, is_pending, is_promoted, is_incomplete,
}
use tit.Identity.Reach.{after}
use tit.Git.Calls.{Call, exec, run}
use tit.Git.IntentEffects.{
  IntentEffect, kept, begun, objects_promoted, given_up, recorded, exec-IntentEffect,
}

-- The machine: an intent is pending, then promoted, then completed; it is abandoned before that.
pub data Step : IntentState → IntentState → Type 0 where
  promoting : Step pending promoted
  completing : Step promoted completed
  abandoning_pending : Step pending abandoned
  abandoning_promoted : Step promoted abandoned

pub data Reaches (s : IntentState) : IntentState → Type 0 where
  here : Reaches s s
  next : {t u : IntentState} → Reaches s t → Step t u → Reaches s u

Reaches-trans : {s t u : IntentState} → Reaches s t → Reaches t u → Reaches s u
Reaches-trans r here = r
Reaches-trans r (next q x) = next (Reaches-trans r q) x

-- What an intent was begun with.
abbrev SameWork : GitIntent → GitIntent → Type 0
SameWork i j =
    (j.id ≡ i.id)
    × (j.repository_path ≡ i.repository_path)
    × (j.actor ≡ i.actor)
    × (j.initial_refs ≡ i.initial_refs)
    × (j.proposed_refs ≡ i.proposed_refs)
    × (j.event_payload ≡ i.event_payload)

-- The intent `i` lives on as `j`.
pub record Follows (i j : GitIntent) : Type 0 where
  pub reaches : Reaches i.state j.state
  pub same : SameWork i j

Follows-refl : (i : GitIntent) → Follows i i
Follows-refl i = record { reaches = here; same = (refl, refl, refl, refl, refl, refl) }

Follows-trans : {i j k : GitIntent} → Follows i j → Follows j k → Follows i k
Follows-trans f g = record {
  reaches = Reaches-trans f.reaches g.reaches;
  same =
      let (a, b, c, d, e, h) = f.same in
      let (a₂, b₂, c₂, d₂, e₂, h₂) = g.same in (a₂ ∙ a, b₂ ∙ b, c₂ ∙ c, d₂ ∙ d, e₂ ∙ e, h₂ ∙ h);
}

-- What one call makes of the intent `i`: its state stays or takes one step of the machine.
pub record Moves (i j : GitIntent) : Type 0 where
  pub moved : (j.state ≡ i.state) ⊎ Step i.state j.state
  pub same : SameWork i j

Moves-refl : (i : GitIntent) → Moves i i
Moves-refl i = record { moved = inl refl; same = (refl, refl, refl, refl, refl, refl) }

Moves-Follows : {i j : GitIntent} → Moves i j → Follows i j
Moves-Follows {i} m = record {
  reaches = elim m.moved [
    | inl e ↦ subst (λ s. Reaches i.state s) (sym e) here
    | inr x ↦ next here x
  ];
  same = m.same;
}

-- A statement that changes the state of the rows it is about by a step, and nothing of their work.
update-Moves :
    (p : GitIntent → Bool) (f : GitIntent → GitIntent) (id : String) (is : List GitIntent)
    {i : GitIntent}
    → ((j : GitIntent) → SameWork j (f j))
    → ((j : GitIntent) → p j ≡ true → Step j.state (f j).state)
    → find (intent_with id) is ≡ some i
    → (j : GitIntent) × (find (intent_with id) (update_where p f is) ≡ some j) × Moves i j
update-Moves p f id is {i} same moves found = elim (Bool-cases (p i)) [
  | inl e ↦ (
    f i,
    subst (λ x. find (intent_with id) (update_where p f is) ≡ some x) (if_true (f i) i e) there,
    record { moved = inr (moves i e); same = same i },
  )
  | inr e ↦ (
    i,
    subst (λ x. find (intent_with id) (update_where p f is) ≡ some x) (if_false (f i) i e) there,
    Moves-refl i,
  )
]
  where
    there : find (intent_with id) (update_where p f is) ≡ some (if p i then f i else i)
    there = find-update_if (intent_with id) p f is (λ j. ap (λ x. str_eq x id) (same j).0) found

-- The states that the tests of the statements ask for.
pending-Step : (s : IntentState) → is_pending s ≡ true → Step s promoted
pending-Step pending h = promoting
pending-Step promoted h = cc
pending-Step completed h = cc
pending-Step abandoned h = cc

promoted-Step : (s : IntentState) → is_promoted s ≡ true → Step s completed
promoted-Step pending h = cc
promoted-Step promoted h = completing
promoted-Step completed h = cc
promoted-Step abandoned h = cc

incomplete-Step : (s : IntentState) → is_incomplete s ≡ true → Step s abandoned
incomplete-Step pending h = abandoning_pending
incomplete-Step promoted h = abandoning_promoted
incomplete-Step completed h = cc
incomplete-Step abandoned h = cc

-- A new row with a free id is not the row that was found.
find-new :
    (n : GitIntent) (id : String) (is : List GitIntent) {i : GitIntent}
    → find (intent_with n.id) is ≡ none
    → find (intent_with id) is ≡ some i
    → find (intent_with id) (n ∷ is) ≡ some i
unfolding find
find-new n id is {i} free found = elim (Bool-cases (str_eq n.id id)) [
  | inl e ↦
      absurd (cc (subst (λ x. find (intent_with x) is ≡ none) ((eq_iff n.id id).0 e) free, found))
  | inr e ↦ rw e found
]

-- Where an intent is found before a call, it is found after it, after one move at most.
Lives : Database → Database → Type 0
Lives db db' =
    (id : String) (i : GitIntent)
    → find (intent_with id) db.git_intents ≡ some i
    → (j : GitIntent) × (find (intent_with id) db'.git_intents ≡ some j) × Moves i j

effect-Lives : (db db' : Database) → IntentEffect db db' → Lives db db'
unfolding Lives
effect-Lives db db' (kept t _) id i found = rw t (i, found, Moves-refl i)
effect-Lives db db' (begun n free _ t _) id i found =
    rw t (i, find-new n id db.git_intents free found, Moves-refl i)
effect-Lives db db' (objects_promoted x pack t _) id i found = rw t (
    update-Moves (pending_with x) _ id db.git_intents (λ j. (refl, refl, refl, refl, refl, refl))
      (λ j h. pending-Step j.state (ground (arith, h))) found)
effect-Lives db db' (given_up x t _) id i found = rw t (
    update-Moves (incomplete_with x) _ id db.git_intents (λ j. (refl, refl, refl, refl, refl, refl))
      (λ j h. incomplete-Step j.state (ground (arith, h))) found)
effect-Lives db db' (recorded x _ _ t _) id i found = rw t (
    update-Moves (promoted_with x) _ id db.git_intents (λ j. (refl, refl, refl, refl, refl, refl))
      (λ j h. promoted-Step j.state (ground (arith, h))) found)

after-Lives :
    (db : Database) (m : Result Database) → Ensures (IntentEffect db) m → Lives db (after db m)
unfolding Lives
after-Lives db (ok x) h id i found = effect-Lives db x (h.at x refl) id i found
after-Lives db (err e) h id i found = (i, found, Moves-refl i)

-- The intent `id` through a sequence of calls: it is found before each call and at the end, and each
-- call, a failed one included, moves it once at most.
unfoldable pub Lifeline : String → Database → List Call → GitIntent → Type 0
Lifeline id db [] i = find (intent_with id) db.git_intents ≡ some i
Lifeline id db (c ∷ cs) i =
    (find (intent_with id) db.git_intents ≡ some i)
    × (j : GitIntent) × Moves i j
    × Lifeline id (after db (exec c db)) cs j

-- An intent that is stored stays stored, with the same work, through every sequence of the calls on
-- Git intents and pull requests, failed ones included. Each single call leaves its state or moves it
-- by one of these steps: pending to promoted, promoted to completed, pending or promoted to abandoned.
pub run-Lifeline :
    (calls : List Call) (db : Database) (id : String) (i : GitIntent)
    → find (intent_with id) db.git_intents ≡ some i
    → Lifeline id db calls i
unfolding Lifeline Lives
run-Lifeline [] db id i found = found
run-Lifeline (c ∷ cs) db id i found =
    let (j, there, m) = after-Lives db (exec c db) (exec-IntentEffect c db) id i found in
    (found, j, m, run-Lifeline cs (after db (exec c db)) id j there)

-- At the end of its life the intent is found, some steps further.
pub run-Follows :
    (calls : List Call) (db : Database) (id : String) (i : GitIntent)
    → Lifeline id db calls i
    → (j : GitIntent) × (find (intent_with id) (run db calls).git_intents ≡ some j) × Follows i j
unfolding run Lifeline
run-Follows [] db id i found = (i, found, Follows-refl i)
run-Follows (c ∷ cs) db id i (found, j, m, life) =
    let (k, at_end, g) = run-Follows cs (after db (exec c db)) id j life in
    (k, at_end, Follows-trans (Moves-Follows m) g)
