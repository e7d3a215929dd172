-- ===== src/ReceivePack/Recovery.antt =====
-- What a recovery of interrupted pushes does, and that it finishes every intent.
use mathlib.Core.Bool.{false≢true}
use tit.Prelude.{
  String, ℕ, ◌≡◌, refl, sym, ap, subst, Bool, true, false, ◌||◌, ◌&&◌, not, is_some, Option, none,
  some, List, [], ◌∷◌, any, str_eq, eq_iff, Bool-cases, ◌⊎◌, inl, inr, arith,
}
use tit.Prelude.Tables.{find}
use tit.Store.Error.{ok, err, Ensures}
use tit.Store.Error
use tit.Store.Schema.{Database, GitIntent, IntentState, pending, promoted, completed, abandoned}
use tit.Store.GitIntents.{
  intent_with, is_incomplete, insert_ordered, incomplete_rows, incomplete_git_intents,
  abandon_git_intent,
}
use tit.Store.Merges.{complete_git_intent}
use tit.Identity.Reach.{after}
use tit.Git.Calls
use tit.Git.Calls.{Call, exec, run}
use tit.Git.Outbox.{IsRecorded, run-IsRecorded}
use tit.Git.Life.{run-Lifeline, run-Follows}
use tit.Git.Finish.{
  IsFinished, abandon_git_intent-IsFinished, complete_git_intent-IsFinished, Reaches-final,
}
use tit.ReceivePack.Ends.{Ends, Ends-test, Ends-failed, Ends-bind}
use tit.ReceivePack.{
  ReceivePackError, Received, received, failed, ◌>>=◌, of_store, Gix, Host, Refs, Recovered,
  read_refs, remove_promoted_pack, continue_, settle, settled, recover_intent, recover_intents,
  recover_incomplete_pushes,
}

of_store-ok : (m : Error.Result Database) {db : Database} → of_store m ≡ received db → m ≡ ok db
of_store-ok (ok x) e = ap ok (received-injective e)
  where
    value : Received Database → Database
    value (received y) = y
    value (failed f) = x

    received-injective : {y : Database} → received x ≡ received y → x ≡ y
    received-injective e = ap value e
of_store-ok (err f) e = absurd cc

-- A finished intent stays finished.
run-IsFinished :
    (calls : List Call) (db : Database) (id : String)
    → IsFinished id db
    → IsFinished id (run db calls)
run-IsFinished calls db id (j, found, final) =
    let (k, there, f) = run-Follows calls db id j (run-Lifeline calls db id j found) in
    (k, there, Reaches-final f.reaches final)

after_call :
    (c : Call) (db : Database) {db' : Database}
    → exec c db ≡ ok db'
    → IsRecorded db
    → IsRecorded db'
unfolding run
after_call c db {db'} e inv =
    subst (λ m. IsRecorded (after db m)) e (run-IsRecorded (c ∷ []) db inv)

-- The list of incomplete intents has each of them.
any-insert_ordered :
    (p : GitIntent → Bool) (i : GitIntent) (is : List GitIntent)
    → any p (insert_ordered i is) ≡ (p i || any p is)
unfolding insert_ordered
any-insert_ordered p i [] = refl
any-insert_ordered p i (j ∷ js) = ground (arith, any-insert_ordered p i js)

incomplete-listed :
    (id : String) (is : List GitIntent) {i : GitIntent}
    → find (intent_with id) is ≡ some i
    → is_incomplete i.state ≡ true
    → any (intent_with id) (incomplete_rows is) ≡ true
unfolding find incomplete_rows
incomplete-listed id [] h e = cc
incomplete-listed id (x ∷ xs) {i} h e = ground (
  arith,
  any-insert_ordered (intent_with id) x (incomplete_rows xs),
  incomplete-listed id xs {i = i},
)

module _ {ObjectId : Type 0} (gix : Gix ObjectId) (host : Host ObjectId)
    (draw : String → ℕ → String) (draw_merge : String → String) where
  -- What `c` does to the intent `i` is what the refs of its repository call for: it is completed only
  -- if it is promoted and its refs are where the push wanted them; it is abandoned only if they are
  -- where they were, or it has one ref, which is not where the push wanted it.
  abbrev pub IsWarranted : GitIntent → Call → Type 0
  IsWarranted i c =
      (r : Refs) × (read_refs gix host i ≡ received r)
      × (((c ≡ Calls.complete (draw i.id) (draw_merge i.id) i.id)
            × (i.state ≡ promoted)
            × (r.at_initial ≡ false)
            × (r.at_proposed ≡ true))
          ⊎ ((c ≡ Calls.abandon i.id)
              × ((r.at_initial ≡ true) ⊎ ((r.at_proposed ≡ false) × (r.single ≡ true)))))

  -- The calls settle the intents one by one in their order, up to some intent.
  unfoldable pub Settles : List GitIntent → List Call → Type 0
  Settles is [] = Unit
  Settles [] (c ∷ cs) = ⊥
  Settles (i ∷ is) (c ∷ cs) = IsWarranted i c × Settles is cs

  -- The database is what a warranted call leaves, and the intent is finished in it.
  abbrev IsSettled : GitIntent → Database → Database → Type 0
  IsSettled i db db' =
      (c : Call) × IsWarranted i c × (exec c db ≡ ok db') × (IsRecorded db → IsFinished i.id db')

  abandon-Ends :
      (i : GitIntent) (db : Database)
      → IsWarranted i (Calls.abandon i.id)
      → Ends (IsSettled i db) (of_store (abandon_git_intent i.id db))
  unfolding exec
  abandon-Ends i db w = record {
    at = λ db' e.
        let e₂ = of_store-ok _ e in
        (Calls.abandon i.id, w, e₂, λ inv. (abandon_git_intent-IsFinished i.id db inv).at db' e₂);
  }

  withdraw-Ends :
      (i : GitIntent) (db : Database)
      → IsWarranted i (Calls.abandon i.id)
      → Ends (IsSettled i db) (
          remove_promoted_pack host i.repository_path i.pack_name >>= λ _.
          of_store (abandon_git_intent i.id db))
  withdraw-Ends i db w = Ends-bind _ _ λ _ _. abandon-Ends i db w

  complete-Ends :
      (i : GitIntent) (db : Database)
      → IsWarranted i (Calls.complete (draw i.id) (draw_merge i.id) i.id)
      → Ends (IsSettled i db) (of_store (complete_git_intent (draw i.id) (draw_merge i.id) i.id db))
  unfolding exec
  complete-Ends i db w = record {
    at = λ db' e.
        let e₂ = of_store-ok _ e in
        (
          Calls.complete (draw i.id) (draw_merge i.id) i.id,
          w,
          e₂,
          λ inv. (complete_git_intent-IsFinished _ _ i.id db inv).at db' e₂,
        );
  }

  settle-IsSettled :
      (i : GitIntent) (s : IntentState) (r : Refs) (db : Database)
      → read_refs gix host i ≡ received r
      → i.state ≡ s
      → Ends (IsSettled i db) (settle gix host draw draw_merge i s r db)
  unfolding settle
  settle-IsSettled i pending r db read at =
      Ends-test r.at_initial _ _ (λ back. abandon-Ends i db (r, read, inr (refl, inl back)))
        (λ _.
          Ends-test (not r.at_proposed && r.single) _ _
            (λ t.
              abandon-Ends i db (r, read, inr (refl, inr (ground (arith, t), ground (arith, t)))))
            (λ _. Ends-failed _))
  settle-IsSettled i promoted r db read at =
      Ends-test r.at_initial _ _ (λ back. withdraw-Ends i db (r, read, inr (refl, inl back)))
        (λ moved.
          Ends-test r.at_proposed _ _
            (λ there. complete-Ends i db (r, read, inl (refl, at, moved, there)))
            (λ away.
              Ends-test r.single _ _
                (λ one. withdraw-Ends i db (r, read, inr (refl, inr (away, one))))
                (λ _. Ends-failed _)))
  settle-IsSettled i completed r db read at = Ends-failed _
  settle-IsSettled i abandoned r db read at = Ends-failed _

  -- Nothing was changed and there is an error, or the intent was settled.
  StepOf : GitIntent → Database → Recovered → Type 0
  StepOf i db r = ((r.database ≡ db) × (is_some r.error ≡ true)) ⊎ IsSettled i db r.database

  settled-StepOf :
      (i : GitIntent) (db : Database) (m : Received Database)
      → Ends (IsSettled i db) m
      → StepOf i db (settled gix host draw draw_merge i db m)
  unfolding settled StepOf
  settled-StepOf i db (failed e) h = inl (refl, refl)
  settled-StepOf i db (received x) h = inr (h.at x refl)

  recover_intent-StepOf :
      (i : GitIntent) (db : Database) → StepOf i db (recover_intent gix host draw draw_merge i db)
  unfolding recover_intent
  recover_intent-StepOf i db =
      settled-StepOf i db _
        (Ends-bind (read_refs gix host i) _ (λ r read. settle-IsSettled i i.state r db read refl))

  -- The loop over a list of intents: a run of calls that settle them, all if there is no error.
  Loop : List GitIntent → Database → Recovered → Type 0
  Loop is db r =
      (calls : List Call) × Settles is calls
      × (r.database ≡ run db calls)
      × (r.error ≡ none
          → IsRecorded db
          → (id : String) → any (intent_with id) is ≡ true
          → IsFinished id (run db calls))

  next-Loop :
      (i : GitIntent) (is : List GitIntent) (db : Database) (first rest : Recovered)
      (e : Option ReceivePackError)
      → first.error ≡ e
      → StepOf i db first
      → Loop is first.database rest
      → Loop (i ∷ is) db (continue_ gix host draw draw_merge e first rest)
  unfolding StepOf Loop Settles run
  next-Loop i is db first rest (some x) at_error (inl (same, _)) loop =
      ([], tt, same, λ h. absurd (cc (h, at_error)))
  next-Loop i is db first rest (some x) at_error (inr (c, w, ex, _)) loop =
      (c ∷ [], (w, tt), rw ex refl, λ h. absurd (cc (h, at_error)))
  next-Loop i is db first rest none at_error (inl (_, failed_)) loop =
      absurd (false≢true (rw at_error at failed_))
  next-Loop i is db first rest none at_error (inr (c, w, ex, finishes))
        (calls, settles, same, each) =
      (
        c ∷ calls,
        (w, settles),
        rw ex same,
        λ ends inv id hit.
            subst (λ m. IsFinished id (run (after db m) calls)) (sym ex)
              (elim (Bool-cases (str_eq i.id id)) [
                | inl e ↦
                    run-IsFinished calls first.database id (
                      subst (λ x. IsFinished x first.database) ((eq_iff i.id id).0 e)
                        (finishes inv))
                | inr e ↦ each ends (after_call c db ex inv) id (ground (arith, e, hit))
              ]),
      )

  recover_intents-Loop :
      (is : List GitIntent) (db : Database)
      → Loop is db (recover_intents gix host draw draw_merge is db)
  unfolding recover_intents Loop Settles run
  recover_intents-Loop [] db = ([], tt, refl, λ _ _ _ h. absurd cc)
  recover_intents-Loop (i ∷ is) db =
      next-Loop i is db _ _ _ refl (recover_intent-StepOf i db)
        (recover_intents-Loop is (recover_intent gix host draw draw_merge i db).database)

  -- A recovery of interrupted pushes, whether it ends with an error or not, leaves the database that
  -- a sequence of calls on Git intents leaves, which takes the incomplete intents in their order up to
  -- one of them, with one call for each. It completes an intent only if it is promoted and its refs
  -- were read where the push wanted them; it abandons one only if they were read where they were
  -- before the push, or if its only ref was read elsewhere than where the push wanted it.
  pub recover_incomplete_pushes-run :
      (db : Database)
      → (calls : List Call) × Settles (incomplete_git_intents db) calls
        × ((recover_incomplete_pushes gix host draw draw_merge db).database ≡ run db calls)
  unfolding recover_incomplete_pushes Loop
  recover_incomplete_pushes-run db =
      let (calls, settles, same, _) = recover_intents-Loop (incomplete_git_intents db) db in
      (calls, settles, same)

  -- Where each stored intent has one row, and its one event where it is completed and none where it is
  -- not: after a recovery of interrupted pushes that ends without an
  -- error, every intent that was stored is stored still, and it is completed or abandoned.
  pub recover_incomplete_pushes-finishes :
      (db : Database)
      → IsRecorded db
      → (recover_incomplete_pushes gix host draw draw_merge db).error ≡ none
      → (id : String) (i : GitIntent) → find (intent_with id) db.git_intents ≡ some i
      → IsFinished id (recover_incomplete_pushes gix host draw draw_merge db).database
  unfolding recover_incomplete_pushes incomplete_git_intents Loop
  recover_incomplete_pushes-finishes db inv ends id i found =
      let (calls, _, same, each) = recover_intents-Loop (incomplete_rows db.git_intents) db in
      rw same (elim (Bool-cases (is_incomplete i.state)) [
        | inl e ↦ each ends inv id (incomplete-listed id db.git_intents found e)
        | inr e ↦ run-IsFinished calls db id (i, found, e)
      ])
