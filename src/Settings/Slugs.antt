-- ===== src/Settings/Slugs.antt =====
-- Repositories through the calls: no two of an owner have one slug.
use tit.Prelude.{
  String, ℕ, ◌≤◌, ◌≡◌, refl, Bool, true, false, ◌&&◌, not, none, List, [], ◌∷◌, str_eq, eq_iff,
  ◌==◌, Bool-cases, inl, inr, arith,
}
use tit.Prelude.Tables.{
  find, count_where, update_where, count-update_same, count-of-find-none, find-none_mono,
  count_mono,
}
use tit.Prelude.Rows.{count-update-bound, count-update-no_gain}
use tit.Store.Schema.{Database, Repository}
use tit.Store.Settings.{owned_as, owned_in, renamed_onto, with_repository_id}
use tit.Identity.Reach.{after, after-Ensures}
use tit.Settings.Calls.{Call, exec, run}
use tit.Settings.Effects.{
  RepositoryEffect, kept, added, renamed, active_changed, one_changed, unarchived, SameName,
  is_unarchive, exec-RepositoryEffect,
}

-- No two repositories have one id, and no two of an owner have one slug.
pub record IsDistinct (db : Database) : Type 0 where
  pub ids : (id : String) → count_where (with_repository_id id) db.repositories ≤ 1
  pub slugs : (o : ℕ) (s : String) → count_where (owned_as o s) db.repositories ≤ 1

same-ids :
    (p : Repository → Bool) (f : Repository → Repository) (rs : List Repository)
    → ((r : Repository) → (f r).id ≡ r.id)
    → (id : String)
    → count_where (with_repository_id id) (update_where p f rs)
      ≡ count_where (with_repository_id id) rs
same-ids p f rs same id = count-update_same (with_repository_id id) p f rs λ r _. rw (same r) refl

same-slugs :
    (p : Repository → Bool) (f : Repository → Repository) (rs : List Repository)
    → ((r : Repository) → SameName r (f r))
    → (o : ℕ) (s : String)
    → count_where (owned_as o s) (update_where p f rs) ≡ count_where (owned_as o s) rs
same-slugs p f rs same o s =
    count-update_same (owned_as o s) p f rs λ r _. rw ((same r).1, (same r).2) refl

keeps-IsDistinct :
    (db db' : Database) (p : Repository → Bool) (f : Repository → Repository)
    → IsDistinct db
    → ((r : Repository) → SameName r (f r))
    → db'.repositories ≡ update_where p f db.repositories
    → IsDistinct db'
keeps-IsDistinct db db' p f inv same e = record {
  ids = λ id. rw (e, same-ids p f db.repositories (λ r. (same r).0) id) (inv.ids id);
  slugs = λ o s. rw (e, same-slugs p f db.repositories same o s) (inv.slugs o s);
}

-- A new row that collides with none.
add-count :
    (u v : Repository → Bool) (new : Repository) (rs : List Repository)
    → (u new ≡ true → (r : Repository) → u r ≡ true → v r ≡ true)
    → find v rs ≡ none
    → count_where u rs ≤ 1
    → count_where u (new ∷ rs) ≤ 1
unfolding count_where
add-count u v new rs hits free one = elim (Bool-cases (u new)) [
  | inr e ↦ rw e (omega (arith, one))
  | inl e ↦ rw e (omega (arith, count-of-find-none u rs (find-none_mono u v rs (hits e) free)))
]

-- The rename: the new name has the renamed rows, which are one at most, and no other.
rename-count :
    (o : ℕ) (old new : String) (rs : List Repository) (p : ℕ) (s : String)
    → ((o' : ℕ) (s' : String) → count_where (owned_as o' s') rs ≤ 1)
    → find (renamed_onto o old new) rs ≡ none
    → count_where
        (owned_as p s)
        (update_where (owned_in o old "active") (λ r. record r { slug = new }) rs)
      ≤ 1
rename-count o old new rs p s one free = elim (Bool-cases ((p == o) && str_eq new s)) [
  | inl e ↦
      let left =
        count-of-find-none (λ r. owned_as p s r && not (owned_in o old "active" r)) rs
          (find-none_mono _ (renamed_onto o old new) rs (onto e) free) in
      omega (
        arith,
        left,
        one o old,
        count_mono (owned_in o old "active") (owned_as o old) rs (λ r h. ground (arith, h)),
        count-update-bound (owned_as p s) (owned_in o old "active") (λ r. record r { slug = new })
            rs,
      )
  | inr e ↦ omega (arith, one p s, other e)
]
  where
    onto :
        ((p == o) && str_eq new s) ≡ true
        → (r : Repository) → (owned_as p s r && not (owned_in o old "active" r)) ≡ true
        → renamed_onto o old new r ≡ true
    onto e r h = ground (arith, e, h, eq_iff new s, eq_iff r.slug s, eq_iff r.slug new)

    other :
        ((p == o) && str_eq new s) ≡ false
        → count_where
            (owned_as p s)
            (update_where (owned_in o old "active") (λ r. record r { slug = new }) rs)
          ≤ count_where (owned_as p s) rs
    other e =
        count-update-no_gain (owned_as p s) (owned_in o old "active") (λ r. record r { slug = new })
          rs (λ r h k. ground (arith, e, h, k))

effect-IsDistinct :
    (b : Bool) (db db' : Database) → IsDistinct db → RepositoryEffect b db db' → IsDistinct db'
effect-IsDistinct b db db' inv (kept e) = record {
  ids = λ id. rw e (inv.ids id);
  slugs = λ o s. rw e (inv.slugs o s);
}
effect-IsDistinct b db db' inv (added r free own e) = record {
  ids = λ id. rw e (
      add-count (with_repository_id id) (with_repository_id r.id) r db.repositories
        (λ h q k. ground (arith, eq_iff r.id id, eq_iff q.id id, eq_iff q.id r.id)) free
        (inv.ids id));
  slugs = λ o s. rw e (
      add-count (owned_as o s) (owned_as r.owner_namespace_id r.slug) r db.repositories
        (λ h q k. ground (arith, eq_iff r.slug s, eq_iff q.slug s, eq_iff q.slug r.slug)) own
        (inv.slugs o s));
}
effect-IsDistinct b db db' inv (renamed o old new free e) = record {
  ids = λ id.
      rw
        (
          e,
          same-ids (owned_in o old "active") (λ r. record r { slug = new }) db.repositories
              (λ r. refl) id,
        )
        (inv.ids id);
  slugs = λ p s. rw e (rename-count o old new db.repositories p s inv.slugs free);
}
effect-IsDistinct b db db' inv (active_changed o s f same e) =
    keeps-IsDistinct db db' _ f inv same e
effect-IsDistinct b db db' inv (one_changed s c f w a same e) =
    keeps-IsDistinct db db' _ f inv same e
effect-IsDistinct b db db' inv (unarchived h o s e) =
    keeps-IsDistinct db db' _ _ inv (λ r. (refl, refl, refl)) e

pub after-IsDistinct :
    (c : Call) (db : Database) → IsDistinct db → IsDistinct (after db (exec c db))
after-IsDistinct c db inv = after-Ensures IsDistinct db (exec c db) inv (record {
  at = λ x e. effect-IsDistinct (is_unarchive c) db x inv ((exec-RepositoryEffect c db).at x e);
})

-- Where no two repositories have one id, and no two of an owner have one slug, this holds after every
-- sequence of the calls that create repositories and change them, failed ones included.
pub run-IsDistinct : (calls : List Call) (db : Database) → IsDistinct db → IsDistinct (run db calls)
unfolding run
run-IsDistinct [] db inv = inv
run-IsDistinct (c ∷ cs) db inv =
    run-IsDistinct cs (after db (exec c db)) (after-IsDistinct c db inv)
