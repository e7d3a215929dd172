-- ===== src/Prelude/Tables.antt =====
-- A table of the database is the list of its rows, newest first; the statements that the store
-- issues are these functions on it. No statement of the store depends on the order of the rows,
-- unless it says ORDER BY.
use Prim.Native.Nat.{ℕ, suc, ◌+◌, ◌≤◌, ◌<◌, max}
use mathlib.Core.Path.{◌≡◌, refl, ap, subst}
use mathlib.Core.Bool.{Bool, true, false}
use mathlib.Core.List.{List, [], ◌∷◌}
use mathlib.Core.Option.{Option, none, some, some-injective}
use native.Mathlib.Omega.{arith}
use tit.Prelude.Tests.{if◌then◌else◌, Bool-cases, Option-cases, ◌==◌}
use mathlib.Core.Logic.{◌⊎◌, inl, inr}
use tit.Prelude.Lists.{All}

module _ {ℓ} {R : Type ℓ} where
  -- SELECT … WHERE p, of which the store reads one row.
  unfoldable pub find : (R → Bool) → List R → Option R
  find p [] = none
  find p (r ∷ rs) = if p r then some r else find p rs

  -- SELECT count(*) … WHERE p; also the number of rows that an UPDATE or DELETE changes.
  unfoldable pub count_where : (R → Bool) → List R → ℕ
  count_where p [] = 0
  count_where p (r ∷ rs) = (if p r then 1 else 0) + count_where p rs

  -- UPDATE … SET f WHERE p
  unfoldable pub update_where : (R → Bool) → (R → R) → List R → List R
  update_where p f [] = []
  update_where p f (r ∷ rs) = (if p r then f r else r) ∷ update_where p f rs

  -- DELETE … WHERE p
  unfoldable pub delete_where : (R → Bool) → List R → List R
  delete_where p [] = []
  delete_where p (r ∷ rs) = let rest = delete_where p rs in if p r then rest else r ∷ rest

  -- The rowid that an INSERT gives: one above the largest.
  unfoldable pub next_rowid : (R → ℕ) → List R → ℕ
  next_rowid id [] = 1
  next_rowid id (r ∷ rs) = max (suc (id r)) (next_rowid id rs)

module _ {ℓ} {R : Type ℓ} where
  -- What a row that was found satisfies.
  pub find-holds : (p : R → Bool) (rs : List R) {r : R} → find p rs ≡ some r → p r ≡ true
  unfolding find
  find-holds p [] h = ground arith
  find-holds p (x ∷ rs) {r} h = ground (arith, find-holds p rs {r = r})

  pub All-find {κ} :
      (P : R → Type κ) (p : R → Bool) (rs : List R) {r : R} → All P rs → find p rs ≡ some r → P r
  unfolding find
  All-find P p [] all h = cc
  All-find P p (x ∷ rs) {r} all h = elim (Bool-cases (p x)) [
    | inl e ↦ found (rw e at h)
    | inr e ↦ All-find P p rs all.1 (rw e at h)
  ]
    where
      found : some x ≡ some r → P r
      found e = subst P (some-injective x r e) all.0

  pub All-update {κ} :
      (P : R → Type κ) (p : R → Bool) (f : R → R) (rs : List R)
      → ((r : R) → p r ≡ true → P r → P (f r))
      → All P rs
      → All P (update_where p f rs)
  unfolding update_where
  All-update P p f [] keep all = tt
  All-update P p f (r ∷ rs) keep all = (head (Bool-cases (p r)), All-update P p f rs keep all.1)
    where
      head : (p r ≡ true) ⊎ (p r ≡ false) → P (if p r then f r else r)
      head (inl e) = rw e (keep r e all.0)
      head (inr e) = rw e all.0

  pub All-delete {κ} :
      (P : R → Type κ) (p : R → Bool) (rs : List R) → All P rs → All P (delete_where p rs)
  unfolding delete_where
  All-delete P p [] all = tt
  All-delete P p (r ∷ rs) all = elim (Bool-cases (p r)) [
    | inl e ↦ rw e (All-delete P p rs all.1)
    | inr e ↦ rw e (all.0, All-delete P p rs all.1)
  ]

  pub All-map {κ η} :
      (P : R → Type κ) (Q : R → Type η) (rs : List R) → ((r : R) → P r → Q r) → All P rs → All Q rs
  All-map P Q [] f all = tt
  All-map P Q (r ∷ rs) f all = (f r all.0, All-map P Q rs f all.1)

  -- No row satisfies `q` after an update that leaves none that does.
  pub find-update_none :
      (q p : R → Bool) (f : R → R) (rs : List R)
      → ((r : R) → q (if p r then f r else r) ≡ false)
      → find q (update_where p f rs) ≡ none
  unfolding find update_where
  find-update_none q p f [] h = refl
  find-update_none q p f (r ∷ rs) h = rw (h r) (find-update_none q p f rs h)

  pub count-update_none :
      (q p : R → Bool) (f : R → R) (rs : List R)
      → ((r : R) → q (if p r then f r else r) ≡ false)
      → count_where q (update_where p f rs) ≡ 0
  unfolding count_where update_where
  count-update_none q p f [] h = refl
  count-update_none q p f (r ∷ rs) h = rw (h r) (omega (arith, count-update_none q p f rs h))

  -- An update that keeps `q` of every row that it changes keeps the count.
  pub count-update_same :
      (q p : R → Bool) (f : R → R) (rs : List R)
      → ((r : R) → p r ≡ true → q (f r) ≡ q r)
      → count_where q (update_where p f rs) ≡ count_where q rs
  unfolding count_where update_where
  count-update_same q p f [] h = refl
  count-update_same q p f (r ∷ rs) h = ground (arith, h r, count-update_same q p f rs h)

  -- An update that takes `q` away from rows that have it lowers the count by their number.
  pub count-update_clear :
      (q p : R → Bool) (f : R → R) (rs : List R)
      → ((r : R) → p r ≡ true → (q r ≡ true) × (q (f r) ≡ false))
      → count_where q (update_where p f rs) + count_where p rs ≡ count_where q rs
  unfolding count_where update_where
  count-update_clear q p f [] h = refl
  count-update_clear q p f (r ∷ rs) h = ground (arith, h r, count-update_clear q p f rs h)

  -- Where the row that was found is updated, and the update gives `q`, some row has `q` after it.
  pub count-update_pos :
      (q p s : R → Bool) (f : R → R) (rs : List R) {found : R}
      → ((r : R) → p r ≡ true → q (f r) ≡ true)
      → find s rs ≡ some found
      → p found ≡ true
      → 1 ≤ count_where q (update_where p f rs)
  unfolding find count_where update_where
  count-update_pos q p s f [] h e k = cc
  count-update_pos q p s f (r ∷ rs) {found} h e k =
      ground (arith, h r, count-update_pos q p s f rs {found = found} h)

  -- An update that gives `q` to no row that lacks it raises no count.
  pub count-update-le :
      (q p : R → Bool) (f : R → R) (rs : List R)
      → ((r : R) → q (f r) ≡ true → q r ≡ true)
      → count_where q (update_where p f rs) ≤ count_where q rs
  unfolding count_where update_where
  count-update-le q p f [] h = omega arith
  count-update-le q p f (r ∷ rs) h = ground (arith, h r, count-update-le q p f rs h)

  pub count-delete-le :
      (q p : R → Bool) (rs : List R) → count_where q (delete_where p rs) ≤ count_where q rs
  unfolding count_where delete_where
  count-delete-le q p [] = omega arith
  count-delete-le q p (r ∷ rs) = ground (arith, count-delete-le q p rs)

  pub count-pos-of-find :
      (p : R → Bool) (rs : List R) {r : R} → find p rs ≡ some r → 1 ≤ count_where p rs
  unfolding find count_where
  count-pos-of-find p [] h = ground arith
  count-pos-of-find p (x ∷ rs) {r} h = ground (arith, count-pos-of-find p rs {r = r})

  pub count-of-find-none : (p : R → Bool) (rs : List R) → find p rs ≡ none → count_where p rs ≡ 0
  unfolding find count_where
  count-of-find-none p [] h = refl
  count-of-find-none p (x ∷ rs) h = ground (arith, count-of-find-none p rs)

  pub find-none-of-count : (p : R → Bool) (rs : List R) → count_where p rs ≡ 0 → find p rs ≡ none
  unfolding find count_where
  find-none-of-count p [] h = refl
  find-none-of-count p (x ∷ rs) h = ground (arith, find-none-of-count p rs)

  pub count_mono :
      (p q : R → Bool) (rs : List R)
      → ((r : R) → p r ≡ true → q r ≡ true)
      → count_where p rs ≤ count_where q rs
  unfolding count_where
  count_mono p q [] h = omega arith
  count_mono p q (x ∷ rs) h = ground (arith, h x, count_mono p q rs h)

  -- A query that implies one that finds nothing finds nothing.
  pub find-none_mono :
      (p q : R → Bool) (rs : List R)
      → ((r : R) → p r ≡ true → q r ≡ true)
      → find q rs ≡ none
      → find p rs ≡ none
  find-none_mono p q rs h e =
      find-none-of-count p rs (omega (arith, count_mono p q rs h, count-of-find-none q rs e))

  -- Where one row at most has `u`, the queries `p` and `q` that imply it find the same row.
  pub find_unique :
      (u p q : R → Bool) (rs : List R) {a : R}
      → ((r : R) → p r ≡ true → u r ≡ true)
      → ((r : R) → q r ≡ true → u r ≡ true)
      → count_where u rs ≤ 1
      → find p rs ≡ some a
      → q a ≡ true
      → find q rs ≡ some a
  unfolding find count_where
  find_unique u p q [] pu qu one e qa = e
  find_unique u p q (x ∷ rs) {a} pu qu one e qa = elim (Bool-cases (p x)) [
    | inl px ↦ ground arith
    | inr px ↦ elim (Bool-cases (q x)) [
      | inl qx ↦ absurd (ground (arith, qu x, count-pos-of-find p rs {r = a}, count_mono p u rs pu))
      | inr qx ↦ ground (arith, find_unique u p q rs {a = a} pu qu)
    ]
  ]

  -- No row has the rowid that the next INSERT gives.
  pub next_rowid_fresh :
      (id : R → ℕ) (rs : List R) (n : ℕ)
      → next_rowid id rs ≤ n
      → count_where (λ r. id r == n) rs ≡ 0
  unfolding next_rowid count_where
  next_rowid_fresh id [] n h = refl
  next_rowid_fresh id (r ∷ rs) n h = ground (arith, next_rowid_fresh id rs n)

  -- A row that some query found counts for each test that it passes.
  pub count-pos-of-row :
      (p q : R → Bool) (rs : List R) {a : R}
      → find p rs ≡ some a
      → q a ≡ true
      → 1 ≤ count_where q rs
  unfolding find count_where
  count-pos-of-row p q [] e h = cc
  count-pos-of-row p q (x ∷ rs) {a} e h = ground (arith, count-pos-of-row p q rs {a = a})

  -- An update after which every row that had `q` has it lowers no count.
  pub count-update-ge :
      (q p : R → Bool) (f : R → R) (rs : List R)
      → ((r : R) → p r ≡ true → q r ≡ true → q (f r) ≡ true)
      → count_where q rs ≤ count_where q (update_where p f rs)
  unfolding count_where update_where
  count-update-ge q p f [] h = omega arith
  count-update-ge q p f (r ∷ rs) h = ground (arith, h r, count-update-ge q p f rs h)

  -- Deleting rows that lack `q` keeps the count.
  pub count-delete_same :
      (q p : R → Bool) (rs : List R)
      → ((r : R) → p r ≡ true → q r ≡ false)
      → count_where q (delete_where p rs) ≡ count_where q rs
  unfolding count_where delete_where
  count-delete_same q p [] h = refl
  count-delete_same q p (r ∷ rs) h = ground (arith, h r, count-delete_same q p rs h)

  -- The rows with `q` are those with `a` and those with `b`, which none has both of.
  pub count_split :
      (q a b : R → Bool) (rs : List R)
      → ((r : R) → (if q r then 1 else 0) ≡ (if a r then 1 else 0) + (if b r then 1 else 0))
      → count_where q rs ≡ count_where a rs + count_where b rs
  unfolding count_where
  count_split q a b [] h = refl
  count_split q a b (r ∷ rs) h = omega (arith, h r, count_split q a b rs h)

  -- The rowid that the next INSERT gives is above each one.
  pub next_rowid-above :
      (id : R → ℕ) (p : R → Bool) (rs : List R) {a : R}
      → find p rs ≡ some a
      → id a < next_rowid id rs
  unfolding find next_rowid
  next_rowid-above id p [] e = cc
  next_rowid-above id p (x ∷ rs) {a} e = ground (arith, next_rowid-above id p rs {a = a})

module _ {ℓ} {R : Type ℓ} where
  -- The row that was found is found again, changed, after an update of the rows like it.
  pub find-update :
      (p : R → Bool) (f : R → R) (rs : List R) {a : R}
      → ((r : R) → p r ≡ true → p (f r) ≡ true)
      → find p rs ≡ some a
      → find p (update_where p f rs) ≡ some (f a)
  unfolding find update_where
  find-update p f [] keeps h = ground arith
  find-update p f (x ∷ rs) {a} keeps h = elim (Bool-cases (p x)) [
    | inl e ↦ rw (e, keeps x e) (ap (λ o. elim o [ none ↦ none | some y ↦ some (f y) ]) (rw e at h))
    | inr e ↦ rw (e, e) (find-update p f rs keeps (rw e at h))
  ]

  -- A row that one query found makes another one find a row.
  pub find-found :
      (q p : R → Bool) (rs : List R) {a : R}
      → find q rs ≡ some a
      → p a ≡ true
      → (b : R) × (find p rs ≡ some b)
  find-found q p rs {a} h pa = elim (Option-cases (find p rs)) [
    | inr found ↦ found
    | inl e ↦ absurd (omega (arith, count-pos-of-row q p rs h pa, count-of-find-none p rs e))
  ]
