-- ===== src/Prelude/Rows.antt =====
-- More lemmas on tables: one row that is followed through the statements.
use Prim.Native.Nat.{◌+◌, ◌≤◌}
use mathlib.Core.Path.{◌≡◌, refl, sym, ◌∙◌, subst}
use mathlib.Core.Bool.{Bool, true, false, ◌&&◌, not}
use mathlib.Core.List.{List, [], ◌∷◌}
use mathlib.Core.Option.{none, some, some-injective}
use native.Mathlib.Omega.{arith}
use tit.Prelude.Tests.{if◌then◌else◌, Bool-cases, Option-cases}
use mathlib.Core.Logic.{inl, inr}
use tit.Prelude.Lists.{All}
use tit.Prelude.Tables.{find, count_where, update_where, count-pos-of-row, find-holds}

module _ {ℓ} {R : Type ℓ} where
  -- The row that is found is found again, changed if the update is of it.
  pub find-update_if :
      (q p : R → Bool) (f : R → R) (rs : List R) {a : R}
      → ((r : R) → q (f r) ≡ q r)
      → find q rs ≡ some a
      → find q (update_where p f rs) ≡ some (if p a then f a else a)
  unfolding find update_where
  find-update_if q p f [] keeps h = ground arith
  find-update_if q p f (x ∷ rs) {a} keeps h =
      ground (arith, keeps x, find-update_if q p f rs {a = a} keeps)

  -- An update that gives `q` to rows that lack it adds their number to the count.
  pub count-update_gain :
      (q p : R → Bool) (f : R → R) (rs : List R)
      → ((r : R) → p r ≡ true → (q r ≡ false) × (q (f r) ≡ true))
      → count_where q (update_where p f rs) ≡ count_where q rs + count_where p rs
  unfolding count_where update_where
  count-update_gain q p f [] h = refl
  count-update_gain q p f (r ∷ rs) h = ground (arith, h r, count-update_gain q p f rs h)

  -- Where one row at most has `u`, the row that another query found is found by `u` if it has it.
  pub find_only :
      (q u : R → Bool) (rs : List R) {a : R}
      → count_where u rs ≤ 1
      → find q rs ≡ some a
      → u a ≡ true
      → find u rs ≡ some a
  unfolding find count_where
  find_only q u [] one h ua = h
  find_only q u (x ∷ rs) {a} one h ua = elim (Bool-cases (q x)) [
    | inl qx ↦ ground arith
    | inr qx ↦ elim (Bool-cases (u x)) [
      | inl ux ↦ absurd (ground (arith, count-pos-of-row q u rs {a = a}))
      | inr ux ↦ ground (arith, find_only q u rs {a = a})
    ]
  ]

  -- The rows that have `u` after an update: those that had it and are left, and at most those changed.
  pub count-update-bound :
      (u p : R → Bool) (f : R → R) (rs : List R)
      → count_where u (update_where p f rs)
        ≤ count_where (λ r. u r && not (p r)) rs + count_where p rs
  unfolding count_where update_where
  count-update-bound u p f [] = omega arith
  count-update-bound u p f (r ∷ rs) = ground (arith, count-update-bound u p f rs)

  -- No row that is counted by `p` alone is counted by a `q` that it excludes, among one at most.
  pub find-other_none :
      (u p q : R → Bool) (rs : List R) {a : R}
      → ((r : R) → q r ≡ true → (u r ≡ true) × (p r ≡ false))
      → count_where u rs ≤ 1
      → find p rs ≡ some a
      → u a ≡ true
      → find q rs ≡ none
  find-other_none u p q rs {a} h one found ua = elim (Option-cases (find q rs)) [
    | inl e ↦ e
    | inr (b, e) ↦
        let (ub, no_p) = h b (find-holds q rs e) in
        let same =
          some-injective a b (sym (find_only p u rs one found ua) ∙ find_only q u rs one e ub) in
        absurd (cc (find-holds p rs found, subst (λ x. p x ≡ false) (sym same) no_p))
  ]

  -- An update that gives `u` to no row that lacks it raises no count; only the rows it changes count.
  pub count-update-no_gain :
      (u p : R → Bool) (f : R → R) (rs : List R)
      → ((r : R) → p r ≡ true → u (f r) ≡ true → u r ≡ true)
      → count_where u (update_where p f rs) ≤ count_where u rs
  unfolding count_where update_where
  count-update-no_gain u p f [] h = omega arith
  count-update-no_gain u p f (r ∷ rs) h = ground (arith, h r, count-update-no_gain u p f rs h)

  -- A query that no row satisfies finds nothing, and what finds nothing is satisfied by no row.
  pub find_nothing : (p : R → Bool) (rs : List R) → ((r : R) → p r ≡ false) → find p rs ≡ none
  unfolding find
  find_nothing p [] h = refl
  find_nothing p (r ∷ rs) h = rw (h r) (find_nothing p rs h)

  pub All-of-find-none : (p : R → Bool) (rs : List R) → find p rs ≡ none → All (λ r. p r ≡ false) rs
  unfolding find
  All-of-find-none p [] h = tt
  All-of-find-none p (r ∷ rs) h = elim (Bool-cases (p r)) [
    | inl e ↦ absurd (cc (rw e at h))
    | inr e ↦ (e, All-of-find-none p rs (rw e at h))
  ]

  -- A second update that undoes the first.
  pub update-undo :
      (p q : R → Bool) (f g : R → R) (rs : List R)
      → ((r : R) → p r ≡ true → q (f r) ≡ true)
      → All (λ r. (q r ≡ false) × (p r ≡ true → g (f r) ≡ r)) rs
      → update_where q g (update_where p f rs) ≡ rs
  unfolding update_where
  update-undo p q f g [] hits each = refl
  update-undo p q f g (r ∷ rs) hits ((other, undo), each) = elim (Bool-cases (p r)) [
    | inl e ↦ rw (e, hits r e, undo e, update-undo p q f g rs hits each) refl
    | inr e ↦ rw (e, other, update-undo p q f g rs hits each) refl
  ]
