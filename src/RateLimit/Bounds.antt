-- ===== src/RateLimit/Bounds.antt =====
-- How much the limiter of src/rate_limit.rs holds.
use tit.Prelude.{
  String, ℕ, suc, ◌≤◌, ◌<◌, ◌≡◌, refl, Bool, true, false, ◌&&◌, not, Option, none, some, List, [],
  ◌∷◌, All, length, length-append, leb, str_eq, is_some, if◌then◌else◌, arith, Bool-cases, inl, inr,
}
use tit.Prelude.Tables.{find, update_where}
use tit.RateLimit.{
  AttemptLimiter, Entry, pop_old, is_empty, retain, has_key, or_default, push_back, is_full, allow,
}

-- No more keys than the limiter may hold, and no more attempts of one.
pub record IsLimited (l : AttemptLimiter) (entries : List Entry) : Type 0 where
  pub keys : length entries ≤ l.maximum_keys
  pub attempts : All (λ e. length e.attempts ≤ l.maximum) entries

length-pop_old : (now w : ℕ) (ts : List ℕ) → length (pop_old now w ts) ≤ length ts
unfolding pop_old
length-pop_old now w [] = omega arith
length-pop_old now w (t ∷ ts) = ground (arith, length-pop_old now w ts)

module _ (l : AttemptLimiter) (now : ℕ) where
  length-retain : (es : List Entry) → length (retain now l.window es) ≤ length es
  unfolding retain
  length-retain [] = omega arith
  length-retain (e ∷ es) = ground (arith, length-retain es)

  retain-attempts :
      (es : List Entry)
      → All (λ e. length e.attempts ≤ l.maximum) es
      → All (λ e. length e.attempts ≤ l.maximum) (retain now l.window es)
  unfolding retain
  retain-attempts [] h = tt
  retain-attempts (e ∷ es) (h, hs) =
      elim (Bool-cases (is_empty (pop_old now l.window e.attempts))) [
        | inl b ↦ rw b (retain-attempts es hs)
        | inr b ↦
            rw b (omega (arith, length-pop_old now l.window e.attempts, h), retain-attempts es hs)
      ]

length-update_where :
    (p : Entry → Bool) (f : Entry → Entry) (es : List Entry)
    → length (update_where p f es) ≡ length es
unfolding update_where
length-update_where p f [] = refl
length-update_where p f (e ∷ es) = omega (arith, length-update_where p f es)

-- Where no entry of the key is full, one more attempt fits.
push-attempts :
    (m : ℕ) (key : String) (now : ℕ) (es : List Entry)
    → find (is_full m key) es ≡ none
    → All (λ e. length e.attempts ≤ m) es
    → All (λ e. length e.attempts ≤ m) (update_where (has_key key) (push_back now) es)
unfolding find update_where
push-attempts m key now [] h a = tt
push-attempts m key now (e ∷ es) h (a, rest) = elim (Bool-cases (is_full m key e)) [
  | inl full ↦ absurd (some_none (rw full at h))
  | inr room ↦ (pushed e room a, push-attempts m key now es (rw room at h) rest)
]
  where
    some_none : {x : Entry} → some x ≡ none → ⊥
    some_none q = cc

    below : (x : Entry) → str_eq x.key key ≡ true → is_full m key x ≡ false → length x.attempts < m
    below x k room = ground (arith, k, room)

    pushed :
        (x : Entry)
        → is_full m key x ≡ false
        → length x.attempts ≤ m
        → length (if has_key key x then push_back now x else x).attempts ≤ m
    pushed x room le = elim (Bool-cases (str_eq x.key key)) [
      | inl k ↦ rw k (omega (arith, length-append x.attempts (now ∷ []), below x k room))
      | inr k ↦ rw k le
    ]

or_default-IsLimited :
    (l : AttemptLimiter) (key : String) (es : List Entry)
    → (not (is_some (find (has_key key) es)) && leb l.maximum_keys (length es)) ≡ false
    → IsLimited l es
    → IsLimited l (or_default key es)
unfolding or_default
or_default-IsLimited l key es room inv = elim (Bool-cases (is_some (find (has_key key) es))) [
  | inl b ↦ rw b inv
  | inr b ↦ rw b (record { keys = below b; attempts = (omega arith, inv.attempts) })
]
  where
    below : is_some (find (has_key key) es) ≡ false → suc (length es) ≤ l.maximum_keys
    below b = ground (arith, b, room)

test-none : {A : Type 0} (o : Option A) → is_some o ≡ false → o ≡ none
test-none none h = refl
test-none (some a) h = absurd cc

allow-IsLimited :
    (l : AttemptLimiter) (key : String) (now : ℕ) (es : List Entry)
    → IsLimited l es
    → IsLimited l (allow l key now es).1
unfolding allow
allow-IsLimited l key now es inv = elim (Bool-cases no_room) [
  | inl b ↦ rw b kept
  | inr b ↦
      let held = or_default-IsLimited l key entries b kept in
      rw b (elim (Bool-cases (is_some (find (is_full l.maximum key) (or_default key entries)))) [
        | inl f ↦ rw f held
        | inr f ↦ rw f (record {
          keys = omega (
            arith,
            held.keys,
            length-update_where (has_key key) (push_back now) (or_default key entries),
          );
          attempts =
              push-attempts l.maximum key now (or_default key entries) (test-none _ f)
                held.attempts;
        })
      ])
]
  where
    entries : List Entry
    entries = retain now l.window es

    no_room : Bool
    no_room = not (is_some (find (has_key key) entries)) && leb l.maximum_keys (length entries)

    kept : IsLimited l entries
    kept = record {
      keys = omega (arith, length-retain l now es, inv.keys);
      attempts = retain-attempts l now es inv.attempts;
    }

unfoldable pub run : AttemptLimiter → List Entry → List (String × ℕ) → List Entry
run l es [] = es
run l es (c ∷ cs) = run l (allow l c.0 c.1 es).1 cs

-- A limiter that holds no more keys than it may, and no more attempts of a key than it may, as an
-- empty one does, holds no more after any sequence of attempts at any times.
pub run-IsLimited :
    (l : AttemptLimiter) (entries : List Entry) (calls : List (String × ℕ))
    → IsLimited l entries
    → IsLimited l (run l entries calls)
unfolding run
run-IsLimited l entries [] inv = inv
run-IsLimited l entries (c ∷ cs) inv =
    run-IsLimited l (allow l c.0 c.1 entries).1 cs (allow-IsLimited l c.0 c.1 entries inv)
