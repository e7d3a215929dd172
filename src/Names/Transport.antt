-- ===== src/Names/Transport.antt =====
-- The names that the services accept, and the test that Git transport makes of them.
use tit.Prelude.{
  ℕ, arith, ◌≡◌, refl, Bool, true, false, ◌&&◌, ◌||◌, inr, inl, not, [], ◌∷◌, all, any, length, ltb,
  leb, ◌==◌, if◌then◌else◌,
}
use tit.Prelude.Bytes.{codes, bytes_eq}
use tit.Store.Schema.{Bytes}
use tit.Names.{
  NameError, Validation, is_bad_slug, is_bad_username, invalid_slug, invalid_username,
  validate_slug, validate_username, valid_name, first_is, last_is, contains, ends_with, reserved,
  is_slug_byte, is_mark, is_ascii_alphanumeric, valid_character,
}

-- What is common to the names that the two validations accept.
pub record IsPlain (maximum : ℕ) (s : Bytes) : Type 0 where
  pub nonempty : bytes_eq s [] ≡ false
  pub short : leb (length s) maximum ≡ true
  pub bytes : all is_slug_byte s ≡ true
  pub first : first_is is_mark s ≡ false
  pub last : last_is is_mark s ≡ false

pub all_mono :
    {p q : ℕ → Bool}
    → ((b : ℕ) → p b ≡ true → q b ≡ true)
    → (s : Bytes) → all p s ≡ true
    → all q s ≡ true
all_mono weaker [] h = refl
all_mono weaker (b ∷ bs) h = grind (arith, h, weaker b, all_mono weaker bs)

first_is_apart :
    {p q : ℕ → Bool}
    → ((b : ℕ) → p b ≡ true → q b ≡ false)
    → (s : Bytes) → first_is p s ≡ true
    → first_is q s ≡ false
first_is_apart apart [] h = refl
first_is_apart apart (b ∷ bs) h = apart b h

last_is_apart :
    {p q : ℕ → Bool}
    → ((b : ℕ) → p b ≡ true → q b ≡ false)
    → (s : Bytes) → last_is p s ≡ true
    → last_is q s ≡ false
unfolding last_is
last_is_apart apart [] h = refl
last_is_apart apart (b ∷ []) h = apart b h
last_is_apart apart (b ∷ c ∷ bs) h = last_is_apart apart (c ∷ bs) h

alphanumeric_unmarked : (b : ℕ) → is_ascii_alphanumeric b ≡ true → is_mark b ≡ false
alphanumeric_unmarked b h = ground (arith, h)

character_unmarked : (b : ℕ) → valid_character b ≡ true → is_mark b ≡ false
character_unmarked b h = ground (arith, h)

character_slug_byte : (b : ℕ) → (valid_character b || b == b'-') ≡ true → is_slug_byte b ≡ true
character_slug_byte b h = ground (arith, h)

character_undotted : (b : ℕ) → (valid_character b || b == b'-') ≡ true → not (b == b'.') ≡ true
character_undotted b h = ground (arith, h)

slug_byte_ascii : (b : ℕ) → is_slug_byte b ≡ true → ltb b 128 ≡ true
slug_byte_ascii b h = ground (arith, h)

-- No dot at all, so no two dots.
contains_undotted :
    (s : Bytes) → all (λ b. not (b == b'.')) s ≡ true → contains (codes "..") s ≡ false
unfolding contains
contains_undotted [] h = refl
contains_undotted (b ∷ bs) h = grind (arith, h, contains_undotted bs)

valid_name-IsPlain :
    (maximum : ℕ) (s : Bytes)
    → IsPlain maximum s
    → valid_name s maximum ≡ not (contains (codes "..") s)
unfolding valid_name
valid_name-IsPlain maximum s h =
    rw (h.nonempty, h.short, all_mono slug_byte_ascii s h.bytes, h.bytes, h.first, h.last) refl

abbrev passed : Validation
passed = inr tt

accepted :
    (rejected : Bool) (e : NameError)
    → (if rejected then inl e else inr tt) ≡ passed
    → rejected ≡ false
accepted true e h = cc
accepted false e h = refl

or_false : (a b : Bool) → (a || b) ≡ false → (a ≡ false) × (b ≡ false)
or_false true b h = cc
or_false false b h = (refl, h)

-- Five tests of which none holds.
five_false :
    (a b c d e : Bool)
    → (a || b || c || d || e) ≡ false
    → (a ≡ false) × (b ≡ false) × (c ≡ false) × (d ≡ false) × (e ≡ false)
five_false a b c d e h =
    let (h₁, he) = or_false (a || b || c || d) e h in
    let (h₂, hd) = or_false (a || b || c) d h₁ in
    let (h₃, hc) = or_false (a || b) c h₂ in let (ha, hb) = or_false a b h₃ in (ha, hb, hc, hd, he)

test_holds : (a : Bool) → not a ≡ false → a ≡ true
test_holds a h = ground (arith, h)

pub validate_slug-IsPlain : (s : Bytes) → validate_slug s ≡ inr tt → IsPlain 100 s
unfolding validate_slug
validate_slug-IsPlain s h =
    let reserves = any (λ r. bytes_eq r s) reserved in
    let starts = first_is is_ascii_alphanumeric s in
    let ends = last_is is_ascii_alphanumeric s in
    let (h₁, last) =
      or_false
        (bytes_eq s []
          || ltb 100 (length s)
          || ends_with (codes ".git") s
          || reserves
          || not (all is_slug_byte s)
          || not starts)
        (not ends) (accepted (is_bad_slug s) invalid_slug h) in
    let (h₂, first) =
      or_false
        (bytes_eq s []
          || ltb 100 (length s)
          || ends_with (codes ".git") s
          || reserves
          || not (all is_slug_byte s))
        (not starts) h₁ in
    let (nonempty, long, suffix, free, bytes) =
      five_false (bytes_eq s []) (ltb 100 (length s)) (ends_with (codes ".git") s) reserves
        (not (all is_slug_byte s)) h₂ in
    record {
      nonempty = nonempty;
      short = short _ _ long;
      bytes = test_holds _ bytes;
      first = first_is_apart alphanumeric_unmarked s (test_holds _ first);
      last = last_is_apart alphanumeric_unmarked s (test_holds _ last);
    }
  where
    short : (n k : ℕ) → ltb n k ≡ false → leb k n ≡ true
    short n k e = ground (arith, e)

pub record IsUsername (s : Bytes) : Type 0 where
  pub plain : IsPlain 40 s
  pub undotted : contains (codes "..") s ≡ false

pub validate_username-IsUsername : (s : Bytes) → validate_username s ≡ inr tt → IsUsername s
unfolding validate_username
validate_username-IsUsername s h =
    let (long, first, last, bytes, free) =
      five_false (not (leb 1 (length s) && leb (length s) 40)) (not (first_is valid_character s))
        (not (last_is valid_character s)) (not (all (λ b. valid_character b || b == b'-') s))
        (any (λ r. bytes_eq r s) reserved) (accepted (is_bad_username s) invalid_username h) in
    record {
      plain = record {
        nonempty = nonempty s (test_holds _ long);
        short = short _ _ (test_holds _ long);
        bytes = all_mono character_slug_byte s (test_holds _ bytes);
        first = first_is_apart character_unmarked s (test_holds _ first);
        last = last_is_apart character_unmarked s (test_holds _ last);
      };
      undotted = contains_undotted s (all_mono character_undotted s (test_holds _ bytes));
    }
  where
    nonempty : (s : Bytes) → (leb 1 (length s) && leb (length s) 40) ≡ true → bytes_eq s [] ≡ false
    nonempty [] h = ground (arith, h)
    nonempty (b ∷ bs) h = refl

    short : (a b : Bool) → (a && b) ≡ true → b ≡ true
    short true b e = e
    short false b e = cc

-- Git transport accepts every username that `validate_username` accepts, and of the slugs that
-- `validate_slug` accepts exactly those without two dots in a row.
pub valid_name_lem :
    (username slug : Bytes)
    → validate_username username ≡ inr tt
    → validate_slug slug ≡ inr tt
    → (valid_name username 40 ≡ true) × (valid_name slug 100 ≡ not (contains (codes "..") slug))
valid_name_lem username slug h k =
    let owner = validate_username-IsUsername username h in
    (
      rw (valid_name-IsPlain 40 username owner.plain, owner.undotted) refl,
      valid_name-IsPlain 100 slug (validate_slug-IsPlain slug k),
    )
