-- ===== src/RateLimit.antt =====
-- src/rate_limit.rs: the limiter of attempts, its map as a list of entries with one for each key. A
-- key is a text; the clock is an argument; a lock that a panic poisoned, which refuses the attempt
-- without a look at the map, is left out.
pub mod Bounds
mod Tests
use tit.Prelude.{
  String, ℕ, ◌-◌, Bool, true, false, ◌&&◌, not, List, [], ◌∷◌, ◌++◌, length, leb, str_eq, is_some,
  if◌then◌else◌,
}
use tit.Prelude.Tables.{find, update_where}

pub record AttemptLimiter : Type 0 where
  pub maximum : ℕ
  pub window : ℕ
  pub maximum_keys : ℕ

pub record Entry : Type 0 where
  pub key : String
  pub attempts : List ℕ

-- `while front is old { pop_front() }`
unfoldable pub pop_old : ℕ → ℕ → List ℕ → List ℕ
pop_old now window [] = []
pop_old now window (a ∷ attempts) =
    let rest = pop_old now window attempts in if leb window (now - a) then rest else a ∷ attempts

abbrev pub is_empty : List ℕ → Bool
is_empty [] = true
is_empty (a ∷ attempts) = false

-- `attempts.retain(…)`
unfoldable pub retain : ℕ → ℕ → List Entry → List Entry
retain now window [] = []
retain now window (e ∷ entries) =
    let rest = retain now window entries in
    let left = pop_old now window e.attempts in
    if is_empty left then rest else record e { attempts = left } ∷ rest

abbrev pub has_key : String → Entry → Bool
has_key key e = str_eq e.key key

-- `entry(key).or_default()`
unfoldable pub or_default : String → List Entry → List Entry
or_default key entries =
    if is_some (find (has_key key) entries)
    then entries
    else record { key = key; attempts = [] } ∷ entries

-- `push_back(now)`, on the entry of the key.
abbrev pub push_back : ℕ → Entry → Entry
push_back now e = record e { attempts = e.attempts ++ (now ∷ []) }

abbrev pub is_full : ℕ → String → Entry → Bool
is_full maximum key e = str_eq e.key key && leb maximum (length e.attempts)

-- The answer, and the map after it.
unfoldable pub allow : AttemptLimiter → String → ℕ → List Entry → Bool × List Entry
allow l key now before =
    let entries = retain now l.window before in
    if not (is_some (find (has_key key) entries)) && leb l.maximum_keys (length entries)
    then (false, entries)
    else let held = or_default key entries in
      if is_some (find (is_full l.maximum key) held)
      then (false, held)
      else (true, update_where (has_key key) (push_back now) held)
