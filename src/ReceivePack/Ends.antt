-- ===== src/ReceivePack/Ends.antt =====
-- What the results of steps satisfy: one rule for each step of src/git/receive_pack.rs.
use tit.Prelude.{◌≡◌, refl, ap, subst, Bool, true, false, Option, none, some, if◌then◌else◌}
use tit.ReceivePack.{ReceivePackError, Received, received, failed, ◌>>=◌, ◌>>◌, require, present}

-- Whatever is received satisfies `P`.
pub record Ends {A : Type 0} (P : A → Type 0) (m : Received A) : Type 0 where
  pub at : (a : A) → m ≡ received a → P a

pub Ends-received : {A : Type 0} {P : A → Type 0} (a : A) → P a → Ends P (received a)
Ends-received {A} {P} a h = record { at = λ b e. subst P (ap value e) h }
  where
    value : Received A → A
    value (received x) = x
    value (failed x) = a

pub Ends-failed : {A : Type 0} {P : A → Type 0} (e : ReceivePackError) → Ends P (failed e)
Ends-failed e = record { at = λ a h. cc }

pub Ends-if :
    {A : Type 0} {P : A → Type 0} (b : Bool) (m n : Received A)
    → Ends P m
    → Ends P n
    → Ends P (if b then m else n)
Ends-if true m n km kn = km
Ends-if false m n km kn = kn

-- Each branch may use the test.
pub Ends-test :
    {A : Type 0} {P : A → Type 0} (b : Bool) (m n : Received A)
    → (b ≡ true → Ends P m)
    → (b ≡ false → Ends P n)
    → Ends P (if b then m else n)
Ends-test true m n km kn = km refl
Ends-test false m n km kn = kn refl

-- The rest may use that the step received `a`.
pub Ends-bind :
    {A B : Type 0} {P : B → Type 0} (m : Received A) (f : A → Received B)
    → ((a : A) → m ≡ received a → Ends P (f a))
    → Ends P (m >>= f)
unfolding ◌>>=◌
Ends-bind (received a) f h = h a refl
Ends-bind (failed x) f h = Ends-failed x

pub Ends-require :
    {B : Type 0} {P : B → Type 0} (t : Bool) (e : ReceivePackError) (m : Received B)
    → (t ≡ true → Ends P m)
    → Ends P (require t e >> m)
unfolding ◌>>◌ ◌>>=◌ require
Ends-require true e m h = h refl
Ends-require false e m h = Ends-failed e

pub Ends-present :
    {A B : Type 0} {P : B → Type 0} (o : Option A) (e : ReceivePackError) (f : A → Received B)
    → ((a : A) → Ends P (f a))
    → Ends P (present o e >>= f)
unfolding ◌>>=◌ present
Ends-present none e f h = Ends-failed e
Ends-present (some a) e f h = h a
