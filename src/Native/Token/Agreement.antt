-- ===== src/Native/Token/Agreement.antt =====
-- Two computations agree: they fail with one error, or they give related results. Computations
-- that agree stay so under what is bound to them.
use layer.Base.{◌≡◌, refl, Bool, true, false, if◌then◌else◌, Outcome, ok, err, ◌>>=◌, ◌>>◌, map_err}

pub data Agree {E A B : Type 0} (R : A → B → Type 0) : Outcome E A → Outcome E B → Type 0 where
  both_ok : {a : A} {b : B} → R a b → Agree R (ok a) (ok b)
  both_err : {e : E} → Agree R (err e) (err e)

pub Agree->>= :
    {E A B A' B' : Type 0} {R : A → B → Type 0} {Q : A' → B' → Type 0} {m : Outcome E A}
    {n : Outcome E B} (f : A → Outcome E A') (g : B → Outcome E B')
    → Agree R m n
    → ((a : A) (b : B) → R a b → Agree Q (f a) (g b))
    → Agree Q (m >>= f) (n >>= g)
Agree->>= f g (both_ok {a = a} {b = b} h) k = k a b h
Agree->>= f g both_err k = both_err

pub Agree-fail_if :
    {E A' B' : Type 0} {Q : A' → B' → Type 0} (m : Outcome E (Unit {0})) {f : Outcome E A'}
    {g : Outcome E B'}
    → Agree Q f g
    → Agree Q (m >> f) (m >> g)
Agree-fail_if (ok a) k = k
Agree-fail_if (err e) k = both_err

pub Agree-if :
    {E A B : Type 0} {R : A → B → Type 0} (t : Bool) {m m' : Outcome E A} {n n' : Outcome E B}
    → Agree R m n
    → Agree R m' n'
    → Agree R (if t then m else m') (if t then n else n')
Agree-if true h k = h
Agree-if false h k = k

-- The specification succeeds with what succeeds.
pub Agree-ok :
    {E A B : Type 0} {R : A → B → Type 0} {m : Outcome E A} {n : Outcome E B} {a : A}
    → Agree R m n
    → m ≡ ok a
    → (b : B) × (n ≡ ok b) × R a b
Agree-ok {a = z} (both_ok {a = x} {b = b} h) e = let same : x ≡ z = cc in (b, refl, rw (← same) h)
Agree-ok both_err e = cc

-- A fact of every result of the first computation joins the relation.
pub Agree-and :
    {E A B : Type 0} {R : A → B → Type 0} {P : A → Type 0} {m : Outcome E A} {n : Outcome E B}
    → Agree R m n
    → ((a : A) → m ≡ ok a → P a)
    → Agree (λ a b. R a b × P a) m n
Agree-and (both_ok h) p = both_ok (h, p _ refl)
Agree-and both_err p = both_err

-- Errors that are passed on.
pub Agree-map_err :
    {E F A B : Type 0} {R : A → B → Type 0} (wrap : E → F) {m : Outcome E A} {n : Outcome E B}
    → Agree R m n
    → Agree R (map_err wrap m) (map_err wrap n)
Agree-map_err wrap (both_ok h) = both_ok h
Agree-map_err wrap both_err = both_err

-- The first computation's result passes through a function that keeps the relation.
pub Agree-then :
    {E A A' B : Type 0} {R : A → B → Type 0} {Q : A' → B → Type 0} (f : A → A') {m : Outcome E A}
    {n : Outcome E B}
    → Agree R m n
    → ((a : A) (b : B) → R a b → Q (f a) b)
    → Agree Q (m >>= λ a. ok (f a)) n
Agree-then f (both_ok {a = a} {b = b} h) k = both_ok (k a b h)
Agree-then f both_err k = both_err
