-- ===== src/Database/Rules.antt =====
-- What holds after a transaction that does not throw, and the rules by which it is proved of a `do`
-- block.
use easy_point_api.Base.{◌⊎◌, inl, inr, ◌≡◌, refl, ◌∙◌, ⊤, Bool, true, false, List, [], ◌∷◌, ap}
use easy_point_api.Database.Rows.{Db}
use easy_point_api.Database.Monad.{throw_if, Exception, Result, ok, err, Tx, ◌>>=◌, for_each, when}

abbrev pub Ensures : {A : Type 0} → (A → Db → Type 0) → Result (A × Db) → Type 0
Ensures P (ok r) = P r.0 r.1
Ensures P (err e) = Unit

-- Whenever `m` succeeds, it leaves the view `f` of the database as it was.
abbrev pub Keeps : {A V : Type 0} → (Db → V) → Tx A → Type 0
Keeps f m = (db : Db) → Ensures (λ _ db'. f db' ≡ f db) (m db)

Ensures-then :
    {A B : Type 0} (P : A → Db → Type 0) (Q : B → Db → Type 0) (k : A → Tx B) (r : Result (A × Db))
    → Ensures P r
    → ((a : A) (db' : Db) → P a db' → Ensures Q (k a db'))
    → Ensures Q (elim r [ ok (a, db') ↦ k a db' | err e ↦ err e ])
Ensures-then P Q k (ok r) h next = next r.0 r.1 h
Ensures-then P Q k (err e) h next = tt

pub Ensures-bind :
    {A B : Type 0} (P : A → Db → Type 0) (Q : B → Db → Type 0) (m : Tx A) (k : A → Tx B) (db : Db)
    → Ensures P (m db)
    → ((a : A) (db' : Db) → P a db' → Ensures Q (k a db'))
    → Ensures Q ((m >>= k) db)
Ensures-bind P Q m k db h next = Ensures-then P Q k (m db) h next

pub Ensures-weaken :
    {A : Type 0} (P Q : A → Db → Type 0) (r : Result (A × Db))
    → Ensures P r
    → ((a : A) (db' : Db) → P a db' → Q a db')
    → Ensures Q r
Ensures-weaken P Q (ok r) h f = f r.0 r.1 h
Ensures-weaken P Q (err e) h f = tt

pub Ensures-both :
    {A : Type 0} (P Q : A → Db → Type 0) (r : Result (A × Db))
    → Ensures P r
    → Ensures Q r
    → Ensures (λ a db'. P a db' × Q a db') r
Ensures-both P Q (ok r) h k = (h, k)
Ensures-both P Q (err e) h k = tt

-- A postcondition read off an equation.
pub Ensures-ok :
    {A : Type 0} (P : A → Db → Type 0) (r : Result (A × Db)) (a : A) (db' : Db)
    → Ensures P r
    → r ≡ ok (a, db')
    → P a db'
Ensures-ok P r a db' h e = let k : Ensures P (ok (a, db')) = rw e at h in k

module _ {V : Type 0} (f : Db → V) where
  pub Keeps-bind :
      {A B : Type 0} (m : Tx A) (k : A → Tx B)
      → Keeps f m
      → ((a : A) → Keeps f (k a))
      → Keeps f (m >>= k)
  Keeps-bind {A} {B} m k h next db =
      Ensures-bind (λ (_ : A) db'. f db' ≡ f db) (λ (_ : B) db'. f db' ≡ f db) m k db (h db)
        (λ a db' e. Ensures-weaken _ _ (k a db') (next a db') (λ b db'' e'. e' ∙ e))

  pub Keeps-when : (b : Bool) (m : Tx ⊤) → Keeps f m → Keeps f (when b m)
  Keeps-when true m h db = h db
  Keeps-when false m h db = refl

  pub Keeps-for_each :
      {A : Type 0} (xs : List A) (g : A → Tx ⊤)
      → ((a : A) → Keeps f (g a))
      → Keeps f (for_each xs g)
  unfolding for_each
  Keeps-for_each [] g h db = refl
  Keeps-for_each (x ∷ xs) g h db =
      Ensures-then (λ _ db'. f db' ≡ f db) (λ _ db'. f db' ≡ f db) (λ _. for_each xs g) (g x db)
        (h x db)
        (λ a db' e.
          Ensures-weaken _ _ (for_each xs g db') (Keeps-for_each xs g h db') (λ b db'' e'. e' ∙ e))

pub Result-cases :
    {A : Type 0} (r : Result A) → ((a : A) × (r ≡ ok a)) ⊎ ((e : Exception) × (r ≡ err e))
Result-cases (ok a) = inl (a, refl)
Result-cases (err e) = inr (e, refl)

abbrev ok_or : {A : Type 0} → A → Result A → A
ok_or d (ok a) = a
ok_or d (err e) = d

pub ok_inj : {A : Type 0} (a b : A) → ok a ≡ ok b → a ≡ b
ok_inj a b e = ap (ok_or a) e

-- Steps that only read.
pub throw_if-same :
    (b : Bool) (e : Exception) (db : Db) → Ensures (λ _ db'. db' ≡ db) (throw_if b e db)
throw_if-same true e db = tt
throw_if-same false e db = refl

-- How a block computes past its first step.
module _ {A B : Type 0} (k : A → Tx B) where
  abbrev then_run : Result (A × Db) → Result (B × Db)
  then_run r = elim r [ ok (a, db') ↦ k a db' | err e ↦ err e ]

  pub bind-ok : (m : Tx A) (a : A) (db db' : Db) → m db ≡ ok (a, db') → (m >>= k) db ≡ k a db'
  bind-ok m a db db' e = ap then_run e

  pub bind-err : (m : Tx A) (x : Exception) (db : Db) → m db ≡ err x → (m >>= k) db ≡ err x
  bind-err m x db e = ap then_run e

pub throw_if-true :
    {B : Type 0} (k : ⊤ → Tx B) (b : Bool) (x : Exception) (db : Db)
    → b ≡ true
    → (throw_if b x >>= k) db ≡ err x
throw_if-true k true x db e = refl
throw_if-true k false x db e = cc

pub throw_if-false :
    {B : Type 0} (k : ⊤ → Tx B) (b : Bool) (x : Exception) (db : Db)
    → b ≡ false
    → (throw_if b x >>= k) db ≡ k tt db
throw_if-false k true x db e = cc
throw_if-false k false x db e = refl
