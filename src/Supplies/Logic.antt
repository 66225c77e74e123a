-- ===== src/Supplies/Logic.antt =====
-- Transactions that keep the state of the lots (src/modules/supply-stocks/supply-stocks.repository.ts),
-- and the rules by which a `do` block is shown to be one.
use easy_point_api.Base.{Bool, true, false, [], Option, none, some, sym, subst}
use easy_point_api.Decimal.{Arith}
use easy_point_api.Supplies.Lots.{HasLots, HasSoundLots}
use easy_point_api.Database.{
  Db, Ensures, Ensures-bind, Ensures-weaken, Exception, Keeps, Supplies, Tx, or_throw, throw_if,
  ◌>>=◌,
}

-- The tables of supplies and productions.
abbrev pub supplies_view : Db → Supplies
supplies_view db = db.supplies

module _ ⦃ar : Arith⦄ where
  abbrev SoundIn : Supplies → Type 0
  SoundIn s = HasLots s.next_supply_id s.entries s.supply_stocks s.supply_movements s.usages []

  abbrev pub KeepsLots : {A : Type 0} → Tx A → Type 0
  KeepsLots m = (db : Db) → HasSoundLots db → Ensures (λ _ db'. HasSoundLots db') (m db)

  pub KeepsLots-bind :
      {A B : Type 0} (m : Tx A) (k : A → Tx B)
      → KeepsLots m
      → ((a : A) → KeepsLots (k a))
      → KeepsLots (m >>= k)
  KeepsLots-bind m k h next db sound =
      Ensures-bind (λ _ db'. HasSoundLots db') (λ _ db'. HasSoundLots db') m k db (h db sound)
        (λ a db' s. next a db' s)

  pub KeepsLots-frame : {A : Type 0} (m : Tx A) → Keeps supplies_view m → KeepsLots m
  KeepsLots-frame m h db sound =
      Ensures-weaken _ _ (m db) (h db) (λ a db' e. subst SoundIn (sym e) sound)

  pub KeepsLots-throw_if : (b : Bool) (e : Exception) → KeepsLots (throw_if b e)
  KeepsLots-throw_if true e db sound = tt
  KeepsLots-throw_if false e db sound = sound

  pub KeepsLots-or_throw : {A : Type 0} (o : Option A) (e : Exception) → KeepsLots (or_throw o e)
  KeepsLots-or_throw none e db sound = tt
  KeepsLots-or_throw (some a) e db sound = sound
