-- ===== src/Productions/Completed.antt =====
-- `complete` of `ProductionsService` and the state of the lots
-- (src/modules/productions/productions.service.ts).
use easy_point_api.Base.{
  All, Bool, Bool-cases, Option-cases, true, false, List, [], ◌∷◌, Option, none, some, ℕ, ◌==◌, ◌≡◌,
  keep_if, map, refl, inl, inr, length, not,
}
use easy_point_api.Base.Int.{ℤ, pos, int_laws}
use easy_point_api.Base.Table.{lookup}
use easy_point_api.Decimal.{Arith, RoundingLaws}
use easy_point_api.Sales.Create.{belongs_to}
use easy_point_api.Supplies.Lots.{taken, used_of, AreUses, HasSoundLots}
use easy_point_api.Supplies.Steps.{recount-HasLots}
use easy_point_api.Supplies.Kept.{next_of}
use easy_point_api.Productions.Consumption.{SupplyInput, own_supplies}
use easy_point_api.Productions.Consumed.{AreExact}
use easy_point_api.Productions.Sound.{process_completion-HasSoundLots}
use easy_point_api.Productions.Lifecycle.{
  owns, complete_production, find_production, input_ids, is_draft, of_production,
}
use easy_point_api.Database.{Production, Db, Ensures, SupplyUsage}

-- The usages of a draft take from no lot.
abbrev pub IsIntended : Bool → Option ℕ → Type 0
IsIntended true none = Unit
IsIntended true (some lot) = ⊥
IsIntended false o = Unit

abbrev pub AreIntended : ℕ → List SupplyUsage → Type 0
AreIntended id = All (λ (u : SupplyUsage). IsIntended (of_production id u) u.supply_stock_entry_id)

-- The supplies that a draft intends to use.
abbrev pub inputs_of : ℕ → List SupplyUsage → List SupplyInput
inputs_of id us =
    map (λ (u : SupplyUsage). record { supply_id = u.supply_id; quantity_used = u.quantity_used })
      (keep_if (of_production id) us)

abbrev pub others : ℕ → List SupplyUsage → List SupplyUsage
others id us = keep_if (λ (u : SupplyUsage). not (of_production id u)) us

taken-intended :
    (j : ℕ) (o : Option ℕ) (q : ℤ) → IsIntended true o → taken (belongs_to j o) q ≡ pos 0
taken-intended j none q h = refl
taken-intended j (some lot) q h = absurd h

pub used_of-others :
    (j id : ℕ) (us : List SupplyUsage) → AreIntended id us → used_of j (others id us) ≡ used_of j us
used_of-others j id [] h = refl
used_of-others j id (u ∷ us) h = elim (Bool-cases (of_production id u)) [
  | inl m ↦
      rw
        (
          m,
          used_of-others j id us h.1,
          taken-intended j u.supply_stock_entry_id u.quantity_used (rw m at h.0),
        )
        (omega int_laws)
  | inr m ↦ rw (m, used_of-others j id us h.1)
]

module _ ⦃ar : Arith⦄ where
  pub AreUses-keep_if :
      (n : ℕ) (p : SupplyUsage → Bool) (us : List SupplyUsage)
      → AreUses n us
      → AreUses n (keep_if p us)
  AreUses-keep_if n p [] h = tt
  AreUses-keep_if n p (u ∷ us) h = elim (Bool-cases (p u)) [
    | inl m ↦ rw m (h.0, AreUses-keep_if n p us h.1)
    | inr m ↦ rw m (AreUses-keep_if n p us h.1)
  ]

module _ ⦃ar : Arith⦄ (laws : RoundingLaws ar) where
  pub complete_production-HasSoundLots :
      (organization user id : ℕ) (db : Db)
      → HasSoundLots db
      → ((p : Production)
          → lookup id db.supplies.productions ≡ some p
          → is_draft p.status ≡ true
          → AreIntended id db.supplies.usages)
      → AreExact
          (own_supplies organization
            (input_ids (inputs_of id db.supplies.usages))
            db.supplies.supply_table)
          (inputs_of id db.supplies.usages)
      → Ensures (λ _ db'. HasSoundLots db') (complete_production (some organization) user id db)
  unfolding complete_production find_production
  complete_production-HasSoundLots organization user id db h free exact_uses =
      let us = db.supplies.usages in
      let db1 : Db = record db { supplies = record db.supplies { usages = others id us } } in
      elim (Option-cases (lookup id db.supplies.productions)) [
        | inl e ↦ rw (e, Ensures) tt
        | inr (p, e) ↦ elim (Bool-cases (owns (some organization) p)) [
          | inr o ↦ rw (e, o, Ensures) tt
          | inl o ↦ elim (Bool-cases (is_draft p.status)) [
            | inr d ↦ rw (e, o, d, Ensures) tt
            | inl d ↦ elim (Bool-cases (length (keep_if (of_production id) us) == 0)) [
              | inl z ↦ rw (e, o, d, z, Ensures) tt
              | inr z ↦
                  rw (e, o, d, z, Ensures)
                    (process_completion-HasSoundLots laws organization user id p (inputs_of id us)
                      db1
                      (recount-HasLots h (others id us)
                        (AreUses-keep_if (next_of db)
                          (λ (u : SupplyUsage). not (of_production id u)) us h.uses)
                        (λ j. used_of-others j id us (free p e d)))
                      exact_uses)
            ]
          ]
        ]
      ]
