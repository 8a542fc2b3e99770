-- ===== src/SeatInventory/Backlog.antt =====
-- The backlog of the sweep: the holds whose expiry lies before an instant, under the statements.
use ticketing_backend.Prelude.{
  ℕ, zero, suc, ◌+◌, ◌≤◌, ◌≡◌, refl, inl, inr, arith, Bool, true, false, ◌&&◌, some, List, [], ◌∷◌,
  take, All, Option-cases,
}
use ticketing_backend.Domain.{InventoryStatus, EventSeatInventory}
use ticketing_backend.Sql.{count_where, update_where, select_where, insert_sorted, order_by}
use ticketing_backend.Sql.Laws.{count-append}
use ticketing_backend.Store.Inventory
use ticketing_backend.Store.Inventory.{
  Table, is_unit, holds, set_held, set_free, get_by_id, is_expired_hold, expires_before, expiry,
  insert_batch, insert_unit, list_expired_holds,
}
use ticketing_backend.SeatInventory.Keys.{insert_unit_cases}
use ticketing_backend.SeatInventory.Calls.{UnitCall, Call, on, insert, step, unit_step, run}

module _ {ℓ} {A : Type ℓ} where
  -- An update after which no changed row is counted takes the counted ones that it selects away.
  pub count-update_away :
      (p q : A → Bool) (f : A → A) (xs : List A)
      → ((x : A) → p (f x) ≡ false)
      → count_where p (update_where q f xs) + count_where (λ x. q x && p x) xs ≡ count_where p xs
  unfolding count_where update_where
  count-update_away p q f [] away = refl
  count-update_away p q f (x ∷ xs) away = ground (arith, away x, count-update_away p q f xs away)

  pub count-same :
      (p q : A → Bool) (xs : List A) → ((x : A) → p x ≡ q x) → count_where p xs ≡ count_where q xs
  unfolding count_where
  count-same p q [] same = refl
  count-same p q (x ∷ xs) same = ground (arith, same x, count-same p q xs same)

  pub count-select_all :
      (p q : A → Bool) (xs : List A)
      → ((x : A) → p x ≡ true → q x ≡ true)
      → count_where p (select_where q xs) ≡ count_where p xs
  unfolding count_where select_where
  count-select_all p q [] all = refl
  count-select_all p q (x ∷ xs) all = ground (arith, all x, count-select_all p q xs all)

  pub count-select-le :
      (p q : A → Bool) (xs : List A) → count_where p (select_where q xs) ≤ count_where p xs
  unfolding count_where select_where
  count-select-le p q [] = omega arith
  count-select-le p q (x ∷ xs) = ground (arith, count-select-le p q xs)

  count-insert_sorted :
      (p : A → Bool) (key : A → ℕ) (x : A) (xs : List A)
      → count_where p (insert_sorted key x xs) ≡ count_where p (x ∷ xs)
  unfolding count_where insert_sorted
  count-insert_sorted p key x [] = refl
  count-insert_sorted p key x (y ∷ ys) = ground (arith, count-insert_sorted p key x ys)

  pub count-order_by :
      (p : A → Bool) (key : A → ℕ) (xs : List A)
      → count_where p (order_by key xs) ≡ count_where p xs
  unfolding count_where order_by
  count-order_by p key [] = refl
  count-order_by p key (x ∷ xs) =
      ground (arith, count-insert_sorted p key x (order_by key xs), count-order_by p key xs)

  pub count-take-le :
      (p : A → Bool) (n : ℕ) (xs : List A) → count_where p (take n xs) ≤ count_where p xs
  unfolding count_where
  count-take-le p zero xs = omega arith
  count-take-le p (suc n) [] = omega arith
  count-take-le p (suc n) (x ∷ xs) = ground (arith, count-take-le p n xs)

module _ (since : ℕ) where
  -- How many holds expired before the instant.
  abbrev pub backlog : Table → ℕ
  backlog rows = count_where (is_expired_hold since) rows

  -- A hold that starts later is no backlog.
  abbrev pub IsLate : Call → Type 0
  IsLate (on t i (UnitCall.hold k u x)) = since ≤ x
  IsLate c = Unit

  away-le :
      (q : EventSeatInventory → Bool) (f : EventSeatInventory → EventSeatInventory) (rows : Table)
      → ((row : EventSeatInventory) → is_expired_hold since (f row) ≡ false)
      → backlog (update_where q f rows) ≤ backlog rows
  away-le q f rows away = omega (arith, count-update_away (is_expired_hold since) q f rows away)

  insert_batch-backlog :
      (news rows : Table) {rows' : Table}
      → insert_batch news rows ≡ some rows'
      → backlog rows' ≤ backlog rows
  unfolding insert_batch count_where
  insert_batch-backlog [] rows h = ground arith
  insert_batch-backlog (new ∷ news) rows {rows'} h = elim (Option-cases (insert_unit new rows)) [
    | inl refused ↦ absurd (ground arith)
    | inr (rows1, taken) ↦
        let made = (insert_unit_cases new rows taken).0 in
        let free = set_free InventoryStatus.available new in
        let rest : backlog rows' ≤ backlog rows1 =
          insert_batch-backlog news rows1 {rows' = rows'} (ground arith) in
        ground (arith, made, rest, count-append (is_expired_hold since) rows (free ∷ []))
  ]

  step-backlog : (c : Call) (rows : Table) → IsLate c → backlog (step c rows).1 ≤ backlog rows
  unfolding step unit_step Inventory.hold Inventory.release Inventory.confirm_sale Inventory.void
  step-backlog (on t i (UnitCall.hold k u x)) rows late =
      away-le _ (set_held k u x) rows (λ row. ground arith)
  step-backlog (on t i (UnitCall.release k)) rows late =
      away-le _ (set_free InventoryStatus.available) rows (λ row. refl)
  step-backlog (on t i (UnitCall.confirm_sale k)) rows late =
      away-le _ (set_free InventoryStatus.sold) rows (λ row. refl)
  step-backlog (on t i UnitCall.void) rows late =
      away-le _ (set_free InventoryStatus.void) rows (λ row. refl)
  step-backlog (insert news) rows late = elim (Option-cases (insert_batch news rows)) [
    | inl refused ↦ ground arith
    | inr (rows', taken) ↦ ground (arith, insert_batch-backlog news rows taken)
  ]

  pub run-backlog :
      (cs : List Call) (rows : Table) → All IsLate cs → backlog (run cs rows) ≤ backlog rows
  unfolding run
  run-backlog [] rows late = omega arith
  run-backlog (c ∷ cs) rows late =
      omega (arith, step-backlog c rows late.0, run-backlog cs (step c rows).1 late.1)
