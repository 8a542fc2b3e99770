-- ===== src/SeatInventory/Keys.antt =====
-- The primary key of event_seat_inventory, and what each statement does to the unit that it
-- names and to the others.
use ticketing_backend.Prelude.{
  ℕ, ◌≤◌, ◌≡◌, ap, subst, ◌⊎◌, ◌≢◌, Bool, true, false, ◌&&◌, none, some, List, [], ◌∷◌, ◌++◌, arith,
  ◌==◌, is_value, Bool-cases, Option-cases, inl, inr,
}
use ticketing_backend.Domain.{InventoryStatus, EventSeatInventory}
use ticketing_backend.Sql.{update_where, count_where}
use ticketing_backend.Sql.Laws.{
  updated, selected, count-and-le, count-le-or, count-guarded, select-update_same,
  select-update_other, count-update, count-append, select-append_some,
}
use ticketing_backend.Store.Inventory.{
  Table, is_unit, set_free, get_by_id, insert_unit, insert_batch,
}

abbrev pub has_id : ℕ → EventSeatInventory → Bool
has_id id row = row.id == id

-- No identifier stands in two rows.
abbrev pub IsKeyed : Table → Type 0
IsKeyed rows = (id : ℕ) → count_where (has_id id) rows ≤ 1

pub count-is_unit-le :
    (tenant_id id : ℕ) (rows : Table) → IsKeyed rows → count_where (is_unit tenant_id id) rows ≤ 1
count-is_unit-le tenant_id id rows keyed =
    omega (arith, keyed id, count-and-le (has_id id) (λ row. row.tenant_id == tenant_id) rows)

pub update-IsKeyed :
    (p : EventSeatInventory → Bool) (f : EventSeatInventory → EventSeatInventory) (rows : Table)
    → ((row : EventSeatInventory) → (f row).id ≡ row.id)
    → IsKeyed rows
    → IsKeyed (update_where p f rows)
update-IsKeyed p f rows same keyed id =
    rw (count-update (has_id id) p f rows (λ row. rw (same row))) (keyed id)

-- A guarded statement on a unit of a keyed table: it reports whether the unit is there and
-- passes the guard, and the unit is changed exactly then.
module _ (tenant_id id : ℕ) (guard : EventSeatInventory → Bool)
    (change : EventSeatInventory → EventSeatInventory) (rows : Table) where
  pub guarded_result :
      IsKeyed rows
      → (count_where (λ row. is_unit tenant_id id row && guard row) rows == 1)
        ≡ (selected guard (get_by_id tenant_id id rows) == 1)
  unfolding get_by_id
  guarded_result keyed =
      ap (λ n. n == 1)
        (count-guarded (is_unit tenant_id id) guard rows (count-is_unit-le tenant_id id rows keyed))

  pub guarded_same :
      ((row : EventSeatInventory) → is_unit tenant_id id (change row) ≡ is_unit tenant_id id row)
      → get_by_id tenant_id id
          (update_where (λ row. is_unit tenant_id id row && guard row) change rows)
        ≡ updated guard change (get_by_id tenant_id id rows)
  unfolding get_by_id
  guarded_same keeps = select-update_same (is_unit tenant_id id) guard change rows keeps

-- Units under another identifier or of another tenant are not touched.
pub update_others :
    (tenant_id id other_tenant other : ℕ) (p : EventSeatInventory → Bool)
    (f : EventSeatInventory → EventSeatInventory) (rows : Table)
    → ((row : EventSeatInventory) → p row ≡ true → is_unit tenant_id id row ≡ true)
    → ((row : EventSeatInventory)
        → is_unit other_tenant other (f row) ≡ is_unit other_tenant other row)
    → (other ≢ id) ⊎ (other_tenant ≢ tenant_id)
    → get_by_id other_tenant other (update_where p f rows) ≡ get_by_id other_tenant other rows
unfolding get_by_id
update_others tenant_id id other_tenant other p f rows names keeps apart =
    select-update_other (is_unit other_tenant other) p f rows
      λ row pr. ground (arith, names row pr, keeps row)

abbrev pub same_seat : EventSeatInventory → EventSeatInventory → Bool
same_seat new row =
    row.event_id == new.event_id
    && elim new.seat_id [ none ↦ false | some seat ↦ is_value row.seat_id seat ]

-- An accepted row is one whose identifier no row had, and the table grows by it alone.
pub insert_unit_cases :
    (new : EventSeatInventory) (rows : Table) {rows' : Table}
    → insert_unit new rows ≡ some rows'
    → (rows' ≡ rows ++ set_free InventoryStatus.available new ∷ [])
      × (count_where (has_id new.id) rows ≡ 0)
unfolding insert_unit
insert_unit_cases new rows e = ground (arith, count-le-or (has_id new.id) (same_seat new) rows)

pub insert_unit-IsKeyed :
    (new : EventSeatInventory) (rows : Table) {rows' : Table}
    → IsKeyed rows
    → insert_unit new rows ≡ some rows'
    → IsKeyed rows'
unfolding count_where
insert_unit-IsKeyed new rows {rows'} keyed e id =
    let c = insert_unit_cases new rows e in
    rw c.0 (elim (Bool-cases (new.id == id)) [
      | inl same ↦ ground (
        arith,
        keyed id,
        c.1,
        count-append (has_id id) rows (set_free InventoryStatus.available new ∷ []),
      )
      | inr other ↦ ground (
        arith,
        keyed id,
        count-append (has_id id) rows (set_free InventoryStatus.available new ∷ []),
      )
    ])

pub insert_batch-IsKeyed :
    (news : List EventSeatInventory) (rows : Table) {rows' : Table}
    → IsKeyed rows
    → insert_batch news rows ≡ some rows'
    → IsKeyed rows'
unfolding insert_batch
insert_batch-IsKeyed [] rows keyed e = subst IsKeyed (ground arith) keyed
insert_batch-IsKeyed (new ∷ news) rows {rows'} keyed e =
    elim (Option-cases (insert_unit new rows)) [
      | inl refused ↦ absurd (ground arith)
      | inr (rows1, taken) ↦
          insert_batch-IsKeyed news rows1 (insert_unit-IsKeyed new rows keyed taken) (ground arith)
    ]

-- A unit that is in the table stays as it is when others are added.
pub insert_batch_keeps :
    (news : List EventSeatInventory) (tenant_id id : ℕ) (rows : Table) {rows' : Table}
    {unit : EventSeatInventory}
    → insert_batch news rows ≡ some rows'
    → get_by_id tenant_id id rows ≡ some unit
    → get_by_id tenant_id id rows' ≡ some unit
unfolding insert_batch get_by_id
insert_batch_keeps [] tenant_id id rows e found = ground arith
insert_batch_keeps (new ∷ news) tenant_id id rows {rows'} {unit} e found =
    elim (Option-cases (insert_unit new rows)) [
      | inl refused ↦ absurd (ground arith)
      | inr (rows1, taken) ↦ insert_batch_keeps news tenant_id id rows1 (ground arith) (
          rw (insert_unit_cases new rows taken).0
            (select-append_some (is_unit tenant_id id) rows _ found))
    ]
