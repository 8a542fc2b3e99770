-- ===== src/SeatInventory/Expiry.antt =====
-- ListExpiredHolds: the expired holds, soonest expiry first, up to the limit.
use ticketing_backend.Prelude.{
  ℕ, suc, ◌+◌, ◌≤◌, ◌≡◌, refl, sym, subst, Bool, true, false, ◌&&◌, none, some, ◌++◌, drop, List,
  [], ◌∷◌, arith, ltb, Bool-cases, inl, inr, All, All-take, length, length-take, take, min, ap, ◌∙◌,
  zero,
}
use ticketing_backend.Domain.{InventoryStatus, EventSeatInventory}
use ticketing_backend.Sql.{count_where, select_where, insert_sorted, order_by}
use ticketing_backend.Sql.Laws.{order_by-All, count-append}
use ticketing_backend.Store.Inventory.{
  Table, expires_before, is_expired_hold, expiry, list_expired_holds,
}
use ticketing_backend.SeatInventory.Backlog.{count-order_by, count-same}

-- No row of the list expires before one that stands in front of it.
abbrev pub IsSoonestFirst : List EventSeatInventory → Type 0
IsSoonestFirst [] = Unit
IsSoonestFirst (row ∷ rows) = All (λ r. expiry row ≤ expiry r) rows × IsSoonestFirst rows

All-weaken :
    (a b : ℕ) (rows : List EventSeatInventory)
    → a ≤ b
    → All (λ r. b ≤ expiry r) rows
    → All (λ r. a ≤ expiry r) rows
All-weaken a b [] le h = tt
All-weaken a b (row ∷ rows) le h = (omega arith, All-weaken a b rows le h.1)

insert_sorted-All_from :
    (a : ℕ) (row : EventSeatInventory) (rows : List EventSeatInventory)
    → a ≤ expiry row
    → All (λ r. a ≤ expiry r) rows
    → All (λ r. a ≤ expiry r) (insert_sorted expiry row rows)
unfolding insert_sorted
insert_sorted-All_from a row [] le h = (le, tt)
insert_sorted-All_from a row (r ∷ rs) le h = elim (Bool-cases (ltb (expiry r) (expiry row))) [
  | inl e ↦ rw e (h.0, insert_sorted-All_from a row rs le h.1)
  | inr e ↦ rw e (le, h)
]

insert_sorted-IsSoonestFirst :
    (row : EventSeatInventory) (rows : List EventSeatInventory)
    → IsSoonestFirst rows
    → IsSoonestFirst (insert_sorted expiry row rows)
unfolding insert_sorted
insert_sorted-IsSoonestFirst row [] h = (tt, tt)
insert_sorted-IsSoonestFirst row (r ∷ rs) h = elim (Bool-cases (ltb (expiry r) (expiry row))) [
  | inl e ↦ rw e (
    insert_sorted-All_from (expiry r) row rs (ground arith) h.0,
    insert_sorted-IsSoonestFirst row rs h.1,
  )
  | inr e ↦
      let le : expiry row ≤ expiry r = ground arith in
      rw e ((le, All-weaken (expiry row) (expiry r) rs le h.0), h)
]

pub order_by-IsSoonestFirst :
    (rows : List EventSeatInventory) → IsSoonestFirst (order_by expiry rows)
unfolding order_by
order_by-IsSoonestFirst [] = tt
order_by-IsSoonestFirst (row ∷ rows) =
    insert_sorted-IsSoonestFirst row (order_by expiry rows) (order_by-IsSoonestFirst rows)

length-insert_sorted :
    (row : EventSeatInventory) (rows : List EventSeatInventory)
    → length (insert_sorted expiry row rows) ≡ suc (length rows)
unfolding insert_sorted
length-insert_sorted row [] = refl
length-insert_sorted row (r ∷ rs) = ground (arith, length-insert_sorted row rs)

length-order_by : (rows : List EventSeatInventory) → length (order_by expiry rows) ≡ length rows
unfolding order_by
length-order_by [] = refl
length-order_by (row ∷ rows) =
    omega (arith, length-insert_sorted row (order_by expiry rows), length-order_by rows)

length-select_where :
    (p : EventSeatInventory → Bool) (rows : List EventSeatInventory)
    → length (select_where p rows) ≡ count_where p rows
unfolding select_where count_where
length-select_where p [] = refl
length-select_where p (row ∷ rows) = ground (arith, length-select_where p rows)

abbrev pub IsExpired : ℕ → EventSeatInventory → Type 0
IsExpired before row =
    (row.status ≡ InventoryStatus.held) × (expires_before before row.hold_expires_at ≡ true)

is_expired_hold-IsExpired :
    (before : ℕ) (row : EventSeatInventory)
    → is_expired_hold before row ≡ true
    → IsExpired before row
is_expired_hold-IsExpired before row e = ground arith

pub select_where-IsExpired :
    (before : ℕ) (rows : Table)
    → All (IsExpired before) (select_where (is_expired_hold before) rows)
unfolding select_where
select_where-IsExpired before [] = tt
select_where-IsExpired before (row ∷ rows) = elim (Bool-cases (is_expired_hold before row)) [
  | inl e ↦ rw e (is_expired_hold-IsExpired before row e, select_where-IsExpired before rows)
  | inr e ↦ rw e (select_where-IsExpired before rows)
]

-- Whether a row is a hold with an expiry before the instant.
abbrev pub has_expired : ℕ → EventSeatInventory → Bool
has_expired before row = elim row.status [
  | InventoryStatus.held ↦ elim row.hold_expires_at [ none ↦ false | some x ↦ ltb x before ]
  | _ ↦ false
]

-- The rows of two lists together are the expired holds of a table, each as often as it stands
-- there: of every kind of rows, the two have as many as the table's expired holds.
abbrev pub ArePartsOf : ℕ → Table → List EventSeatInventory → List EventSeatInventory → Type 0
ArePartsOf before rows listed rest =
    (p : EventSeatInventory → Bool)
    → count_where p listed + count_where p rest
      ≡ count_where (λ row. has_expired before row && p row) rows

take-drop : (n : ℕ) (rows : List EventSeatInventory) → take n rows ++ drop n rows ≡ rows
take-drop zero rows = refl
take-drop (suc n) [] = refl
take-drop (suc n) (row ∷ rows) = ap (λ l. row ∷ l) (take-drop n rows)

count-select_where :
    (before : ℕ) (p : EventSeatInventory → Bool) (rows : Table)
    → count_where p (select_where (is_expired_hold before) rows)
      ≡ count_where (λ row. has_expired before row && p row) rows
unfolding select_where count_where
count-select_where before p [] = refl
count-select_where before p (row ∷ rows) = ground (arith, count-select_where before p rows)

listed-ArePartsOf :
    (before limit : ℕ) (rows : Table)
    → let found = order_by expiry (select_where (is_expired_hold before) rows) in
      ArePartsOf before rows (take limit found) (drop limit found)
listed-ArePartsOf before limit rows p =
    let found = select_where (is_expired_hold before) rows in
    let ordered = order_by expiry found in
    sym (count-append p (take limit ordered) (drop limit ordered))
    ∙ ap (count_where p) (take-drop limit ordered)
    ∙ count-order_by p expiry found
    ∙ count-select_where before p rows

-- ListExpiredHolds splits the expired holds of the table, each as often as it stands there, into
-- those that it lists and a rest: the listed ones run from the soonest expiry on, none of the rest
-- expires before a listed one, and they are as many as there are, up to the limit. So no expired
-- hold is left out while there is room, and then the soonest come first.
pub list_expired_holds_lem :
    (before limit : ℕ) (rows : Table)
    → let listed = list_expired_holds before limit rows in
      (rest : List EventSeatInventory) × ArePartsOf before rows listed rest
      × All (IsExpired before) listed
      × IsSoonestFirst (listed ++ rest)
      × (length listed ≡ min limit (count_where (has_expired before) rows))
unfolding list_expired_holds
list_expired_holds_lem before limit rows =
    let found = select_where (is_expired_hold before) rows in
    let ordered = order_by expiry found in
    (
      drop limit ordered,
      listed-ArePartsOf before limit rows,
      All-take (IsExpired before) limit ordered
          (order_by-All (IsExpired before) expiry found (select_where-IsExpired before rows)),
      subst IsSoonestFirst (sym (take-drop limit ordered)) (order_by-IsSoonestFirst found),
      length-take limit ordered
          ∙ ap (min limit) (
              length-order_by found
              ∙ length-select_where (is_expired_hold before) rows
              ∙ count-same (is_expired_hold before) (has_expired before) rows
                  (λ row. ground arith)),
    )
