-- ===== src/SeatInventory/Reclaimed.antt =====
-- What releasing the listed holds takes off the backlog.
use ticketing_backend.Prelude.{
  ℕ, zero, suc, ◌+◌, ◌≤◌, ◌≡◌, ◌∙◌, ap, refl, inl, inr, arith, true, false, ◌&&◌, some, List, [],
  ◌∷◌, ◌==◌, ltb, min, take, All, All-take, Bool-cases, Option-cases,
}
use ticketing_backend.Domain.{InventoryStatus, EventSeatInventory}
use ticketing_backend.Sql.{count_where, select_where, select_first, order_by}
use ticketing_backend.Sql.Laws.{
  count-guarded, count-and-le, order_by-All, select_where-All, selected, select-count,
}
use ticketing_backend.Store.Inventory
use ticketing_backend.Store.Inventory.{
  Table, is_unit, holds, set_held, set_free, get_by_id, is_expired_hold, expires_before, expiry,
  list_expired_holds,
}
use ticketing_backend.SeatInventory.Keys.{IsKeyed, has_id, count-is_unit-le}
use ticketing_backend.SeatInventory.Expiry.{
  IsExpired, IsSoonestFirst, order_by-IsSoonestFirst, select_where-IsExpired,
}
use ticketing_backend.SeatInventory.Machine.{IsConsistent, UnitState}
use ticketing_backend.SeatInventory.Backlog.{
  backlog, count-update_away, count-same, count-select_all, count-select-le, count-order_by,
  count-take-le,
}

pub All-map {ℓ κ μ} :
    {A : Type ℓ} (P : A → Type κ) (Q : A → Type μ) (xs : List A)
    → ((x : A) → P x → Q x)
    → All P xs
    → All Q xs
All-map P Q [] f h = tt
All-map P Q (x ∷ xs) f h = (f x h.0, All-map P Q xs f h.1)

pub All-both {ℓ κ μ} :
    {A : Type ℓ} (P : A → Type κ) (Q : A → Type μ) (xs : List A)
    → All P xs
    → All Q xs
    → All (λ x. P x × Q x) xs
All-both P Q [] p q = tt
All-both P Q (x ∷ xs) p q = ((p.0, q.0), All-both P Q xs p.1 q.1)

-- The unit that the row names is the row, a hold with its token.
abbrev pub IsFound : Table → EventSeatInventory → Type 0
IsFound rows r =
    (get_by_id r.tenant_id r.id rows ≡ some r)
    × (r.status ≡ InventoryStatus.held)
    × ((k : ℕ) × (r.hold_token ≡ some k))

-- No row names the unit of one before it.
abbrev pub AreApart : List EventSeatInventory → Type 0
AreApart [] = Unit
AreApart (r ∷ rs) = All (λ r'. is_unit r'.tenant_id r'.id r ≡ false) rs × AreApart rs

pub release-backlog :
    (since k : ℕ) (r : EventSeatInventory) (rows : Table)
    → IsKeyed rows
    → IsFound rows r
    → r.hold_token ≡ some k
    → backlog since (Inventory.release r.tenant_id r.id k rows).1
        + count_where (is_expired_hold since) (r ∷ [])
      ≡ backlog since rows
unfolding Inventory.release get_by_id count_where
release-backlog since k r rows keyed found token =
    let p = is_expired_hold since in
    let key = is_unit r.tenant_id r.id in
    let gone =
      count-update_away p (λ row. key row && holds k row) (set_free InventoryStatus.available) rows
        (λ row. refl) in
    let one : count_where (λ row. (key row && holds k row) && p row) rows ≡ count_where p (r ∷ []) =
      count-same (λ row. (key row && holds k row) && p row)
        (λ row. key row && (holds k row && p row)) rows (λ row. ground arith)
      ∙ count-guarded key (λ row. holds k row && p row) rows
          (count-is_unit-le r.tenant_id r.id rows keyed)
      ∙ ap (selected (λ row. holds k row && p row)) found.0
      ∙ ground arith in
    omega (arith, gone, one)

names_self : (xs : Table) → All (λ r. 1 ≤ count_where (has_id r.id) xs) xs
unfolding count_where
names_self [] = tt
names_self (x ∷ xs) = (ground arith, All-map _ _ xs (λ r h. ground arith) (names_self xs))

IsKeyed-tail : (x : EventSeatInventory) (xs : Table) → IsKeyed (x ∷ xs) → IsKeyed xs
unfolding count_where
IsKeyed-tail x xs keyed id = ground (arith, keyed id)

found_behind :
    (x : EventSeatInventory) (xs : Table) (r : EventSeatInventory)
    → IsKeyed (x ∷ xs)
    → get_by_id r.tenant_id r.id xs ≡ some r
    → get_by_id r.tenant_id r.id (x ∷ xs) ≡ some r
unfolding get_by_id select_first count_where
found_behind x xs r keyed h = elim (Bool-cases (x.id == r.id)) [
  | inl same ↦
      let key = is_unit r.tenant_id r.id in
      let there : 1 ≤ count_where key xs = omega (arith, select-count key xs h) in
      absurd (
        ground (
          arith,
          keyed r.id,
          there,
          count-and-le (has_id r.id) (λ row. row.tenant_id == r.tenant_id) xs,
        ))
  | inr other ↦ ground (arith, h)
]

pub keyed-found : (xs : Table) → IsKeyed xs → All (λ r. get_by_id r.tenant_id r.id xs ≡ some r) xs
unfolding get_by_id select_first count_where
keyed-found [] keyed = tt
keyed-found (x ∷ xs) keyed = (
  ground arith,
  All-map _ _ xs (λ r h. found_behind x xs r keyed h) (keyed-found xs (IsKeyed-tail x xs keyed)),
)

pub keyed-AreApart : (xs : Table) → IsKeyed xs → AreApart xs
unfolding count_where
keyed-AreApart [] keyed = tt
keyed-AreApart (x ∷ xs) keyed = (
  All-map _ _ xs (λ r h. ground (arith, keyed r.id)) (names_self xs),
  keyed-AreApart xs (IsKeyed-tail x xs keyed),
)

pub listed-IsKeyed :
    (before limit : ℕ) (rows : Table)
    → IsKeyed rows
    → IsKeyed (list_expired_holds before limit rows)
unfolding list_expired_holds
listed-IsKeyed before limit rows keyed id =
    let found = select_where (is_expired_hold before) rows in
    omega (
      arith,
      keyed id,
      count-select-le (has_id id) (is_expired_hold before) rows,
      count-order_by (has_id id) expiry found,
      count-take-le (has_id id) limit (order_by expiry found),
    )

IsExpired-late :
    (since before : ℕ) (r : EventSeatInventory)
    → IsExpired before r
    → is_expired_hold since r ≡ ltb (expiry r) since
IsExpired-late since before r h = elim (Option-cases r.hold_expires_at) [
  | inl unset ↦ ground arith
  | inr (x, set) ↦ ground arith
]

count_late :
    (since a before : ℕ) (xs : Table)
    → since ≤ a
    → All (IsExpired before) xs
    → All (λ r. a ≤ expiry r) xs
    → backlog since xs ≡ 0
unfolding count_where
count_late since a before [] le h late = refl
count_late since a before (x ∷ xs) le h late =
    ground (arith, IsExpired-late since before x h.0, count_late since a before xs le h.1 late.1)

take-backlog :
    (since before n : ℕ) (xs : Table)
    → All (IsExpired before) xs
    → IsSoonestFirst xs
    → backlog since (take n xs) ≡ min n (backlog since xs)
unfolding count_where
take-backlog since before zero xs h sorted = omega arith
take-backlog since before (suc n) [] h sorted = omega arith
take-backlog since before (suc n) (x ∷ xs) h sorted = elim (Bool-cases (ltb (expiry x) since)) [
  | inl early ↦
      ground (arith, IsExpired-late since before x h.0, take-backlog since before n xs h.1 sorted.1)
  | inr later ↦
      let none_left = count_late since (expiry x) before xs (ground arith) h.1 sorted.0 in
      ground (
        arith,
        IsExpired-late since before x h.0,
        none_left,
        count-take-le (is_expired_hold since) n xs,
      )
]

expired_before :
    (since before : ℕ) (r : EventSeatInventory)
    → since ≤ before
    → is_expired_hold since r ≡ true
    → is_expired_hold before r ≡ true
expired_before since before r le h = elim (Option-cases r.hold_expires_at) [
  | inl unset ↦ ground arith
  | inr (x, set) ↦ ground arith
]

pub listed-backlog :
    (since before limit : ℕ) (rows : Table)
    → since ≤ before
    → backlog since (list_expired_holds before limit rows) ≡ min limit (backlog since rows)
unfolding list_expired_holds
listed-backlog since before limit rows le =
    let p = is_expired_hold since in
    let found = select_where (is_expired_hold before) rows in
    take-backlog since before limit (order_by expiry found)
      (order_by-All (IsExpired before) expiry found (select_where-IsExpired before rows))
      (order_by-IsSoonestFirst found)
    ∙ ap (min limit) (
        count-order_by p expiry found
        ∙ count-select_all p (is_expired_hold before) rows
            (λ r h. expired_before since before r le h))

IsFound-hold :
    (before : ℕ) (rows : Table) (r : EventSeatInventory)
    → is_expired_hold before r ≡ true
    → get_by_id r.tenant_id r.id rows ≡ some r
    → IsConsistent r
    → IsFound rows r
IsFound-hold before rows r e found (UnitState.available, h) = absurd (ground arith)
IsFound-hold before rows r e found (UnitState.held k x, h) = (found, h.0, (k, h.1))
IsFound-hold before rows r e found (UnitState.sold, h) = absurd (ground arith)
IsFound-hold before rows r e found (UnitState.void, h) = absurd (ground arith)

pub listed-IsFound :
    (before limit : ℕ) (rows : Table)
    → IsKeyed rows
    → All IsConsistent rows
    → All (IsFound rows) (list_expired_holds before limit rows)
unfolding list_expired_holds
listed-IsFound before limit rows keyed consistent =
    let p = is_expired_hold before in
    let P =
      λ (r : EventSeatInventory). (get_by_id r.tenant_id r.id rows ≡ some r) × IsConsistent r in
    let found : All (IsFound rows) (select_where p rows) =
      All-map (λ (r : EventSeatInventory). (p r ≡ true) × P r) (IsFound rows) (select_where p rows)
        (λ r h. IsFound-hold before rows r h.0 h.1.0 h.1.1)
        (select_where-All P p rows (All-both _ _ rows (keyed-found rows keyed) consistent)) in
    All-take (IsFound rows) limit (order_by expiry (select_where p rows))
      (order_by-All (IsFound rows) expiry (select_where p rows) found)
