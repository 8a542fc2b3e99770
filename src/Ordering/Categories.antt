-- ===== src/Ordering/Categories.antt =====
-- The category cache of CreateOrder.
use ticketing_backend.Prelude.{
  ℕ, ◌≡◌, sym, ap, subst, some, List, arith, ◌==◌, Bool-cases, Option-cases, inl, inr, ◌⊎◌,
}
use ticketing_backend.Domain.Events.{EventTicketCategory}
use ticketing_backend.Domain.{ok}
use ticketing_backend.Store.Action.{Db, World, Env}
use ticketing_backend.Store.EventRepo
use ticketing_backend.Store.EventRepo.{categories_of}
use ticketing_backend.Ordering.Create.{Draft, load_categories, put}

-- The cache holds what the repository would answer.
abbrev pub IsFresh : ℕ → Db → Draft → Type 0
IsFresh t db d =
    (e : ℕ) (cs : List EventTicketCategory)
    → d.category_cache e ≡ some cs
    → cs ≡ categories_of t e db

-- What a step of the loop keeps.
abbrev pub IsKept : Draft → Draft → World → World → Type 0
IsKept d d' w w' =
    (d'.index ≡ d.index)
    × (d'.subtotal ≡ d.subtotal)
    × (d'.order_items ≡ d.order_items)
    × (w'.db ≡ w.db)

put-IsFresh :
    (t e : ℕ) (db : Db) (d : Draft)
    → IsFresh t db d
    → IsFresh t db
        (record d { category_cache = put e (some (categories_of t e db)) d.category_cache })
put-IsFresh t e db d fresh j cs h = elim (Bool-cases (e == j)) [
  | inl same ↦ ground (arith, fresh j cs)
  | inr differs ↦ ground (arith, fresh j cs)
]

load_categories_cases :
    (t e : ℕ) (d : Draft) (env : Env) (w : World) {x : List EventTicketCategory × Draft}
    → IsFresh t w.db d
    → (load_categories t e d env w).0 ≡ ok x
    → (x.0 ≡ categories_of t e w.db)
      × ((x.1 ≡ d)
          ⊎ (x.1 ≡ record d {
            category_cache = put e (some (categories_of t e w.db)) d.category_cache;
          }))
      × ((load_categories t e d env w).1.db ≡ w.db)
unfolding load_categories EventRepo.list_ticket_categories
load_categories_cases t e d env w {x} fresh h = elim (Option-cases (d.category_cache e)) [
  | inl miss ↦ (ground arith, inr (ground arith), ground arith)
  | inr (cs, hit) ↦ (ground (arith, fresh e cs hit), inl (ground arith), ground arith)
]

pub load_categories-ok :
    (t e : ℕ) (d : Draft) (env : Env) (w : World) {x : List EventTicketCategory × Draft}
    → IsFresh t w.db d
    → (load_categories t e d env w).0 ≡ ok x
    → (x.0 ≡ categories_of t e w.db)
      × IsFresh t w.db x.1
      × IsKept d x.1 w (load_categories t e d env w).1
load_categories-ok t e d env w {x} fresh h =
    let (p, q, r) = load_categories_cases t e d env w fresh h in
    elim q [
      | inl same ↦ (
        p,
        subst (IsFresh t w.db) (sym same) fresh,
        (ap (λ d. d.index) same, ap (λ d. d.subtotal) same, ap (λ d. d.order_items) same, r),
      )
      | inr stored ↦ (
        p,
        subst (IsFresh t w.db) (sym stored) (put-IsFresh t e w.db d fresh),
        (ap (λ d. d.index) stored, ap (λ d. d.subtotal) stored, ap (λ d. d.order_items) stored, r),
      )
    ]
