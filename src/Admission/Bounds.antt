-- ===== src/Admission/Bounds.antt =====
-- How many fans one tick admits for an event.
use ticketing_backend.Prelude.{
  ℕ, ◌≤◌, ◌≡◌, refl, arith, String, Option-cases, List, [], ◌∷◌, ◌==◌, length, Bool-cases, ◌⊎◌, inl,
  inr,
}
use ticketing_backend.Domain.{ok}
use ticketing_backend.Store.Action.{World, Env, next, Result-cases}
use ticketing_backend.Store.Inventory
use ticketing_backend.Store.InventoryRepo
use ticketing_backend.Redis.{Key, Client}
use ticketing_backend.Redis.WaitingRoom
use ticketing_backend.Redis.WaitingRoom.{parsed}
use ticketing_backend.Holding
use ticketing_backend.Holding.{Config}
use ticketing_backend.Admission.{
  min64, total_available, admit_some, admit_available, admit_queued, admit_for_event,
}

min64_le :
    (m : ℕ) (a b : ℕ) → let least = min64 m (a ∷ b ∷ []) in (least ≤ m) × (least ≤ a) × (least ≤ b)
unfolding min64
min64_le m a b = ground arith

length-parsed :
    {S : Type 0} (client : Client S) (members : List String)
    → length (parsed client members) ≤ length members
unfolding parsed
length-parsed client [] = omega arith
length-parsed client (member ∷ members) = elim (Option-cases (client.uuid_parse member)) [
  | inl bad ↦ ground (arith, length-parsed client members)
  | inr (id, good) ↦ ground (arith, length-parsed client members)
]

List-cases : {A : Type 0} (xs : List A) → (xs ≡ []) ⊎ ((x : A) × (rest : List A) × (xs ≡ x ∷ rest))
List-cases [] = inl refl
List-cases (x ∷ rest) = inr (x, rest, refl)

-- ZPOPMIN key n removes at most n members.
abbrev pub PopsAtMost : {S : Type 0} → Client S → Type 0
PopsAtMost {S} client =
    (now : ℕ) (key : Key) (n : ℕ) (s : S) → length (client.zpopmin now key n s).0 ≤ n

module _ {S : Type 0} (client : Client S) (cfg : Config) (pops : PopsAtMost client) where
  admit-le :
      (e c ttl : ℕ) (env : Env) (s : S) (w : World) {ids : List ℕ}
      → (WaitingRoom.admit client e c ttl env (s, w)).0 ≡ ok ids
      → length ids ≤ c
  unfolding WaitingRoom.admit
  admit-le e c ttl env s w {ids} h =
      let popped = (client.zpopmin (env.clock w.tick) (Key.queue e) c s).0 in
      let few = pops (env.clock w.tick) (Key.queue e) c s in
      elim (Bool-cases (c == 0)) [
        | inl zero ↦ ground arith
        | inr more ↦ elim (List-cases popped) [
          | inl empty ↦ ground arith
          | inr (member, members, some_popped) ↦
              ground (arith, few, length-parsed client (member ∷ members))
        ]
      ]

  admit_some-le :
      (max e c : ℕ) (env : Env) (s : S) (w : World) {n : ℕ}
      → (admit_some client cfg max e c env (s, w)).0 ≡ ok n
      → n ≤ c
  unfolding Holding.admit_next
  admit_some-le max e c env s w {n} h = elim (Bool-cases (c == 0)) [
    | inl zero ↦ ground arith
    | inr more ↦ elim (Result-cases (WaitingRoom.admit client e c cfg.admission_ttl env (s, w)).0) [
      | inl (ids, done) ↦ ground (arith, admit-le e c cfg.admission_ttl env s w {ids = ids} done)
      | inr (x, failed) ↦ absurd (ground arith)
    ]
  ]

-- If ZPOPMIN removes at most as many members as it is asked for, then the fans that one tick
-- admits for an event are no more than those in the queue, no more than the free units that the
-- table counts for the event, and no more than the cap.
pub admit_for_event_bounded :
    {S : Type 0} (client : Client S) (cfg : Config) (max t e : ℕ) (env : Env) (s : S) (w : World)
    {n : ℕ}
    → PopsAtMost client
    → (admit_for_event client cfg max t e env (s, w)).0 ≡ ok n
    → (n ≤ client.zcard (env.clock w.tick) (Key.queue e) s)
      × (n ≤ total_available (Inventory.count_by_status t e w.db.inventory))
      × (n ≤ max)
unfolding admit_for_event admit_queued admit_available Holding.queue_length WaitingRoom.queue_length
    InventoryRepo.count_by_status
admit_for_event_bounded client cfg max t e env s w {n} pops h =
    let queued = client.zcard (env.clock w.tick) (Key.queue e) s in
    let free = total_available (Inventory.count_by_status t e w.db.inventory) in
    let count = min64 queued (free ∷ max ∷ []) in
    let least = min64_le queued free max in
    elim (Bool-cases (env.fails w.tick)) [
      | inl down ↦ absurd (ground arith)
      | inr calm ↦ elim (Bool-cases (queued == 0)) [
        | inl empty ↦ ground arith
        | inr some_queued ↦ elim (Bool-cases (env.fails (next w).tick)) [
          | inl down ↦ absurd (ground arith)
          | inr calm' ↦ elim (Bool-cases (free == 0)) [
            | inl sold_out ↦ ground arith
            | inr some_free ↦ ground (
              arith,
              least,
              admit_some-le client cfg pops max e count env s (next (next w)) {n = n},
            )
          ]
        ]
      ]
    ]
