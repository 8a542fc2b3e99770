-- ===== src/System/Histories.antt =====
-- Methods and handlers as histories of statements on event_seat_inventory, one rule for each way
-- to build them.
use ticketing_backend.Prelude.{
  ℕ, ◌≤◌, ◌≡◌, refl, sym, ◌∙◌, ap, subst, inl, inr, arith, String, Bool, true, false, Option, none,
  some, List, [], ◌∷◌, ◌++◌, All, All-append, Bool-cases,
}
use ticketing_backend.Domain.{Error, Result, ok, err}
use ticketing_backend.Store.Action.{
  Db, World, Env, Action, exec, exec_at, with_id, with_tx, with_tx-ok, with_tx-err, Result-cases,
  Action, next, guard, or_fail,
}
use ticketing_backend.Store.Inventory.{Table}
use ticketing_backend.SeatInventory.Calls.{Call, UnitCall, on, insert, run, step}
use ticketing_backend.Http.{
  Method, Handler, Reply, need, demand, attempt, decode_and_validate, decode_json_body,
}

-- A statement that a part of the system sends: a hold expires no sooner than some instant that
-- the clock showed, and none sends Void.
abbrev pub IsSent : Env → Call → Type 0
IsSent env (on t i (UnitCall.hold k u x)) = (n : ℕ) × (env.clock n ≤ x)
IsSent env (on t i (UnitCall.release k)) = Unit
IsSent env (on t i (UnitCall.confirm_sale k)) = Unit
IsSent env (on t i UnitCall.void) = ⊥
IsSent env (insert news) = Unit

-- The second table comes from the first by statements that are sent, one after another.
pub record Follows (env : Env) (before after : Table) : Type 0 where
  pub calls : List Call
  pub are_sent : All (IsSent env) calls
  pub history : after ≡ run calls before

pub Follows-refl : {env : Env} {before after : Table} → after ≡ before → Follows env before after
unfolding run
Follows-refl e = record { calls = []; are_sent = tt; history = e }

pub run-append : (cs ds : List Call) (rows : Table) → run (cs ++ ds) rows ≡ run ds (run cs rows)
unfolding run
run-append [] ds rows = refl
run-append (c ∷ cs) ds rows = run-append cs ds (step c rows).1

pub Follows-trans :
    {env : Env} {first second third : Table}
    → Follows env first second
    → Follows env second third
    → Follows env first third
Follows-trans {env} {first} p q = record {
  calls = p.calls ++ q.calls;
  are_sent = All-append (IsSent env) p.calls q.calls p.are_sent q.are_sent;
  history = q.history ∙ ap (run q.calls) p.history ∙ sym (run-append p.calls q.calls first);
}

module _ {W : Type 0} (table : W → Table) where
  -- What runs on the world leaves a table that follows from the one that it found.
  pub record Sends {R : Type 0} (m : Env → W → R × W) : Type 0 where
    pub sends : (env : Env) (w : W) → Follows env (table w) (table (m env w).1)

  pub quietly :
      {R : Type 0} {m : Env → W → R × W}
      → ((env : Env) (w : W) → table (m env w).1 ≡ table w)
      → Sends m
  quietly h = record { sends = λ env w. Follows-refl (h env w) }

  -- The end of a method or handler: its result or reply.
  pub end-Sends : {R : Type 0} (r : R) → Sends (λ env w. (r, w))
  end-Sends r = quietly (λ env w. refl)

  pub bind-Sends :
      {A B : Type 0} {m : Method W A} {f : A → Method W B}
      → Sends m
      → ((a : A) → Sends (f a))
      → Sends {R = Result B}
          (λ env w. let (r, w') = m env w in elim r [ ok a ↦ f a env w' | err e ↦ (err e, w') ])
  bind-Sends {A} {B} {m} {f} hm hf = record {
    sends = λ env w. Follows-trans (hm.sends env w) (rest (m env w).0 env (m env w).1);
  }
    where
      rest :
          (r : Result A) (env : Env) (w : W)
          → Follows env
              (table w)
              (table (elim r as (λ _. Result B × W) [ ok a ↦ f a env w | err e ↦ (err e, w) ]).1)
      rest (ok a) env w = (hf a).sends env w
      rest (err e) env w = Follows-refl refl

  pub attempt-Sends :
      {A B : Type 0} {m : Method W A} {refused : Error → Handler W B} {f : A → Handler W B}
      → Sends m
      → ((e : Error) → Sends (refused e))
      → ((a : A) → Sends (f a))
      → Sends (attempt m refused f)
  attempt-Sends {A} {B} {m} {refused} {f} hm he hf = record {
    sends = λ env w. Follows-trans (hm.sends env w) (rest (m env w).0 env (m env w).1);
  }
    where
      rest :
          (r : Result A) (env : Env) (w : W)
          → Follows env (table w) (
              table (elim r as (λ _. Reply B × W) [ ok a ↦ f a env w | err e ↦ refused e env w ]).1)
      rest (ok a) env w = (hf a).sends env w
      rest (err e) env w = (he e).sends env w

  pub need-Sends :
      {A B : Type 0} (o : Option A) (code : ℕ) (type : String) {f : A → Handler W B}
      → ((a : A) → Sends (f a))
      → Sends (need o code type f)
  need-Sends none code type h = quietly (λ env w. refl)
  need-Sends (some a) code type h = h a

  pub demand-Sends :
      {B : Type 0} (b : Bool) (code : ℕ) (type : String) {h : Handler W B}
      → Sends h
      → Sends (demand b code type h)
  demand-Sends true code type h = h
  demand-Sends false code type h = quietly (λ env w. refl)

  pub decode-Sends :
      {Q B : Type 0} (is_valid : Q → Bool) (body : Option Q) {f : Q → Handler W B}
      → ((req : Q) → Sends (f req))
      → Sends (decode_and_validate is_valid body f)
  unfolding decode_and_validate
  decode-Sends is_valid body h = need-Sends body _ _ λ req. demand-Sends (is_valid req) _ _ (h req)

  pub json-Sends :
      {Q B : Type 0} (body : Option Q) {f : Q → Handler W B}
      → ((req : Q) → Sends (f req))
      → Sends (decode_json_body body f)
  unfolding decode_json_body
  json-Sends body h = need-Sends body _ _ h

abbrev pub inventory_of : World → Table
inventory_of w = w.db.inventory

-- A statement on the other tables.
pub exec_quiet :
    {A : Type 0} (statement : Db → Result A × Db)
    → ((db : Db) → (statement db).1.inventory ≡ db.inventory)
    → Sends inventory_of (exec statement)
exec_quiet statement h = quietly inventory_of λ env w. elim (Bool-cases (env.fails w.tick)) [
  | inl down ↦ rw down refl
  | inr up ↦ rw up (h w.db)
]

pub exec_at_quiet :
    {A : Type 0} (statement : ℕ → Db → Result A × Db)
    → ((now : ℕ) (db : Db) → (statement now db).1.inventory ≡ db.inventory)
    → Sends inventory_of (exec_at statement)
exec_at_quiet statement h = record {
  sends = λ env w. (exec_quiet (statement (env.clock w.tick)) (h (env.clock w.tick))).sends env w;
}

pub with_id-Sends : (id : ℕ) → Sends inventory_of (with_id id)
with_id-Sends id = quietly inventory_of λ env w. ground arith

pub guard-Sends : (b : Bool) (e : Error) → Sends inventory_of (guard b e)
guard-Sends b e = quietly inventory_of λ env w. ground arith

pub or_fail-Sends : {A : Type 0} (o : Option A) (e : Error) → Sends inventory_of (or_fail o e)
or_fail-Sends none e = quietly inventory_of λ env w. refl
or_fail-Sends (some a) e = quietly inventory_of λ env w. refl

pub with_tx-Sends :
    {A : Type 0} (fn : Action A) → Sends inventory_of fn → Sends inventory_of (with_tx fn)
with_tx-Sends fn h = record {
  sends = λ env w. elim (Result-cases (with_tx fn env w).0) [
    | inl (a, good) ↦
        subst (Follows env w.db.inventory)
          (sym (ap (λ (db : Db). db.inventory) (with_tx-ok fn env w good).1)) (h.sends env (next w))
    | inr (e, bad) ↦ Follows-refl (ap (λ (db : Db). db.inventory) (with_tx-err fn env w bad))
  ];
}
