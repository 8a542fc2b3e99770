-- ===== src/Http/Isolation.antt =====
-- The tables as the other tenants see them, and methods and handlers that leave that view alone.
use ticketing_backend.Prelude.{
  ℕ, ◌≡◌, ◌∙◌, inl, inr, refl, arith, String, Bool, true, false, not, Option, none, some, List, [],
  ◌∷◌, ◌++◌, ◌==◌, Bool-cases,
}
use ticketing_backend.Domain.{Error, Result, ok, nil_uuid}
use ticketing_backend.Sql.{select_where, update_where}
use ticketing_backend.Store.Action.{
  Db, World, Env, Action, pure, ◌>>=◌, ◌>>◌, exec, with_id, Result-cases,
}
use ticketing_backend.Http.{Handler, need, attempt, decode_and_validate}

-- The tables as the other tenants see them: without the rows of the tenant, in the five tables
-- that belong to tenants and that staff can change.
unfoldable pub without_tenant : ℕ → Db → Db
without_tenant t db = record db {
  inventory = select_where (λ row. not (row.tenant_id == t)) db.inventory;
  events = select_where (λ row. not (row.tenant_id == t)) db.events;
  ticket_categories = select_where (λ row. not (row.tenant_id == t)) db.ticket_categories;
  seat_categories = select_where (λ row. not (row.tenant_id == t)) db.seat_categories;
  venues = select_where (λ row. not (row.tenant_id == t)) db.venues;
}

pub select-append_out :
    {A : Type 0} (p : A → Bool) (xs : List A) (x : A)
    → p x ≡ false
    → select_where p (xs ++ x ∷ []) ≡ select_where p xs
unfolding select_where
select-append_out p [] x out = rw out refl
select-append_out p (y ∷ xs) x out = ground (arith, select-append_out p xs x out)

pub select-update_out :
    {A : Type 0} (p q : A → Bool) (f : A → A) (xs : List A)
    → ((x : A) → q x ≡ true → (p x ≡ false) × (p (f x) ≡ false))
    → select_where p (update_where q f xs) ≡ select_where p xs
unfolding select_where update_where
select-update_out p q f [] out = refl
select-update_out p q f (x ∷ xs) out = elim (Bool-cases (q x)) [
  | inl e ↦ ground (arith, out x e, select-update_out p q f xs out)
  | inr e ↦ ground (arith, select-update_out p q f xs out)
]

module _ (t : ℕ) where
  -- A method or a handler that leaves the other tenants' rows alone.
  abbrev pub Keeps : {R : Type 0} → (Env → World → R × World) → Type 0
  Keeps m = (env : Env) (w : World) → without_tenant t (m env w).1.db ≡ without_tenant t w.db

  pub bind-Keeps :
      {A B : Type 0} (m : Action A) (f : A → Action B)
      → Keeps m
      → ((a : A) → Keeps (f a))
      → Keeps (m >>= f)
  bind-Keeps m f hm hf env w = elim (Result-cases (m env w).0) [
    | inl (a, good) ↦
        let same : (m >>= f) env w ≡ f a env (m env w).1 = ground arith in
        rw same (hf a env (m env w).1 ∙ hm env w)
    | inr (e, bad) ↦
        let same : ((m >>= f) env w).1 ≡ (m env w).1 = ground arith in rw same (hm env w)
  ]

  pub exec-Keeps :
      {A : Type 0} (statement : Db → Result A × Db)
      → ((db : Db) → without_tenant t (statement db).1 ≡ without_tenant t db)
      → Keeps (exec statement)
  exec-Keeps statement h env w = elim (Bool-cases (env.fails w.tick)) [
    | inl down ↦ rw down refl
    | inr up ↦ rw up (h w.db)
  ]

  pub with_id-Keeps : (id : ℕ) → Keeps (with_id id)
  with_id-Keeps id env w = elim (Bool-cases (id == nil_uuid)) [
    | inl e ↦ rw e refl
    | inr e ↦ rw e refl
  ]

  pub attempt-Keeps :
      {A B : Type 0} (m : Action A) (refused : Error → Handler World B) (f : A → Handler World B)
      → Keeps m
      → ((e : Error) → Keeps (refused e))
      → ((a : A) → Keeps (f a))
      → Keeps (attempt m refused f)
  attempt-Keeps m refused f hm he hf env w = elim (Result-cases (m env w).0) [
    | inl (a, good) ↦
        let same : attempt m refused f env w ≡ f a env (m env w).1 = ground arith in
        rw same (hf a env (m env w).1 ∙ hm env w)
    | inr (e, bad) ↦
        let same : attempt m refused f env w ≡ refused e env (m env w).1 = ground arith in
        rw same (he e env (m env w).1 ∙ hm env w)
  ]

  -- The results of a method satisfy P.
  abbrev pub Gives : {A : Type 0} → Action A → (A → Type 0) → Type 0
  Gives {A} m P = (env : Env) (w : World) (a : A) → (m env w).0 ≡ ok a → P a

  pub attempt-Keeps_given :
      {A B : Type 0} (P : A → Type 0) (m : Action A) (refused : Error → Handler World B)
      (f : A → Handler World B)
      → Gives m P
      → Keeps m
      → ((e : Error) → Keeps (refused e))
      → ((a : A) → P a → Keeps (f a))
      → Keeps (attempt m refused f)
  attempt-Keeps_given P m refused f gives hm he hf env w = elim (Result-cases (m env w).0) [
    | inl (a, good) ↦
        let same : attempt m refused f env w ≡ f a env (m env w).1 = ground arith in
        rw same (hf a (gives env w a good) env (m env w).1 ∙ hm env w)
    | inr (e, bad) ↦
        let same : attempt m refused f env w ≡ refused e env (m env w).1 = ground arith in
        rw same (he e env (m env w).1 ∙ hm env w)
  ]

  pub need-Keeps :
      {A B : Type 0} (o : Option A) (code : ℕ) (type : String) (f : A → Handler World B)
      → ((a : A) → Keeps (f a))
      → Keeps (need o code type f)
  need-Keeps none code type f h env w = refl
  need-Keeps (some a) code type f h env w = h a env w

  pub decode-Keeps :
      {R B : Type 0} (is_valid : R → Bool) (body : Option R) (f : R → Handler World B)
      → ((req : R) → Keeps (f req))
      → Keeps (decode_and_validate is_valid body f)
  unfolding decode_and_validate
  decode-Keeps is_valid none f h env w = refl
  decode-Keeps is_valid (some req) f h env w = elim (Bool-cases (is_valid req)) [
    | inl e ↦ rw e (h req env w)
    | inr e ↦ rw e refl
  ]

  pub insert-Keeps :
      {A : Type 0} (i : ℕ) (statement : ℕ → Db → Result (Unit {0}) × Db) (result : ℕ → A)
      → ((id : ℕ) (db : Db) → without_tenant t (statement id db).1 ≡ without_tenant t db)
      → Keeps (do id ← with_id i; exec (statement id); pure (result id))
  insert-Keeps i statement result h =
      bind-Keeps (with_id i) (λ id. exec (statement id) >> pure (result id)) (with_id-Keeps i)
        λ id.
          bind-Keeps (exec (statement id)) (λ _. pure (result id))
            (exec-Keeps (statement id) (h id)) λ _ env w. refl

  pub own_row : (n : ℕ) → n ≡ t → not (n == t) ≡ false
  own_row n own = ground arith
