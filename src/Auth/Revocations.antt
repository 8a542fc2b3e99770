-- ===== src/Auth/Revocations.antt =====
-- Histories of the statements on refresh_tokens, whichever requests send them and however they
-- interleave, and how often a token is spent in them.
use ticketing_backend.Prelude.{
  ℕ, ◌+◌, ◌≡◌, ◌≤◌, inl, inr, refl, subst, arith, ==_refl, Bool, false, List, [], ◌∷◌, ◌==◌, ◌&&◌,
  if◌then◌else◌, Bool-cases,
}
use ticketing_backend.Domain.Accounts.{RefreshToken}
use ticketing_backend.Sql.{count_where, update_where}
use ticketing_backend.Sql.Laws.{count-update, count-append, count-and-le, count-le-or}
use ticketing_backend.Store.Action.{Db}
use ticketing_backend.Store.TokenRepo.{
  is_live, is_token, revoke_row, revoke_user_rows, set_revoked, insert_token, has_hash,
  new_token_row,
}

-- A statement, at the instant of its clock. `others` stands for any statements on the other
-- tables, and has the tables after them.
pub data Call : Type 0 where
  insert : ℕ → RefreshToken → Call
  revoke : ℕ → ℕ → Call
  revoke_all : ℕ → ℕ → Call
  others : Db → Call

unfoldable pub step : Call → Db → Db
step (Call.insert now rt) db = (insert_token now rt db).1
step (Call.revoke now id) db = record db {
  refresh_tokens = (revoke_row now id db.refresh_tokens).1;
}
step (Call.revoke_all now user_id) db = record db {
  refresh_tokens = revoke_user_rows now user_id db.refresh_tokens;
}
step (Call.others after) db = record after { refresh_tokens = db.refresh_tokens }

-- The call is a Revoke of the token that affects a row.
abbrev pub is_spending : ℕ → Call → Db → Bool
is_spending id (Call.revoke now id') db = id' == id && (revoke_row now id' db.refresh_tokens).0
is_spending id _ db = false

-- How many calls of the history are a Revoke of the token that reports success.
unfoldable pub spendings : ℕ → List Call → Db → ℕ
spendings id [] db = 0
spendings id (c ∷ cs) db = (if is_spending id c db then 1 else 0) + spendings id cs (step c db)

abbrev live_count : ℕ → List RefreshToken → ℕ
live_count id rows = count_where (λ rt. is_token id rt && is_live rt.revoked_at) rows

-- How often the token can still be spent: not at all once its row is revoked.
abbrev left : ℕ → ℕ → ℕ
left rows live = if rows == 0 then 1 else if live == 0 then 0 else 1

abbrev pub budget : ℕ → Db → ℕ
budget id db = left (count_where (is_token id) db.refresh_tokens) (live_count id db.refresh_tokens)

-- An UPDATE whose rows leave the clause q.
count-update_out :
    (q p : RefreshToken → Bool) (now : ℕ) (rows : List RefreshToken)
    → ((rt : RefreshToken) → q (set_revoked now rt) ≡ false)
    → count_where q (update_where p (set_revoked now) rows) ≤ count_where q rows
unfolding count_where update_where
count-update_out q p now [] out = omega arith
count-update_out q p now (rt ∷ rows) out = ground (arith, out rt, count-update_out q p now rows out)

count-update_all :
    (q : RefreshToken → Bool) (now : ℕ) (rows : List RefreshToken)
    → ((rt : RefreshToken) → q (set_revoked now rt) ≡ false)
    → count_where q (update_where q (set_revoked now) rows) ≡ 0
unfolding count_where update_where
count-update_all q now [] out = refl
count-update_all q now (rt ∷ rows) out = ground (arith, out rt, count-update_all q now rows out)

left-le-one : (rows live : ℕ) → left rows live ≤ 1
left-le-one rows live = ground arith

-- Fewer live rows among as many rows leave less to spend.
left_mono : (rows live live' : ℕ) → live' ≤ live → left rows live' ≤ left rows live
left_mono rows live live' h = ground arith

-- An UPDATE that revokes rows.
revoking_budget :
    (id now : ℕ) (p : RefreshToken → Bool) (db : Db)
    → budget id (record db { refresh_tokens = update_where p (set_revoked now) db.refresh_tokens })
      ≤ budget id db
revoking_budget id now p db =
    rw (count-update (is_token id) p (set_revoked now) db.refresh_tokens (λ rt. refl)) (
      left_mono (count_where (is_token id) db.refresh_tokens) _ _ (
        count-update_out (λ rt. is_token id rt && is_live rt.revoked_at) p now db.refresh_tokens
          (λ rt. ground arith)))

spending_budget :
    (id now : ℕ) (db : Db)
    → (if (revoke_row now id db.refresh_tokens).0 then 1 else 0)
        + budget id (record db { refresh_tokens = (revoke_row now id db.refresh_tokens).1 })
      ≤ budget id db
unfolding revoke_row
spending_budget id now db =
    let clause = λ (rt : RefreshToken). is_token id rt && is_live rt.revoked_at in
    ground (
      arith,
      count-update (is_token id) clause (set_revoked now) db.refresh_tokens (λ rt. refl),
      count-update_all clause now db.refresh_tokens (λ rt. ground arith),
      count-and-le (is_token id) (λ (rt : RefreshToken). is_live rt.revoked_at) db.refresh_tokens,
    )

inserting_budget_same :
    (now : ℕ) (rt : RefreshToken) (db : Db)
    → budget rt.id (insert_token now rt db).1 ≤ budget rt.id db
unfolding insert_token
inserting_budget_same now rt db = ground (
  arith,
  count-le-or (is_token rt.id) (has_hash rt.token_hash) db.refresh_tokens,
  left-le-one (count_where (is_token rt.id) (insert_token now rt db).1.refresh_tokens)
      (live_count rt.id (insert_token now rt db).1.refresh_tokens),
)

inserting_budget :
    (id now : ℕ) (rt : RefreshToken) (db : Db) → budget id (insert_token now rt db).1 ≤ budget id db
unfolding insert_token count_where
inserting_budget id now rt db = elim (Bool-cases (rt.id == id)) [
  | inl same ↦
      subst (λ i. budget i (insert_token now rt db).1 ≤ budget i db) (ground arith)
        (inserting_budget_same now rt db)
  | inr other ↦ ground (
    arith,
    count-append (is_token id) db.refresh_tokens (new_token_row now rt ∷ []),
    count-append (λ rt. is_token id rt && is_live rt.revoked_at) db.refresh_tokens
        (new_token_row now rt ∷ []),
  )
]

abbrev SpendsWithin : Call → Db → ℕ → Type 0
SpendsWithin c db id = (if is_spending id c db then 1 else 0) + budget id (step c db) ≤ budget id db

step_budget : (id : ℕ) (c : Call) (db : Db) → SpendsWithin c db id
unfolding step revoke_row revoke_user_rows
step_budget id (Call.insert now rt) db = omega (arith, inserting_budget id now rt db)
step_budget id (Call.revoke now id') db = elim (Bool-cases (id' == id)) [
  | inl same ↦
      let same_id : id' ≡ id = ground arith in
      subst (SpendsWithin (Call.revoke now id') db) same_id
        (rw (==_refl id') (spending_budget id' now db))
  | inr other ↦
      rw other
        (omega (arith, revoking_budget id now (λ rt. is_token id' rt && is_live rt.revoked_at) db))
]
step_budget id (Call.revoke_all now user_id) db =
    omega (arith, revoking_budget id now (λ rt. rt.user_id == user_id && is_live rt.revoked_at) db)
step_budget id (Call.others after) db = ground arith

spendings-budget : (id : ℕ) (cs : List Call) (db : Db) → spendings id cs db ≤ budget id db
unfolding spendings
spendings-budget id [] db = ground arith
spendings-budget id (c ∷ cs) db =
    omega (arith, step_budget id c db, spendings-budget id cs (step c db))

-- In every sequence of statements, of any requests in any order, at most one Revoke of a token
-- reports success, and none does if the token is stored and every row of it was revoked before.
pub spendings-le-one :
    (id : ℕ) (cs : List Call) (db : Db)
    → (spendings id cs db ≤ 1) × (spendings id cs db ≤ budget id db)
spendings-le-one id cs db = omega (
  arith,
  spendings-budget id cs db,
  left-le-one (count_where (is_token id) db.refresh_tokens) (live_count id db.refresh_tokens),
)
