-- ===== src/Outbox/Sending.antt =====
-- How many messages a batch sends.
use ticketing_backend.Prelude.{
  ℕ, ◌+◌, ◌≤◌, ◌≡◌, ◌⊎◌, refl, sym, ap, subst, ◌∙◌, arith, ◌++◌, append-nil, append_assoc, Option,
  some, String, false, List, [], ◌∷◌, ◌==◌, length, length-append, length-take-le, Bool-cases,
  Option-cases, inl, inr,
}
use ticketing_backend.Domain.{
  Error, Result, ok, err, Notification, Payload, EmailMessage, is_unsent,
}
use ticketing_backend.Domain.Accounts.{User}
use ticketing_backend.Sql.{select_first, select_where, order_by}
use ticketing_backend.Store.Action.{Db, World, Env, next, Result-cases}
use ticketing_backend.Store.UserRepo
use ticketing_backend.Store.NotificationRepo
use ticketing_backend.Store.NotificationRepo.{pending_of}
use ticketing_backend.Outbox.{
  send, render, process_one, record_attempt, process_all, process_pending,
}

abbrev pub mails : World → ℕ
mails w = length w.emails

module _ (body_of : Payload → String) where
  -- An attempt sends one message if it succeeds and none if it fails.
  process_one-mails :
      (n : Notification) (env : Env) (w : World)
      → mails (process_one body_of n env w).1
        ≡ (elim (process_one body_of n env w).0 [ ok _ ↦ mails w + 1 | err e ↦ mails w ])
  unfolding process_one send UserRepo.get_by_id
  process_one-mails n env w =
      elim (Option-cases (select_first (λ u. u.id == n.user_id) w.db.users)) [
        | inl unknown ↦ ground arith
        | inr (user, known) ↦
            ground (arith, length-append w.emails (render body_of n user.email ∷ []))
      ]

  record_attempt-mails :
      (n : Notification) (r : Result (Unit {0})) (env : Env) (w : World)
      → (mails (record_attempt body_of n r env w).1 ≡ mails w)
  unfolding record_attempt NotificationRepo.mark_sent NotificationRepo.mark_failed
  record_attempt-mails n (ok _) env w = ground arith
  record_attempt-mails n (err e) env w = ground arith

  uncounted_error :
      (n : Notification) (e : Error) (env : Env) (w : World)
      → (record_attempt body_of n (err e) env w).0 ≡ false
  unfolding record_attempt
  uncounted_error n e env w = refl

  process_all-mails :
      (k : ℕ) (ns : List Notification) (env : Env) (w : World)
      → let (sent, w') = process_all body_of k ns env w in
        (mails w + sent ≤ mails w' + k) × (mails w' ≤ mails w + length ns) × (sent ≤ k + length ns)
  unfolding process_all
  process_all-mails k [] env w = omega arith
  process_all-mails k (n ∷ ns) env w =
      let w1 = (process_one body_of n env w).1 in
      let r = (process_one body_of n env w).0 in
      let w2 = (record_attempt body_of n r env w1).1 in
      let one = process_one-mails n env w in
      let two = record_attempt-mails n r env w1 in
      let not_counted = process_all-mails k ns env w2 in
      elim (Result-cases r) [
        | inl (u, done) ↦ elim (Bool-cases (record_attempt body_of n r env w1).0) [
          | inl counts ↦ ground (arith, one, two, process_all-mails (k + 1) ns env w2)
          | inr uncounted ↦ ground (arith, one, two, not_counted)
        ]
        | inr (e, failed) ↦ ground (arith, one, two, uncounted_error n e env w1, not_counted)
      ]

-- The confirmation of a notification, to an address.
abbrev pub message_for : (Payload → String) → Notification → String → EmailMessage
message_for body_of n email = record {
  to = email;
  subject = "Your order is confirmed";
  body = body_of n.payload;
}

abbrev pub user_of : Notification → List User → Option User
user_of n users = select_first (λ u. u.id == n.user_id) users

-- Of the notifications in turn, each has sent its own confirmation to its user once or nothing.
abbrev pub AreSentFor :
    (Payload → String) → List User → List Notification → List EmailMessage → Type 0
AreSentFor body_of users [] messages = messages ≡ []
AreSentFor body_of users (n ∷ ns) messages =
    AreSentFor body_of users ns messages
    ⊎ ((user : User) × (rest : List EmailMessage) × (user_of n users ≡ some user)
        × (messages ≡ message_for body_of n user.email ∷ rest)
        × AreSentFor body_of users ns rest)

module _ (body_of : Payload → String) where
  render-message_for :
      (n : Notification) (email : String) → render body_of n email ≡ message_for body_of n email
  unfolding render
  render-message_for n email = ground arith

  -- What one attempt adds to the mails.
  abbrev OneSent : List User → Notification → List EmailMessage → List EmailMessage → Type 0
  OneSent users n before after =
      (after ≡ before)
      ⊎ ((user : User) × (user_of n users ≡ some user)
          × (after ≡ before ++ message_for body_of n user.email ∷ []))

  process_one-OneSent :
      (n : Notification) (env : Env) (w : World)
      → let w' = (process_one body_of n env w).1 in
        OneSent w.db.users n w.emails w'.emails × (w'.db ≡ w.db)
  unfolding process_one send UserRepo.get_by_id
  process_one-OneSent n env w = elim (Option-cases (user_of n w.db.users)) [
    | inl unknown ↦ (inl (ground arith), ground arith)
    | inr (user, known) ↦ elim (Bool-cases (env.fails w.tick)) [
      | inl down ↦ (inl (ground arith), ground arith)
      | inr up ↦ elim (Bool-cases (env.send (next w).tick (render body_of n user.email))) [
        | inl sent ↦
            (inr (user, known, ground (arith, render-message_for n user.email)), ground arith)
        | inr refused ↦ (inl (ground arith), ground arith)
      ]
    ]
  ]

  record_attempt-frame :
      (n : Notification) (r : Result (Unit {0})) (env : Env) (w : World)
      → let w' = (record_attempt body_of n r env w).1 in
        (w'.emails ≡ w.emails) × (w'.db.users ≡ w.db.users)
  unfolding record_attempt NotificationRepo.mark_sent NotificationRepo.mark_failed
  record_attempt-frame n (ok _) env w = (ground arith, ground arith)
  record_attempt-frame n (err e) env w = (ground arith, ground arith)

  -- The mails after some notifications, as those before and what was sent for them.
  abbrev pub Sent : List User → List Notification → List EmailMessage → List EmailMessage → Type 0
  Sent users ns before after =
      (messages : List EmailMessage) × (after ≡ before ++ messages)
      × AreSentFor body_of users ns messages

  one_more :
      (users : List User) (n : Notification) (ns : List Notification)
      {before mid after : List EmailMessage}
      → OneSent users n before mid
      → Sent users ns mid after
      → Sent users (n ∷ ns) before after
  one_more users n ns (inl same) (messages, added, sent) =
      (messages, added ∙ ap (λ l. l ++ messages) same, inl sent)
  one_more users n ns {before} (inr (user, known, one)) (messages, added, sent) = (
    message_for body_of n user.email ∷ messages,
    added
        ∙ ap (λ l. l ++ messages) one
        ∙ append_assoc before (message_for body_of n user.email ∷ []) messages,
    inr (user, messages, known, refl, sent),
  )

  process_all-Sent :
      (k : ℕ) (ns : List Notification) (env : Env) (w : World)
      → Sent w.db.users ns w.emails (process_all body_of k ns env w).1.emails
  unfolding process_all
  process_all-Sent k [] env w = ([], sym (append-nil w.emails), refl)
  process_all-Sent k (n ∷ ns) env w =
      let w1 = (process_one body_of n env w).1 in
      let r = (process_one body_of n env w).0 in
      let w2 = (record_attempt body_of n r env w1).1 in
      let (one, kept) = process_one-OneSent n env w in
      let (quiet, users) = record_attempt-frame n r env w1 in
      let same_users : w2.db.users ≡ w.db.users = users ∙ ap (λ (d : Db). d.users) kept in
      let step : OneSent w.db.users n w.emails w2.emails =
        subst (OneSent w.db.users n w.emails) (sym quiet) one in
      let from = λ (j : ℕ).
        subst (λ us. Sent us ns w2.emails (process_all body_of j ns env w2).1.emails) same_users
          (process_all-Sent j ns env w2) in
      let all = λ (j : ℕ). (process_all body_of j ns env w2).1 in
      let here = (process_all body_of k (n ∷ ns) env w).1 in
      let done = λ (j : ℕ) (same : here ≡ all j).
        subst (λ (x : World). Sent w.db.users (n ∷ ns) w.emails x.emails) (sym same)
          (one_more w.db.users n ns step (from j)) in
      elim (Bool-cases (record_attempt body_of n r env w1).0) [
        | inl counts ↦ done (k + 1) (ground arith)
        | inr uncounted ↦ done k (ground arith)
      ]

-- A run of ProcessPending that does not fail sends, for each of the pending notifications that it
-- has listed, in their order, its confirmation to its user once or nothing, and nothing else. It
-- lists no more than the batch size, and counts no more as sent than it has sent.
pub process_pending_bounded :
    (body_of : Payload → String) (batch_size : ℕ) (env : Env) (w : World) {sent : ℕ}
    → (process_pending body_of batch_size env w).0 ≡ ok sent
    → let w' = (process_pending body_of batch_size env w).1 in
      Sent body_of w.db.users (pending_of batch_size w.db) w.emails w'.emails
      × (mails w + sent ≤ mails w')
      × (mails w' ≤ mails w + length (pending_of batch_size w.db))
      × (length (pending_of batch_size w.db) ≤ batch_size)
unfolding process_pending NotificationRepo.list_pending
process_pending_bounded body_of batch_size env w {sent} h =
    let listed = pending_of batch_size w.db in
    let same : (process_pending body_of batch_size env w).1
        ≡ (process_all body_of 0 listed env (next w)).1 =
      ground arith in
    let bounds : (mails w + sent ≤ mails (process_pending body_of batch_size env w).1)
        × (mails (process_pending body_of batch_size env w).1 ≤ mails w + length listed)
        × (length listed ≤ batch_size) =
      ground (
        arith,
        process_all-mails body_of 0 listed env (next w),
        length-take-le batch_size (
            order_by (λ n. n.created_at)
              (select_where (λ n. is_unsent n.status) w.db.notifications)),
      ) in
    (
      subst (λ (x : World). Sent body_of w.db.users listed w.emails x.emails) (sym same)
          (process_all-Sent body_of 0 listed env (next w)),
      bounds.0,
      bounds.1,
      bounds.2,
    )
