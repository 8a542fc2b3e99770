-- ===== src/Redis/WaitingRoom.antt =====
-- internal/repository/redis/waitingroom.go.
use ticketing_backend.Prelude.{
  ℕ, ◌+◌, ◌==◌, String, Bool, Option, none, some, List, [], ◌∷◌, if◌then◌else◌,
}
use ticketing_backend.Domain.{Error, ok, err}
use ticketing_backend.Redis.{Key, Client, Service, return, ◌>>=◌, ◌>>◌, call}

module _ {S : Type 0} (client : Client S) where
  abbrev position_of : Option ℕ → Service S ℕ
  position_of none env w = (err Error.not_queued, w)
  position_of (some rank) env w = (ok (rank + 1), w)

  unfoldable pub position : ℕ → ℕ → Service S ℕ
  position event_id user_id = do
    rank ← call (λ now s. (client.zrank now (Key.queue event_id) (client.uuid_string user_id) s, s))
    position_of rank

  unfoldable pub join : ℕ → ℕ → Service S ℕ
  unfolding position
  join event_id user_id = do
    seq ← call (λ now. client.incr now (Key.seq event_id))
    call (λ now s. (tt, client.zadd_nx now (Key.queue event_id) seq (client.uuid_string user_id) s))
    position event_id user_id

  unfoldable pub queue_length : ℕ → Service S ℕ
  queue_length event_id = call (λ now s. (client.zcard now (Key.queue event_id) s, s))

  -- The identifiers of the popped members; a malformed one is skipped.
  unfoldable pub parsed : List String → List ℕ
  parsed [] = []
  parsed (member ∷ members) = elim (client.uuid_parse member) [
    | none ↦ parsed members
    | some id ↦ id ∷ parsed members
  ]

  -- The pipeline of SET commands.
  unfoldable pub mark_admitted : ℕ → ℕ → ℕ → List ℕ → S → S
  mark_admitted now event_id ttl [] s = s
  mark_admitted now event_id ttl (id ∷ ids) s =
      mark_admitted now event_id ttl ids (client.set now (Key.admitted event_id id) "1" ttl s)

  abbrev admit_popped : ℕ → ℕ → List String → Service S (List ℕ)
  admit_popped event_id ttl [] = return []
  admit_popped event_id ttl (member ∷ members) = do
    let ids = parsed (member ∷ members)
    call (λ now s. (tt, mark_admitted now event_id ttl ids s))
    return ids

  unfoldable pub admit : ℕ → ℕ → ℕ → Service S (List ℕ)
  admit event_id count ttl = if count == 0 then return [] else (do
    popped ← call (λ now. client.zpopmin now (Key.queue event_id) count)
    admit_popped event_id ttl popped)

  unfoldable pub is_admitted : ℕ → ℕ → Service S Bool
  is_admitted event_id user_id = do
    n ← call (λ now s. (client.exists now (Key.admitted event_id user_id) s, s))
    return (n == 1)
