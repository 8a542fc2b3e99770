-- ===== src/Http/Health.antt =====
-- internal/handler/http/health.go, and the middleware of requestid.go and recovery.go, which stand
-- before every route.
use ticketing_backend.Prelude.{
  String, str_eq, Bool, true, false, ◌&&◌, Option, none, some, List, [], ◌∷◌, if◌then◌else◌,
}
use ticketing_backend.Http.{Reply, fault, reply}

-- Live
unfoldable pub live : Reply (List (String × String))
live = reply 200 (("status", "ok") ∷ [])

-- The entry of a check, from the text of the ping's error.
abbrev pub check : String → Option String → String × String
check name none = (name, "ok")
check name (some e) = (name, e)

abbrev answers : Option String → Bool
answers none = true
answers (some e) = false

-- Ready, from the errors of the two pings
unfoldable pub ready : Option String → Option String → Reply (List (String × String))
ready postgres redis =
    let checks = check "postgres" postgres ∷ check "redis" redis ∷ [] in
    let healthy = answers postgres && answers redis in reply (if healthy then 200 else 503) checks

-- RequestID: the identifier that the context and the response get, from the header X-Request-ID
-- and the text of a new UUID.
unfoldable pub request_id : String → String → String
request_id header fresh = if str_eq header "" then fresh else header

-- RequestIDFromContext
unfoldable pub request_id_from_context : Option String → String
request_id_from_context none = ""
request_id_from_context (some id) = id

-- Recovery: `none` is a handler that panics before it has written a reply.
unfoldable pub recovery : {A : Type 0} → Option (Reply A) → Reply A
recovery none = fault 500 "internal-error"
recovery (some r) = r
