-- ===== src/Http/Webhook.antt =====
-- internal/interfaces/http/webhook_handlers.go: a GitHub delivery of a merged pull request resumes the
-- run that waits for it. The HMAC and the JSON decoder are parameters.
pub mod Merge
use talos_app.Prelude.{
  ℕ, ◌+◌, ◌-◌, ◌*◌, String, Bool, true, false, Option, none, some, List, [], ◌∷◌, ◌&&◌, ◌||◌, ◌==◌,
  not, leb, ltb, str_eq, if◌then◌else◌, take, length, codes,
}
use talos_app.Shared.{Uuid, Error, sentinel, invalid_input, is, not_found}
use talos_app.Exec.{Exec, Result, ok, err}
use talos_app.Domain.GitOps.{ChangeSet}
use talos_app.Platform.{Platform, World}
use talos_app.GitOpsRepo.{get_change_set_by_url}
use talos_app.Engine.{Engine, resume}
use talos_app.Http.{status_code}

-- A body is its bytes, and absent where reading it fails.
pub record Delivery : Type 0 where
  pub body : Option (List ℕ)
  pub signature : String
  pub event : String

pub record PullRequestEvent : Type 0 where
  pub action : String
  pub html_url : String
  pub merged : Bool

-- What the handler writes: by `http.Error`, by `writeError`, or the status of a 200.
pub data Response : Type 0 where
  http_error : ℕ → String → Response
  error_written : Error → Response
  answered : String → Response

unfoldable pub response_code : Response → ℕ
response_code (http_error code message) = code
response_code (error_written x) = status_code x
response_code (answered status) = 200

abbrev pub max_body : ℕ
max_body = 1048576

-- `hex.DecodeString`
unfoldable pub nibble : ℕ → Option ℕ
nibble c =
    if leb 48 c && leb c 57
    then some (c - 48)
    else if leb 97 c && leb c 102
    then some (c - 87)
    else if leb 65 c && leb c 70
    then some (c - 55)
    else none

abbrev pair_up : Option ℕ → Option ℕ → Option (List ℕ) → Option (List ℕ)
pair_up (some x) (some y) (some rest) = some ((x * 16 + y) ∷ rest)
pair_up _ _ _ = none

unfoldable pub decode_hex : List ℕ → Option (List ℕ)
unfolding nibble
decode_hex [] = some []
decode_hex (c ∷ []) = none
decode_hex (c ∷ d ∷ rest) = pair_up (nibble c) (nibble d) (decode_hex rest)

-- `strings.TrimPrefix` after `strings.HasPrefix`
unfoldable pub strip_prefix : List ℕ → List ℕ → Option (List ℕ)
strip_prefix [] text = some text
strip_prefix (p ∷ prefix) [] = none
strip_prefix (p ∷ prefix) (c ∷ text) =
    let rest = strip_prefix prefix text in if p == c then rest else none

-- `hmac.Equal`
unfoldable pub bytes_eq : List ℕ → List ℕ → Bool
bytes_eq [] [] = true
bytes_eq (x ∷ xs) (y ∷ ys) = x == y && bytes_eq xs ys
bytes_eq _ _ = false

abbrev same_bytes : Option (List ℕ) → List ℕ → Bool
same_bytes none mac = false
same_bytes (some got) mac = bytes_eq got mac

abbrev decoded_hex : Option (List ℕ) → Option (List ℕ)
decoded_hex none = none
decoded_hex (some text) = decode_hex text

-- `mac` is the HMAC with SHA-256 of a key and a text.
unfoldable pub valid_signature : (String → List ℕ → List ℕ) → String → String → List ℕ → Bool
unfolding strip_prefix decode_hex bytes_eq
valid_signature mac secret header body =
    same_bytes (decoded_hex (strip_prefix (codes "sha256=") (codes header))) (mac secret body)

pub record Webhook (X : Type 0) : Type 0 where
  pub world : World
  pub engine : Engine X
  pub secret : String
  pub mac : String → List ℕ → List ℕ
  pub decode : List ℕ → Option PullRequestEvent

abbrev pub Handling : Type 0 → Type 0
Handling X = Platform X → Response × Platform X

module _ {X : Type 0} where
  abbrev pub after_resume : Result (Unit {0}) × Platform X → Response × Platform X
  after_resume (ok a, s) = (answered "resumed", s)
  after_resume (err x, s) = (error_written x, s)

module _ {X : Type 0} (h : Webhook X) where
  unfoldable pub resume_workflow : Option Uuid → Handling X
  resume_workflow none s = (answered "change set has no associated workflow", s)
  resume_workflow (some id) s = after_resume (resume h.world h.engine id s)

  unfoldable pub on_change_set : Result ChangeSet × Platform X → Response × Platform X
  unfolding resume_workflow
  on_change_set (ok cs, s) = resume_workflow cs.workflow_id s
  on_change_set (err x, s) =
      if is x not_found then (answered "no matching change set", s) else (error_written x, s)

  -- The handler from the decoded event on.
  unfoldable pub on_event : Option PullRequestEvent → Handling X
  unfolding on_change_set
  on_event none s = (error_written (sentinel invalid_input), s)
  on_event (some event) s =
      if not (str_eq event.action "closed") || not event.merged
      then (answered "ignored", s)
      else on_change_set (get_change_set_by_url h.world event.html_url s)

  -- The handler from the body on.
  unfoldable pub on_body : Delivery → Option (List ℕ) → Handling X
  unfolding on_event
  on_body d none s = (error_written (sentinel invalid_input), s)
  on_body d (some delivered) s =
      let body = take (max_body + 1) delivered in
      if ltb max_body (length body)
      then (http_error 413 "payload too large", s)
      else if not (valid_signature h.mac h.secret d.signature body)
      then (http_error 401 "invalid webhook signature", s)
      else if not (str_eq d.event "pull_request")
      then (answered "ignored", s)
      else on_event (h.decode body) s

  -- `githubWebhookHandler`
  unfoldable pub github_webhook : Delivery → Handling X
  unfolding on_body
  github_webhook d s =
      if str_eq h.secret ""
      then (http_error 404 "github webhooks are not configured", s)
      else on_body d d.body s
