-- ===== src/Agent/Requests.antt =====
-- Requests without the agent's token.
use fredoomeaxima.Common.{
  ℕ, ◌≡◌, ◌≢◌, refl, ap, ◌∙◌, Bool, false, ◌&&◌, List, [], ◌∷◌, ◌++◌, Option, none, some, filter,
  arith, Bool-cases, inl, inr, if◌then◌else◌,
}
use fredoomeaxima.Text.{Text, codes, text_eq}
use fredoomeaxima.Text.Laws.{text_eq→eq, text_eq_refl}
use fredoomeaxima.Exec.{Result, ok, err}
use fredoomeaxima.Agent.{
  Node, Machine, Request, Body, send, bearer_of, authorized, is_get, respond, answer, handle,
}

authorized-false :
    (node : Node) (authorization : Option Text)
    → authorization ≢ some (bearer_of node.agent_token)
    → authorized node authorization ≡ false
unfolding authorized
authorized-false node none h = refl
authorized-false node (some auth) h =
    elim (Bool-cases (text_eq auth (bearer_of node.agent_token))) [
      | inl same ↦ absurd (h (ap some (text_eq→eq auth _ same)))
      | inr other ↦ other
    ]

-- A request that does not carry the token is answered with 401, or is the liveness probe.
respond_unauthorized :
    (node : Node) (now : ℕ) (req : Request) (m : Machine)
    → req.authorization ≢ some (bearer_of node.agent_token)
    → respond node now req m ≡ (
      if is_get req.method && text_eq req.path (codes "/healthz")
          then send 200 Body.healthy
          else send 401 (Body.error "unauthorized"),
      m,
    )
unfolding respond
respond_unauthorized node now req m h =
    let refused = authorized-false node req.authorization h in
    elim (Bool-cases (is_get req.method && text_eq req.path (codes "/healthz"))) [
      | inl probe ↦ rw probe refl
      | inr asks ↦ rw (asks, refused) refl
    ]

-- The same of the whole handler, where the target is read as a path.
pub handle_unauthorized :
    (node : Node) (now : ℕ) (req : Request) (path : Text) (m : Machine)
    → node.pathname req.path ≡ ok path
    → req.authorization ≢ some (bearer_of node.agent_token)
    → handle node now req m ≡ (
      if is_get req.method && text_eq path (codes "/healthz")
          then send 200 Body.healthy
          else send 401 (Body.error "unauthorized"),
      m,
    )
unfolding handle answer
handle_unauthorized node now req path m read h =
    rw read (respond_unauthorized node now (record req { path = path }) m h)

answer_unauthorized :
    (node : Node) (now : ℕ) (req : Request) (path : Result Text) (m : Machine)
    → req.authorization ≢ some (bearer_of node.agent_token)
    → (answer node now req path m).1 ≡ m
unfolding answer
answer_unauthorized node now req (ok path) m h =
    ap (λ p. p.1) (respond_unauthorized node now (record req { path = path }) m h)
answer_unauthorized node now req (err e) m h = refl

-- The request shows the agent's token, as `Authorization: Bearer <token>`.
unfoldable pub shows_token : Node → Request → Bool
shows_token node req = elim req.authorization [
  | none ↦ false
  | some shown ↦ text_eq shown (codes "Bearer " ++ node.agent_token)
]

-- The machine after requests, each at its time.
pub after_requests : Node → List (ℕ × Request) → Machine → Machine
after_requests node [] m = m
after_requests node (q ∷ qs) m = after_requests node qs (handle node q.0 q.1 m).1

shows_no_token :
    (node : Node) (req : Request)
    → shows_token node req ≡ false
    → req.authorization ≢ some (bearer_of node.agent_token)
unfolding shows_token
shows_no_token node req h same =
    absurd (ground (arith, h, same, text_eq_refl (bearer_of node.agent_token)))

-- Requests that do not show the agent's token have no part in what becomes of its machine: after
-- any sequence of requests it has run the same commands and holds the same temporary files as after
-- those requests of the sequence alone that show the token.
pub after_requests-filter :
    (node : Node) (qs : List (ℕ × Request)) (m : Machine)
    → after_requests node qs m ≡ after_requests node (filter (λ q. shows_token node q.1) qs) m
unfolding after_requests filter handle
after_requests-filter node [] m = refl
after_requests-filter node (q ∷ qs) m = elim (Bool-cases (shows_token node q.1)) [
  | inl shown ↦ rw shown (after_requests-filter node qs (handle node q.0 q.1 m).1)
  | inr hidden ↦ rw hidden (
      ap (after_requests node qs) (
        answer_unauthorized node q.0 q.1 (node.pathname q.1.path) m
          (shows_no_token node q.1 hidden))
      ∙ after_requests-filter node qs m)
]
