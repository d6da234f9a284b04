-- ===== src/Api/Guards.antt =====
-- What the guards let through.
use fredoomeaxima.Common.{
  ◌≡◌, refl, ◌∙◌, String, true, false, [], Option, none, some, arith, any, Bool-cases, Option-cases,
  inl, inr, ◌⊎◌, if◌then◌else◌,
}
use fredoomeaxima.Text.{Text, codes}
use fredoomeaxima.Exec.{Result, ok, err, unauthorized, forbidden, Exec, lift, ◌>>◌}
use fredoomeaxima.Exec.Keeps.{Keeps, keeps_rules}
use fredoomeaxima.Database.{UserRole}
use fredoomeaxima.Api.{
  AuthUser, Endpoint, starts_with, drop, bearer, jwt_guard, same_role, permitted, roles_guard,
  guarded, admins,
}

-- The user whose access token the header carries, if it carries one that verifies.
unfoldable pub bearer_of : (Text → Option AuthUser) → Option Text → Option AuthUser
bearer_of verify none = none
bearer_of verify (some auth) =
    if starts_with (codes "Bearer ") auth then verify (drop 7 auth) else none

bearer-none :
    (verify : Text → Option AuthUser) (authorization : Option Text)
    → bearer_of verify authorization ≡ none
    → (message : String) × (bearer verify authorization ≡ err (unauthorized message))
unfolding bearer bearer_of
bearer-none verify none h = (_, refl)
bearer-none verify (some auth) h = elim (Bool-cases (starts_with (codes "Bearer ") auth)) [
  | inl shown ↦ ("Invalid or expired token", rw shown (rw (rw shown at h) refl))
  | inr other ↦ ("Missing bearer token", rw other refl)
]

bearer-some :
    (verify : Text → Option AuthUser) (authorization : Option Text) (user : AuthUser)
    → bearer_of verify authorization ≡ some user
    → bearer verify authorization ≡ ok (some user)
unfolding bearer bearer_of
bearer-some verify none user h = absurd (ground arith)
bearer-some verify (some auth) user h = elim (Bool-cases (starts_with (codes "Bearer ") auth)) [
  | inl shown ↦ rw shown (rw (rw shown at h) refl)
  | inr other ↦ absurd (ground (arith, h, other))
]

role_cases : (r : UserRole) → (r ≡ UserRole.admin) ⊎ (r ≡ UserRole.user)
role_cases UserRole.admin = inl refl
role_cases UserRole.user = inr refl

module _ {S A : Type 0} where
  pub guarded_unknown :
      (verify : Text → Option AuthUser) (e : Endpoint) (authorization : Option Text)
      (handler : Option AuthUser → Exec S A) (s : S)
      → e.is_public ≡ false
      → bearer_of verify authorization ≡ none
      → (message : String) × (guarded verify e authorization handler s
          ≡ (err (unauthorized message), s))
  unfolding guarded jwt_guard
  guarded_unknown verify e authorization handler s closed unknown =
      let refused = bearer-none verify authorization unknown in
      (refused.0, rw closed (rw refused.1 refl))

  pub guarded_known :
      (verify : Text → Option AuthUser) (e : Endpoint) (authorization : Option Text)
      (handler : Option AuthUser → Exec S A) (s : S) (user : AuthUser)
      → e.is_public ≡ false
      → bearer_of verify authorization ≡ some user
      → guarded verify e authorization handler s
        ≡ (lift (roles_guard e.roles (some user)) >> handler (some user)) s
  unfolding guarded jwt_guard
  guarded_known verify e authorization handler s user closed known =
      rw closed (rw (bearer-some verify authorization user known) refl)

  -- Either the handler runs as the token's administrator, or the request is refused.
  abbrev pub IsAdminOnly :
      (Text → Option AuthUser)
      → Option Text
      → (Option AuthUser → Exec S A)
      → S
      → Result A × S
      → Type 0
  IsAdminOnly verify authorization handler s outcome =
      ((user : AuthUser) × (bearer_of verify authorization ≡ some user)
        × (user.role ≡ UserRole.admin)
        × (outcome ≡ handler (some user) s))
      ⊎ ((message : String) × (outcome ≡ (err (unauthorized message), s)))
      ⊎ ((message : String) × (outcome ≡ (err (forbidden message), s)))

  pub guarded-IsAdminOnly :
      (verify : Text → Option AuthUser) (e : Endpoint) (authorization : Option Text)
      (handler : Option AuthUser → Exec S A) (s : S)
      → e.is_public ≡ false
      → e.roles ≡ admins
      → IsAdminOnly verify authorization handler s (guarded verify e authorization handler s)
  unfolding roles_guard permitted any same_role
  guarded-IsAdminOnly verify e authorization handler s closed restricted =
      elim (Option-cases (bearer_of verify authorization)) [
        | inl unknown ↦ inr (inl (guarded_unknown verify e authorization handler s closed unknown))
        | inr (user, known) ↦
            let run = guarded_known verify e authorization handler s user closed known in
            elim (role_cases user.role) [
              | inl admin ↦ inl (user, known, admin, run ∙ rw restricted (rw admin refl))
              | inr plain ↦
                  inr (inr ("Insufficient permissions", run ∙ rw restricted (rw plain refl)))
            ]
      ]

-- What the handler keeps for every user, the guards and the handler keep.
pub guarded-Keeps :
    {S A : Type 0} {P : S → Type 0} (verify : Text → Option AuthUser) (endpoint : Endpoint)
    (authorization : Option Text) (handler : Option AuthUser → Exec S A)
    → ((who : Option AuthUser) → Keeps P (handler who))
    → Keeps P (guarded verify endpoint authorization handler)
unfolding guarded
guarded-Keeps verify endpoint authorization handler kept = search (keeps_rules, kept) depth 8

-- A public endpoint without roles runs its handler without a user.
pub guarded_public :
    {S A : Type 0} (verify : Text → Option AuthUser) (endpoint : Endpoint)
    (authorization : Option Text) (handler : Option AuthUser → Exec S A) (s : S)
    → endpoint.is_public ≡ true
    → endpoint.roles ≡ []
    → guarded verify endpoint authorization handler s ≡ handler none s
unfolding guarded jwt_guard roles_guard
guarded_public verify endpoint authorization handler s open_to_all no_roles =
    rw open_to_all (rw no_roles refl)
