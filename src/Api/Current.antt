-- ===== src/Api/Current.antt =====
-- Whom a bearer token stands for: `get_current_user` of app/api/deps.py taken apart.
use crypto_brokerage.Base.{
  ℕ, ◌≡◌, refl, ap, sym, subst, ◌∙◌, ◌⊎◌, inl, inr, true, Bool-cases, Option, none, some,
  Option-cases, String, find, ◌==◌,
}
use crypto_brokerage.Models.{User}
use crypto_brokerage.Errors.{Error, ok, err, other, http_exception}
use crypto_brokerage.Env.{Env, text, time, Claims}
use crypto_brokerage.Session.{Db, World}
use crypto_brokerage.Session.Outcome.{Returns, pure-Returns}
use crypto_brokerage.Security.{get_claim, decode_token}
use crypto_brokerage.Repository.{get_by_id}
use crypto_brokerage.Api.{active_user, get_current_user, status_of}

active_user-Returns :
    (u : User) (w : World) (user : User) (w' : World)
    → Returns (active_user u) w user w'
    → (u.is_active ≡ true) × (u ≡ user) × (w ≡ w')
active_user-Returns u w user w' h = elim (Bool-cases u.is_active) [
  | inl on ↦
      let pass : active_user u w ≡ (ok u, w) = rw on in
      let (own, same) = pure-Returns u user w w' (sym pass ∙ h) in (on, own, same)
  | inr off ↦
      let stop : active_user u w ≡ (err (http_exception 403), w) = rw off in
      absurd (cc (sym stop ∙ h))
]

module _ (env : Env) where
  abbrev pub user_at : ℕ → Db → Option User
  user_at i db = find (λ (u : User). u.id == i) db.users

  -- The token of the header is valid at this time and names the user, who is there.
  pub record IsNamed (header : Option String) (w : World) (user : User) : Type 0 where
    pub token : String
    pub sent : header ≡ some token
    pub claims : Claims
    pub decoded :
        env.jwt_decode w.clock token env.settings.jwt_secret_key env.settings.jwt_algorithm
        ≡ some claims
    pub subject : String
    pub subject_of : get_claim "sub" claims ≡ some (text subject)
    pub user_id : ℕ
    pub parsed : env.parse_uuid subject ≡ some user_id
    pub stored : user_at user_id w.db ≡ some user

  -- The user is moreover active.
  pub record IsCurrent (header : Option String) (w : World) (user : User) : Type 0 where
    pub named : IsNamed header w user
    pub active : user.is_active ≡ true

  -- A token with such claims is accepted, whatever else it says, if its user is active.
  pub named_user :
      (header : Option String) (w : World) (user : User)
      → IsNamed header w user
      → get_current_user env header w ≡ active_user user w
  unfolding get_current_user decode_token get_by_id
  named_user header w user c =
      rw c.sent (rw c.decoded (rw c.subject_of (rw c.parsed (rw c.stored refl))))

  pub get_current_user-accepts :
      (header : Option String) (w : World) (user : User)
      → IsCurrent header w user
      → Returns (get_current_user env header) w user w
  get_current_user-accepts header w user c = named_user header w user c.named ∙ rw c.active refl

  abbrev pub Refusal : Option String → World → Type 0
  Refusal header w =
      (e : Error) × (get_current_user env header w ≡ (err e, w))
      × ((status_of e ≡ 401) ⊎ (status_of e ≡ 500))

  pub get_current_user_cases :
      (header : Option String) (w : World)
      → ((user : User) × IsNamed header w user) ⊎ Refusal header w
  unfolding get_current_user decode_token get_by_id
  get_current_user_cases none w = inr (http_exception 401, refl, inl refl)
  get_current_user_cases (some token) w =
      elim (Option-cases
        (env.jwt_decode w.clock token env.settings.jwt_secret_key env.settings.jwt_algorithm)) [
          | inl e ↦ inr (http_exception 401, rw e refl, inl refl)
          | inr (claims, e) ↦ elim (Option-cases (get_claim "sub" claims)) [
            | inl f ↦ inr (http_exception 401, rw e (rw f refl), inl refl)
            | inr (time t, f) ↦ inr (other "AttributeError", rw e (rw f refl), inr refl)
            | inr (text s, f) ↦ elim (Option-cases (env.parse_uuid s)) [
              | inl g ↦ inr (http_exception 401, rw e (rw f (rw g refl)), inl refl)
              | inr (i, g) ↦ elim (Option-cases (user_at i w.db)) [
                | inl k ↦ inr (http_exception 401, rw e (rw f (rw g (rw k refl))), inl refl)
                | inr (u, k) ↦ inl (
                  u,
                  record {
                    token = token;
                    sent = refl;
                    claims = claims;
                    decoded = e;
                    subject = s;
                    subject_of = f;
                    user_id = i;
                    parsed = g;
                    stored = k;
                  },
                )
              ]
            ]
          ]
        ]

  -- The case of `get_current_user` that returns.
  pub get_current_user-Returns :
      (header : Option String) (w : World) (user : User) (w' : World)
      → Returns (get_current_user env header) w user w'
      → IsCurrent header w user × (w ≡ w')
  get_current_user-Returns header w user w' h = elim (get_current_user_cases header w) [
    | inr (e, raised, _) ↦ let bad = sym raised ∙ h in absurd (cc bad)
    | inl (u, named) ↦
        let (on, own, same) =
          active_user-Returns u w user w' (sym (named_user header w u named) ∙ h) in
        (
          record {
            named = subst (λ v. IsNamed header w v) own named;
            active = ap (λ (v : User). v.is_active) (sym own) ∙ on;
          },
          same,
        )
  ]
