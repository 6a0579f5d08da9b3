-- ===== src/Services/Onboarding/Raced.antt =====
-- Two sessions at a time: between the look-up of a service and its insert another session may commit
-- what the look-up did not find.
use crypto_brokerage.Base.{
  ℕ, ◌+◌, ◌≡◌, refl, ap, sym, ◌∙◌, inl, inr, true, false, some, String, List, [], ◌∷◌, ◌++◌, str_eq,
  eq_iff, provided-some, All, Bool, Bool-cases, find, length, select, ◌≤◌, arith, ◌&&◌, ◌==◌,
  ==_iff,
}
use crypto_brokerage.Models.{User, BankAccount, bank_account_fits, BankAccountStatus}
use crypto_brokerage.Errors.{Error, Result, err}
use crypto_brokerage.Env.{Env}
use crypto_brokerage.Session.{World, request}
use crypto_brokerage.Session.Outcome.{Returns, Raises, Result-cases, request_err}
use crypto_brokerage.Security.{hash_password}
use crypto_brokerage.Repository.{add}
use crypto_brokerage.Repository.Fits.{present}
use crypto_brokerage.Repository.Writes.{with_row}
use crypto_brokerage.Repository.Admitted.{add-clash, add-admitted, all-fresh}
use crypto_brokerage.Tables
use crypto_brokerage.Repositories.Users.{create_with_profile}
use crypto_brokerage.Services.Onboarding.{Registration, UserRegistrationResult, enrol, insert_link}
use crypto_brokerage.Services.Onboarding.Registered.{taken, user_row}
use crypto_brokerage.Services.Onboarding.Linked.{linked, linked_row}

module _ (env : Env) (r : Registration) (w : World) (u : User)
    (there : taken env r w.db ≡ some u) where
  user_refused :
      (hashed : String)
      → (e : Error) × (add Tables.users env
            (user_row env r hashed)
            (record w { draws = w.draws + 1 })
          ≡ (err e, record w { draws = w.draws + 1 + 1 }))
  user_refused hashed =
      add-clash Tables.users env (user_row env r hashed) (record w { draws = w.draws + 1 })
        (λ x. str_eq x.email (env.lower r.email)) u there
        λ s x made h.
          let own = (provided-some _ _ _ made).1 in
          let own_email = ap (λ (y : User). y.email) (sym own) in
          let other = (eq_iff x.email (env.lower r.email)).0 h in
          (eq_iff s.email x.email).1 (own_email ∙ sym other)

  enrol_refused : (e : Error) × (w' : World) × (enrol env r w ≡ (err e, w')) × (w'.calls ≡ w.calls)
  unfolding create_with_profile
  enrol_refused = elim (Result-cases (hash_password env w.draws r.password)) [
    | inl (hashed, h) ↦
        let (e, refused) = user_refused hashed in
        (e, record w { draws = w.draws + 1 + 1 }, rw h (rw refused refl), refl)
    | inr (x, h) ↦ (x, record w { draws = w.draws + 1 }, rw h refl, refl)
  ]

  -- The UNIQUE constraint guards the e-mail of a user where the look-up does not: when another session
  -- has committed a user with the e-mail after the look-up, the rest of the registration raises, and
  -- the tables stay as the other session left them.
  pub enrol_raced :
      (e : Error) × Raises (request (enrol env r)) w e × ((request (enrol env r) w).1.db ≡ w.db)
  enrol_raced =
      let (e, w', raised, _) = enrol_refused in
      let done = request_err (enrol env r) w w' e raised in
      (
        e,
        ap (λ (p : Result UserRegistrationResult × World). p.0) done,
        ap (λ (p : Result UserRegistrationResult × World). p.1.db) done,
      )

some_last :
    (p : BankAccount → Bool) (rows : List BankAccount) (r : BankAccount)
    → p r ≡ true
    → 1 ≤ length (select p (rows ++ (r ∷ [])))
some_last p [] r k = rw k (omega arith)
some_last p (x ∷ rows) r k = ground (arith, some_last p rows r k)

-- No two bank accounts clash.
never : (rows : List BankAccount) → All (λ (a : BankAccount). false ≡ false) rows
never [] = tt
never (a ∷ rows) = (refl, never rows)

length-select_last :
    (p : BankAccount → Bool) (rows : List BankAccount) (b r : BankAccount)
    → find p rows ≡ some b
    → p r ≡ true
    → 2 ≤ length (select p (rows ++ (r ∷ [])))
length-select_last p [] b r h k = absurd (cc h)
length-select_last p (x ∷ rows) b r h k = elim (Bool-cases (p x)) [
  | inl here ↦ rw here (omega (arith, some_last p rows r k))
  | inr past ↦ rw past (length-select_last p rows b r (rw past at h) k)
]

module _ (env : Env) (u : ℕ) (ref bank : String) (w : World) where
  abbrev pub second : BankAccount
  second = record {
    id = env.uuid4 w.draws;
    user_id = u;
    external_reference = ref;
    bank_name = bank;
    status = BankAccountStatus.active;
  }

  abbrev pub after_link : World
  after_link = with_row Tables.bank_accounts (record w { draws = w.draws + 1 }) second

  -- No constraint guards the reference of a bank account: when another session has linked it to the
  -- user after the look-up, the rest of the linking still returns, under a new key and with texts
  -- that fit their columns, and the user then has the reference twice.
  pub insert_link_raced :
      (b : BankAccount)
      → linked u ref w.db ≡ some b
      → present Tables.users u w.db.users ≡ true
      → present Tables.bank_accounts (env.uuid4 w.draws) w.db.bank_accounts ≡ false
      → bank_account_fits second ≡ true
      → Returns (insert_link env u ref bank) w (env.uuid4 w.draws) after_link
        × (2
            ≤ length (
                select
                  (λ a. a.user_id == u && str_eq a.external_reference ref)
                  after_link.db.bank_accounts))
  insert_link_raced b there user new short =
      let added =
        add-admitted Tables.bank_accounts env (linked_row env u ref bank) w second (rw short refl)
          (all-fresh Tables.bank_accounts w.db.bank_accounts second new (never w.db.bank_accounts))
          user in
      (
        rw added refl,
        length-select_last (λ a. a.user_id == u && str_eq a.external_reference ref)
            w.db.bank_accounts b second there (rw ((==_iff u u).1 refl) ((eq_iff ref ref).1 refl)),
      )
