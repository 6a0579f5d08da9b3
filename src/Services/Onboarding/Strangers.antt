-- ===== src/Services/Onboarding/Strangers.antt =====
-- With whom a new user cannot clash: no one has the e-mail, and no row names the user yet.
use crypto_brokerage.Base.{
  ℕ, ◌≡◌, refl, ap, ◌∙◌, true, false, ◌&&◌, none, String, List, [], ◌∷◌, ◌==◌, ==_iff, str_eq,
  eq_iff, find, All, arith, Bool-cases, inl, inr, sym,
}
use crypto_brokerage.Models.{User, UserProfile, Account}
use crypto_brokerage.Session.{Db}
use crypto_brokerage.Repository.Fits.{present, Refer}
use crypto_brokerage.Tables
use crypto_brokerage.Services.Onboarding.Registered.{taken}

-- No user has the e-mail, so none clashes with a new user who has it.
pub unclashed :
    (m : String) (us : List User)
    → find (λ (u : User). str_eq u.email m) us ≡ none
    → All (λ (u : User). str_eq m u.email ≡ false) us
unclashed m [] h = tt
unclashed m (u ∷ us) h = elim (Bool-cases (str_eq u.email m)) [
  | inl taken ↦ let bad = rw taken at h in absurd (cc bad)
  | inr free ↦ (ground (arith, eq_iff m u.email, eq_iff u.email m), unclashed m us (rw free at h))
]

-- A row whose user is there does not name a user who is not.
strangers :
    (i j : ℕ) (us : List User)
    → present Tables.users i us ≡ true
    → present Tables.users j us ≡ false
    → (j == i) ≡ false
strangers i j us h k = elim (Bool-cases (j == i)) [
  | inl eq ↦
      let own : j ≡ i = (==_iff j i).0 eq in
      let bad = sym k ∙ ap (λ n. present Tables.users n us) own ∙ h in absurd (cc bad)
  | inr ne ↦ ne
]

-- A user who is not there has no profile and no account: their keys name users who are.
pub no_profile :
    (db : Db) (i : ℕ) (ps : List UserProfile)
    → Refer Tables.user_profiles db ps
    → present Tables.users i db.users ≡ false
    → All (λ (p : UserProfile). (i == p.user_id) ≡ false) ps
no_profile db i [] h k = tt
no_profile db i (p ∷ ps) h k = (strangers p.user_id i db.users h.0 k, no_profile db i ps h.1 k)

pub no_account :
    (db : Db) (i : ℕ) (c : String) (rows : List Account)
    → Refer Tables.accounts db rows
    → present Tables.users i db.users ≡ false
    → All (λ (a : Account). (i == a.user_id && str_eq c a.currency) ≡ false) rows
no_account db i c [] h k = tt
no_account db i c (a ∷ rows) h k =
    (rw (strangers a.user_id i db.users h.0 k) refl, no_account db i c rows h.1 k)
