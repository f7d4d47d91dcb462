-- ===== src/Auth/Tests.antt =====
-- auth.service.ts and token-auth.guard.ts: a user who logs in, and one who forgets the password.
use micro_saas_api.Base.{
  ◌+◌, ◌≡◌, ◌≢◌, refl, sym, ap, ◌∙◌, true, false, ◌&&◌, List, [], ◌∷◌, none, some, Member, here,
  there, arith, ok, err, ◌>>=◌,
}
use micro_saas_api.Text.{codes, same_text, trim, to_lower, drop_spaces, is_space, starts_with}
use micro_saas_api.Database.{list_client}
use micro_saas_api.Billing.Lifecycle.{trial}
use micro_saas_api.Auth.{
  User, password_reset, EmailToken, AccessToken, Store, AuthError, Crypto, Draw, access_ttl_ms,
  next,
}
use micro_saas_api.Auth.Tokens.{
  consume_auth_token, load_email_token, update_email_tokens, create_token,
}
use micro_saas_api.Auth.Calls.{
  Session, login, finish_login, authenticate, find_email, find_email_insensitive, reset_password,
}
use micro_saas_api.Auth.Calls.{update_user}
use micro_saas_api.Auth.Guard.{check_header, can_activate}
use micro_saas_api.Auth.Runs.{Call, forgets, resets, run}
use micro_saas_api.Auth.Single.{IsSingle, run-IsSingle}
use micro_saas_api.Auth.Once.{IsOther, consume-once}
use micro_saas_api.Auth.Reset.{ResetOutcome, reset_password-outcome}
use micro_saas_api.Auth.Sessions.{header_of, IsSession, login-can_activate}
use micro_saas_api.Auth.Login.{IsAuthentic, login-IsAuthentic}

abbrev crypto : Crypto
crypto = record {
  hash_password = λ p. b'$' ∷ p;
  compare_password = λ p hash. same_text (b'$' ∷ p) hash;
  hash_token = λ t. b'#' ∷ t;
}

abbrev user : User
user = record {
  id = 1;
  name = codes "Asha";
  email = codes "a@b.c";
  password = codes "$pw";
  email_verified_at = some 5;
  trial_ends_at = 100;
  subscription_status = trial;
}

abbrev store : Store
store = record { users = user ∷ []; email_tokens = []; access_tokens = [] }

abbrev draw : Draw
draw = record { plain = codes "tok"; row_id = 9 }

abbrev session : Session
session = record { user = user; token = codes "tok" }

logged_in :
    (login list_client crypto true 10 draw (codes " A@b.c ") (codes "pw") store).0 ≡ ok session
unfolding login finish_login authenticate find_email find_email_insensitive next same_text to_lower
    trim drop_spaces is_space
logged_in = refl

clean : trim draw.plain ≡ draw.plain
unfolding trim drop_spaces is_space
clean = refl

login-IsAuthentic_example :
    IsAuthentic crypto (codes " A@b.c ") (codes "pw") store user × ((true && false) ≡ false)
login-IsAuthentic_example =
    login-IsAuthentic list_client crypto true 10 draw (codes " A@b.c ") (codes "pw") store session
      logged_in

not_empty : draw.plain ≢ []
not_empty h = cc

login-can_activate_example :
    (t : AccessToken) × (((can_activate list_client crypto 20
          (header_of (codes "tok"))
          (login list_client crypto true 10 draw (codes " A@b.c ") (codes "pw") store).1).0
        ≡ ok t)
      × IsSession 10 session draw t)
login-can_activate_example =
    login-can_activate list_client crypto true 10 draw (codes " A@b.c ") (codes "pw") store session
      20 logged_in clean not_empty tt (omega arith)

-- Two requests for a reset, of which the second link is used.
abbrev calls : List Call
calls =
    forgets 10 (record { plain = codes "one"; row_id = 1 }) (codes "a@b.c")
    ∷ forgets 20 (record { plain = codes "two"; row_id = 2 }) (codes "A@B.C")
    ∷ resets 30 (codes "two") (codes "new") none
    ∷ []

run-IsSingle_example : IsSingle (run list_client crypto calls store).email_tokens
run-IsSingle_example = run-IsSingle list_client crypto calls store (λ u t. omega arith)

abbrev linked : Store
linked = record store {
  email_tokens =
      record {
        id = 2;
        user_id = 1;
        token_type = password_reset;
        token_hash = codes "#two";
        expires_at = 3600020;
        used_at = none;
      }
      ∷ [];
}

reset_password-outcome_example :
    ResetOutcome list_client crypto 30
      (codes "two")
      (codes "new")
      linked
      (reset_password list_client crypto 30 (codes "two") (codes "new") none linked)
reset_password-outcome_example =
    reset_password-outcome list_client crypto 30 (codes "two") (codes "new") none linked

-- The reset goes through, and a session that was open stays open.
session_survives :
    (can_activate list_client crypto 40
      (header_of draw.plain)
      (reset_password list_client crypto 30
        (codes "two")
        (codes "new")
        none
        (create_token crypto 10 1 draw linked)).1).0
    ≡ ok (record {
      id = 9;
      user_id = 1;
      token = codes "#tok";
      last_used_at = none;
      expires_at = some (10 + access_ttl_ms);
    })
unfolding can_activate check_header reset_password consume_auth_token load_email_token
    update_email_tokens update_user create_token next ◌>>=◌ same_text trim drop_spaces is_space
    starts_with
session_survives = refl

abbrev link : EmailToken
link = record {
  id = 2;
  user_id = 1;
  token_type = password_reset;
  token_hash = codes "#two";
  expires_at = 3600020;
  used_at = none;
}

accepted :
    (consume_auth_token list_client crypto 30 password_reset (codes "two") linked).0 ≡ ok link
unfolding consume_auth_token load_email_token next ◌>>=◌ same_text trim drop_spaces is_space
accepted = refl

distinct :
    (a b : EmailToken)
    → Member a linked.email_tokens
    → Member b linked.email_tokens
    → a.token_hash ≡ b.token_hash
    → a.id ≡ b.id
distinct a b (here e) (here d) h = ap (λ x. x.id) (sym e ∙ d)
distinct a b (here e) (there n) h = elim n [ ]
distinct a b (there m) n h = elim m [ ]

draw-IsOther :
    IsOther crypto
      (crypto.hash_token (trim (codes "two")))
      (record { plain = codes "one"; row_id = 1 })
unfolding same_text trim drop_spaces is_space
draw-IsOther = refl

consume-once_example :
    (e : AuthError) × (consume_auth_token list_client crypto 60 password_reset (codes "two") (
        run list_client crypto
          (forgets 50 (record { plain = codes "one"; row_id = 1 }) (codes "a@b.c") ∷ [])
          (consume_auth_token list_client crypto 30 password_reset (codes "two") linked).1)
      ≡ (
        err e,
        run list_client crypto
            (forgets 50 (record { plain = codes "one"; row_id = 1 }) (codes "a@b.c") ∷ [])
            (consume_auth_token list_client crypto 30 password_reset (codes "two") linked).1,
      ))
consume-once_example =
    consume-once list_client crypto 30 password_reset (codes "two") linked link
      (forgets 50 (record { plain = codes "one"; row_id = 1 }) (codes "a@b.c") ∷ []) 60
      password_reset distinct accepted (draw-IsOther, tt)
