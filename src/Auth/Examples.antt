-- ===== src/Auth/Examples.antt =====
-- One session whose refresh token is used, replayed and used again.
use clixor_backend.Prelude.{
  ℕ, zero, suc, ◌+◌, ◌-◌, ◌≡◌, ◌≢◌, refl, ap, sym, ◌∙◌, none, some, Option, [], ◌∷◌, arith, nat_eq,
  bytes_eq,
}
use clixor_backend.Map.{get, put, find, without}
use clixor_backend.Domain.{Uuid, Bytes, User, Session, err, unauthenticated, live, is_deleted}
use clixor_backend.Memory.{Store, new_store}
use clixor_backend.Memory.Sessions.{
  rotate_session, rotate_checked, rotate_found, session_dead, equal_token_hash, rotated,
  put_session,
}
use clixor_backend.Auth.{
  TokenLibrary, TokenManager, TokenPair, split_dot, parsed_parts, parse_refresh_token,
  refresh_token_of, signed_pair, pair, paired, refresh_parsed, refresh,
}
use clixor_backend.Auth.Replay.{IsUuidText, parse-refresh_token_of, refresh_replayed}

abbrev first_or_zero : Bytes → ℕ
first_or_zero [] = 0
first_or_zero (c ∷ cs) = c

abbrev repeat : ℕ → ℕ → Bytes
repeat zero c = []
repeat (suc n) c = c ∷ repeat n c

abbrev library : TokenLibrary
library = record {
  uuid_text = λ id. (id + 47) ∷ [];
  parse_uuid = λ text. some (first_or_zero text - 47);
  sha256 = λ text. text;
  sign = λ claims. some (1 ∷ []);
}

library-IsUuidText : IsUuidText library
library-IsUuidText = record {
  no_dot = λ id. ground arith;
  parse-text = λ id. ap some (omega arith);
}

abbrev manager : TokenManager
manager = record { access_ttl = 900; refresh_ttl = 5000 }

abbrev ann : User
ann = record {
  id = 4;
  email = b'a' ∷ [];
  phone = "";
  display_name = "Ann";
  avatar_url = [];
  profile = "";
  password_hash = "";
  created_at = 1;
  updated_at = 1;
}

abbrev login : Session
login = record {
  id = 6;
  user_id = 4;
  device_id = 3;
  refresh_token_hash = repeat 40 66;
  previous_refresh_token_hash = [];
  expires_at = 900;
  revoked_at = none;
  created_at = 1;
}

abbrev signed_in : Store
signed_in = record new_store {
  users = record { entries = (4, ann) ∷ [] };
  sessions = record { entries = (6, login) ∷ [] };
}

abbrev token : Bytes
token = refresh_token_of library 6 (repeat 40 66)

abbrev exchanged : TokenPair
exchanged = record {
  access_token = 1 ∷ [];
  refresh_token = refresh_token_of library 6 (repeat 40 65);
  expires_at = 950;
}

abbrev after_exchange : Store
after_exchange = (refresh library manager [] (some (repeat 40 65)) 50 token signed_in).1

keyed : (id : Uuid) (b : Session) → get signed_in.sessions id ≡ some b → b.id ≡ id
unfolding get find
keyed id b h = ground arith

other_hash :
    (id : Uuid) (old : Bytes)
    → parse_refresh_token library token ≡ some (id, old)
    → old ≢ repeat 40 65
other_hash id old e = λ p. differ _ _ refl refl (
    ap secret_head
      (sym (parse-refresh_token_of library library-IsUuidText 6 (repeat 40 66) refl) ∙ e)
    ∙ ap first_or_zero p)
  where
    secret_head : Option (Uuid × Bytes) → ℕ
    secret_head none = 0
    secret_head (some q) = first_or_zero q.1

    differ : (x y : ℕ) → x ≡ 66 → y ≡ 65 → x ≢ y
    differ x y a b = omega arith

refresh_replayed_example :
    ((refresh library manager [] (some (repeat 40 67)) 60 token after_exchange).0
      ≡ err unauthenticated)
    × ((refresh library manager []
          (some (repeat 40 68))
          70
          exchanged.refresh_token
          (refresh library manager [] (some (repeat 40 67)) 60 token after_exchange).1).0
        ≡ err unauthenticated)
refresh_replayed_example =
    refresh_replayed library manager token (repeat 40 65) (repeat 40 67) (repeat 40 68) [] [] [] 50
      60 70 signed_in after_exchange exchanged library-IsUuidText keyed refl other_hash
      (omega arith)
      (unfold refresh refresh_parsed parse_refresh_token parsed_parts split_dot refresh_token_of
          paired pair signed_pair rotate_session rotate_checked rotate_found session_dead
          equal_token_hash rotated put_session live is_deleted get put find without in
        refl)
