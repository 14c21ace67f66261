-- ===== src/Tests/Tokens.antt =====
-- Runs of backend/app/core/security.py, with tokens that are the claims themselves.
use ai_business_automation.Prelude.{arith, ltb, if◌then◌else◌}
use ai_business_automation.Security.{
  Claims, decoded, expired_signature, Jwt, Lifetimes, create_access_token, create_refresh_token,
  decode_access_token, decode_refresh_token,
}
use ai_business_automation.Security.Tokens.{IsFaithful, IsRefused, decode_other_type}

abbrev pub open_tokens : Jwt
open_tokens = record {
  Token = Claims;
  encode = λ c. c;
  decode = λ now c. if ltb now c.exp then decoded c else expired_signature;
}

pub open_tokens-IsFaithful : IsFaithful open_tokens
open_tokens-IsFaithful = record {
  returned = λ c now early. ground arith;
  expired = λ c now late. ground arith;
}

abbrev pub lifetimes : Lifetimes
lifetimes = record { access_minutes = 15; refresh_days = 7 }

decode_other_type_example :
    IsRefused (
      decode_refresh_token open_tokens 1500
        (create_access_token open_tokens lifetimes 1000 "u1" "o1" "s1" "admin" "org"))
    × IsRefused (
        decode_access_token open_tokens 1500
          (create_refresh_token open_tokens lifetimes 1000 "u1" "s1"))
decode_other_type_example =
    decode_other_type open_tokens open_tokens-IsFaithful lifetimes 1000 1500 "u1" "o1" "s1" "admin"
      "org"
