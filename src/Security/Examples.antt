-- ===== src/Security/Examples.antt =====
-- The theorems on tokens at a concrete cache. The hash of a text is the text itself.
use protogate.Base.{
  ◌≡◌, ◌≢◌, ◌⊎◌, refl, true, [], ◌∷◌, ◌++◌, arith, some, none, ltb, if◌then◌else◌, Text, text_eq,
  text_eq_iff, codes, ap, none-ne-some, false≢true, ℕ, ◌+◌, ◌∙◌, sym, find, inl,
}
use protogate.Security.Acceptance.{Holds, validate_token-success}
use protogate.Security.Rotation.{rotate_token-validate_token}
use protogate.Security.Tokens.{
  AuthToken, TokenCache, success, invalid_token, validate_token, search_tokens, old_key,
  rotate_token, revoke_token, extract_token, has_prefix, is_blank, trim_left, trim_right,
}
use protogate.Storage.Cache.{get, for_each, live}

abbrev old : AuthToken
old = record { token_hash = codes "tnl_a"; expires_at = 90 }

abbrev fresh : AuthToken
fresh = record { token_hash = codes "tnl_b"; expires_at = 99 }

abbrev web : Text
web = codes "web"

abbrev cache : TokenCache
cache = record { entries = (web, record { value = old; expires_at = 50 }) ∷ []; default_ttl = 30 }

abbrev hash : Text → Text
hash s = s

web_holds : get 10 web cache ≡ some old
unfolding get find text_eq
web_holds = refl

web_at_5 : get 5 web cache ≡ some old
unfolding get find text_eq
web_at_5 = refl

differ : fresh.token_hash ≢ codes "tnl_a"
unfolding text_eq
differ e = false≢true ((text_eq_iff (codes "tnl_b") (codes "tnl_a")).1 e)

old_accepted : validate_token hash 10 20 (codes "tnl_a") cache ≡ success web
unfolding validate_token search_tokens for_each live text_eq
old_accepted = refl

old_stale : validate_token hash 10 90 (codes "tnl_a") cache ≡ invalid_token
unfolding validate_token search_tokens for_each live text_eq
old_stale = refl

new_accepted :
    validate_token hash 10 20 (codes "tnl_b") (rotate_token 5 web fresh 30 15 cache) ≡ success web
unfolding validate_token search_tokens for_each live rotate_token get find text_eq
    protogate.Storage.Cache.put_ttl protogate.Base.insert protogate.Security.Tokens.add_token
new_accepted = refl

validate_token-success_example : Holds 10 20 (codes "tnl_a") cache web
unfolding find
validate_token-success_example =
    validate_token-success hash 10 20 (codes "tnl_a") cache web (refl, tt) old_accepted

-- No other tunnel holds a hash.
only_web : (j : Text) → Holds 12 20 (codes "tnl_a") cache j → j ≡ web
unfolding get find
only_web j (t, there, granted) = ground (arith, text_eq_iff web j, there)

rotate_token-validate_token_example :
    (validate_token hash 12 20 (codes "tnl_a") (rotate_token 5 web fresh 30 15 cache)
      ≡ success (old_key web))
    × (validate_token hash 12 20
          (codes "tnl_a")
          (revoke_token web (rotate_token 5 web fresh 30 15 cache))
        ≡ success (old_key web))
unfolding find
rotate_token-validate_token_example =
    rotate_token-validate_token hash 5 12 20 (codes "tnl_a") web fresh old 30 15 cache (refl, tt)
      web_at_5 (refl, omega arith) differ only_web (omega arith)
