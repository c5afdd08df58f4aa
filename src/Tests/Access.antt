-- ===== src/Tests/Access.antt =====
-- Who a request comes from, and in what language it is answered.
use nordmarkt.Common.{ℕ, ◌≡◌, refl, none, some, List, [], ◌∷◌, String, ltb, str_eq, if◌then◌else◌}
use nordmarkt.Common.Texts.{split, cut, ◌+s◌}
use nordmarkt.Core.Errors.{ok, err, domain, DomainError}
use nordmarkt.Shared.Localization.Negotiation.{PythonTexts, ranked, get_locale}
use nordmarkt.Identity.{TokenPair, start_session, issue_token}
use nordmarkt.Api.Access.{bearer_token, get_current_user}
use nordmarkt.Api.Access.Tokens.{tokens_of, start_session-access}
use nordmarkt.Tests.Data.{world, shopper, request}
use nordmarkt.Tests.Tokens.{plain_crypto, plain_laws, write_token}

-- Qualities in tenths, of one decimal.
abbrev pub python : PythonTexts
python = record {
  strip = λ t. t;
  lower = λ t. t;
  Float = ℕ;
  float = λ t. if str_eq t "0.8" then some 8 else none;
  nought = 0;
  one = 10;
  less = ltb;
}

abbrev locales : List String
locales = "sv" ∷ "en" ∷ []

-- A header whose first language is supported by its first part.
chosen : get_locale python locales "sv" (some "en-GB;q=0.8,de") none ≡ "en"
unfolding get_locale ranked split cut
chosen = refl

abbrev tokens : TokenPair
tokens = tokens_of plain_crypto world shopper request

start_session-access_example :
    let (r, u') = start_session plain_crypto world shopper none none request in
    (r ≡ ok tokens)
    × (get_current_user plain_crypto (λ t. t) 1200 (some ("bearer " +s tokens.access_token)) u'
        ≡ (ok shopper, u'))
    × (get_current_user plain_crypto (λ t. t) 1200 (some ("bearer " +s tokens.refresh_token)) u'
        ≡ (err (domain DomainError.unauthorized), u'))
unfolding bearer_token cut issue_token write_token
start_session-access_example =
    start_session-access plain_crypto world shopper none none request (λ t. t)
      (some ("bearer " +s tokens.access_token)) (some ("bearer " +s tokens.refresh_token)) 1200
      plain_laws refl refl refl refl
