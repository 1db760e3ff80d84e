-- ===== src/Access/Csrf/VisitorTests.antt =====
-- The login form of a visitor, posted half an hour after its page was made.
use cppadmin.Base.{
  ◌≡◌, ◌≢◌, refl, sym, ◌∙◌, arith, Bytes, bytes, bytes_beq, List, [], ◌∷◌, All, no_byte,
  no_byte_iff, starts_with,
}
use cppadmin.Base.Search.{is_free}
use cppadmin.Jwt.Library.Unary.{unary}
use cppadmin.Jwt.Base64.{base64_url_encode, encode_groups, to_url, drop_padding, enc}
use cppadmin.Services.Auth.Otp.{decimal}
use cppadmin.Access.Authentication.{post}
use cppadmin.Web.Form.Encoding.{Field, text_input, IsPostable}
use cppadmin.Web.Form.Posting.{text_value, posted, IsBoundary}
use cppadmin.Access.Csrf.{Request, pass, csrf_filter, generate_token, login_csrf_token}
use cppadmin.Access.Csrf.Visitor.{with_form, as_part, as_parameter, csrf_filter-visitor}

abbrev request : Request
request = record {
  method = post;
  path = bytes "/admin/login";
  cookie = [];
  body_token = [];
  query = [];
  header_token = [];
  client_ip = bytes "::1";
  user_agent = [];
}

abbrev token : Bytes
token = bytes "AWxvZ2luLWNzcmY6OjoxOjow"

made : generate_token unary (1 ∷ []) request 0 ≡ token
unfolding generate_token login_csrf_token base64_url_encode encode_groups to_url drop_padding enc
    bytes decimal unary
made = refl

made_some : generate_token unary (1 ∷ []) request 0 ≢ []
unfolding bytes
made_some h = let empty = sym made ∙ h in absurd (ground arith)

abbrev boundary : Bytes
boundary = bytes "X"

abbrev form : List Field
form = text_input (bytes "_csrf") token ∷ []

form-IsPostable : All (IsPostable boundary) form
unfolding bytes no_byte is_free starts_with
form-IsPostable = (
  (
    (
      (no_byte_iff b'\r' (bytes "_csrf")).0 refl,
      ((no_byte_iff b'"' (bytes "_csrf")).0 refl, (no_byte_iff b'=' (bytes "_csrf")).0 refl),
    ),
    refl,
  ),
  tt,
)

boundary-IsBoundary : IsBoundary boundary
unfolding bytes no_byte
boundary-IsBoundary = (
  (λ h. absurd (ground arith)),
  ((no_byte_iff b';' (bytes "X")).0 refl, ((no_byte_iff b'"' (bytes "X")).0 refl, (refl, tt))),
)

sent : text_value (bytes "_csrf") form ≡ generate_token unary (1 ∷ []) request 0
unfolding text_value bytes bytes_beq
sent = sym made

csrf_filter-visitor_example :
    csrf_filter unary (1 ∷ []) (with_form request (posted boundary form (λ key. []))) 1800 ≡ pass
csrf_filter-visitor_example =
    csrf_filter-visitor unary (1 ∷ []) request request 0 1800 (posted boundary form (λ key. []))
      (omega arith) (omega arith) refl refl refl refl made_some
      (as_part boundary form (λ key. []) boundary-IsBoundary form-IsPostable refl sent)

-- The same form as parameters.
urlencoded :
    csrf_filter unary (1 ∷ []) (with_form request (posted boundary [] (λ key. token))) 1800 ≡ pass
urlencoded =
    csrf_filter-visitor unary (1 ∷ []) request request 0 1800 (posted boundary [] (λ key. token))
      (omega arith) (omega arith) refl refl refl refl made_some (as_parameter (sym made))
