-- ===== src/Access/Csrf/Visitor.antt =====
-- The form of a visitor without a session, such as the login form, from the page to the filter.
use cppadmin.Base.{
  ℕ, suc, ◌+◌, ◌/◌, ◌≤◌, Bytes, bytes, true, false, [], List, All, sym, ◌∙◌, ap, ◌⊎◌, inl, inr, ◌≡◌,
  ◌≢◌, refl, arith, is_empty_lem, starts_with, or_true, Bool, if◌then◌else◌,
}
use cppadmin.Jwt.Library.{Library}
use cppadmin.Services.Auth.Otp.{decimal}
use cppadmin.Web.Form.{FormRequest, form_get}
use cppadmin.Web.Form.Encoding.{Field, IsPostable}
use cppadmin.Web.Form.Posting.{text_value, posted, IsBoundary, form_file-form_get}
use cppadmin.Access.Csrf.{
  Request, pass, forbidden, has_session, generate_token, login_csrf_token, is_safe, csrf_filter,
  extract_token, compare,
}
use cppadmin.Access.Csrf.Laws.{timing_safe_eq_self}

-- A request that carries the form: the filter reads the field "_csrf".
abbrev pub with_form : Request → FormRequest → Request
with_form req form = record req { body_token = (form_get (bytes "_csrf") form).0 }

-- The two encodings of a form with the token in the field "_csrf": one that the framework reads
-- as parameters, as it does the fields of an urlencoded body, and a multipart body.
pub data Sends (token : Bytes) : FormRequest → Type 0 where
  as_parameter :
      {form : FormRequest} → form.get_parameter (bytes "_csrf") ≡ token → Sends token form
  as_part :
      (boundary : Bytes) (fs : List Field) (get_parameter : Bytes → Bytes)
      → IsBoundary boundary
      → All (IsPostable boundary) fs
      → get_parameter (bytes "_csrf") ≡ []
      → text_value (bytes "_csrf") fs ≡ token
      → Sends token (posted boundary fs get_parameter)

form_get-parameter :
    (form : FormRequest) (key : Bytes)
    → form.get_parameter key ≢ []
    → (form_get key form).0 ≡ form.get_parameter key
unfolding form_get
form_get-parameter form key full = rw (is_empty_lem (form.get_parameter key) full) refl

form_get-Sends :
    (token : Bytes) (form : FormRequest)
    → token ≢ []
    → Sends token form
    → (form_get (bytes "_csrf") form).0 ≡ token
form_get-Sends token form full (as_parameter same) =
    form_get-parameter form (bytes "_csrf") (λ e. full (sym same ∙ e)) ∙ same
form_get-Sends token _ full (as_part boundary fs g b posts no_param sent) =
    ap (λ (r : Bytes × FormRequest). r.0)
      (form_file-form_get boundary fs g (bytes "_csrf") [] [] b posts no_param).0
    ∙ sent

-- Within an hour the bucket is the same or the next one.
bucket-hour :
    (issued now : ℕ)
    → issued ≤ now
    → now ≤ issued + 3600
    → (now / 3600 ≡ issued / 3600) ⊎ (now / 3600 ≡ suc (issued / 3600))
bucket-hour issued now p q = ground arith

extract_token-body : (req : Request) → req.body_token ≢ [] → extract_token req ≡ req.body_token
unfolding extract_token
extract_token-body req p = rw (is_empty_lem req.body_token p) refl

either-pass :
    (a b : Bool) → (if a then pass else if b then pass else if true then pass else forbidden) ≡ pass
either-pass true b = refl
either-pass false true = refl
either-pass false false = refl

module _ (lib : Library) (secret : Bytes) where
  compare-visitor :
      (req : Request) (issued now : ℕ)
      → issued ≤ now
      → now ≤ issued + 3600
      → has_session lib secret req now ≡ false
      → login_csrf_token lib secret req.client_ip req.user_agent
          (decimal (issued / 3600) (issued / 3600))
        ≢ []
      → compare lib secret req now (
          login_csrf_token lib secret req.client_ip req.user_agent
            (decimal (issued / 3600) (issued / 3600)))
        ≡ true
  compare-visitor req issued now p q none full = elim (bucket-hour issued now p q) [
    | inl same ↦ rw (none, same, timing_safe_eq_self _ full) refl
    | inr next ↦ rw (none, next, timing_safe_eq_self _ full) (or_true _)
  ]

  csrf_filter-compare :
      (req : Request) (now : ℕ)
      → compare lib secret req now (extract_token req) ≡ true
      → csrf_filter lib secret req now ≡ pass
  unfolding csrf_filter
  csrf_filter-compare req now p =
      rw p (either-pass (is_safe lib secret req.method) (starts_with req.path (bytes "/api/")))

  -- The token of a page for a visitor, posted within an hour in the field "_csrf" of a form,
  -- which is one whose fields the framework gives as parameters or a multipart body that
  -- `parse_multipart` reads back and to which no parameter "_csrf" is added, from the
  -- same address and browser, passes the filter, where neither request has a session and the
  -- token is not empty.
  pub csrf_filter-visitor :
      (page req : Request) (issued now : ℕ) (form : FormRequest)
      → issued ≤ now
      → now ≤ issued + 3600
      → has_session lib secret page issued ≡ false
      → has_session lib secret req now ≡ false
      → page.client_ip ≡ req.client_ip
      → page.user_agent ≡ req.user_agent
      → generate_token lib secret page issued ≢ []
      → Sends (generate_token lib secret page issued) form
      → csrf_filter lib secret (with_form req form) now ≡ pass
  unfolding generate_token
  csrf_filter-visitor page req issued now form p q no_page no_req ip ua full sent =
      let token =
        login_csrf_token lib secret req.client_ip req.user_agent
          (decimal (issued / 3600) (issued / 3600)) in
      let made : generate_token lib secret page issued ≡ token = rw (no_page, ip, ua) refl in
      let body : (with_form req form).body_token ≡ token = form_get-Sends _ form full sent ∙ made in
      let some_token : token ≢ [] = λ e. full (made ∙ e) in
      let read = extract_token-body (with_form req form) (λ e. some_token (sym body ∙ e)) ∙ body in
      let equal = compare-visitor req issued now p q no_req some_token in
      csrf_filter-compare (with_form req form) now (ap (compare lib secret req now) read ∙ equal)
