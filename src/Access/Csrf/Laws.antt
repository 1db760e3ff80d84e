-- ===== src/Access/Csrf/Laws.antt =====
-- Which requests that change something pass.
use cppadmin.Base.{
  ℕ, Bytes, bytes, true, false, [], ◌∷◌, sym, ◌∙◌, subst, nat_beq_iff, length, starts_with, ◌≡◌,
  ◌≢◌, ◌↔◌, refl, arith, bytes_beq_iff, bytes_beq_refl,
}
use cppadmin.Jwt.Library.{Library}
use cppadmin.Jwt.Token.{verify}
use cppadmin.Access.Csrf.{
  Request, pass, timing_safe_eq, hmac_csrf_token, has_session, generate_token, is_safe, csrf_filter,
  extract_token,
}

pub timing_safe_eq_self : (a : Bytes) → a ≢ [] → timing_safe_eq a a ≡ true
unfolding timing_safe_eq
timing_safe_eq_self [] n = absurd (n refl)
timing_safe_eq_self (c ∷ a) n =
    ground (arith, bytes_beq_refl (c ∷ a), (nat_beq_iff (length (c ∷ a)) (length (c ∷ a))).1 refl)

timing_safe_eq_iff : (a b : Bytes) → (timing_safe_eq a b ≡ true) ↔ ((a ≢ []) × (a ≡ b))
unfolding timing_safe_eq
timing_safe_eq_iff [] b = ground arith
timing_safe_eq_iff (c ∷ a) [] = ground arith
timing_safe_eq_iff (c ∷ a) (d ∷ b) = (
  λ h. (ground arith, (bytes_beq_iff (c ∷ a) (d ∷ b)).0 (ground arith)),
  λ (n, e).
      subst (λ (s : Bytes). timing_safe_eq (c ∷ a) s ≡ true) e (timing_safe_eq_self (c ∷ a) n),
)

module _ (lib : Library) (secret : Bytes) where
  -- Of a session whose token is not empty, a request that changes something outside the API
  -- passes exactly if it submits that token.
  pub csrf_filter_iff :
      (req : Request) (now : ℕ)
      → is_safe lib secret req.method ≡ false
      → starts_with req.path (bytes "/api/") ≡ false
      → has_session lib secret req now ≡ true
      → hmac_csrf_token lib secret (verify lib req.cookie secret now).jti ≢ []
      → (csrf_filter lib secret req now ≡ pass)
        ↔ (extract_token req ≡ generate_token lib secret req now)
  unfolding csrf_filter generate_token
  csrf_filter_iff req now m p session full =
      let token = hmac_csrf_token lib secret (verify lib req.cookie secret now).jti in
      let (to, from) = timing_safe_eq_iff token (extract_token req) in
      let gen : generate_token lib secret req now ≡ token = ground arith in
      (
        λ h. let (_, e) = to (ground arith) in sym e ∙ sym gen,
        λ e. let passes = from (full, sym (e ∙ gen)) in ground arith,
      )
