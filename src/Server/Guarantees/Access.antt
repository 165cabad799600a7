-- ===== src/Server/Guarantees/Access.antt =====
-- A request to the API without the token.
use tab_vm.Strings.{Text, txt, text_eq, is_empty, has_prefix}
use tab_vm.Prelude.{Bool-cases, set, ◌≡◌, refl, ◌⊎◌, inl, inr, true, false, sym, ap, ◌∙◌}
use tab_vm.Server.{ServerState, Config, Reply, Platform, Api, Act}
use tab_vm.Server.Serve.{serve, outer_mux, below_api}
use tab_vm.Server.Access.{
  with_host_check, constant_time_equal, with_auth, resolve_token, is_loopback_authority,
  presented_token,
}
use tab_vm.Server.Guarantees.{LeftAlone}
use tab_vm.Strings.Laws.{text_eq_sound}
use tab_vm.Server.Requests.{Request}
use tab_vm.Server.Contract.Whole.{resolve_token-Refreshed}
use tab_vm.Server.Handlers.Routes.{api_mux}
use mathlib.Core.Bool.{false≢true}

-- The two replies that refuse access.
abbrev pub Refused :
    {S P : Type 0} → (S → Type 0) → ServerState S → Reply P × ServerState S → Type 0
Refused R s r = ((r.0.status ≡ 401) ⊎ (r.0.status ≡ 421)) × LeftAlone R s r.1

module _ {S : Type 0} (P : Type 0) (config : Config) (platform : Platform S) (R : S → Type 0)
    (token : (w : S) → R w → R (platform.new_token w).1) where
  after_token-LeftAlone :
      (s : ServerState S) → R s.service → LeftAlone R s (resolve_token config platform s).1
  after_token-LeftAlone s before =
      let (i, keep, same) = resolve_token-Refreshed P config platform R R token token s in
      (keep before, same)

  -- Two texts that compare equal have one digest.
  constant_time_equal_sound :
      (a b : Text) → constant_time_equal platform a b ≡ true → platform.digest a ≡ platform.digest b
  unfolding constant_time_equal
  constant_time_equal_sound a b h = text_eq_sound (platform.digest a) (platform.digest b) h

  with_auth-Refused :
      (next : Request → Act S P) (r : Request) (s : ServerState S)
      → R s.service
      → (is_empty (presented_token config platform r) ≡ false
          → platform.digest (presented_token config platform r)
            ≡ platform.digest (resolve_token config platform s).0
          → ⊥)
      → Refused R s (with_auth config platform next r s)
  unfolding with_auth
  with_auth-Refused next r s before wrong =
      let presented = presented_token config platform r in
      let t = (resolve_token config platform s).0 in
      elim (Bool-cases (is_empty t)) [
        | inl unset ↦ rw unset (inl refl, after_token-LeftAlone s before)
        | inr set ↦ rw set (elim (Bool-cases (is_empty presented)) [
          | inl missing ↦ rw missing (inl refl, after_token-LeftAlone s before)
          | inr given ↦ rw given (elim (Bool-cases (constant_time_equal platform presented t)) [
            | inl equal ↦ absurd (wrong given (constant_time_equal_sound presented t equal))
            | inr unequal ↦ rw unequal (inl refl, after_token-LeftAlone s before)
          ])
        ])
      ]

health_not_api :
    (path : Text) → text_eq path (txt "/health") ≡ true → has_prefix path (txt "/api/") ≡ true → ⊥
unfolding txt has_prefix text_eq
health_not_api path health api =
    false≢true
      (sym (ap (λ p. has_prefix p (txt "/api/")) (text_eq_sound path (txt "/health") health)) ∙ api)

-- If the token that a request presents and that of the session do not have one digest without being
-- equal, a request below `/api/` is refused with 401 or 421 unless it names a loopback host and presents
-- a token that is not empty and equals the one of the session; a refused request leaves every predicate of the service that drawing a token keeps, the locks, the jobs
-- and the workers.
pub serve-Refused :
    {S P : Type 0} (api : Api S P) (config : Config) (platform : Platform S) (R : S → Type 0)
    (r : Request) (s : ServerState S)
    → ((w : S) → R w → R (platform.new_token w).1)
    → (platform.digest (presented_token config platform (below_api api config platform r))
          ≡ platform.digest (resolve_token config platform s).0
        → presented_token config platform (below_api api config platform r)
          ≡ (resolve_token config platform s).0)
    → R s.service
    → has_prefix r.path (txt "/api/") ≡ true
    → (is_loopback_authority platform r.host ≡ true
        → is_empty (presented_token config platform (below_api api config platform r)) ≡ false
        → presented_token config platform (below_api api config platform r)
          ≡ (resolve_token config platform s).0
        → ⊥)
    → Refused R s (serve api config platform r s)
unfolding serve with_host_check outer_mux
serve-Refused api config platform R r s token no_collision before below wrong =
    elim (Bool-cases (is_loopback_authority platform r.host)) [
      | inr foreign ↦ rw foreign (inr refl, (before, (refl, refl, refl)))
      | inl local ↦ rw local (elim (Bool-cases (text_eq r.path (txt "/health"))) [
        | inl health ↦ absurd (health_not_api r.path health below)
        | inr other ↦
            rw (other, below)
              (with_auth-Refused _ config platform R token (api_mux api platform)
                (below_api api config platform r) s before
                (λ given same. wrong local given (no_collision same)))
      ])
    ]
