-- ===== src/Server/Contract/Whole.antt =====
-- What the server promises, whatever a client asks and whatever the service answers.
use tab_vm.Strings.{Text, txt, text_eq, is_empty, one_of, equal_fold, has_prefix, trim_prefix}
use tab_vm.Prelude.{
  Bool-cases, set, refl, ap, ◌∙◌, inl, inr, not, ◌||◌, Option, none, some, ◌∷◌, ◌≡◌, false,
}
use tab_vm.Server.{Config, Platform, ServerState, Reply, Act, http_error, Api}
use tab_vm.Server.Access.{
  resolve_token, with_auth, presented_token, constant_time_equal, kept_token, authorized,
  with_host_check, is_loopback_authority,
}
use tab_vm.Server.Contract.{
  Unchanged, Allowed, Handled, Free, fixed-Allowed, onto, KeptByAll, KeptByReads,
}
use tab_vm.Server.Requests.{Request}
use mathlib.Core.Path.{subst}
use tab_vm.Server.Contract.Routes.{
  is_stream_action, either-Handled, behind-Handled, method_not_allowed-Keeps, error-Keeps,
}
use tab_vm.Server.Jobs.{put_job, new_job, sweep_finished_jobs}
use tab_vm.Server.Serve.{
  with_nonce, static_handler, serve_index, with_page, outer_mux, serve, is_file_path, below_api,
}
use tab_vm.Strings.Search.{index}
use tab_vm.Server.Contract.Serve.{get-Keeps, api_mux-Keeps}
use tab_vm.Server.Handlers.Routes.{api_mux, named_in}

module _ {S : Type 0} (P : Type 0) (config : Config) (platform : Platform S) (I R : S → Type 0)
    (i_token : (w : S) → I w → I (platform.new_token w).1)
    (r_token : (w : S) → R w → R (platform.new_token w).1) where
  -- The state is the same but for the token and random numbers.
  abbrev Refreshed : ServerState S → ServerState S → Type 0
  Refreshed s t = (I s.service → I t.service) × (R s.service → R t.service) × Unchanged s t

  renewed-Handled :
      (q : Type 0) (s t : ServerState S) (r : Reply P × ServerState S)
      → Refreshed s t
      → Handled I R q t r
      → Handled I R q s r
  renewed-Handled q s t r (i, keep, (ops, jobs, workers)) ((shown, i1, keep1), inl (o, j, w)) =
      ((shown, λ x. i1 (i x), λ a x. keep1 a (keep x)), inl (o ∙ ops, j ∙ jobs, w ∙ workers))
  renewed-Handled q s t r (i, keep, (ops, jobs, workers))
        ((shown, i1, keep1), inr (loud, (w, name, now, free, o, j, ws))) =
      (
        (shown, λ x. i1 (i x), λ a x. keep1 a (keep x)),
        inr (
          loud,
          (
            w,
            name,
            now,
            subst (Free w.unlocks) ops free,
            o ∙ ap (onto w.unlocks) ops,
            j ∙ ap (λ x. put_job w.job (new_job name) (sweep_finished_jobs now x)) jobs,
            ws ∙ ap (λ x. w ∷ x) workers,
          ),
        ),
      )

  kept-Refreshed :
      (s : ServerState S) (res : Option Text × S)
      → (I s.service → I res.1)
      → (R s.service → R res.1)
      → Refreshed s (kept_token config platform s res).1
  kept-Refreshed s (none, w) i keep = (i, keep, (refl, refl, refl))
  kept-Refreshed s (some t, w) i keep = (i, keep, (refl, refl, refl))

  same-Refreshed : (s : ServerState S) → Refreshed s s
  same-Refreshed s = (λ x. x, λ x. x, (refl, refl, refl))

  pub resolve_token-Refreshed :
      (s : ServerState S) → Refreshed s (resolve_token config platform s).1
  unfolding resolve_token
  resolve_token-Refreshed s = elim (Bool-cases (is_empty config.session_token)) [
    | inr set ↦ rw set (same-Refreshed s)
    | inl unset ↦ rw unset (elim (Bool-cases (equal_fold config.environment (txt "Development"))) [
      | inr production ↦ rw production (same-Refreshed s)
      | inl development ↦ rw development (elim (Bool-cases (is_empty s.dev_token)) [
        | inr old ↦ rw old (same-Refreshed s)
        | inl fresh ↦ rw fresh (
            kept-Refreshed s (platform.new_token s.service) (i_token s.service) (r_token s.service))
      ])
    ])
  ]

  refused-Handled :
      (q : Type 0) (text : Text) (s : ServerState S)
      → Allowed text
      → Handled {P = P} I R q s (http_error 401 text s)
  refused-Handled q text s allowed = ((inr (inr allowed), λ i. i, λ _ r. r), inl (refl, refl, refl))

  pub with_auth-Handled :
      (q : Type 0) (next : Request → Act S P) (r : Request) (s : ServerState S)
      → ((t : ServerState S) → Handled I R q t (next r t))
      → Handled I R q s (with_auth config platform next r s)
  unfolding with_auth one_of text_eq txt
  with_auth-Handled q next r s all =
      let t = (resolve_token config platform s).1 in
      let token = (resolve_token config platform s).0 in
      renewed-Handled q s t (authorized config platform next r (resolve_token config platform s))
        (resolve_token-Refreshed s)
        (either-Handled P I R q t (is_empty token)
          (http_error 401 (txt "Session token is not configured.") t) _
          (refused-Handled q _ t (fixed-Allowed (txt "Session token is not configured.") refl))
          (either-Handled P I R q t
            (is_empty (presented_token config platform r)
              || not (constant_time_equal platform (presented_token config platform r) token))
            (http_error 401 (txt "Invalid or missing session token.") t) (next r t)
            (refused-Handled q _ t (fixed-Allowed (txt "Invalid or missing session token.") refl))
            (all t)))

module _ {S : Type 0} (P : Type 0) (api : Api S P) (config : Config) (platform : Platform S)
    (I R : S → Type 0) (kept : KeptByAll api platform I) (quiet : KeptByReads api platform R) where
  page-Handled :
      (q : Type 0) (s : ServerState S) (res : Option Text × S)
      → (I s.service → I res.1)
      → (R s.service → R res.1)
      → Handled {P = P} I R q s (with_nonce api config platform s res)
  unfolding one_of text_eq txt
  page-Handled q s (none, w) i keep = (
    (inr (inr (fixed-Allowed (txt "Web UI is unavailable.") refl)), i, λ _. keep),
    inl (refl, refl, refl),
  )
  page-Handled q s (some nonce, w) i keep =
      let t = record s { service = w } in
      behind-Handled P I R q s w
        (with_page api config platform nonce (resolve_token config platform t)) i (λ _. keep)
        (let (i1, keep1, same) =
            resolve_token-Refreshed P config platform I R kept.reads.new_token quiet.new_token t in
          ((inr (inr tt), i1, λ _. keep1), inl same))

  static-Handled :
      (q : Type 0) (r : Request) (s : ServerState S)
      → Handled {P = P} I R q s (static_handler api config platform r s)
  unfolding static_handler serve_index
  static-Handled q r s =
      elim (Bool-cases (text_eq r.method (txt "GET") || text_eq r.method (txt "HEAD"))) [
        | inr other ↦ rw other (method_not_allowed-Keeps P I R (λ _. q) s)
        | inl read ↦ rw read (elim (Bool-cases (is_file_path api config platform r.path)) [
          | inl found ↦ rw found ((inr (inr tt), λ i. i, λ _ x. x), inl (refl, refl, refl))
          | inr index ↦ rw index (
              page-Handled q s (platform.new_nonce s.service) (kept.reads.new_nonce s.service)
                (quiet.new_nonce s.service))
        ])
      ]

  -- A request that GETs, but no stream.
  abbrev Calls : Request → Type 0
  Calls r =
      (r.method ≡ txt "GET")
      × (is_stream_action (named_in (trim_prefix r.path (txt "/api"))).1 ≡ false)

  outer_mux-Handled :
      (r : Request) (s : ServerState S)
      → Handled I R (Calls r) s (outer_mux api config platform r s)
  unfolding outer_mux
  outer_mux-Handled r s = elim (Bool-cases (text_eq r.path (txt "/health"))) [
    | inl health ↦ rw health (get-Keeps P api platform I R kept quiet (λ _. Calls r) _ r s)
    | inr other ↦ rw other (elim (Bool-cases (has_prefix r.path (txt "/api/"))) [
      | inl api_path ↦ rw api_path (
          with_auth-Handled P config platform I R kept.reads.new_token quiet.new_token (Calls r)
            (api_mux api platform) (below_api api config platform r) s
            (api_mux-Keeps P api platform I R kept quiet (below_api api config platform r)))
      | inr page ↦ rw page (static-Handled (Calls r) r s)
    ])
  ]

  pub serve-Handled :
      (r : Request) (s : ServerState S) → Handled I R (Calls r) s (serve api config platform r s)
  unfolding serve with_host_check one_of text_eq txt
  serve-Handled r s = elim (Bool-cases (is_loopback_authority platform r.host)) [
    | inl local ↦ rw local (outer_mux-Handled r s)
    | inr foreign ↦ rw foreign (
        error-Keeps P I R (λ _. Calls r) 421 (txt "Invalid Host header.")
          (inr (inr (fixed-Allowed (txt "Invalid Host header.") refl))) s)
  ]
