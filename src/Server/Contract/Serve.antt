-- ===== src/Server/Contract/Serve.antt =====
-- The contract of the whole server.
use tab_vm.Strings.{Text, txt, text_eq, one_of, has_prefix}
use tab_vm.Prelude.{
  Bool-cases, All, ◌≡◌, refl, sym, ap, ◌∙◌, inl, inr, true, Option, none, some, List, [], ◌∷◌,
  false,
}
use tab_vm.Server.{Api, Platform, ServerState, Job, method_not_allowed, Act}
use tab_vm.Server.Contract.{
  KeptByAll, KeptByReads, Handled, Allowed, false≢true, answered-Answered, ok, fixed-Allowed, err,
}
use tab_vm.Server.Requests.{
  pick_folder, pick_file, activity, discover, console_protocols, local_state, update_status,
  list_vms, Request, Aside, Creation, discover, activity, console_protocols, local_state,
  update_status, pick_folder,
}
use tab_vm.Server.Handlers.Routes.{
  handle_get, handle_activity, handle_pick, handle_create, api_routes, checked_action, subtree,
  first_route, api_mux, handle_vm_by_id, named_in,
}
use tab_vm.Server.Jobs.{start_create_job, handle_create_status, job_reply, find_job}
use tab_vm.Service.{VmResult}
use tab_vm.Server.Contract.Routes.{
  Keeps, either-Handled, with_body-Keeps, Calm, method_not_allowed-Keeps, ◌&◌, weaken-Handled,
  not_found-Keeps, is_stream_action,
}
use tab_vm.Server.Handlers.{or_internal, answered, accepted}
use tab_vm.Server.Contract.Machine.{vm_action-Handled}
use tab_vm.VmId.{is_valid_vm_id}

module _ {S : Type 0} (P : Type 0) (api : Api S P) (platform : Platform S) (I R : S → Type 0)
    (kept : KeptByAll api platform I) (quiet : KeptByReads api platform R) where
  -- A request that GETs, but no stream.
  abbrev pub Gets : Request → ServerState S → Type 0
  Gets r s = (r.method ≡ txt "GET") × (is_stream_action (named_in r.path).1 ≡ false)

  ask-Keeps :
      (q : Type 0) (a : Aside) (s : ServerState S)
      → Handled {P = P} I R q s (answered s (api.ask a s.service))
  ask-Keeps q a s =
      let (did, same) =
        answered-Answered P I R q s (api.ask a s.service) (kept.reads.ask a s.service)
          (λ _. quiet.ask a s.service) in
      (did, inl same)

  internal-Keeps :
      (q : Type 0) (text : Text) (s : ServerState S) (res : VmResult P × S)
      → Allowed text
      → (I s.service → I res.1)
      → (R s.service → R res.1)
      → Handled I R q s (or_internal text s res)
  internal-Keeps q text s (ok p, w) allowed i keep =
      ((inr (inr tt), i, λ _. keep), inl (refl, refl, refl))
  internal-Keeps q text s (err e, w) allowed i keep =
      ((inr (inr allowed), i, λ _. keep), inl (refl, refl, refl))

  pub get-Keeps :
      (Quiet : ServerState S → Type 0) (a : Aside) (r : Request)
      → Keeps I R Quiet (handle_get api platform a r)
  unfolding handle_get
  get-Keeps Quiet a r s =
      either-Handled P I R (Quiet s) s (text_eq r.method (txt "GET"))
        (answered s (api.ask a s.service)) (method_not_allowed s) (ask-Keeps (Quiet s) a s)
        (method_not_allowed-Keeps P I R Quiet s)

  activity-Keeps : (r : Request) → Keeps I R (Gets r) (handle_activity api platform r)
  unfolding handle_activity one_of text_eq txt
  activity-Keeps r s =
      either-Handled P I R (Gets r s) s (text_eq r.method (txt "GET"))
        (or_internal (txt "Failed to read activity log.") s (api.ask activity s.service))
        (method_not_allowed s)
        (internal-Keeps (Gets r s) (txt "Failed to read activity log.") s
          (api.ask activity s.service) (fixed-Allowed (txt "Failed to read activity log.") refl)
          (kept.reads.ask _ _) (quiet.ask _ _))
        (method_not_allowed-Keeps P I R (Gets r) s)

  pick-Keeps :
      (a : Aside) (text : Text) (r : Request)
      → Allowed text
      → Keeps I R (Gets r) (handle_pick api platform a text r)
  unfolding handle_pick
  pick-Keeps a text r allowed s =
      either-Handled P I R (Gets r s) s (text_eq r.method (txt "POST"))
        (or_internal text s (api.ask a s.service)) (method_not_allowed s)
        (internal-Keeps (Gets r s) text s (api.ask a s.service) allowed (kept.reads.ask _ _)
          (quiet.ask _ _))
        (method_not_allowed-Keeps P I R (Gets r) s)

  not_post : (r : Request) → text_eq r.method (txt "POST") ≡ true → r.method ≡ txt "GET" → ⊥
  unfolding text_eq txt
  not_post r post get = false≢true (sym (ap (λ m. text_eq m (txt "POST")) get) ∙ post)

  accepted-Handled :
      (q : Type 0) (name : Text) (work : Creation) (s : ServerState S)
      → (q → ⊥)
      → Handled {P = P} I R q s (accepted (start_create_job api platform name work none s))
  unfolding start_create_job
  accepted-Handled q name work s loud = (
    (inr (inr tt), kept.reads.new_job_id s.service, λ a. absurd (loud a)),
    inr (loud, (_, name, _, tt, refl, refl, refl)),
  )

  create-Keeps :
      (r : Request) (body : Option (Text × Creation))
      → Keeps I R (Gets r) (handle_create api platform r body)
  unfolding handle_create
  create-Keeps r body s = elim (Bool-cases (text_eq r.method (txt "POST"))) [
    | inl post ↦ rw post (
        with_body-Keeps P I R (Gets r) body
          (λ b s1. accepted (start_create_job api platform b.0 b.1 none s1))
          (λ b t. accepted-Handled (Gets r t) b.0 b.1 t (λ get. not_post r post get.0)) s)
    | inr other ↦ rw other (method_not_allowed-Keeps P I R (Gets r) s)
  ]

  job_reply-Handled :
      (q : Type 0) (j : Option Job) (s : ServerState S)
      → Handled I R q s (job_reply api platform j s)
  unfolding one_of text_eq txt
  job_reply-Handled q none s = (
    (inr (inr (fixed-Allowed (txt "Unknown job.") refl)), λ i. i, λ _ r. r),
    inl (refl, refl, refl),
  )
  job_reply-Handled q (some j) s = ((inr (inr tt), λ i. i, λ _ r. r), inl (refl, refl, refl))

  status-Keeps : (r : Request) → Keeps I R (Gets r) (handle_create_status api platform r)
  unfolding handle_create_status
  status-Keeps r s =
      either-Handled P I R (Gets r s) s (text_eq r.method (txt "GET"))
        (job_reply api platform (find_job r.query_job s.jobs) s) (method_not_allowed s)
        (job_reply-Handled (Gets r s) (find_job r.query_job s.jobs) s)
        (method_not_allowed-Keeps P I R (Gets r) s)

  api_routes-Keep : (r : Request) → All (λ a. Keeps I R (Gets r) a.1) (api_routes api platform r)
  unfolding api_routes one_of text_eq txt
  api_routes-Keep r =
      get-Keeps (Gets r) discover r
      & get-Keeps (Gets r) console_protocols r
      & get-Keeps (Gets r) local_state r
      & get-Keeps (Gets r) update_status r
      & pick-Keeps pick_folder _ r (fixed-Allowed (txt "Could not open the folder picker.") refl)
      & pick-Keeps pick_file _ r (fixed-Allowed (txt "Could not open the file picker.") refl)
      & activity-Keeps r
      & get-Keeps (Gets r) list_vms r
      & create-Keeps r _
      & create-Keeps r _
      & create-Keeps r _
      & status-Keeps r
      & tt

  pub checked_action-Handled :
      (r : Request) (named : Text × Text) (s : ServerState S)
      → Handled I R (Calm named r s) s (checked_action api platform r named s)
  unfolding checked_action
  checked_action-Handled r (id, action) s = elim (Bool-cases (is_valid_vm_id id)) [
    | inl valid ↦ rw valid (vm_action-Handled api platform I R kept quiet id valid r action s)
    | inr invalid ↦ rw invalid ((inl refl, λ i. i, λ _ x. x), inl (refl, refl, refl))
  ]

  subtree-Keeps : (r : Request) → Keeps I R (Gets r) (subtree api platform r)
  unfolding subtree handle_vm_by_id
  subtree-Keeps r s = elim (Bool-cases (has_prefix r.path (txt "/vms/"))) [
    | inl below ↦ rw below (
        weaken-Handled P I R (Calm (named_in r.path) r s) (Gets r s) s
          (checked_action api platform r (named_in r.path) s) (λ (get, calm). (λ _. calm, inl get))
          (checked_action-Handled r (named_in r.path) s))
    | inr other ↦ rw other (not_found-Keeps P I R (Gets r) s)
  ]

  first_route-Keeps :
      (q : ServerState S → Type 0) (path : Text) (acts : List (Text × Act S P))
      (otherwise : Act S P)
      → All (λ a. Keeps I R q a.1) acts
      → Keeps I R q otherwise
      → Keeps I R q (first_route path acts otherwise)
  unfolding first_route
  first_route-Keeps q path [] otherwise all rest s = rest s
  first_route-Keeps q path ((exact, act) ∷ acts) otherwise (here, there) rest s =
      either-Handled P I R (q s) s (text_eq path exact) (act s) (first_route path acts otherwise s)
        (here s) (first_route-Keeps q path acts otherwise there rest s)

  pub api_mux-Keeps : (r : Request) → Keeps I R (Gets r) (api_mux api platform r)
  unfolding api_mux
  api_mux-Keeps r =
      first_route-Keeps (Gets r) r.path (api_routes api platform r) (subtree api platform r)
        (api_routes-Keep r) (subtree-Keeps r)
