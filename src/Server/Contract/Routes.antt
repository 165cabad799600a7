-- ===== src/Server/Contract/Routes.antt =====
-- What an action keeps, lifted from the constructs that the handlers are made of.
use tab_vm.Strings.{Text, txt, text_eq, one_of}
use tab_vm.Prelude.{
  Bool-cases, All, ℕ, ◌≡◌, refl, inl, inr, true, Option, none, some, List, [], ◌∷◌, ◌⊎◌, false,
  if◌then◌else◌, Bool, ◌||◌,
}
use tab_vm.Server.{ServerState, Act, plain, not_found, method_not_allowed, http_error, Reply}
use tab_vm.Server.Jobs.{is_locked}
use tab_vm.Server.Contract.{Shown, Handled, fixed-Allowed, Allowed, ok, err, error-Answered}
use tab_vm.Server.Handlers.Routes.{dispatch}
use tab_vm.Server.Handlers.{with_body, or_status, validated}
use tab_vm.Server.Requests.{Request}
use tab_vm.Service.{VmResult}

-- What an action keeps, if `Quiet` holds of the state in which it begins.
abbrev pub Keeps :
    {S P : Type 0} → (S → Type 0) → (S → Type 0) → (ServerState S → Type 0) → Act S P → Type 0
Keeps {S} I R Quiet act = (s : ServerState S) → Handled I R (Quiet s) s (act s)

-- Somebody else holds the lock of the machine.
abbrev pub Busy : {S : Type 0} → Text → ServerState S → Type 0
Busy id s = is_locked id s.ops ≡ true

-- The two actions of GET that connect the client with the guest.
abbrev pub is_stream_action : Text → Bool
is_stream_action action =
    text_eq action (txt "screen-stream") || text_eq action (txt "serial-stream")

-- A request that GETs, or one for a machine whose lock somebody else holds; and it asks for no stream.
abbrev pub Calm : {S : Type 0} → Text × Text → Request → ServerState S → Type 0
Calm named r s =
    (r.method ≡ txt "GET" → is_stream_action named.1 ≡ false)
    × ((r.method ≡ txt "GET") ⊎ Busy named.0 s)

-- The action is no stream.
abbrev pub NoStream : {S : Type 0} → Text → ServerState S → Type 0
NoStream action s = is_stream_action action ≡ false

-- Both parts of a pair of proofs, written in a row.
infixr 4 ◌&◌
abbrev pub ◌&◌ : {A B : Type 0} → A → B → A × B
a & b = (a, b)

module _ {S : Type 0} (P : Type 0) (I R : S → Type 0) (Quiet : ServerState S → Type 0) where
  pub error-Keeps :
      (status : ℕ) (t : Text)
      → Shown {P = P} (record { status = status; body = plain t })
      → Keeps {P = P} I R Quiet (http_error status t)
  error-Keeps status t shown s = ((shown, λ i. i, λ _ r. r), inl (refl, refl, refl))

  pub not_found-Keeps : (s : ServerState S) → Handled {P = P} I R (Quiet s) s (not_found s)
  unfolding one_of text_eq txt
  not_found-Keeps = error-Keeps _ _ (inr (inr (fixed-Allowed _ refl)))

  pub method_not_allowed-Keeps :
      (s : ServerState S) → Handled {P = P} I R (Quiet s) s (method_not_allowed s)
  unfolding one_of text_eq txt
  method_not_allowed-Keeps = error-Keeps _ _ (inr (inr (fixed-Allowed _ refl)))

  -- A table of actions keeps what each of them keeps when it is the one that is named.
  pub dispatch_named-Keeps :
      (action : Text) (acts : List (Text × Act S P))
      → All (λ a. text_eq action a.0 ≡ true → Keeps I R Quiet a.1) acts
      → Keeps I R Quiet (dispatch action acts)
  unfolding dispatch
  dispatch_named-Keeps action [] all s = not_found-Keeps s
  dispatch_named-Keeps action ((name, act) ∷ rest) (here, there) s =
      elim (Bool-cases (text_eq action name)) [
        | inl hit ↦ rw hit (here hit s)
        | inr miss ↦ rw miss (dispatch_named-Keeps action rest there s)
      ]

  whenever_named :
      (action : Text) (acts : List (Text × Act S P))
      → All (λ a. Keeps I R Quiet a.1) acts
      → All (λ a. text_eq action a.0 ≡ true → Keeps I R Quiet a.1) acts
  whenever_named action [] all = tt
  whenever_named action (a ∷ rest) (here, there) = (λ hit. here, whenever_named action rest there)

  pub dispatch-Keeps :
      (action : Text) (acts : List (Text × Act S P))
      → All (λ a. Keeps I R Quiet a.1) acts
      → Keeps I R Quiet (dispatch action acts)
  dispatch-Keeps action acts all = dispatch_named-Keeps action acts (whenever_named action acts all)

  pub with_body-Keeps :
      {B : Type 0} (body : Option B) (next : B → Act S P)
      → ((b : B) → Keeps I R Quiet (next b))
      → Keeps I R Quiet (with_body body next)
  with_body-Keeps none next all = error-Keeps _ _ (inl refl)
  with_body-Keeps (some b) next all = all b

module _ {S : Type 0} (P : Type 0) (I R : S → Type 0) where
  -- What a handler does behind a call that keeps both.
  pub behind-Handled :
      (q : Type 0) (s : ServerState S) (w : S) (r : Reply P × ServerState S)
      → (I s.service → I w)
      → (q → R s.service → R w)
      → Handled I R q (record s { service = w }) r
      → Handled I R q s r
  behind-Handled q s w r i keep ((shown, i1, keep1), rest) =
      ((shown, λ x. i1 (i x), λ a x. keep1 a (keep a x)), rest)

  pub weaken-Handled :
      (q q1 : Type 0) (s : ServerState S) (r : Reply P × ServerState S)
      → (q1 → q)
      → Handled I R q s r
      → Handled I R q1 s r
  weaken-Handled q q1 s r f ((shown, i, keep), inl same) =
      ((shown, i, λ a x. keep (f a) x), inl same)
  weaken-Handled q q1 s r f ((shown, i, keep), inr (loud, started)) =
      ((shown, i, λ a x. keep (f a) x), inr (λ a. loud (f a), started))

  pub either-Handled :
      (q : Type 0) (s : ServerState S) (b : Bool) (x y : Reply P × ServerState S)
      → Handled I R q s x
      → Handled I R q s y
      → Handled I R q s (if b then x else y)
  either-Handled q s true x y hx hy = hx
  either-Handled q s false x y hx hy = hy

  pub or_status-Handled :
      {B : Type 0} (q : Type 0) (status : ℕ) (text : Text) (next : Act S P) (s : ServerState S)
      (res : VmResult B × S)
      → Allowed text
      → (I s.service → I res.1)
      → (q → R s.service → R res.1)
      → ((t : ServerState S) → Handled I R q t (next t))
      → Handled I R q s (or_status status text next s res)
  or_status-Handled q status text next s (ok p, w) allowed i keep all =
      behind-Handled q s w (next (record s { service = w })) i keep (all (record s { service = w }))
  or_status-Handled q status text next s (err e, w) allowed i keep all =
      ((inr (inr allowed), i, keep), inl (refl, refl, refl))

  pub validated-Handled :
      (q : Type 0) (next : Act S P) (s : ServerState S) (res : VmResult P × S)
      → (I s.service → I res.1)
      → (q → R s.service → R res.1)
      → ((t : ServerState S) → t.ops ≡ s.ops → Handled I R q t (next t))
      → Handled I R q s (validated s next res)
  validated-Handled q next s (ok p, w) i keep all =
      behind-Handled q s w (next (record s { service = w })) i keep
        (all (record s { service = w }) refl)
  validated-Handled q next s (err e, w) i keep all =
      let (did, same) =
        error-Answered P I R q e s (record s { service = w }) (refl, refl, refl) i keep in
      (did, inl same)
