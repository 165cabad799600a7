-- ===== src/Service/Trace/Probe.antt =====
-- An operation that begins with an empty trace: until VBoxManage is found, it only probes for it.
use tab_vm.Service.{VmResult, ok, err, Host, Service, Event, State, M, and_then}
use tab_vm.Service.Run.{or_log}
use tab_vm.Service.Discover.{version_args, resolve_vbox_manage}
use tab_vm.Service.Trace.{Policy, Safe, IsSafe, Post, Post-bind}
use tab_vm.Service.Trace.Discover.{resolve_vbox_manage-Post}
use tab_vm.Service.Trace.Rules.{or_log-Post}
use tab_vm.Prelude.{◌≡◌, refl, List, [], ◌∷◌, All}
use tab_vm.Strings.{Text}

-- Nothing but `--version`.
abbrev pub Probing : Policy
Probing e before = e.args ≡ version_args

-- What holds of every probe holds of every process of such a trace.
pub Probing-All :
    (Q : Event → Type 0)
    → ((e : Event) → e.args ≡ version_args → Q e)
    → (es : List Event) → Safe Probing es
    → All Q es
Probing-All Q h [] safe = tt
Probing-All Q h (e ∷ es) safe = (h e safe.0, Probing-All Q h es safe.1)

module _ (P : Policy)
    (probes : (e : Event) (before : List Event) → e.args ≡ version_args → P e before) where
  pub Probing-Safe : (es : List Event) → Safe Probing es → Safe P es
  Probing-Safe [] h = tt
  Probing-Safe (e ∷ es) h = (probes e es h.0, Probing-Safe es h.1)

  Post-weaken :
      {W A : Type 0} (r : VmResult A × State W)
      → IsSafe Probing r
      → Post P (λ _ t. Safe Probing t.issued) r
  unfolding Post
  Post-weaken (ok a, t) h = h
  Post-weaken (err e, t) h = Probing-Safe t.issued h

  -- VBoxManage is found, and the rest may use that nothing else was run.
  pub after_probe :
      {W B : Type 0} (s : State W)
      → Safe Probing s.issued
      → (host : Host W) (svc : Service) (id action message : Text) (f : Text → M W B)
      → ((path : Text) (t : State W) → Safe Probing t.issued → IsSafe P (f path t))
      → IsSafe P (and_then (or_log svc (resolve_vbox_manage host svc) id action message s) f)
  after_probe s safe host svc id action message f k =
      Post-bind P _ f (λ _ t. Safe Probing t.issued) _
        (Post-weaken _ (
          or_log-Post Probing svc (resolve_vbox_manage host svc) id action message s _
            (resolve_vbox_manage-Post host Probing (λ o b. refl) svc s safe)))
        k
