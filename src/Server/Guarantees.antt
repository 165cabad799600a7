-- ===== src/Server/Guarantees.antt =====
-- What the server promises, whatever a client asks and whatever the service answers.
pub mod Access
use tab_vm.Strings.{txt, trim_prefix}
use tab_vm.Prelude.{◌≡◌, inl, inr, true, false}
use tab_vm.Server.{Api, ServerState, Platform, Reply, Config}
use tab_vm.Server.Handlers.Routes.{handle_vm_by_id, named_in, checked_action}
use tab_vm.Server.Contract.{Unchanged, KeptByAll, Handled, KeptByReads, Shown}
use tab_vm.Server.Requests.{Request}
use tab_vm.Server.Serve.{serve}
use tab_vm.Server.Jobs.{is_locked}
use tab_vm.Server.Contract.Whole.{serve-Handled}
use tab_vm.Server.Contract.Routes.{Calm, is_stream_action}
use tab_vm.Server.Contract.Serve.{checked_action-Handled}

-- Nothing is asked of the service's state.
abbrev pub Anything : {S : Type 0} → S → Type 0
Anything w = Unit {0}

pub anything :
    {S P : Type 0} (api : Api S P) (platform : Platform S) → KeptByAll api platform Anything
anything api platform = record {
  reads = record {
    query = λ q id w valid i. tt;
    ask = λ a w i. tt;
    new_job_id = λ w i. tt;
    new_token = λ w i. tt;
    new_nonce = λ w i. tt;
  };
  control = λ c id w valid i. tt;
  change = λ c id w valid i. tt;
  create = λ c w i. tt;
  open_stream = λ k id w valid i. tt;
  run_stream = λ k id w valid i. tt;
  close_stream = λ k id w valid i. tt;
  upgrade = λ r w i. tt;
}

-- The predicate still holds of the service, and no lock, job or worker has changed.
abbrev pub LeftAlone : {S : Type 0} → (S → Type 0) → ServerState S → ServerState S → Type 0
LeftAlone R s t = R t.service × Unchanged s t

quiet-LeftAlone :
    {S P : Type 0} (R : S → Type 0) (q : Type 0) (s : ServerState S) (r : Reply P × ServerState S)
    → q
    → R s.service
    → Handled Anything R q s r
    → LeftAlone R s r.1
quiet-LeftAlone R q s r now before ((shown, i, keep), inl same) = (keep now before, same)
quiet-LeftAlone R q s r now before ((shown, i, keep), inr (loud, started)) = absurd (loud now)

-- While the lock of a machine is held, no request for that machine reaches a method that changes it,
-- unless it GETs the screen or the serial stream, which take no lock: whatever predicate of the service
-- the reads, the calls that name no machine and the random numbers keep is kept, and no lock, job or
-- worker changes.
pub busy_machine_untouched :
    {S P : Type 0} (api : Api S P) (platform : Platform S) (R : S → Type 0) (r : Request)
    (s : ServerState S)
    → KeptByReads api platform R
    → R s.service
    → is_locked (named_in r.path).0 s.ops ≡ true
    → (r.method ≡ txt "GET" → is_stream_action (named_in r.path).1 ≡ false)
    → LeftAlone R s (handle_vm_by_id api platform r s).1
unfolding handle_vm_by_id
busy_machine_untouched api platform R r s quiet before busy calm =
    quiet-LeftAlone R (Calm (named_in r.path) r s) s
      (checked_action api platform r (named_in r.path) s) (calm, inr busy) before
      (checked_action-Handled _ api platform Anything R (anything api platform) quiet r
        (named_in r.path) s)

-- No GET request reaches a method that changes a machine, unless it asks for the screen or the serial
-- stream, which reach its guest: whatever predicate of the service the reads, the calls that name no
-- machine and the random numbers keep is kept, and no lock, job or worker changes.
pub get_only_reads :
    {S P : Type 0} (api : Api S P) (config : Config) (platform : Platform S) (R : S → Type 0)
    (r : Request) (s : ServerState S)
    → KeptByReads api platform R
    → R s.service
    → r.method ≡ txt "GET"
    → is_stream_action (named_in (trim_prefix r.path (txt "/api"))).1 ≡ false
    → LeftAlone R s (serve api config platform r s).1
get_only_reads api config platform R r s quiet before get calm =
    quiet-LeftAlone R _ s (serve api config platform r s) (get, calm) before
      (serve-Handled _ api config platform Anything R (anything api platform) quiet r s)

-- Whatever the request, the state and the answer of the service, a reply whose status is neither 400
-- nor 503 and whose body is a plain text (`http.Error`) has a text of a fixed list, or one that tells
-- only the exit code of a process; and a JSON reply with the fields `success` and `message` that does
-- not claim success has a message of a fixed list. What the service returned, the statuses of jobs, the
-- pages and what the WebSocket upgrader answers are not covered.
pub serve-Shown :
    {S P : Type 0} (api : Api S P) (config : Config) (platform : Platform S) (r : Request)
    (s : ServerState S)
    → Shown (serve api config platform r s).0
serve-Shown api config platform r s =
    (serve-Handled _ api config platform Anything Anything (anything api platform)
      (anything api platform).reads r s).0.0

-- Whatever predicate of the service every one of its methods, and either stream, keeps when it is called
-- with a well-formed identifier of a machine, and which the calls that name none, the random numbers and
-- the upgrade of a connection keep, every request keeps.
pub serve-Kept :
    {S P : Type 0} (api : Api S P) (config : Config) (platform : Platform S) (I : S → Type 0)
    (r : Request) (s : ServerState S)
    → KeptByAll api platform I
    → I s.service
    → I (serve api config platform r s).1.service
serve-Kept api config platform I r s kept =
    (serve-Handled _ api config platform I Anything kept (anything api platform).reads r s).0.1
