-- ===== src/UpdateCheck/Checker.antt =====
-- The cached checker: `Checker.Status` and `fetch`. Its mutex is held while the cache is read and
-- while it is written, but not while GitHub is asked in between: `cached_answer` and `keep_answer` are
-- what a call does under the mutex, `status` is a call that no other one overlaps, and `Overlap` lets any
-- calls overlap. The clock and what GitHub answers are inputs. Times are nanoseconds.
use tab_vm.UpdateCheck.{normalize_version, is_newer}
use tab_vm.Strings.{Text, is_empty, trim_space}
use tab_vm.Prelude.{
  ltb, if◌then◌else◌, Bool-cases, ℕ, ◌+◌, ◌<◌, ◌≡◌, refl, inl, inr, Bool, true, false, ◌&&◌, List,
  [], ◌∷◌, arith, sym, ◌∙◌, suc, Option, none, some,
}
use mathlib.Core.Path.{subst}
use mathlib.Core.Option.{some-injective}

pub record Release : Type 0 where
  pub tag_name : Text
  pub html_url : Text

-- What one request can come back with: `http.NewRequest` or `Do` failed, an answer with a status
-- other than 200, a body that is no JSON release, or a release.
pub data Answer : Type 0 where
  request_failed : Answer
  bad_status : ℕ → Answer
  bad_body : Answer
  release : Release → Answer

pub record UpdateStatus : Type 0 where
  pub current : Text
  pub latest : Text
  pub update_available : Bool
  pub release_url : Text

pub record Checker : Type 0 where
  pub version : Text  -- `current`
  pub ttl : ℕ
  pub cached : UpdateStatus
  pub fetched_at : ℕ
  pub has_cache : Bool

abbrev pub safe : Text → UpdateStatus
safe version = record { current = version; latest = []; update_available = false; release_url = [] }

unfoldable pub offer : Text → Release → UpdateStatus
offer version r =
    let tag = trim_space r.tag_name in
    if is_empty tag then safe version else record {
      current = version;
      latest = normalize_version tag;
      update_available = is_newer tag version;
      release_url = r.html_url;
    }

unfoldable pub fetch : Text → Answer → UpdateStatus
fetch version (release r) = offer version r
fetch version _ = safe version

-- `now().Sub(fetchedAt) < ttl`.
unfoldable pub is_fresh : Checker → ℕ → Bool
is_fresh c now = c.has_cache && ltb now (c.fetched_at + c.ttl)

-- What `Status` does while it first holds the mutex: the cached answer, if it is fresh.
unfoldable pub cached_answer : Checker → ℕ → Option UpdateStatus
cached_answer c now = if is_fresh c now then some c.cached else none

-- What it does when it holds the mutex again, with the answer that it has fetched.
unfoldable pub keep_answer : Checker → ℕ → UpdateStatus → Checker
keep_answer c later s = record c { cached = s; fetched_at = later; has_cache = true }

abbrev pub answered_from : Checker → ℕ → Answer → Option UpdateStatus → Checker × UpdateStatus
answered_from c later answer (some s) = (c, s)
answered_from c later answer none = let s = fetch c.version answer in (keep_answer c later s, s)

-- A call that no other call overlaps: `now` is the clock when it begins and `later` when the answer has
-- come. The answer is a function of nothing: it is asked for only when the cache is not fresh.
unfoldable pub status : Checker → ℕ → ℕ → Answer → Checker × UpdateStatus
status c now later answer = answered_from c later answer (cached_answer c now)

-- `New` with its defaults.
unfoldable pub new : Text → Checker
new version = record {
  version = version;
  ttl = 21600000000000;
  cached = record { current = []; latest = []; update_available = false; release_url = [] };
  fetched_at = 0;
  has_cache = false;
}

-- A sequence of calls, each begun when the one before has returned, with its two times and the answer
-- that GitHub would give.
unfoldable pub statuses : Checker → List (ℕ × ℕ × Answer) → Checker
statuses c [] = c
statuses c ((now, later, answer) ∷ calls) = statuses (status c now later answer).0 calls

-- An update is claimed only for a tag that is a newer release than the running version, and then
-- `latest` is that tag without its `v`.
abbrev pub IsHonest : Text → UpdateStatus → Type 0
IsHonest version s =
    s.update_available ≡ true
    → (tag : Text) × (is_newer tag version ≡ true) × (s.latest ≡ normalize_version tag)

fetch-IsHonest : (version : Text) (a : Answer) → IsHonest version (fetch version a)
unfolding fetch offer
fetch-IsHonest version (release r) h = (trim_space r.tag_name, ground arith, ground arith)
fetch-IsHonest version request_failed h = cc
fetch-IsHonest version _ h = cc

status-IsHonest :
    (c : Checker) (now later : ℕ) (a : Answer)
    → IsHonest c.version c.cached
    → IsHonest c.version (status c now later a).1
      × IsHonest c.version (status c now later a).0.cached
      × ((status c now later a).0.version ≡ c.version)
unfolding status cached_answer keep_answer
status-IsHonest c now later a v = elim (Bool-cases (is_fresh c now)) [
  | inl fresh ↦ rw fresh (v, v, refl)
  | inr stale ↦ rw stale (fetch-IsHonest c.version a, fetch-IsHonest c.version a, refl)
]

statuses-IsHonest :
    (c : Checker) (calls : List (ℕ × ℕ × Answer))
    → IsHonest c.version c.cached
    → IsHonest c.version (statuses c calls).cached × ((statuses c calls).version ≡ c.version)
unfolding statuses
statuses-IsHonest c [] v = (v, refl)
statuses-IsHonest c ((now, later, a) ∷ calls) v =
    let next = (status c now later a).0 in
    let (_, kept, same) = status-IsHonest c now later a v in
    let (honest, same') =
      statuses-IsHonest next calls (subst (λ w. IsHonest w next.cached) (sym same) kept) in
    (subst (λ w. IsHonest w (statuses next calls).cached) same honest, same' ∙ same)

after_calls :
    (version : Text) (calls : List (ℕ × ℕ × Answer)) (now later : ℕ) (a : Answer)
    → IsHonest version (status (statuses (new version) calls) now later a).1
unfolding new
after_calls version calls now later a =
    let c = statuses (new version) calls in
    let (kept, same) = statuses-IsHonest (new version) calls (λ h. cc) in
    subst (λ w. IsHonest w (status c now later a).1) same
      (status-IsHonest c now later a (subst (λ w. IsHonest w c.cached) (sym same) kept)).0

-- After any calls of a new checker, one after another, whatever GitHub answers and whatever the clock
-- does, if the next answer claims an update, some tag is newer than the running version, and the answer
-- names it.
pub status_honest :
    (version : Text) (calls : List (ℕ × ℕ × Answer)) (now later : ℕ) (a : Answer)
    → (status (statuses (new version) calls) now later a).1.update_available ≡ true
    → (tag : Text) × (is_newer tag version ≡ true)
      × ((status (statuses (new version) calls) now later a).1.latest ≡ normalize_version tag)
status_honest version calls now later a claimed = after_calls version calls now later a claimed

-- A call that follows one that asked GitHub, within the lifetime of that answer, repeats the answer and
-- changes nothing, so the network is not asked again, also when that answer came from a failure.
pub status_cached :
    (c : Checker) (now later now' later' : ℕ) (a a' : Answer)
    → is_fresh c now ≡ false
    → now' < later + c.ttl
    → status (status c now later a).0 now' later' a'
      ≡ ((status c now later a).0, (status c now later a).1)
unfolding status is_fresh cached_answer keep_answer
status_cached c now later now' later' a a' stale soon = ground arith

-- Calls that overlap, `asking` of them being between the two times that they hold the mutex. A call ends
-- with the cached answer, and changes nothing, or begins to ask, or gets its answer and keeps it.
pub data Overlap (version : Text) : Checker → ℕ → Type 0 where
  unused : Overlap version (new version) 0
  asks :
      {c : Checker} {asking : ℕ} (now : ℕ)
      → Overlap version c asking
      → cached_answer c now ≡ none
      → Overlap version c (suc asking)
  ends :
      {c : Checker} {asking : ℕ} (later : ℕ) (a : Answer)
      → Overlap version c (suc asking)
      → Overlap version (keep_answer c later (fetch c.version a)) asking

Overlap-IsHonest :
    (version : Text) (c : Checker) (asking : ℕ)
    → Overlap version c asking
    → IsHonest version c.cached × (c.version ≡ version)
unfolding new keep_answer
Overlap-IsHonest version c asking unused = (λ h. cc, refl)
Overlap-IsHonest version c asking (asks now before stale) = Overlap-IsHonest version c _ before
Overlap-IsHonest version _ asking (ends {c} later a before) =
    let (kept, same) = Overlap-IsHonest version c (suc asking) before in
    (subst (λ v. IsHonest v (fetch c.version a)) same (fetch-IsHonest c.version a), same)

cached-IsHonest :
    (c : Checker) (now : ℕ) (version : Text) (s : UpdateStatus)
    → cached_answer c now ≡ some s
    → IsHonest version c.cached
    → IsHonest version s
unfolding cached_answer
cached-IsHonest c now version s found honest = elim (Bool-cases (is_fresh c now)) [
  | inl fresh ↦
      subst (IsHonest version) (some-injective c.cached s (sym (rw fresh refl) ∙ found)) honest
  | inr stale ↦ ground arith
]

-- However the calls of a new checker overlap, whatever GitHub answers and whatever the clock does, an
-- answer that a call then takes from the cache claims an update only if some tag is newer than the
-- running version, and it names that tag.
pub cached_answer_honest :
    (version : Text) (c : Checker) (asking now : ℕ) (s : UpdateStatus)
    → Overlap version c asking
    → cached_answer c now ≡ some s
    → s.update_available ≡ true
    → (tag : Text) × (is_newer tag version ≡ true) × (s.latest ≡ normalize_version tag)
cached_answer_honest version c asking now s reached found claimed =
    cached-IsHonest c now version s found (Overlap-IsHonest version c asking reached).0 claimed
