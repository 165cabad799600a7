-- ===== src/UpdateCheck/Tests.antt =====
-- Three releases and an answer of GitHub, and the theorems applied to them.
use tab_vm.UpdateCheck.{is_newer, is_pre_release, parse_version, normalize_version, newer_version}
use tab_vm.UpdateCheck.Order.{IsNewer, is_newer_iff, is_newer_trans, is_newer_asymm}
use tab_vm.UpdateCheck.Checker.{
  Answer, release, request_failed, status, statuses, new, status_honest, status_cached, is_fresh,
  fetch, offer, cached_answer, keep_answer, Overlap, asks, ends, unused, cached_answer_honest,
  Checker,
}
use tab_vm.Prelude.{◌≡◌, ◌↔◌, ◌<◌, ◌+◌, refl, true, false, [], arith, none, some}
use tab_vm.Strings.{Text, txt}

abbrev v1 : Text
v1 = txt "v1.2.3"

abbrev v2 : Text
v2 = txt "v1.3.0"

abbrev v3 : Text
v3 = txt "v2.0.0"

is_newer_iff_example : (is_newer v2 v1 ≡ true) ↔ ((is_pre_release v2 ≡ false) × IsNewer v2 v1)
is_newer_iff_example = is_newer_iff v2 v1

v2_newer : is_newer v2 v1 ≡ true
unfolding is_newer is_pre_release parse_version newer_version normalize_version txt
v2_newer = refl

v3_newer : is_newer v3 v2 ≡ true
unfolding is_newer is_pre_release parse_version newer_version normalize_version txt
v3_newer = refl

is_newer_trans_example : is_newer v3 v1 ≡ true
is_newer_trans_example = is_newer_trans v3 v2 v1 v3_newer v2_newer

is_newer_asymm_example : is_newer v1 v2 ≡ false
is_newer_asymm_example = is_newer_asymm v2 v1 v2_newer

abbrev github : Answer
github = release (record { tag_name = v2; html_url = txt "https://github.com" })

claims : (status (statuses (new v1) []) 0 5 github).1.update_available ≡ true
unfolding cached_answer status statuses new is_fresh fetch offer is_newer is_pre_release
    parse_version newer_version normalize_version txt
claims = refl

status_honest_example :
    (tag : Text) × (is_newer tag v1 ≡ true)
    × ((status (statuses (new v1) []) 0 5 github).1.latest ≡ normalize_version tag)
status_honest_example = status_honest v1 [] 0 5 github claims

new_empty : cached_answer (new v1) 0 ≡ none
unfolding new is_fresh cached_answer
new_empty = refl

-- The checker after the first of two calls that overlap.
abbrev filled : Checker
filled = keep_answer (new v1) 5 (fetch (new v1).version github)

two_asked : Overlap v1 filled 1
two_asked = ends 5 github (asks 0 (asks 0 unused new_empty) new_empty)

filled_answer : cached_answer filled 6 ≡ some (fetch (new v1).version github)
unfolding new is_fresh cached_answer keep_answer
filled_answer = refl

filled_claims : (fetch (new v1).version github).update_available ≡ true
unfolding new fetch offer is_newer is_pre_release parse_version newer_version normalize_version txt
filled_claims = refl

cached_answer_honest_example :
    (tag : Text) × (is_newer tag v1 ≡ true)
    × ((fetch (new v1).version github).latest ≡ normalize_version tag)
cached_answer_honest_example =
    cached_answer_honest v1 filled 1 6 (fetch (new v1).version github) two_asked filled_answer
      filled_claims

new_stale : is_fresh (new v1) 0 ≡ false
unfolding new is_fresh
new_stale = refl

-- One second behind the first answer.
soon : 1000000005 < 5 + (new v1).ttl
unfolding new
soon = omega arith

status_cached_example :
    status (status (new v1) 0 5 github).0 1000000005 1000000006 request_failed
    ≡ ((status (new v1) 0 5 github).0, (status (new v1) 0 5 github).1)
status_cached_example =
    status_cached (new v1) 0 5 1000000005 1000000006 github request_failed new_stale soon
