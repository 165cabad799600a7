-- ===== src/Tests/Server.antt =====
-- A server whose service counts the changes that it makes, and fails when it is asked.
use tab_vm.Tests.Scripted.{vm1}
use tab_vm.Strings.{Text, txt, text_eq, is_empty, one_of, has_prefix, trim_prefix, cut}
use tab_vm.Strings.Number.{itoa}
use tab_vm.Prelude.Int.{pos}
use tab_vm.Prelude.{ℕ, suc, ◌≡◌, refl, true, false, none, some, [], ◌∷◌, ◌++◌, length, All, List}
use tab_vm.Server.{Api, Platform, Config, ServerState}
use tab_vm.Server.Requests.{Json, Request, no_file}
use tab_vm.Server.Contract.{KeptByReads, Shown, KeptByAll}
use tab_vm.Server.Jobs.{is_locked, find_job}
use tab_vm.Server.Guarantees.{
  LeftAlone, get_only_reads, serve-Shown, serve-Kept, busy_machine_untouched,
}
use tab_vm.Server.Serve.{serve, below_api}
use tab_vm.Server.Access.{presented_token, resolve_token, is_stream_path, is_loopback_authority}
use tab_vm.Server.Guarantees.Access.{Refused, serve-Refused}
use tab_vm.Server.Invariant.{begin, Consistent, reachable-Consistent, step, request}
use tab_vm.Service.{ok, err, execution}
use tab_vm.Server.Handlers.Routes.{named_in, handle_vm_by_id}
use tab_vm.VmId.{is_valid_vm_id}

-- The state of the service: how many changes it has made.
abbrev stub : Api ℕ Text
stub = record {
  query = λ q id w. (ok (txt "settings"), w);
  control = λ c id w. (err (execution (pos 1) (txt "C:\\secret: already locked") []), suc w);
  change = λ c id w. (ok (txt "done"), suc w);
  create = λ c w. (ok (record { vm_id = vm1; name = []; message = txt "Cloned." }), suc w);
  ask = λ a w. (ok (txt "list"), w);
  open_stream = λ k id w. (ok tt, w);
  run_stream = λ k id w. suc w;
  close_stream = λ k id w. w;
  upgrade = λ r w. (none, w);
}

abbrev over : {S : Type 0} → (S → ℕ) → Platform S
over count = record {
  split_host = λ t. none;
  ip_is_loopback = λ t. some (text_eq t (txt "127.0.0.1"));
  digest = λ t. t;
  json_text = λ t. b'"' ∷ (t ++ b'"' ∷ []);
  now = λ w. count w;
  new_job_id = λ w. (itoa (pos (count w)), w);
  new_token = λ w. (some (txt "dev"), w);
  new_nonce = λ w. (some (txt "n"), w);
  web_file = λ t. false;
  index_template = txt "<head></head>";
}

abbrev digits : Platform ℕ
digits = over (λ n. n)

abbrev config : Config
config = record {
  session_token = txt "s3cret";
  environment = txt "Production";
  bind_address = txt "127.0.0.1";
  bind_port = pos 5010;
}

abbrev no_json : Json
no_json = record {
  folder_add = none;
  folder_remove = none;
  upload = no_file;
  guest_run = none;
  guest_copy_from = none;
  snapshot_take = none;
  snapshot = none;
  network_mode = none;
  network_link = none;
  forwarding = none;
  forwarding_delete = none;
  usb_action = none;
  hardware = none;
  disk_resize = none;
  disk_add = none;
  disk_detach = none;
  dvd_mount = none;
  clipboard_mode = none;
  credentials = none;
  clone = some (record { name = txt "copy"; linked = false });
  export_to = none;
  import_from = none;
  create = none;
  create_manual = none;
}

abbrev asks : Text → Text → Text → Text → Request
asks method host path token = record {
  method = method;
  host = host;
  path = path;
  session_token = token;
  origin = [];
  protocols = [];
  query_token = [];
  query_job = [];
  json = no_json;
}

abbrev idle : ServerState ℕ
idle = record { service = 0; dev_token = []; ops = []; jobs = []; workers = [] }

-- The machine's lock is held by another request.
abbrev occupied : ServerState ℕ
occupied = record { service = 0; dev_token = []; ops = vm1 ∷ []; jobs = []; workers = [] }

abbrev Unchanging : ℕ → Type 0
Unchanging n = n ≡ 0

stub-KeptByReads : KeptByReads stub digits Unchanging
stub-KeptByReads = record {
  query = λ q id w valid h. h;
  ask = λ a w h. h;
  new_job_id = λ w h. h;
  new_token = λ w h. h;
  new_nonce = λ w h. h;
}

abbrev reset_request : Request
reset_request = asks (txt "POST") (txt "127.0.0.1") (txt "/vms/" ++ (vm1 ++ txt "/reset")) []

busy_machine_untouched_example :
    LeftAlone Unchanging occupied (handle_vm_by_id stub digits reset_request occupied).1
unfolding is_locked named_in one_of text_eq trim_prefix cut txt
busy_machine_untouched_example =
    busy_machine_untouched stub digits Unchanging reset_request occupied stub-KeptByReads refl refl
      (λ get. refl)

abbrev status_request : Request
status_request =
    asks (txt "GET") (txt "localhost") (txt "/api/vms/" ++ (vm1 ++ txt "/status")) (txt "s3cret")

get_only_reads_example : LeftAlone Unchanging idle (serve stub config digits status_request idle).1
unfolding text_eq named_in cut trim_prefix txt
get_only_reads_example =
    get_only_reads stub config digits Unchanging status_request idle stub-KeptByReads refl refl refl

abbrev api_reset : Request
api_reset =
    asks (txt "POST") (txt "localhost") (txt "/api/vms/" ++ (vm1 ++ txt "/reset")) (txt "s3cret")

serve-Shown_example : Shown (serve stub config digits api_reset idle).0
serve-Shown_example = serve-Shown stub config digits api_reset idle

-- A service that notes the identifier of each machine that it is called for.
abbrev diary : Api (List Text) Text
diary = record {
  query = λ q id w. (ok (txt "settings"), id ∷ w);
  control = λ c id w. (ok tt, id ∷ w);
  change = λ c id w. (ok (txt "done"), id ∷ w);
  create = λ c w. (ok (record { vm_id = vm1; name = []; message = txt "Cloned." }), w);
  ask = λ a w. (ok (txt "list"), w);
  open_stream = λ k id w. (ok tt, id ∷ w);
  run_stream = λ k id w. id ∷ w;
  close_stream = λ k id w. id ∷ w;
  upgrade = λ r w. (none, w);
}

-- Every identifier that was noted is well-formed.
abbrev WellNoted : List Text → Type 0
WellNoted w = All (λ id. is_valid_vm_id id ≡ true) w

diary-KeptByAll : KeptByAll diary (over length) WellNoted
diary-KeptByAll = record {
  reads = record {
    query = λ q id w valid h. (valid, h);
    ask = λ a w h. h;
    new_job_id = λ w h. h;
    new_token = λ w h. h;
    new_nonce = λ w h. h;
  };
  control = λ c id w valid h. (valid, h);
  change = λ c id w valid h. (valid, h);
  create = λ c w h. h;
  open_stream = λ k id w valid h. (valid, h);
  run_stream = λ k id w valid h. (valid, h);
  close_stream = λ k id w valid h. (valid, h);
  upgrade = λ r w h. h;
}

abbrev begun : ServerState (List Text)
begun = record { service = []; dev_token = []; ops = []; jobs = []; workers = [] }

abbrev screen_request : Request
screen_request =
    asks (txt "GET") (txt "localhost") (txt "/api/vms/" ++ (vm1 ++ txt "/screen-stream"))
      (txt "s3cret")

serve-Kept_example : WellNoted (serve diary config (over length) screen_request begun).1.service
serve-Kept_example =
    serve-Kept diary config (over length) WellNoted screen_request begun diary-KeptByAll tt

abbrev guess : Request
guess = asks (txt "POST") (txt "localhost") (txt "/api/vms/" ++ (vm1 ++ txt "/reset")) (txt "guess")

wrong_token :
    is_loopback_authority digits guess.host ≡ true
    → is_empty (presented_token config digits (below_api stub config digits guess)) ≡ false
    → presented_token config digits (below_api stub config digits guess)
      ≡ (resolve_token config digits idle).0
    → ⊥
unfolding presented_token resolve_token txt is_stream_path
wrong_token local given same = cc

serve-Refused_example : Refused Unchanging idle (serve stub config digits guess idle)
unfolding has_prefix txt
serve-Refused_example =
    serve-Refused stub config digits Unchanging guess idle (λ w h. h) (λ same. same) refl refl
      wrong_token

abbrev clone_request : Request
clone_request =
    asks (txt "POST") (txt "localhost") (txt "/api/vms/" ++ (vm1 ++ txt "/clone")) (txt "s3cret")

reachable-Consistent_example : Consistent (serve stub config digits clone_request idle).1
unfolding find_job
reachable-Consistent_example =
    reachable-Consistent stub config digits 0 (serve stub config digits clone_request idle).1
      (step begin (request clone_request idle (λ w same. refl)))
