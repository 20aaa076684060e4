-- ===== src/Tests/Hosts.antt =====
-- File access, polling, reports and updates on concrete inputs.
use serverkit_agent.Base.{
  ◌<◌, ◌^◌, true, false, List, [], ◌∷◌, Option, none, some, Text, codes, length, text_eq,
  trim_right_by, trim_left, trim_space, ◌≢◌, lookup, keys, All, Distinct, insert, split, fields,
  is_space, contains, has_prefix, ◌≡◌, ◌⊎◌, ◌+◌, ◌*◌, ◌≤◌, ◌↔◌, refl, sym, inl, inr, arith,
}
use mathlib.Core.Path.{subst}
use serverkit_agent.Base.Int.{ℤ, pos}
use serverkit_agent.Base.Results.{success}
use serverkit_agent.Base.Steps.{Adds}
use serverkit_agent.Files.{FileSystem, WriteParams, resolve_symlink_path, handle_file_write}
use serverkit_agent.Files.Access.{Contained, handle_file_write-Contained}
use serverkit_agent.Files.Resolving.{Rooted, resolve_symlink_path-total}
use serverkit_agent.Transport.Polling.{
  Reply, commands, failed, token, first_client, run_rounds, answered, IsWait, run_rounds-IsWait,
  run_rounds-answered,
}
use serverkit_agent.Transport.Reporting.{
  Response, no_response, response, InRange, new_reporter, send_all, send_all_interval,
}
use serverkit_agent.Updater.{
  Platform, entries_of, read_lines, is_secure, match_entries, match_checksum, verify_checksum,
  expected_hash, download_update,
}
use serverkit_agent.Updater.Checksums.{
  Listed, Verified, match_checksum-Listed, download_update-Verified,
}
use serverkit_agent.Connections.{verify_timestamp}
use serverkit_agent.Connections.Decoding.{verify_timestamp_iff}
use serverkit_agent.Updater.Checking.{
  VersionInfo, new_checker, auto_installed, with_update, check_and_notify,
  check_and_notify-Verified,
}
use serverkit_agent.Services.{UnitInfo, check_of, up, scan_units}
use serverkit_agent.Services.Units.{IsReported, IsListed, scan_units-Distinct}
use serverkit_agent.LocalApi.{
  ApiRequest, handled, unauthorized, bearer_token, auth_middleware, cors_middleware, serve,
}
use serverkit_agent.LocalApi.Guarding.{serve_iff}
use serverkit_agent.Updater.Installing.{
  Calls, Slots, copied, Installing, in_place, install_unix, install_unix-Installing,
}

-- A file system with one directory, `/`.
abbrev disk : FileSystem
disk = record {
  windows = false;
  separator = b'/';
  lowered = λ t. t;
  abs_clean = λ p. some (b'/' ∷ p);
  eval_symlinks = λ p. none;
  dir = λ p. codes "/";
  base = λ p. p;
  joined = λ ps. [];
  from_slash = λ p. p;
  to_slash = λ p. p;
  drives = none;
  decoded = λ t. some t;
  encoded = λ t. t;
  read_file = λ log p. success [];
  write_file = λ log p. none;
  mkdir_all = λ log p. none;
  read_dir = λ log p. success [];
}

abbrev upload : Option WriteParams
upload = some record { path = codes "a"; content = codes "x"; mode = 0x9ff; create_dirs = true }

handle_file_write-Contained_example :
    Adds (Contained disk (codes "/" ∷ [])) [] (handle_file_write disk (codes "/" ∷ []) upload [])
handle_file_write-Contained_example = handle_file_write-Contained disk (codes "/" ∷ []) upload []

abbrev AtRoot : Text → Type 0
AtRoot p = (s : Text) × (p ≡ b'/' ∷ s)

parent_shorter : (p : Text) → AtRoot p → (codes "/" ≡ p) ⊎ (length (codes "/") < length p)
parent_shorter p ([], e) = inl (sym e)
parent_shorter p (c ∷ s, e) = inr (subst (λ t. 1 < length t) (sym e) (omega arith))

some_same : (a b : Text) → some a ≡ some b → b ≡ a
some_same a b e = cc e

abbrev disk_rooted : Rooted disk
disk_rooted = record {
  IsRooted = AtRoot;
  abs_rooted = λ p a e. (p, some_same (b'/' ∷ p) a e);
  dir_rooted = λ p h. ([], refl);
  dir_shorter = parent_shorter;
}

resolve_symlink_path-total_example : (r : Text) × (resolve_symlink_path disk (codes "srv") ≡ some r)
resolve_symlink_path-total_example =
    resolve_symlink_path-total disk disk_rooted (codes "srv") (codes "/srv") refl

abbrev rounds : List Reply
rounds =
    commands (codes "a" ∷ [])
    ∷ failed false none
    ∷ failed true (some (codes "t"))
    ∷ commands (codes "b" ∷ codes "c" ∷ [])
    ∷ []

rounds_tokens : text_eq (codes "s") [] ≡ false
unfolding text_eq
rounds_tokens = refl

new_token : text_eq (codes "t") [] ≡ false
unfolding text_eq
new_token = refl

run_rounds-answered_example :
    ((run_rounds (first_client (codes "s")) rounds).1 ≡ answered rounds)
    × (text_eq (token (run_rounds (first_client (codes "s")) rounds).0.session) [] ≡ false)
run_rounds-answered_example =
    run_rounds-answered (first_client (codes "s")) rounds rounds_tokens
      (tt, (tt, (new_token, (tt, tt))))

run_rounds-IsWait_example : IsWait (run_rounds (first_client (codes "s")) rounds).0.backoff
run_rounds-IsWait_example =
    run_rounds-IsWait (first_client (codes "s")) rounds (0, omega arith, refl)

abbrev replies : List (ℤ × Response)
replies = (pos 0, no_response) ∷ (pos 5, response 200 true true (pos (2 ^ 40))) ∷ []

send_all_interval_example : InRange (send_all (new_reporter (pos 1)) replies).interval
send_all_interval_example = send_all_interval (pos 1) replies

abbrev sums : Text
sums = codes "ff agent-linux-arm64\n"

abbrev platform : Platform
platform = record {
  insecure = false;
  goos = codes "linux";
  goarch = codes "arm64";
  lowered = λ t. t;
  equal_fold = text_eq;
  ranged = λ d. d;
  mkdir_temp = some (codes "/tmp");
  joined = λ a b. b;
  download = λ url p. none;
  fetch = λ url. success sums;
  hash_of = λ p. success (codes "ff");
  extract = λ p d. success (codes "agent");
}

match_checksum-Listed_example : Listed platform (codes "ff") (entries_of sums)
unfolding match_checksum match_entries entries_of read_lines expected_hash lookup insert split
    fields is_space contains has_prefix text_eq
match_checksum-Listed_example = match_checksum-Listed platform (codes "ff") sums (refl, tt) refl

download_update-Verified_example :
    Verified platform (codes "https://a") (codes "https://b") (codes "agent")
unfolding download_update verify_checksum is_secure match_checksum match_entries entries_of
    read_lines expected_hash lookup insert split fields is_space contains has_prefix text_eq
download_update-Verified_example =
    download_update-Verified platform (codes "https://a") (codes "https://b") (codes "agent") refl

abbrev calls : Calls
calls = record {
  renames = true;
  copies = copied;
  chmods = false;
  restores = true;
  systemd = true;
  restarts = true;
}

abbrev before : Slots
before = record { current = some (codes "v1"); backup = none }

install_unix-Installing_example :
    Installing calls
      (codes "v2")
      before
      (in_place true copied false)
      (install_unix calls (codes "v2") before)
install_unix-Installing_example = install_unix-Installing calls (codes "v2") before

abbrev release : VersionInfo
release = record {
  update_available = true;
  latest_version = codes "2";
  download_url = codes "https://a";
  checksums_url = codes "https://b";
}

check_and_notify-Verified_example :
    (info : VersionInfo) × (some release ≡ some info)
    × (info.update_available ≡ true)
    × (true ≡ true)
    × Verified platform info.download_url info.checksums_url (codes "agent")
unfolding check_and_notify with_update auto_installed download_update verify_checksum is_secure
    match_checksum match_entries entries_of read_lines expected_hash lookup insert split fields
    is_space contains has_prefix text_eq
check_and_notify-Verified_example =
    check_and_notify-Verified platform true (pos 9) (some release) new_checker (codes "agent") refl

-- Two names of one unit, and one that is not there.
abbrev unit_of : Text → Option UnitInfo
unit_of [] = none
unit_of (c ∷ s) = some record { id = codes "httpd"; load = codes "loaded"; active = codes "active" }

abbrev names : List Text
names = codes "apache2" ∷ [] ∷ codes "httpd" ∷ []

scan_units-Distinct_example :
    Distinct (keys (scan_units unit_of (λ n u. check_of n (codes "web") up []) [] names))
    × All
        (IsReported unit_of (λ n u. check_of n (codes "web") up []))
        (scan_units unit_of (λ n u. check_of n (codes "web") up []) [] names)
    × All
        (IsListed unit_of
          (λ n u. check_of n (codes "web") up [])
          []
          (scan_units unit_of (λ n u. check_of n (codes "web") up []) [] names))
        names
scan_units-Distinct_example =
    scan_units-Distinct unit_of (λ n u. check_of n (codes "web") up []) names

abbrev restart_request : ApiRequest
restart_request = record {
  method = codes "POST";
  path = codes "/restart";
  origin = [];
  authorization = codes "bearer  t0ken";
  query_token = [];
}

serve_iff_example :
    ((serve (λ a b. true) false (codes "t0ken") restart_request).served ≡ handled) ↔ (
      (codes "POST" ≢ codes "OPTIONS")
      × ((codes "/restart" ≡ codes "/health")
          ⊎ ((bearer_token (λ a b. true) restart_request ≡ codes "t0ken") × (codes "t0ken" ≢ []))))
serve_iff_example = serve_iff (λ a b. true) (codes "t0ken") restart_request

-- The handlers are called, and with another token they are not.
restart_served : (serve (λ a b. true) false (codes "t0ken") restart_request).served ≡ handled
unfolding serve cors_middleware auth_middleware bearer_token text_eq trim_space trim_left
    trim_right_by is_space
restart_served = refl

restart_refused : (serve (λ a b. true) false (codes "t1ken") restart_request).served ≡ unauthorized
unfolding serve cors_middleware auth_middleware bearer_token text_eq trim_space trim_left
    trim_right_by is_space
restart_refused = refl

verify_timestamp_iff_example :
    (verify_timestamp (pos 9000) (pos 4000) (pos 5) ≡ true)
    ↔ ((4000 ≤ 9000 + 5 * 1000) × (9000 ≤ 4000 + 5 * 1000))
verify_timestamp_iff_example =
    verify_timestamp_iff 9000 4000 5 (omega arith) (omega arith) (omega arith)
