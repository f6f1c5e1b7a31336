-- ===== src/Update/Checker.antt =====
-- The checker of controller/internal/update/checker.go: check and fetchLatest, for the answer that GitHub
-- gives. What the observers are called with is a list of calls.
use torvmremix.Base.{
  ℕ, Bool, true, false, not, ◌||◌, Option, none, some, List, [], ◌∷◌, ◌++◌, map, ◌==◌,
  if◌then◌else◌, lt_lit, Bytes, is_nil, eq_bytes, Result, ok, err,
}
use torvmremix.Update.Versions.{compare_versions, trim_v}

pub record GitHubRelease : Type 0 where
  pub tag_name : Bytes
  pub html_url : Bytes

pub record UpdateInfo : Type 0 where
  pub available : Bool
  pub new_version : Bytes
  pub release_url : Bytes
  pub download_url : Bytes

-- What comes of the request: an error, or a status with the body, if it decodes.
pub data Answer : Type 0 where
  no_response : Answer
  response : ℕ → Option GitHubRelease → Answer

pub data FetchError : Type 0 where
  fetch_release decode_release empty_tag : FetchError
  api_status : ℕ → FetchError

pub record Checker : Type 0 where
  pub version : Bytes
  pub observers : List ℕ
  pub latest : UpdateInfo

unfoldable pub new_checker : Bytes → Checker
new_checker version = record {
  version = version;
  observers = [];
  latest = record { available = false; new_version = []; release_url = []; download_url = [] };
}

unfoldable pub on_update : ℕ → Checker → Checker
on_update fn c = record c { observers = c.observers ++ (fn ∷ []) }

unfoldable pub release_info : Bytes → GitHubRelease → Result FetchError UpdateInfo
release_info version release =
    let tag = trim_v release.tag_name in
    if is_nil tag
    then err empty_tag
    else ok (record {
      available = lt_lit (compare_versions version tag) 0;
      new_version = tag;
      release_url = release.html_url;
      download_url = [];
    })

unfoldable pub fetch_latest : Bytes → Answer → Result FetchError UpdateInfo
fetch_latest version no_response = err fetch_release
fetch_latest version (response status body) =
    if status == 200
    then elim body [ none ↦ err decode_release | some release ↦ release_info version release ]
    else err (api_status status)

unfoldable pub same_bool : Bool → Bool → Bool
same_bool true b = b
same_bool false b = not b

-- What an update is has changed.
unfoldable pub changed : UpdateInfo → UpdateInfo → Bool
changed i j = not (same_bool i.available j.available) || not (eq_bytes i.new_version j.new_version)

abbrev pub Call : Type 0
Call = ℕ × UpdateInfo

abbrev pub call_all : List ℕ → UpdateInfo → List Call
call_all fns info = map (λ fn. (fn, info)) fns

unfoldable pub notify : Checker → Result FetchError UpdateInfo → Checker × List Call
notify c (err e) = (c, [])
notify c (ok info) =
    (record c { latest = info }, if changed info c.latest then call_all c.observers info else [])

unfoldable pub check : Checker → Answer → Checker × List Call
check c a = notify c (fetch_latest c.version a)

-- The rounds of the loop, one answer each.
unfoldable pub checks : Checker → List Answer → Checker × List Call
checks c [] = (c, [])
checks c (a ∷ answers) =
    let (c', calls) = check c a in let (c'', more) = checks c' answers in (c'', calls ++ more)
