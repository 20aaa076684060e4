-- ===== src/Updater.antt =====
-- internal/updater/updater.go: fetching an update, checking it, and putting it in place.
pub mod Checksums
pub mod Installing
pub mod Checking
pub mod Updating
use serverkit_agent.Base.{
  ℕ, ◌==◌, leb, if◌then◌else◌, Bool, true, false, ◌&&◌, ◌||◌, not, List, [], ◌∷◌, ◌++◌, Option,
  none, some, Text, codes, text_eq, has_prefix, contains, split, fields, Dict, insert,
}
use serverkit_agent.Base.Results.{Result, success, failure, ◌>>=◌, ◌>>◌, require}

pub data UpdateError : Type 0 where
  no_entries : UpdateError
  no_entry : UpdateError
  mismatch : Text → Text → UpdateError
  insecure_url : Text → UpdateError
  no_download_url : UpdateError
  no_checksums_url : UpdateError
  no_temp_dir : UpdateError
  download_failed : Text → UpdateError
  fetch_failed : Text → UpdateError
  not_hashed : Text → UpdateError
  not_extracted : Text → UpdateError

-- The host: whether SERVERKIT_INSECURE_TLS is set, the platform, the order in which Go ranges over a map, and what is used
-- of strings, os, net/http, crypto/sha256 and the archive packages. `fetch` gives the body of a reply with status 200.
pub record Platform : Type 0 where
  pub insecure : Bool
  pub goos : Text
  pub goarch : Text
  pub lowered : Text → Text
  pub equal_fold : Text → Text → Bool
  pub ranged : Dict Text → Dict Text
  pub mkdir_temp : Option Text
  pub joined : Text → Text → Text
  pub download : Text → Text → Option Text
  pub fetch : Text → Result Text Text
  pub hash_of : Text → Result Text Text
  pub extract : Text → Text → Result Text Text

-- The entry of one line.
abbrev add_parts : List Text → Dict Text → Dict Text
add_parts (hash ∷ name ∷ rest) d = insert name hash d
add_parts _ d = d

-- The map that the loop over the lines builds.
unfoldable pub read_lines : List Text → Dict Text → Dict Text
read_lines [] d = d
read_lines (l ∷ ls) d = read_lines ls (add_parts (fields l) d)

unfoldable pub entries_of : Text → Dict Text
unfolding read_lines
entries_of body = read_lines (split 10 body) []

module _ (host : Platform) where
  abbrev pub names_platform : Text → Bool
  names_platform name = contains name host.goos && contains name host.goarch

  -- The hash of the first entry, in the order of the map, that names the platform; empty without one.
  unfoldable pub expected_hash : Dict Text → Text
  expected_hash [] = []
  expected_hash ((name, hash) ∷ es) =
      let rest = expected_hash es in if names_platform name then hash else rest

  abbrev pub compare_hash : Text → Text → Result UpdateError (Unit {0})
  compare_hash actual expected =
      if text_eq expected []
      then failure no_entry
      else if host.equal_fold actual expected
      then success tt
      else failure (mismatch expected actual)

  unfoldable pub match_entries : Text → Dict Text → Result UpdateError (Unit {0})
  unfolding expected_hash
  match_entries actual [] = failure no_entries
  match_entries actual (e ∷ es) = compare_hash actual (expected_hash (host.ranged (e ∷ es)))

  unfoldable pub match_checksum : Text → Text → Result UpdateError (Unit {0})
  unfolding match_entries entries_of
  match_checksum actual body = match_entries actual (entries_of body)

  unfoldable pub is_secure : Text → Bool
  is_secure url = has_prefix (host.lowered url) (codes "https://") || host.insecure

  -- requireSecureURL.
  abbrev pub require_secure_url : Text → Result UpdateError (Unit {0})
  require_secure_url url = require (is_secure url) (insecure_url url)

  abbrev pub of_text : (Text → UpdateError) → Result Text Text → Result UpdateError Text
  of_text wrap (success t) = success t
  of_text wrap (failure e) = failure (wrap e)

  -- verifyChecksum.
  unfoldable pub verify_checksum : Text → Text → Result UpdateError (Unit {0})
  unfolding is_secure
  verify_checksum archive url = do
    require_secure_url url
    body ← of_text fetch_failed (host.fetch url)
    actual ← of_text not_hashed (host.hash_of archive)
    match_checksum actual body

  abbrev pub temp_dir : Option Text → Result UpdateError Text
  temp_dir none = failure no_temp_dir
  temp_dir (some d) = success d

  abbrev pub downloaded : Option Text → Result UpdateError (Unit {0})
  downloaded none = success tt
  downloaded (some e) = failure (download_failed e)

  abbrev pub archive_name : Text
  archive_name =
      if text_eq host.goos (codes "windows") then codes "agent.zip" else codes "agent.tar.gz"

  -- DownloadUpdate. Removing the temporary directory after an error is left out.
  unfoldable pub download_update : Text → Text → Result UpdateError Text
  unfolding is_secure verify_checksum
  download_update url checksums_url = do
    require (not (text_eq url [])) no_download_url
    require_secure_url url
    tmp ← temp_dir host.mkdir_temp
    downloaded (host.download url (host.joined tmp archive_name))
    require (not (text_eq checksums_url [])) no_checksums_url
    verify_checksum (host.joined tmp archive_name) checksums_url
    of_text not_extracted (host.extract (host.joined tmp archive_name) tmp)
